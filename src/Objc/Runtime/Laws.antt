-- ===== src/Objc/Runtime/Laws.antt =====
-- What the Objective-C runtime is documented to do, in terms of the methods that each class itself has.
use noctisplanet_foundation.Prelude.{
  ℕ, ◌<◌, ◌≡◌, ◌≢◌, true, false, List, [], ◌∷◌, ◌++◌, Option, none, some, get_elem?,
}
use noctisplanet_foundation.Objc.Runtime.{Runtime}

-- The methods of a class, its superclass, the implementation of a method, the block that an implementation runs, and the
-- addresses of the lists that have been copied and not freed.
pub record Table (W : Type 0) : Type 0 where
  pub own : W → ℕ → List ℕ
  pub superclass : W → ℕ → Option ℕ
  pub imp : W → ℕ → ℕ
  pub runs : W → ℕ → Option ℕ
  pub copies : W → List ℕ

module _ {W : Type 0} (rt : Runtime W) (table : Table W) where
  abbrev pub Has : W → ℕ → ℕ → Type 0
  Has w cls method = (i : ℕ) × (get_elem? (table.own w cls) i ≡ some method)

  -- No method of the class has that selector.
  abbrev pub Lacks : W → ℕ → ℕ → Type 0
  Lacks w cls sel = (method : ℕ) → Has w cls method → rt.method_get_name method w ≢ sel

  -- The first method of the list that has that selector: a category may have brought a second one.
  abbrev pub First : W → List ℕ → ℕ → ℕ → Type 0
  First w methods sel method =
      (i : ℕ) × (get_elem? methods i ≡ some method)
      × (rt.method_get_name method w ≡ sel)
      × ((j m : ℕ) → j < i → get_elem? methods j ≡ some m → rt.method_get_name m w ≢ sel)

  -- The method that a class has for a selector: the first of its own, or else that of its superclass.
  pub data Finds (w : W) : ℕ → ℕ → Option ℕ → Type 0 where
    own_first :
        {cls sel method : ℕ} → First w (table.own w cls) sel method → Finds w cls sel (some method)
    in_superclass :
        {cls super sel : ℕ} {found : Option ℕ}
        → Lacks w cls sel
        → table.superclass w cls ≡ some super
        → Finds w super sel found
        → Finds w cls sel found
    nowhere : {cls sel : ℕ} → Lacks w cls sel → table.superclass w cls ≡ none → Finds w cls sel none

  -- The method is as it was.
  pub record SameMethod (w w' : W) (method : ℕ) : Type 0 where
    pub name : rt.method_get_name method w' ≡ rt.method_get_name method w
    pub encoding : rt.method_get_type_encoding method w' ≡ rt.method_get_type_encoding method w
    pub imp : table.imp w' method ≡ table.imp w method

  -- All classes and methods are as they were.
  pub record SameTable (w w' : W) : Type 0 where
    pub own : (cls : ℕ) → table.own w' cls ≡ table.own w cls
    pub method : (method : ℕ) → SameMethod w w' method

  abbrev pub Copied : ℕ → W → Option (ℕ × List ℕ) × W → Type 0
  Copied cls w (none, w') =
      (table.own w cls ≡ []) × SameTable w w' × (table.copies w' ≡ table.copies w)
  Copied cls w (some (address, methods), w') =
      (methods ≡ table.own w cls) × SameTable w w' × (table.copies w' ≡ address ∷ table.copies w)

  -- The class has a method more, and nothing else has changed.
  pub record Added (cls sel imp : ℕ) (types : Option (List ℕ)) (w w' : W) : Type 0 where
    pub method : ℕ
    pub own : table.own w' cls ≡ table.own w cls ++ method ∷ []
    pub name : rt.method_get_name method w' ≡ sel
    pub encoding : rt.method_get_type_encoding method w' ≡ types
    pub implemented : table.imp w' method ≡ imp
    pub other_classes : (d : ℕ) → d ≢ cls → table.own w' d ≡ table.own w d
    pub other_methods : (m : ℕ) → m ≢ method → SameMethod w w' m
    pub copies : table.copies w' ≡ table.copies w

  -- The method has another implementation, and nothing else has changed.
  pub record Replaced (method imp : ℕ) (w w' : W) : Type 0 where
    pub own : (cls : ℕ) → table.own w' cls ≡ table.own w cls
    pub implemented : table.imp w' method ≡ imp
    pub name : rt.method_get_name method w' ≡ rt.method_get_name method w
    pub encoding : rt.method_get_type_encoding method w' ≡ rt.method_get_type_encoding method w
    pub others : (m : ℕ) → m ≢ method → SameMethod w w' m
    pub copies : table.copies w' ≡ table.copies w

  pub record Documented : Type 0 where
    -- The list describes the methods of the class, not those of its superclasses; null, and nothing to
    -- free, if there are none or the class is `Nil`.
    pub copied : (cls : ℕ) (w : W) → Copied cls w (rt.class_copy_method_list (some cls) w)
    pub copied_nil : (w : W) → rt.class_copy_method_list none w ≡ (none, w)
    -- The superclass of a class, null for a root class.
    pub super : (cls : ℕ) (w : W) → rt.class_get_superclass (some cls) w ≡ table.superclass w cls
    -- The class and its superclasses are searched.
    pub instance_method :
        (cls sel : ℕ) (w : W) → Finds w cls sel (rt.class_get_instance_method cls sel w)
    -- Freeing what has been copied.
    pub freed :
        (address : ℕ) (w : W) (addresses : List ℕ)
        → table.copies w ≡ address ∷ addresses
        → SameTable w (rt.free address w) × (table.copies (rt.free address w) ≡ addresses)
    pub made :
        (block : ℕ) (w : W)
        → let (imp, w') = rt.imp_implementation_with_block block w in
          SameTable w w' × (table.copies w' ≡ table.copies w) × (table.runs w' imp ≡ some block)
    -- A method is added, which may override one of the superclass, if the class itself has none with
    -- that name; otherwise the class is left as it is.
    pub added :
        (cls sel imp : ℕ) (types : Option (List ℕ)) (w : W)
        → Lacks w cls sel
        → let (success, w') = rt.class_add_method cls sel imp types w in
          (success ≡ true) × Added cls sel imp types w w' × (table.runs w' imp ≡ table.runs w imp)
    pub not_added :
        (cls sel imp : ℕ) (types : Option (List ℕ)) (w : W) (method : ℕ)
        → First w (table.own w cls) sel method
        → let (success, w') = rt.class_add_method cls sel imp types w in
          (success ≡ false) × SameTable w w' × (table.copies w' ≡ table.copies w)
    -- The implementation of the first method with that name is replaced, the types are ignored, and the
    -- previous implementation is returned.
    pub replaced :
        (cls sel imp : ℕ) (types : Option (List ℕ)) (w : W) (method : ℕ)
        → First w (table.own w cls) sel method
        → let (previous, w') = rt.class_replace_method cls sel imp types w in
          (previous ≡ some (table.imp w method))
          × Replaced method imp w w'
          × (table.runs w' imp ≡ table.runs w imp)

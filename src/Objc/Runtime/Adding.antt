-- ===== src/Objc/Runtime/Adding.antt =====
-- The macros that add a method to a class and override an inherited one.
use noctisplanet_foundation.Prelude.{
  ℕ, ◌≡◌, sym, ap, ◌∙◌, subst, inl, inr, Bool, true, false, List, Option, none, some, get_elem?,
  if◌then◌else◌, Option-cases, Bool-cases, ◌==◌, arith, ◌≢◌,
}
use noctisplanet_foundation.Objc.Runtime.{
  Runtime, same_class, class_get_super_method, types_or, add_method, override_inherited,
  override_method,
}
use noctisplanet_foundation.Objc.Runtime.Laws.{
  Table, Lacks, First, Finds, SameTable, Added, Documented,
}
use noctisplanet_foundation.Objc.Runtime.Lookup.{SameMethod-trans, SameTable-trans, Owns}
use noctisplanet_foundation.Objc.Runtime.Lookup.{owned}
use noctisplanet_foundation.Objc.Runtime.Methods.{First-SameTable}

module _ {W : Type 0} (rt : Runtime W) (table : Table W) where
  Added-after :
      (u v w : W) (cls sel imp : ℕ) (types : Option (List ℕ))
      → SameTable rt table u v
      → table.copies v ≡ table.copies u
      → Added rt table cls sel imp types v w
      → Added rt table cls sel imp types u w
  Added-after u v w cls sel imp types same copies a = record {
    method = a.method;
    own = rw (← same.own cls) a.own;
    name = a.name;
    encoding = a.encoding;
    implemented = a.implemented;
    other_classes = λ d ne. a.other_classes d ne ∙ same.own d;
    other_methods =
        λ m ne. SameMethod-trans rt table u v w m (same.method m) (a.other_methods m ne);
    copies = a.copies ∙ copies;
  }

  Lacks-SameTable :
      (u v : W) (cls sel : ℕ)
      → SameTable rt table u v
      → Lacks rt table u cls sel
      → Lacks rt table v cls sel
  Lacks-SameTable u v cls sel same lacks = λ m (i, there) e.
      lacks m (i, ap (λ (ms : List ℕ). get_elem? ms i) (sym (same.own cls)) ∙ there)
        (sym (same.method m).name ∙ e)

  -- What adding a method leaves: the class has it, and it runs the block, if the class itself had none
  -- with that name; otherwise nothing has changed.
  pub data AddResult (cls sel block : ℕ) (types : Option (List ℕ)) (w : W) : Bool × W → Type 0 where
    refused :
        {w' : W} (method : ℕ)
        → First rt table w (table.own w cls) sel method
        → SameTable rt table w w'
        → table.copies w' ≡ table.copies w
        → AddResult cls sel block types w (false, w')
    done :
        {w' : W} (imp : ℕ)
        → Lacks rt table w cls sel
        → Added rt table cls sel imp types w w'
        → table.runs w' imp ≡ some block
        → AddResult cls sel block types w (true, w')

  module _ (laws : Documented rt table) where
    -- Adding a method that runs the block.
    add_block-AddResult :
        (cls sel : ℕ) (types : Option (List ℕ)) (block : ℕ) (w : W)
        → let (imp, v) = rt.imp_implementation_with_block block w in
          AddResult cls sel block types w (rt.class_add_method cls sel imp types v)
    add_block-AddResult cls sel types block w =
        let (imp, v) = rt.imp_implementation_with_block block w in
        let (same, copies, runs) = laws.made block w in
        decided imp v same copies runs (owned rt table cls sel w)
      where
        decided :
            (imp : ℕ) (v : W)
            → SameTable rt table w v
            → table.copies v ≡ table.copies w
            → table.runs v imp ≡ some block
            → (found : Option ℕ) × Owns rt table w cls sel found
            → AddResult cls sel block types w (rt.class_add_method cls sel imp types v)
        decided imp v same copies runs (none, lacks) =
            let (success, a, still) =
              laws.added cls sel imp types v (Lacks-SameTable w v cls sel same lacks) in
            subst
              (λ (b : Bool).
                AddResult cls sel block types w (b, (rt.class_add_method cls sel imp types v).1))
              (sym success)
              (done imp lacks (Added-after w v _ cls sel imp types same copies a) (still ∙ runs))
        decided imp v same copies runs (some method, first) =
            let (success, same', copies') =
              laws.not_added cls sel imp types v method
                (First-SameTable rt table w v cls sel method same first) in
            subst
              (λ (b : Bool).
                AddResult cls sel block types w (b, (rt.class_add_method cls sel imp types v).1))
              (sym success)
              (refused method first (SameTable-trans rt table w v _ same same') (copies' ∙ copies))

    pub add_method-AddResult :
        (cls sel : ℕ) (types : Option (List ℕ)) (block : ℕ) (w : W)
        → AddResult cls sel block types w (add_method rt (some cls) (some sel) types block w)
    unfolding add_method
    add_method-AddResult cls sel types block w = add_block-AddResult cls sel types block w

    -- The method that a class inherits: the one of its superclass, if it has another class for one.
    pub data Inherits (w : W) (cls sel : ℕ) : Option ℕ → Type 0 where
      root : table.superclass w cls ≡ none → Inherits w cls sel none
      own_superclass : table.superclass w cls ≡ some cls → Inherits w cls sel none
      of_superclass :
          {found : Option ℕ} (super : ℕ)
          → table.superclass w cls ≡ some super
          → super ≢ cls
          → Finds rt table w super sel found
          → Inherits w cls sel found

    class_get_super_method-Inherits :
        (cls sel : ℕ) (w : W) → Inherits w cls sel (class_get_super_method rt (some cls) sel w)
    unfolding class_get_super_method
    class_get_super_method-Inherits cls sel w =
        inherits_from (rt.class_get_superclass (some cls) w) (sym (laws.super cls w))
      where
        inherits_from :
            (superclass : Option ℕ)
            → table.superclass w cls ≡ superclass
            → Inherits w cls sel (elim superclass [
              | none ↦ none
              | some super ↦
                  if same_class super (some cls)
                  then none
                  else rt.class_get_instance_method super sel w
            ])
        inherits_from none e = root e
        inherits_from (some super) e = elim (Bool-cases (super == cls)) [
          | inl same ↦ rw same (own_superclass (e ∙ ap some (ground (arith, same))))
          | inr other ↦ rw other (
              of_superclass super e (λ is. ground (arith, other, is))
                (laws.instance_method super sel w))
        ]

    -- What overriding a method leaves: nothing, if the class inherits no such method, and otherwise what
    -- adding it leaves, with the types of the inherited method where none are given.
    pub data OverrideResult (cls sel block : ℕ) (types : Option (List ℕ)) (w : W)
        : Bool × W → Type 0 where
      not_inherited : Inherits w cls sel none → OverrideResult cls sel block types w (false, w)
      inherited :
          {res : Bool × W} (method : ℕ)
          → Inherits w cls sel (some method)
          → AddResult cls sel block (types_or types (rt.method_get_type_encoding method w)) w res
          → OverrideResult cls sel block types w res

    -- With a runtime that does what is documented, `override_method` of a class and a selector
    -- changes nothing and fails if the class inherits no such method or itself has one; otherwise it
    -- succeeds, and the class has one method more, with that selector, that runs the block and has
    -- the types given or else those of the inherited method, while no other class and no other method
    -- has changed. The inherited method is the one found in the superclass, if the class has another
    -- class for one: the first of its own with that selector, or else the one found in its superclass
    -- in turn.
    pub override_method-OverrideResult :
        (cls sel : ℕ) (types : Option (List ℕ)) (block : ℕ) (w : W)
        → OverrideResult cls sel block types w
            (override_method rt (some cls) (some sel) types block w)
    unfolding override_method override_inherited
    override_method-OverrideResult cls sel types block w =
        let inherits = class_get_super_method-Inherits cls sel w in
        elim (Option-cases (class_get_super_method rt (some cls) sel w)) [
          | inl absent ↦ rw absent (not_inherited (subst (Inherits w cls sel) absent inherits))
          | inr (method, there) ↦ rw there (
              inherited method (subst (Inherits w cls sel) there inherits) (
                add_block-AddResult cls sel (types_or types (rt.method_get_type_encoding method w))
                  block w))
        ]

-- ===== src/Objc/Runtime/Methods.antt =====
-- The macro that replaces a method that a class itself has.
use noctisplanet_foundation.Prelude.{ℕ, ◌≡◌, sym, ap, ◌∙◌, subst, List, Option, none, some}
use noctisplanet_foundation.Objc.Runtime.{
  Runtime, class_get_own_method, types_or, replace_own, replace_method,
}
use noctisplanet_foundation.Objc.Runtime.Laws.{Table, Lacks, First, SameTable, Replaced, Documented}
use noctisplanet_foundation.Objc.Runtime.Lookup.{
  SameMethod-trans, SameTable-trans, OwnResult, class_get_own_method-OwnResult,
}

module _ {W : Type 0} (rt : Runtime W) (table : Table W) where
  -- What replacing a method leaves: nothing, if the class itself has no such method; otherwise that
  -- method runs the block, nothing else has changed, and its previous implementation is there to call.
  pub data ReplaceResult (cls sel block : ℕ) (w : W) : Option ℕ × W → Type 0 where
    left_alone :
        {w' : W}
        → Lacks rt table w cls sel
        → SameTable rt table w w'
        → table.copies w' ≡ table.copies w
        → ReplaceResult cls sel block w (none, w')
    exchanged :
        {w' : W} (method imp : ℕ)
        → First rt table w (table.own w cls) sel method
        → Replaced rt table method imp w w'
        → table.runs w' imp ≡ some block
        → ReplaceResult cls sel block w (some (table.imp w method), w')

  Replaced-after :
      (u v w : W) (method imp : ℕ)
      → SameTable rt table u v
      → table.copies v ≡ table.copies u
      → Replaced rt table method imp v w
      → Replaced rt table method imp u w
  Replaced-after u v w method imp same copies r = record {
    own = λ cls. r.own cls ∙ same.own cls;
    implemented = r.implemented;
    name = r.name ∙ (same.method method).name;
    encoding = r.encoding ∙ (same.method method).encoding;
    others = λ m ne. SameMethod-trans rt table u v w m (same.method m) (r.others m ne);
    copies = r.copies ∙ copies;
  }

  pub First-SameTable :
      (u v : W) (cls sel method : ℕ)
      → SameTable rt table u v
      → First rt table u (table.own u cls) sel method
      → First rt table v (table.own v cls) sel method
  First-SameTable u v cls sel method same (i, there, name, before) = rw (same.own cls) (
    i,
    there,
    (same.method method).name ∙ name,
    λ j m less e e'. before j m less e (sym (same.method m).name ∙ e'),
  )

  module _ (laws : Documented rt table) where
    replace_own-ReplaceResult :
        (cls sel : ℕ) (types : Option (List ℕ)) (block : ℕ) (w : W) (method : Option ℕ) (v : W)
        → OwnResult rt table cls sel w (method, v)
        → ReplaceResult cls sel block w (replace_own rt cls sel method types block v)
    unfolding replace_own
    replace_own-ReplaceResult cls sel types block w none v r = left_alone r.owns r.same r.freed
    replace_own-ReplaceResult cls sel types block w (some method) v r =
        let (imp, u) = rt.imp_implementation_with_block block v in
        let (same, copies, runs) = laws.made block v in
        let to_u = SameTable-trans rt table w v u r.same same in
        let (previous, replaced, still) =
          laws.replaced cls sel imp (types_or types (rt.method_get_type_encoding method v)) u method
            (First-SameTable w u cls sel method to_u r.owns) in
        subst
          (λ (p : Option ℕ). ReplaceResult cls sel block w (
            p,
            (rt.class_replace_method cls sel imp
                (types_or types (rt.method_get_type_encoding method v)) u).1,
          ))
          (sym (previous ∙ ap some (to_u.method method).imp))
          (exchanged method imp r.owns
            (Replaced-after w u _ method imp to_u (copies ∙ r.freed) replaced) (still ∙ runs))

    -- With a runtime that does what is documented, `replace_method` of a class and a selector leaves
    -- every class and method as it was and gives no implementation to call, if the class itself has
    -- no such method; otherwise the first such method runs the block, no other method and no list of
    -- methods has changed, and the implementation to call is the one it had. In both cases no copied
    -- list is left.
    pub replace_method-ReplaceResult :
        (cls sel : ℕ) (types : Option (List ℕ)) (block : ℕ) (w : W)
        → ReplaceResult cls sel block w (replace_method rt (some cls) (some sel) types block w)
    unfolding replace_method
    replace_method-ReplaceResult cls sel types block w =
        replace_own-ReplaceResult cls sel types block w (class_get_own_method rt (some cls) sel w).0
          (class_get_own_method rt (some cls) sel w).1
          (class_get_own_method-OwnResult rt table laws cls sel w)

-- ===== src/Objc/Runtime/Lookup.antt =====
-- `NPClassGetOwnMethod` finds the methods that the class itself has, and frees the list that it copies.
use noctisplanet_foundation.Prelude.{
  ℕ, zero, suc, ◌<◌, ◌≡◌, ◌≢◌, refl, sym, ap, ◌∙◌, inl, inr, Bool-cases, List, [], ◌∷◌, Option,
  none, some, arith, ◌==◌, get_elem?, subst,
}
use noctisplanet_foundation.Objc.Runtime.{Runtime, find_loop, class_get_own_method}
use noctisplanet_foundation.Objc.Runtime.Laws.{
  Table, Lacks, First, SameMethod, SameTable, Copied, Documented,
}

module _ {W : Type 0} (rt : Runtime W) where
  -- What the loop finds among the methods.
  abbrev Found : W → List ℕ → ℕ → Option ℕ → Type 0
  Found w methods sel none = (i m : ℕ) → get_elem? methods i ≡ some m → rt.method_get_name m w ≢ sel
  Found w methods sel (some method) =
      (i : ℕ) × (get_elem? methods i ≡ some method)
      × (rt.method_get_name method w ≡ sel)
      × ((j m : ℕ) → j < i → get_elem? methods j ≡ some m → rt.method_get_name m w ≢ sel)

  Found-later :
      (w : W) (m : ℕ) (ms : List ℕ) (sel : ℕ) (result : Option ℕ)
      → rt.method_get_name m w ≢ sel
      → Found w ms sel result
      → Found w (m ∷ ms) sel result
  Found-later w m ms sel none ne f = later
    where
      later : Found w (m ∷ ms) sel none
      later zero x e = let same : m ≡ x = cc in subst (λ y. rt.method_get_name y w ≢ sel) same ne
      later (suc i) x e = f i x e
  Found-later w m ms sel (some method) ne (i, at, name, before) = (suc i, at, name, earlier)
    where
      earlier : (j x : ℕ) → j < suc i → get_elem? (m ∷ ms) j ≡ some x → rt.method_get_name x w ≢ sel
      earlier zero x less e =
          let same : m ≡ x = cc in subst (λ y. rt.method_get_name y w ≢ sel) same ne
      earlier (suc j) x less e = before j x (omega arith) e

  find_loop-Found :
      (address : ℕ) (methods : List ℕ) (sel : ℕ) (w : W)
      → Found w methods sel (find_loop rt address methods sel w).0
        × ((find_loop rt address methods sel w).1 ≡ rt.free address w)
  unfolding find_loop
  find_loop-Found address [] sel w = (λ i m e. cc, refl)
  find_loop-Found address (method ∷ methods) sel w =
      elim (Bool-cases (rt.method_get_name method w == sel)) [
        | inl is ↦ rw is ((0, refl, ground arith, λ j m less e. absurd (omega arith)), refl)
        | inr other ↦
            let (f, freed) = find_loop-Found address methods sel w in
            rw other (Found-later w method methods sel _ (ground arith) f, freed)
      ]

module _ {W : Type 0} (rt : Runtime W) (table : Table W) where
  pub SameMethod-trans :
      (u v w : W) (m : ℕ)
      → SameMethod rt table u v m
      → SameMethod rt table v w m
      → SameMethod rt table u w m
  SameMethod-trans u v w m a b = record {
    name = b.name ∙ a.name;
    encoding = b.encoding ∙ a.encoding;
    imp = b.imp ∙ a.imp;
  }

  pub SameTable-trans :
      (u v w : W) → SameTable rt table u v → SameTable rt table v w → SameTable rt table u w
  SameTable-trans u v w a b = record {
    own = λ cls. b.own cls ∙ a.own cls;
    method = λ m. SameMethod-trans u v w m (a.method m) (b.method m);
  }

  abbrev pub Owns : W → ℕ → ℕ → Option ℕ → Type 0
  Owns w cls sel none = Lacks rt table w cls sel
  Owns w cls sel (some method) = First rt table w (table.own w cls) sel method

  -- What looking for a method leaves: what the class itself has is found, nothing has changed, and the
  -- list of methods has been freed.
  pub record OwnResult (cls sel : ℕ) (w : W) (res : Option ℕ × W) : Type 0 where
    pub owns : Owns w cls sel res.0
    pub same : SameTable rt table w res.1
    pub freed : table.copies res.1 ≡ table.copies w

  Found-there :
      (w v : W) (cls sel : ℕ) (result : Option ℕ)
      → SameTable rt table w v
      → Found rt v (table.own w cls) sel result
      → Owns w cls sel result
  Found-there w v cls sel none same f = λ m (i, at) e. f i m at ((same.method m).name ∙ e)
  Found-there w v cls sel (some method) same (i, at, name, before) = (
    i,
    at,
    sym (same.method method).name ∙ name,
    λ j m less e e'. before j m less e ((same.method m).name ∙ e'),
  )

  -- A class itself has such a method or none.
  pub owned : (cls sel : ℕ) (w : W) → (found : Option ℕ) × Owns w cls sel found
  owned cls sel w =
      let same : SameTable rt table w w = record {
        own = λ d. refl;
        method = λ m. record { name = refl; encoding = refl; imp = refl };
      } in
      (
        (find_loop rt 0 (table.own w cls) sel w).0,
        Found-there w w cls sel _ same (find_loop-Found rt 0 (table.own w cls) sel w).0,
      )

  module _ (laws : Documented rt table) where
    in_copy :
        (cls sel : ℕ) (w : W) (copy : Option (ℕ × List ℕ) × W)
        → Copied rt table cls w copy
        → OwnResult cls sel w (elim copy.0 [
          | none ↦ (none, copy.1)
          | some list ↦ find_loop rt list.0 list.1 sel copy.1
        ])
    in_copy cls sel w (none, v) (empty, same, copies) = record {
      owns = λ m (i, there) e.
          let none_there : get_elem? [] i ≡ some m =
            ap (λ (ms : List ℕ). get_elem? ms i) (sym empty) ∙ there in
          absurd cc;
      same = same;
      freed = copies;
    }
    in_copy cls sel w (some (address, methods), v) (all, same, copies) =
        let (found, ended) = find_loop-Found rt address methods sel v in
        let (same', copies') = laws.freed address v (table.copies w) copies in
        record {
          owns = Found-there w v cls sel _ same (
              subst (λ (ms : List ℕ). Found rt v ms sel (find_loop rt address methods sel v).0) all
                found);
          same = SameTable-trans w v _ same (rw ended same');
          freed = rw ended copies';
        }

    -- With a runtime that does what is documented, `class_get_own_method` of a class returns the
    -- first method of that class with the selector, or none if the class itself has none, whatever it
    -- inherits; no class or method has changed, and the list that was copied has been freed.
    pub class_get_own_method-OwnResult :
        (cls sel : ℕ) (w : W) → OwnResult cls sel w (class_get_own_method rt (some cls) sel w)
    unfolding class_get_own_method
    class_get_own_method-OwnResult cls sel w =
        in_copy cls sel w (rt.class_copy_method_list (some cls) w) (laws.copied cls w)

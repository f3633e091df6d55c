-- ===== src/Objc/Sample/Lawful.antt =====
-- The runtime of the sample obeys the laws.
use noctisplanet_foundation.Prelude.{
  ℕ, zero, suc, ◌<◌, ◌≡◌, ◌≢◌, refl, sym, ap, true, false, List, [], ◌∷◌, Option, none, some, arith,
  inl, inr, ◌⊎◌, Bool-cases, ◌==◌, get_elem?,
}
use noctisplanet_foundation.Objc.Runtime.Laws.{
  Lacks, First, Finds, own_first, in_superclass, nowhere, SameTable, Copied, Added, Replaced,
  Documented,
}
use noctisplanet_foundation.Objc.Sample.{
  State, update, copy_list, tail, first_named, with_method, or_inherited, superclass, runtime,
  table,
}

same_as :
    (w w' : State)
    → w'.own ≡ w.own
    → w'.name ≡ w.name
    → w'.types ≡ w.types
    → w'.imp ≡ w.imp
    → SameTable runtime table w w'
same_as w w' o n t i = record {
  own = λ c. rw o;
  method = λ m. record { name = rw n; encoding = rw t; imp = rw i };
}

list-Copied :
    (cls : ℕ) (w : State) (ms : List ℕ)
    → w.own cls ≡ ms
    → Copied runtime table cls w (copy_list ms w)
list-Copied cls w [] e = (e, same_as w w refl refl refl refl, refl)
list-Copied cls w (m ∷ ms) e = (sym e, same_as w _ refl refl refl refl, refl)

named-none :
    (ms : List ℕ) (name : ℕ → ℕ) (sel : ℕ)
    → ((m i : ℕ) → get_elem? ms i ≡ some m → name m ≢ sel)
    → first_named ms name sel ≡ none
named-none [] name sel lacks = refl
named-none (m ∷ ms) name sel lacks =
    let rest = named-none ms name sel (λ x i e. lacks x (suc i) e) in
    let other : (name m == sel) ≡ false = ground (arith, lacks m 0 refl) in rw (other, rest)

named-some :
    (ms : List ℕ) (name : ℕ → ℕ) (sel method i : ℕ)
    → get_elem? ms i ≡ some method
    → name method ≡ sel
    → ((j m : ℕ) → j < i → get_elem? ms j ≡ some m → name m ≢ sel)
    → first_named ms name sel ≡ some method
named-some [] name sel method i there is before = absurd cc
named-some (m ∷ ms) name sel method zero there is before =
    let same : m ≡ method = cc in
    let here : (name m == sel) ≡ true = rw same (ground (arith, is)) in rw here (rw same)
named-some (m ∷ ms) name sel method (suc i) there is before =
    let rest =
      named-some ms name sel method i there is (λ j x less e. before (suc j) x (omega arith) e) in
    let other : (name m == sel) ≡ false = ground (arith, before 0 m (omega arith) refl) in
    rw (other, rest)

updated : {A : Type 0} (f : ℕ → A) (i : ℕ) (a : A) → update f i a i ≡ a
updated f i a = ground arith

elsewhere : {A : Type 0} (f : ℕ → A) (i : ℕ) (a : A) (j : ℕ) → j ≢ i → update f i a j ≡ f j
elsewhere f i a j ne = ground arith

with_method-Added :
    (cls sel imp : ℕ) (types : Option (List ℕ)) (w : State)
    → Added runtime table cls sel imp types w (with_method cls sel imp types w)
with_method-Added cls sel imp types w = record {
  method = w.next;
  own = updated w.own cls _;
  name = updated w.name w.next sel;
  encoding = updated w.types w.next types;
  implemented = updated w.imp w.next imp;
  other_classes = λ d ne. elsewhere w.own cls _ d ne;
  other_methods = λ m ne. record {
    name = elsewhere w.name w.next sel m ne;
    encoding = elsewhere w.types w.next types m ne;
    imp = elsewhere w.imp w.next imp m ne;
  };
  copies = refl;
}

Replaced-at :
    (method imp : ℕ) (w : State)
    → Replaced runtime table method imp w (record w { imp = update w.imp method imp })
Replaced-at method imp w = record {
  own = λ c. refl;
  implemented = updated w.imp method imp;
  name = refl;
  encoding = refl;
  others = λ m ne. record { name = refl; encoding = refl; imp = elsewhere w.imp method imp m ne };
  copies = refl;
}

first_named-Found :
    (cls sel : ℕ) (w : State)
    → ((first_named (w.own cls) w.name sel ≡ none) × Lacks runtime table w cls sel)
      ⊎ ((method : ℕ) × (first_named (w.own cls) w.name sel ≡ some method)
          × First runtime table w (w.own cls) sel method)
first_named-Found cls sel w = among (w.own cls)
  where
    among :
        (ms : List ℕ)
        → ((first_named ms w.name sel ≡ none)
            × ((m : ℕ) → (i : ℕ) × (get_elem? ms i ≡ some m) → w.name m ≢ sel))
          ⊎ ((method : ℕ) × (first_named ms w.name sel ≡ some method)
              × First runtime table w ms sel method)
    among [] = inl (refl, λ m (i, e). cc)
    among (m ∷ ms) = elim (Bool-cases (w.name m == sel)) [
      | inl is ↦
          inr (m, rw is refl, (0, refl, ground (arith, is), λ j x less. absurd (omega arith)))
      | inr other ↦ later m ms other (among ms)
    ]
      where
        later :
            (m : ℕ) (ms : List ℕ)
            → (w.name m == sel) ≡ false
            → ((first_named ms w.name sel ≡ none)
                × ((x : ℕ) → (i : ℕ) × (get_elem? ms i ≡ some x) → w.name x ≢ sel))
              ⊎ ((method : ℕ) × (first_named ms w.name sel ≡ some method)
                  × First runtime table w ms sel method)
            → ((first_named (m ∷ ms) w.name sel ≡ none)
                × ((x : ℕ) → (i : ℕ) × (get_elem? (m ∷ ms) i ≡ some x) → w.name x ≢ sel))
              ⊎ ((method : ℕ) × (first_named (m ∷ ms) w.name sel ≡ some method)
                  × First runtime table w (m ∷ ms) sel method)
        later m ms other (inl (e, lacks)) = inl (rw (other, e) refl, none_named)
          where
            none_named : (x : ℕ) → (i : ℕ) × (get_elem? (m ∷ ms) i ≡ some x) → w.name x ≢ sel
            none_named x (zero, here) is = ground (arith, other, is, here)
            none_named x (suc i, there) is = lacks x (i, there) is
        later m ms other (inr (method, e, (i, there, is, before))) =
            inr (method, rw (other, e) refl, (suc i, there, is, not_before))
          where
            not_before : (j x : ℕ) → j < suc i → get_elem? (m ∷ ms) j ≡ some x → w.name x ≢ sel
            not_before zero x less here is' = ground (arith, other, is', here)
            not_before (suc j) x less e' is' = before j x (omega arith) e' is'

-- The class has no superclass.
root-Finds :
    (cls sel : ℕ) (w : State)
    → superclass (some cls) ≡ none
    → Finds runtime table w cls sel (first_named (w.own cls) w.name sel)
root-Finds cls sel w e = elim (first_named-Found cls sel w) [
  | inl (absent, lacks) ↦ rw absent (nowhere lacks e)
  | inr (method, found, first) ↦ rw found (own_first first)
]

runtime-Finds :
    (cls sel : ℕ) (w : State)
    → Finds runtime table w cls sel (or_inherited cls (first_named (w.own cls) w.name sel) sel w)
runtime-Finds cls sel w = elim (first_named-Found cls sel w) [
  | inl (absent, lacks) ↦ elim (Bool-cases (cls == 1)) [
    | inl below ↦ rw (absent, below) (in_superclass lacks (rw below refl) (root-Finds 0 sel w refl))
    | inr root ↦ rw (absent, root) (nowhere lacks (rw root refl))
  ]
  | inr (method, found, first) ↦ rw found (own_first first)
]

pub runtime-Documented : Documented runtime table
runtime-Documented = record {
  copied = λ cls w. list-Copied cls w (w.own cls) refl;
  copied_nil = λ w. refl;
  super = λ cls w. refl;
  instance_method = λ cls sel w. runtime-Finds cls sel w;
  freed = λ address w addresses e. (same_as w _ refl refl refl refl, ap tail e);
  made = λ block w. (same_as w _ refl refl refl refl, refl, updated w.blocks w.next (some block));
  added = λ cls sel imp types w lacks.
      let absent = named-none (w.own cls) w.name sel (λ m i e. lacks m (i, e)) in
      rw (runtime, absent) (refl, with_method-Added cls sel imp types w, refl);
  not_added = λ cls sel imp types w method (i, there, is, before).
      let found = named-some (w.own cls) w.name sel method i there is before in
      rw (runtime, found) (refl, same_as w w refl refl refl refl, refl);
  replaced = λ cls sel imp types w method (i, there, is, before).
      let found = named-some (w.own cls) w.name sel method i there is before in
      rw (runtime, found) (refl, Replaced-at method imp w, refl);
}

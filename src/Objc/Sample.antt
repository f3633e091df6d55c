-- ===== src/Objc/Sample.antt =====
-- A runtime whose state is a table of methods, with the class 1 a subclass of the class 0.
pub mod Lawful
use noctisplanet_foundation.Prelude.{
  ℕ, suc, true, false, List, [], ◌∷◌, ◌++◌, Option, none, some, ◌==◌, if◌then◌else◌,
}
use noctisplanet_foundation.Objc.Runtime.{Runtime}
use noctisplanet_foundation.Objc.Runtime.Laws.{Table}

pub record State : Type 0 where
  pub own : ℕ → List ℕ
  pub name : ℕ → ℕ
  pub types : ℕ → Option (List ℕ)
  pub imp : ℕ → ℕ
  pub blocks : ℕ → Option ℕ
  pub next : ℕ
  pub copies : List ℕ

abbrev pub update : {A : Type 0} → (ℕ → A) → ℕ → A → ℕ → A
update f i a j = if i == j then a else f j

abbrev pub copy_list : List ℕ → State → Option (ℕ × List ℕ) × State
copy_list [] w = (none, w)
copy_list (m ∷ ms) w = (some (0, m ∷ ms), record w { copies = 0 ∷ w.copies })

abbrev copy_methods : Option ℕ → State → Option (ℕ × List ℕ) × State
copy_methods none w = (none, w)
copy_methods (some cls) w = copy_list (w.own cls) w

abbrev pub tail : List ℕ → List ℕ
tail [] = []
tail (x ∷ xs) = xs

abbrev pub first_named : List ℕ → (ℕ → ℕ) → ℕ → Option ℕ
first_named [] name sel = none
first_named (m ∷ ms) name sel =
    let rest = first_named ms name sel in if name m == sel then some m else rest

abbrev pub with_method : ℕ → ℕ → ℕ → Option (List ℕ) → State → State
with_method cls sel imp types w = record w {
  own = update w.own cls (w.own cls ++ w.next ∷ []);
  name = update w.name w.next sel;
  types = update w.types w.next types;
  imp = update w.imp w.next imp;
  next = suc w.next;
}

abbrev pub superclass : Option ℕ → Option ℕ
superclass none = none
superclass (some cls) = if cls == 1 then some 0 else none

abbrev pub or_inherited : ℕ → Option ℕ → ℕ → State → Option ℕ
or_inherited cls (some method) sel w = some method
or_inherited cls none sel w = if cls == 1 then first_named (w.own 0) w.name sel else none

abbrev pub runtime : Runtime State
runtime = record {
  class_copy_method_list = copy_methods;
  free = λ address w. record w { copies = tail w.copies };
  method_get_name = λ m w. w.name m;
  method_get_type_encoding = λ m w. w.types m;
  class_get_superclass = λ cls w. superclass cls;
  class_get_instance_method =
      λ cls sel w. or_inherited cls (first_named (w.own cls) w.name sel) sel w;
  imp_implementation_with_block = λ block w.
      (w.next, record w { blocks = update w.blocks w.next (some block); next = suc w.next });
  class_add_method = λ cls sel imp types w. elim (first_named (w.own cls) w.name sel) [
    | none ↦ (true, with_method cls sel imp types w)
    | some m ↦ (false, w)
  ];
  class_replace_method = λ cls sel imp types w. elim (first_named (w.own cls) w.name sel) [
    | none ↦ (none, with_method cls sel imp types w)
    | some m ↦ (some (w.imp m), record w { imp = update w.imp m imp })
  ];
}

abbrev pub table : Table State
table = record {
  own = λ w. w.own;
  superclass = λ w cls. superclass (some cls);
  imp = λ w. w.imp;
  runs = λ w. w.blocks;
  copies = λ w. w.copies;
}

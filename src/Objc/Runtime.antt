-- ===== src/Objc/Runtime.antt =====
-- Sources/NPFoundation/objc/NSObjCRuntime.c, and the three macros of its header in
-- Sources/NPFoundation/include/NPFoundation/objc that change the methods of a class.
-- The runtime is a parameter. A class, a selector, a method, an implementation and a block are numbers,
-- `none` is null, and an encoding of types is its characters.
pub mod Laws
pub mod Lookup
pub mod Methods
pub mod Adding
use noctisplanet_foundation.Prelude.{
  ℕ, Bool, true, false, List, [], ◌∷◌, Option, none, some, ◌==◌, if◌then◌else◌,
}

-- `class_copyMethodList` gives null or an address and the methods there, which `free` gives back.
pub record Runtime (W : Type 0) : Type 0 where
  pub class_copy_method_list : Option ℕ → W → Option (ℕ × List ℕ) × W
  pub free : ℕ → W → W
  pub method_get_name : ℕ → W → ℕ
  pub method_get_type_encoding : ℕ → W → Option (List ℕ)
  pub class_get_superclass : Option ℕ → W → Option ℕ
  pub class_get_instance_method : ℕ → ℕ → W → Option ℕ
  pub imp_implementation_with_block : ℕ → W → ℕ × W
  pub class_add_method : ℕ → ℕ → ℕ → Option (List ℕ) → W → Bool × W
  pub class_replace_method : ℕ → ℕ → ℕ → Option (List ℕ) → W → Option ℕ × W

-- `super == cls`
abbrev pub same_class : ℕ → Option ℕ → Bool
same_class super none = false
same_class super (some cls) = super == cls

-- `_np_types = (TYPES); if (!_np_types) _np_types = method_getTypeEncoding(...)`
abbrev pub types_or : Option (List ℕ) → Option (List ℕ) → Option (List ℕ)
types_or none encoding = encoding
types_or (some types) encoding = some types

module _ {W : Type 0} (rt : Runtime W) where
  -- The loop over the methods at `address`, with the `free` on each of the two ways out of it.
  unfoldable pub find_loop : ℕ → List ℕ → ℕ → W → Option ℕ × W
  find_loop address [] name w = (none, rt.free address w)
  find_loop address (method ∷ methods) name w =
      let rest = find_loop address methods name w in
      if rt.method_get_name method w == name then (some method, rt.free address w) else rest

  unfoldable pub class_get_own_method : Option ℕ → ℕ → W → Option ℕ × W
  unfolding find_loop
  class_get_own_method cls name w =
      let (methods, w') = rt.class_copy_method_list cls w in
      elim methods [ none ↦ (none, w') | some list ↦ find_loop list.0 list.1 name w' ]

  unfoldable pub class_get_super_method : Option ℕ → ℕ → W → Option ℕ
  class_get_super_method cls name w = elim (rt.class_get_superclass cls w) [
    | none ↦ none
    | some super ↦ if same_class super cls then none else rt.class_get_instance_method super name w
  ]

  -- What the statements between `NP_CLASS_ADDMETHOD_BEGIN` and `_END` leave in `_np_success`, which is
  -- `false` at first. A null class or selector is `none`.
  unfoldable pub add_method : Option ℕ → Option ℕ → Option (List ℕ) → ℕ → W → Bool × W
  add_method none sel types block w = (false, w)
  add_method (some cls) none types block w = (false, w)
  add_method (some cls) (some sel) types block w =
      let (imp, w') = rt.imp_implementation_with_block block w in
      rt.class_add_method cls sel imp types w'

  -- `_np_next_imp` after `NP_CLASS_REPLACEMETHOD_PROCESS`, from the method that the class itself has on.
  unfoldable pub replace_own : ℕ → ℕ → Option ℕ → Option (List ℕ) → ℕ → W → Option ℕ × W
  replace_own cls sel none types block w = (none, w)
  replace_own cls sel (some method) types block w =
      let (imp, w') = rt.imp_implementation_with_block block w in
      rt.class_replace_method cls sel imp (types_or types (rt.method_get_type_encoding method w)) w'

  unfoldable pub replace_method : Option ℕ → Option ℕ → Option (List ℕ) → ℕ → W → Option ℕ × W
  unfolding class_get_own_method replace_own
  replace_method none sel types block w = (none, w)
  replace_method (some cls) none types block w = (none, w)
  replace_method (some cls) (some sel) types block w =
      let (method, w') = class_get_own_method (some cls) sel w in
      replace_own cls sel method types block w'

  -- `_np_success` after `NP_CLASS_OVERRIDEMETHOD_PROCESS`, from the superclass's method on.
  unfoldable pub override_inherited : ℕ → ℕ → Option ℕ → Option (List ℕ) → ℕ → W → Bool × W
  override_inherited cls sel none types block w = (false, w)
  override_inherited cls sel (some method) types block w =
      let (imp, w') = rt.imp_implementation_with_block block w in
      rt.class_add_method cls sel imp (types_or types (rt.method_get_type_encoding method w)) w'

  unfoldable pub override_method : Option ℕ → Option ℕ → Option (List ℕ) → ℕ → W → Bool × W
  unfolding class_get_super_method override_inherited
  override_method none sel types block w = (false, w)
  override_method (some cls) none types block w = (false, w)
  override_method (some cls) (some sel) types block w =
      override_inherited cls sel (class_get_super_method (some cls) sel w) types block w

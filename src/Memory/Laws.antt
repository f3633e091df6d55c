-- ===== src/Memory/Laws.antt =====
-- What `memmove` leaves in the two regions, and the arithmetic of overwritten bytes.
use noctisplanet_foundation.Prelude.{
  ℕ, zero, suc, ◌+◌, ◌-◌, ◌≤◌, ◌≡◌, refl, ap, sym, ◌∙◌, true, List, [], ◌∷◌, ◌++◌, some, arith, leb,
  length, take, drop, length-append, take-append-drop, length-take, length-drop, ok,
}
use noctisplanet_foundation.Memory.{Memory, Pointer, update, splice, load, memmove}

-- The range of `count` bytes at `p` holds `bytes`.
pub record Readable (m : Memory) (p : Pointer) (bytes : List ℕ) : Type 0 where
  pub all : List ℕ
  pub live : m.regions p.region ≡ some all
  pub within : p.offset + length bytes ≤ length all
  pub bytes_there : take (length bytes) (drop p.offset all) ≡ bytes

pub length-splice :
    (at : ℕ) (bytes ys : List ℕ)
    → at + length bytes ≤ length ys
    → length (splice at bytes ys) ≡ length ys
length-splice at bytes ys h = omega (
  arith,
  length-append (take at ys) (bytes ++ drop (at + length bytes) ys),
  length-append bytes (drop (at + length bytes) ys),
  length-take at ys,
  length-drop (at + length bytes) ys,
)

le→leb : (a b : ℕ) → a ≤ b → leb a b ≡ true
le→leb a b h = ground arith

load_lem :
    (p : Pointer) (bytes : List ℕ) (m : Memory)
    → Readable m p bytes
    → load p (length bytes) m ≡ ok bytes
unfolding load
load_lem p bytes m r = rw (r.live, le→leb _ _ r.within, r.bytes_there)

module _ (destination source : Pointer) (bytes ys : List ℕ) (m : Memory) where
  abbrev pub written : Memory
  written = record m {
    regions = update m.regions destination.region (some (splice destination.offset bytes ys));
  }

  pub memmove_lem :
      Readable m source bytes
      → m.regions destination.region ≡ some ys
      → destination.offset + length bytes ≤ length ys
      → memmove destination source (length bytes) m ≡ ok written
  unfolding memmove
  memmove_lem r live fits = rw (load_lem source bytes m r, live, le→leb _ _ fits)

-- The `count` bytes from `from` on.
abbrev pub slice : ℕ → ℕ → List ℕ → List ℕ
slice from count xs = take count (drop from xs)

pub take-length_append : (xs ys : List ℕ) → take (length xs) (xs ++ ys) ≡ xs
take-length_append [] ys = refl
take-length_append (x ∷ xs) ys = rw (take-length_append xs ys)

splice-suc :
    (at : ℕ) (bytes ys : List ℕ) (y : ℕ) → splice (suc at) bytes (y ∷ ys) ≡ y ∷ splice at bytes ys
splice-suc at bytes ys y =
    let carry : suc at + length bytes ≡ suc (at + length bytes) = omega arith in rw carry

take-splice :
    (at : ℕ) (bytes ys : List ℕ)
    → at ≤ length ys
    → take (at + length bytes) (splice at bytes ys) ≡ take at ys ++ bytes
take-splice zero bytes ys h =
    let start : zero + length bytes ≡ length bytes = omega arith in
    rw start (take-length_append bytes (drop (length bytes) ys))
take-splice (suc at) bytes [] h = absurd (omega arith)
take-splice (suc at) bytes (y ∷ ys) h =
    let carry : suc at + length bytes ≡ suc (at + length bytes) = omega arith in
    rw (splice-suc at bytes ys y, carry) (ap (◌∷◌ y) (take-splice at bytes ys (omega arith)))

-- A range that ends where the overwritten bytes do: what was there before them, and they.
pub slice-splice :
    (from at : ℕ) (bytes ys : List ℕ)
    → from ≤ at
    → at ≤ length ys
    → slice from (at + length bytes - from) (splice at bytes ys)
      ≡ slice from (at - from) ys ++ bytes
slice-splice zero at bytes ys p q =
    let whole : at + length bytes - 0 ≡ at + length bytes = omega arith in
    let whole' : at - 0 ≡ at = omega arith in rw (whole, whole') (take-splice at bytes ys q)
slice-splice (suc from) zero bytes ys p q = absurd (omega arith)
slice-splice (suc from) (suc at) bytes [] p q = absurd (omega arith)
slice-splice (suc from) (suc at) bytes (y ∷ ys) p q =
    let fewer : suc at + length bytes - suc from ≡ at + length bytes - from = omega arith in
    let fewer' : suc at - suc from ≡ at - from = omega arith in
    let carry : suc at + length bytes ≡ suc (at + length bytes) = omega arith in
    rw (fewer, carry, fewer') (slice-splice from at bytes ys (omega arith) (omega arith))

pub take-append : (n : ℕ) (xs ys : List ℕ) → n ≤ length xs → take n (xs ++ ys) ≡ take n xs
take-append zero xs ys h = refl
take-append (suc n) [] ys h = absurd (omega arith)
take-append (suc n) (x ∷ xs) ys h = rw (take-append n xs ys (omega arith))

slice-append :
    (from count : ℕ) (xs ys : List ℕ)
    → from + count ≤ length xs
    → slice from count (xs ++ ys) ≡ slice from count xs
slice-append zero count xs ys h = take-append count xs ys (omega arith)
slice-append (suc from) count [] ys h = let none_left : count ≡ 0 = omega arith in rw none_left
slice-append (suc from) count (x ∷ xs) ys h = slice-append from count xs ys (omega arith)

-- A range within the first bytes is the same in any list that begins with them.
pub slice-prefix :
    (from count : ℕ) (xs ys : List ℕ)
    → take (length xs) ys ≡ xs
    → from + count ≤ length xs
    → slice from count ys ≡ slice from count xs
slice-prefix from count xs ys e h =
    let split : xs ++ drop (length xs) ys ≡ ys =
      ap (λ (t : List ℕ). t ++ drop (length xs) ys) (sym e) ∙ take-append-drop (length xs) ys in
    rw (← split) (slice-append from count xs (drop (length xs) ys) h)

pub length-slice :
    (from count : ℕ) (xs : List ℕ) → from + count ≤ length xs → length (slice from count xs) ≡ count
length-slice from count xs h = omega (arith, length-take count (drop from xs), length-drop from xs)

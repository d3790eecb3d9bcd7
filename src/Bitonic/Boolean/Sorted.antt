-- ===== src/Bitonic/Boolean/Sorted.antt =====
-- The network on an array of bits sorts it: the 0-1 half of the 0-1 principle.
use psa_for_multiparty.Common.{
  ℕ, zero, suc, ◌+◌, ◌-◌, ◌^◌, ◌≤◌, ◌<◌, ◌≡◌, sym, ap, ◌∙◌, Bool, true, false, not, ltb, leb,
  if◌then◌else◌, dec_lt, arith,
}
use native.Mathlib.Nat.{pow-suc}
use psa_for_multiparty.Bitonic.Function.{sort, sort-outside}
use psa_for_multiparty.Bitonic.Shape.{both, either, Shape, inner, not-not}
use psa_for_multiparty.Bitonic.Boolean.{
  Ascends, Descends, HasShape, one_bit, merge-Ascends, merge-Descends,
}

-- What the sort makes of a part, ascending or descending.
abbrev pub Ordered : Bool → ℕ → ℕ → (ℕ → Bool) → ℕ → Type 0
Ordered true = Ascends
Ordered false = Descends

-- Sorted up and then down, a part is bitonic.
mountain :
    (low k p1 p2 : ℕ) (g : ℕ → Bool)
    → Ascends low k g p1
    → Descends (low + k) k g p2
    → HasShape low (k + k) g (inner (if ltb p1 k then p1 else k) (k + p2))
mountain low k p1 p2 g up down i lt = elim (dec_lt i k) [
  | yes below ↦ up i below ∙ ground arith
  | no above ↦ ap g (shift low k i (omega arith)) ∙ down (i - k) (omega arith) ∙ ground arith
]
  where
    shift : (low k i : ℕ) → k ≤ i → low + i ≡ low + k + (i - k)
    shift low k i h = omega arith

-- The sort of one half leaves the other as it is.
sorted_halves :
    (d low p1 p2 : ℕ) (g : ℕ → Bool)
    → Ascends low (2 ^ d) g p1
    → Descends (low + 2 ^ d) (2 ^ d) (sort both either d (low + 2 ^ d) false g) p2
    → (s : Shape) × HasShape low (2 ^ suc d) (sort both either d (low + 2 ^ d) false g) s
sorted_halves d low p1 p2 g up down =
    let k = 2 ^ d in
    let twice : 2 ^ suc d ≡ k + k = omega (arith, pow-suc 2 d) in
    let kept : Ascends low k (sort both either d (low + k) false g) p1 =
      λ i lt. sort-outside both either d (low + k) false g (low + i) (ground arith) ∙ up i lt in
    (
      inner (if ltb p1 k then p1 else k) (k + p2),
      λ i lt.
          mountain low k p1 p2 (sort both either d (low + k) false g) kept down i
            (omega (arith, twice)),
    )

-- A part of one bit.
single_at : (low i : ℕ) → i < 2 ^ 0 → low + i ≡ low
single_at low i lt = omega arith

single_index : (i : ℕ) → i < 2 ^ 0 → 0 ≡ i
single_index i lt = omega arith

-- The network sorts every part of 2^d bits.
pub sort-Ordered :
    (d low : ℕ) (ascending : Bool) (f : ℕ → Bool)
    → (p : ℕ) × Ordered ascending low (2 ^ d) (sort both either d low ascending f) p
unfolding sort
sort-Ordered zero low true f =
    let (p, e) = one_bit (f low) in
    (p, λ i lt. ap f (single_at low i lt) ∙ sym e ∙ ap (λ (t : ℕ). leb p t) (single_index i lt))
sort-Ordered zero low false f =
    let (p, e) = one_bit (not (f low)) in
    let bit_at : f low ≡ ltb 0 p = sym (not-not (f low)) ∙ ap not (sym e) ∙ ground arith in
    (p, λ i lt. ap f (single_at low i lt) ∙ bit_at ∙ ap (λ (t : ℕ). ltb t p) (single_index i lt))
sort-Ordered (suc d) low true f =
    let (p1, up) = sort-Ordered d low true f in
    let (p2, down) = sort-Ordered d (low + 2 ^ d) false (sort both either d low true f) in
    let (s, shape) = sorted_halves d low p1 p2 (sort both either d low true f) up down in
    merge-Ascends (suc d) low _ s shape
sort-Ordered (suc d) low false f =
    let (p1, up) = sort-Ordered d low true f in
    let (p2, down) = sort-Ordered d (low + 2 ^ d) false (sort both either d low true f) in
    let (s, shape) = sorted_halves d low p1 p2 (sort both either d low true f) up down in
    merge-Descends (suc d) low _ s shape

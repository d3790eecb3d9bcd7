-- ===== src/Bitonic/Boolean.antt =====
-- The merge of the network on an array of bits: it sorts a bitonic part.
pub mod Sorted
use psa_for_multiparty.Common.{
  ℕ, zero, suc, ◌+◌, ◌-◌, ◌*◌, ◌^◌, ◌≤◌, ◌<◌, ◌≡◌, refl, sym, ap, ◌∙◌, Bool, true, false, not, ◌&&◌,
  ◌||◌, ltb, leb, if◌then◌else◌, ◌⊎◌, inl, inr, dec_lt, arith,
}
use native.Mathlib.Nat.{pow-suc}
use psa_for_multiparty.Bitonic.Function.{
  half, merge, sort, merge-outside, sort-outside, merge-constant, merge-map,
}
use psa_for_multiparty.Bitonic.Shape.{
  both, either, Shape, inner, outer, at, flip, not-not, at-flip, Halved, not-both, not-either,
  halved,
}

-- The exchanges, by the distance from the lower end.
half-lower :
    (low k : ℕ) (f : ℕ → Bool) (i : ℕ)
    → i < k
    → half both either low k f (low + i) ≡ (f (low + i) && f (low + (i + k)))
unfolding half
half-lower low k f i lt =
    let inside : (leb low (low + i) && ltb (low + i) (low + k)) ≡ true = ground arith in
    rw inside (ap (λ t. f (low + i) && f t) (assoc low i k))
  where
    assoc : (low i k : ℕ) → low + i + k ≡ low + (i + k)
    assoc low i k = omega arith

half-upper :
    (low k : ℕ) (f : ℕ → Bool) (i : ℕ)
    → i < k
    → half both either low k f (low + k + i) ≡ (f (low + i) || f (low + (i + k)))
unfolding half
half-upper low k f i lt =
    let outside : (leb low (low + k + i) && ltb (low + k + i) (low + k)) ≡ false = ground arith in
    let inside : (leb (low + k) (low + k + i) && ltb (low + k + i) (low + k + k)) ≡ true =
      ground arith in
    rw (outside, inside)
      (ap (λ t. f t || f (low + k + i)) (back low i k)
        ∙ ap (λ t. f (low + i) || f t) (assoc low i k))
  where
    back : (low i k : ℕ) → low + k + i - k ≡ low + i
    back low i k = omega arith

    assoc : (low i k : ℕ) → low + k + i ≡ low + (i + k)
    assoc low i k = omega arith

-- The part of `size` bits from `low` on: zeros below `p`, then ones; and the other way round.
abbrev pub Ascends : ℕ → ℕ → (ℕ → Bool) → ℕ → Type 0
Ascends low size f p = (i : ℕ) → i < size → f (low + i) ≡ leb p i

abbrev pub Descends : ℕ → ℕ → (ℕ → Bool) → ℕ → Type 0
Descends low size f p = (i : ℕ) → i < size → f (low + i) ≡ ltb i p

abbrev pub HasShape : ℕ → ℕ → (ℕ → Bool) → Shape → Type 0
HasShape low size f s = (i : ℕ) → i < size → f (low + i) ≡ at s i

pub one_bit : (b : Bool) → (p : ℕ) × (leb p 0 ≡ b)
one_bit true = (0, refl)
one_bit false = (1, refl)

-- Two sorted halves, the lower of zeros or the upper of ones, make a sorted whole.
joined :
    (low k p1 p2 : ℕ) (g : ℕ → Bool)
    → Ascends low k g p1
    → Ascends (low + k) k g p2
    → ((i : ℕ) → i < k → g (low + i) ≡ false) ⊎ ((i : ℕ) → i < k → g (low + k + i) ≡ true)
    → (p : ℕ) × Ascends low (k + k) g p
joined low k p1 p2 g first second (inl zeros) = (
  k + p2,
  λ i lt. elim (dec_lt i k) [
    | yes below ↦ zeros i below ∙ ground arith
    | no above ↦ ap g (shift low k i (omega arith)) ∙ second (i - k) (omega arith) ∙ ground arith
  ],
)
  where
    shift : (low k i : ℕ) → k ≤ i → low + i ≡ low + k + (i - k)
    shift low k i h = omega arith
joined low k p1 p2 g first second (inr ones) = (
  if ltb p1 k then p1 else k,
  λ i lt. elim (dec_lt i k) [
    | yes below ↦ first i below ∙ ground arith
    | no above ↦ ap g (shift low k i (omega arith)) ∙ ones (i - k) (omega arith) ∙ ground arith
  ],
)
  where
    shift : (low k i : ℕ) → k ≤ i → low + i ≡ low + k + (i - k)
    shift low k i h = omega arith

-- The merge sorts a bitonic part.
pub merge-Ascends :
    (d low : ℕ) (f : ℕ → Bool) (s : Shape)
    → HasShape low (2 ^ d) f s
    → (p : ℕ) × Ascends low (2 ^ d) (merge both either d low f) p
unfolding merge
merge-Ascends zero low f s h =
    let (p, e) = one_bit (at s 0) in
    (p, λ i lt. h i lt ∙ ap (at s) (omega arith) ∙ sym e ∙ ap (λ (t : ℕ). leb p t) (omega arith))
merge-Ascends (suc d) low f s h =
    let k = 2 ^ d in
    let half_s = halved k s in
    let F = half both either low k f in
    let twice : 2 ^ suc d ≡ k + k = omega (arith, pow-suc 2 d) in
    let inside : (i : ℕ) → i < k → i + k < 2 ^ suc d = λ i lt. omega (arith, twice) in
    let lower : HasShape low k F half_s.lower = λ i lt.
      half-lower low k f i lt
      ∙ rw (h i (omega (arith, twice)), h (i + k) (inside i lt)) (half_s.lower_at i lt) in
    let upper : HasShape (low + k) k F half_s.upper = λ i lt.
      half-upper low k f i lt
      ∙ rw (h i (omega (arith, twice)), h (i + k) (inside i lt)) (half_s.upper_at i lt) in
    let G = merge both either d low F in
    let kept : (i : ℕ) → i < k → G (low + k + i) ≡ F (low + k + i) =
      λ i lt. merge-outside both either d low F (low + k + i) (ground arith) in
    let (p1, first) = merge-Ascends d low F half_s.lower lower in
    let (p2, second) = merge-Ascends d (low + k) G half_s.upper (λ i lt. kept i lt ∙ upper i lt) in
    let below : (i : ℕ) → i < k → merge both either d (low + k) G (low + i) ≡ G (low + i) =
      λ i lt. merge-outside both either d (low + k) G (low + i) (ground arith) in
    let flat : ((i : ℕ) → i < k → merge both either d (low + k) G (low + i) ≡ false)
        ⊎ ((i : ℕ) → i < k → merge both either d (low + k) G (low + k + i) ≡ true) =
      elim half_s.constant [
        | inl none ↦ inl (λ i lt.
            below i lt
            ∙ merge-constant both either false refl refl d low F
                (λ x a b.
                  ap F (from low x a)
                  ∙ lower (x - low) (omega arith)
                  ∙ none (x - low) (omega arith))
                (low + i) (omega arith) (omega arith))
        | inr all ↦ inr (λ i lt.
            merge-constant both either true refl refl d (low + k) G
              (λ x a b.
                ap G (from (low + k) x a)
                ∙ kept (x - (low + k)) (omega arith)
                ∙ upper (x - (low + k)) (omega arith)
                ∙ all (x - (low + k)) (omega arith))
              (low + k + i) (omega arith) (omega arith))
      ] in
    let (p, sorted) =
      joined low k p1 p2 (merge both either d (low + k) G) (λ i lt. below i lt ∙ first i lt) second
        flat in
    (p, λ i lt. sorted i (omega (arith, twice)))
  where
    from : (low x : ℕ) → low ≤ x → x ≡ low + (x - low)
    from low x h = omega arith

pub merge-Descends :
    (d low : ℕ) (f : ℕ → Bool) (s : Shape)
    → HasShape low (2 ^ d) f s
    → (p : ℕ) × Descends low (2 ^ d) (merge either both d low f) p
merge-Descends d low f s h =
    let (p, ascends) =
      merge-Ascends d low (λ x. not (f x)) (flip s) (λ i lt. ap not (h i lt) ∙ sym (at-flip s i)) in
    let dual =
      merge-map not either both both either (λ a b. sym (not-both a b))
        (λ a b. sym (not-either a b)) d low f in
    (p, λ i lt. sym (not-not _) ∙ ap not (ap (λ g. g (low + i)) dual ∙ ascends i lt) ∙ ground arith)

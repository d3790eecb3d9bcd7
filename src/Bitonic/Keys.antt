-- ===== src/Bitonic/Keys.antt =====
-- The network on an array of keys, with the smaller and the larger key as operations, orders the keys:
-- each threshold makes it a network on bits.
use psa_for_multiparty.Common.{
  ℕ, ◌+◌, ◌^◌, ◌≤◌, ◌<◌, ◌≡◌, ap, ◌∙◌, true, ltb, leb, if◌then◌else◌, arith,
}
use psa_for_multiparty.Bitonic.Function.{sort, sort-map}
use psa_for_multiparty.Bitonic.Shape.{both, either}
use psa_for_multiparty.Bitonic.Boolean.Sorted.{sort-Ordered}

abbrev pub minimum : ℕ → ℕ → ℕ
minimum a b = if ltb b a then b else a

abbrev pub maximum : ℕ → ℕ → ℕ
maximum a b = if ltb b a then a else b

leb-minimum : (t a b : ℕ) → leb t (minimum a b) ≡ both (leb t a) (leb t b)
leb-minimum t a b = ground arith

leb-maximum : (t a b : ℕ) → leb t (maximum a b) ≡ either (leb t a) (leb t b)
leb-maximum t a b = ground arith

pub sort_increases :
    (d low : ℕ) (f : ℕ → ℕ) (i j : ℕ)
    → i ≤ j
    → j < 2 ^ d
    → sort minimum maximum d low true f (low + i) ≤ sort minimum maximum d low true f (low + j)
sort_increases d low f i j le lt =
    let F = sort minimum maximum d low true f in
    let t = F (low + i) in
    let bits =
      sort-map (λ a. leb t a) minimum maximum both either (leb-minimum t) (leb-maximum t) d low true
        f in
    let (p, ordered) = sort-Ordered d low true (λ x. leb t (f x)) in
    let here : leb t (F (low + i)) ≡ leb p i =
      ap (λ g. g (low + i)) bits ∙ ordered i (omega arith) in
    let there : leb t (F (low + j)) ≡ leb p j = ap (λ g. g (low + j)) bits ∙ ordered j lt in
    ground (arith, here, there)

-- ===== src/Compare/Equal.antt =====
-- Secure equality by an AND tree: what it computes, and the triples that it consumes.
use psa_for_multiparty.Common.{
  ℕ, zero, suc, ◌+◌, ◌-◌, ◌*◌, ◌/◌, ◌≤◌, ◌<◌, ◌≡◌, refl, sym, ap, ◌∙◌, Bool, true, false, not, ◌&&◌,
  List, [], ◌∷◌, length, ◌==◌, arith,
}
use psa_for_multiparty.Common.Bits.{bit, xor}
use psa_for_multiparty.Share.{SharedBit}
use psa_for_multiparty.Share.Bit.{Shares, xor_shared_lem}
use psa_for_multiparty.Bag.{Bag, not_shared}
use psa_for_multiparty.Bag.Cost.{
  Outcome, IsGoodBag, Outcome-cost, Outcome-mono, Outcome-pure, Outcome-bind, Outcome-lift,
  Outcome-require, and_next_lem, not_shared_lem,
}
use psa_for_multiparty.Compare.{
  SharedU64Bin, bin_parties, eq_bits, and_level, and_tree, secure_equal, secure_equal_triple_cost,
}
use psa_for_multiparty.Compare.Word.{SharesAll, SharesAll-length, value_of, Holds, Holds-parties}

-- the conjunction of a row of bits
abbrev all_true : List Bool → Bool
all_true [] = true
all_true (p ∷ ps) = p && all_true ps

-- bitwise equality
abbrev same_bits : List Bool → List Bool → List Bool
same_bits [] qs = []
same_bits (p ∷ ps) [] = []
same_bits (p ∷ ps) (q ∷ qs) = not (xor p q) ∷ same_bits ps qs

-- the tree's next level, over the shared bits
abbrev pair_up : List Bool → List Bool
pair_up [] = []
pair_up (p ∷ []) = p ∷ []
pair_up (p ∷ q ∷ ps) = (p && q) ∷ pair_up ps

and_assoc : (p q r : Bool) → (p && (q && r)) ≡ (p && q && r)
and_assoc p q r = ground arith

all_true-pair_up : (ps : List Bool) → all_true (pair_up ps) ≡ all_true ps
all_true-pair_up [] = refl
all_true-pair_up (p ∷ []) = refl
all_true-pair_up (p ∷ q ∷ ps) = rw (all_true-pair_up ps) (sym (and_assoc p q (all_true ps)))

equal_digit :
    (p q : Bool) (x y : ℕ) → (not (xor p q) && (x == y)) ≡ ((bit p + 2 * x) == (bit q + 2 * y))
equal_digit true true x y = ground arith
equal_digit true false x y = ground arith
equal_digit false true x y = ground arith
equal_digit false false x y = ground arith

all_true-same_bits :
    (ps qs : List Bool)
    → length ps ≡ length qs
    → all_true (same_bits ps qs) ≡ (value_of ps == value_of qs)
all_true-same_bits [] [] h = refl
all_true-same_bits [] (q ∷ qs) h = absurd (omega arith)
all_true-same_bits (p ∷ ps) [] h = absurd (omega arith)
all_true-same_bits (p ∷ ps) (q ∷ qs) h =
    rw (all_true-same_bits ps qs (omega arith)) (equal_digit p q (value_of ps) (value_of qs))

length-pair_up : (p q : Bool) (ps : List Bool) → length (pair_up ps) ≤ length ps
length-pair_up p q [] = omega arith
length-pair_up p q (r ∷ []) = omega arith
length-pair_up p q (r ∷ s ∷ ps) = omega (arith, length-pair_up p q ps)

module _ {n : ℕ} (pos : 0 < n) {bag : Bag} (good : IsGoodBag n bag) where
  eq_bits_lem :
      (xs ys : List SharedBit) (ps qs : List Bool) {i : ℕ}
      → i ≤ length bag
      → SharesAll n xs ps
      → SharesAll n ys qs
      → length xs ≡ length ys
      → Outcome bag i 0
          (λ level. SharesAll n level (same_bits ps qs) × (length level ≡ length xs))
          (eq_bits xs ys)
  unfolding eq_bits
  eq_bits_lem [] ys [] qs fits hx hy e = Outcome-pure [] fits (tt, refl)
  eq_bits_lem [] ys (p ∷ ps) qs fits hx hy e = absurd hx
  eq_bits_lem (x ∷ xs) ys [] qs fits hx hy e = absurd hx
  eq_bits_lem (x ∷ xs) [] (p ∷ ps) qs fits hx hy e = absurd (omega arith)
  eq_bits_lem (x ∷ xs) (y ∷ ys) (p ∷ ps) [] fits hx hy e = absurd hy
  eq_bits_lem (x ∷ xs) (y ∷ ys) (p ∷ ps) (q ∷ qs) fits hx hy e =
      let (diff, diff_eq, diff_h) = xor_shared_lem hx.0 hy.0 in
      Outcome-lift _ diff_eq (
        Outcome-bind {c = 0} {d = 0} (eq_bits_lem xs ys ps qs fits hx.1 hy.1 (omega arith))
          λ rest fits' h.
            Outcome-pure (not_shared diff ∷ rest) fits'
              ((not_shared_lem pos diff_h, h.0), ap suc h.1))

  -- One level consumes a triple for each pair.
  and_level_lem :
      (xs : List SharedBit) (ps : List Bool) {i : ℕ}
      → i ≤ length bag
      → SharesAll n xs ps
      → Outcome bag i
          (length xs / 2)
          (λ level. SharesAll n level (pair_up ps) × (length level + length xs / 2 ≡ length xs))
          (and_level xs)
  unfolding and_level
  and_level_lem [] [] fits h = Outcome-cost {c = 0} refl (Outcome-pure [] fits (tt, refl))
  and_level_lem [] (p ∷ ps) fits h = absurd h
  and_level_lem (a ∷ []) [] fits h = absurd h
  and_level_lem (a ∷ []) (p ∷ []) fits h =
      Outcome-cost {c = 0} refl (Outcome-pure (a ∷ []) fits (h, refl))
  and_level_lem (a ∷ []) (p ∷ q ∷ ps) fits h = absurd h.1
  and_level_lem (a ∷ b ∷ rest) [] fits h = absurd h
  and_level_lem (a ∷ b ∷ rest) (p ∷ []) fits h = absurd h.1
  and_level_lem (a ∷ b ∷ rest) (p ∷ q ∷ ps) fits h =
      Outcome-cost {c = 1 + (length rest / 2 + 0)} (omega arith) (
        Outcome-bind (and_next_lem pos good fits h.0 h.1.0) λ ab fits1 h1.
          Outcome-bind {d = 0} (and_level_lem rest ps fits1 h.1.1) λ next fits2 h2.
            Outcome-pure (ab ∷ next) (omega (arith, fits2)) ((h1, h2.0), omega (arith, h2.1)))

  -- The tree over at least one bit, with as much fuel as bits, consumes a triple less than bits.
  and_tree_lem :
      (fuel : ℕ) (xs : List SharedBit) (ps : List Bool) {i : ℕ}
      → i ≤ length bag
      → SharesAll n xs ps
      → 0 < length xs
      → length xs ≤ suc fuel
      → Outcome bag i (length xs - 1) (λ r. Shares n r (all_true ps)) (and_tree fuel n xs)
  unfolding and_tree
  and_tree_lem fuel [] ps fits h nonempty enough = absurd (omega arith)
  and_tree_lem fuel (a ∷ []) [] fits h nonempty enough = absurd h
  and_tree_lem fuel (a ∷ []) (p ∷ []) fits h nonempty enough =
      Outcome-cost {c = 0} (omega arith) (Outcome-pure a fits (ground (arith, h.0)))
  and_tree_lem fuel (a ∷ []) (p ∷ q ∷ ps) fits h nonempty enough = absurd h.1
  and_tree_lem zero (a ∷ b ∷ rest) ps fits h nonempty enough = absurd (omega arith)
  and_tree_lem (suc fuel) (a ∷ b ∷ rest) ps {i} fits h nonempty enough =
      let xs = a ∷ b ∷ rest in
      Outcome-cost {c = length xs / 2 + (length xs - length xs / 2 - 1)} (omega arith) (
        Outcome-bind (and_level_lem xs ps fits h) λ next fits1 h1.
          Outcome-cost {c = length next - 1} (omega (arith, h1.1)) (
            Outcome-mono (λ r hr. rw (all_true-pair_up ps) at hr)
              (and_tree_lem fuel next (pair_up ps) fits1 h1.0 (omega (arith, h1.1))
                (omega (arith, h1.1)))))

  -- On words shared among the same parties, with a bag of triples for them, secure equality
  -- consumes exactly `secureEqualTripleCost()` triples, and its result shares whether the two words
  -- are equal; with fewer triples left it throws.
  pub secure_equal_lem :
      {i : ℕ} {x y : SharedU64Bin} {v w : ℕ}
      → i ≤ length bag
      → Holds n x v
      → Holds n y w
      → Outcome bag i secure_equal_triple_cost (λ r. Shares n r (v == w)) (secure_equal x y)
  unfolding secure_equal secure_equal_triple_cost
  secure_equal_lem {i} {x} {y} {v} {w} fits hx hy =
      Outcome-require (bin_parties x == bin_parties y) _
        (ground (arith, Holds-parties x hx, Holds-parties y hy))
        (Outcome-bind {c = 0} {d = 63}
          (eq_bits_lem x.bits y.bits hx.bools hy.bools fits hx.shared hy.shared
            (hx.width ∙ sym hy.width))
          λ level fits' h. Outcome-cost {c = length level - 1} (omega (arith, h.1, hx.width)) (
            Outcome-mono {P = λ r. Shares n r (all_true (same_bits hx.bools hy.bools))}
              (λ r hr.
                rw (← hx.value, ← hy.value)
                  (rw (all_true-same_bits hx.bools hy.bools widths) at hr))
              (rw (Holds-parties x hx) (
                and_tree_lem (length level) level (same_bits hx.bools hy.bools) fits' h.0
                  (omega (arith, h.1, hx.width)) (omega arith)))))
    where
      widths : length hx.bools ≡ length hy.bools
      widths = omega (
        arith,
        SharesAll-length n x.bits hx.bools hx.shared,
        SharesAll-length n y.bits hy.bools hy.shared,
        hx.width,
        hy.width,
      )

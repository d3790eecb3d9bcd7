-- ===== src/Compare/Less.antt =====
-- Secure less-than: what it computes, and the triples that it consumes.
use psa_for_multiparty.Common.{
  ℕ, zero, suc, ◌+◌, ◌*◌, ◌≤◌, ◌<◌, ◌≡◌, Bool, true, false, not, ◌&&◌, ◌||◌, List, length, drop,
  ltb, ◌==◌, arith,
}
use psa_for_multiparty.Common.Bits.{bit, xor}
use psa_for_multiparty.Share.{SharedBit}
use psa_for_multiparty.Share.Bit.{Shares, xor_shared_lem}
use psa_for_multiparty.Bag.{Bag, not_shared}
use psa_for_multiparty.Bag.Cost.{
  Outcome, IsGoodBag, Outcome-cost, Outcome-mono, Outcome-pure, Outcome-bind, Outcome-lift,
  Outcome-require, and_next_lem, not_shared_lem,
}
use psa_for_multiparty.Compare.{
  SharedU64Bin, bin_parties, secure_or, less_round, less_loop, secure_less_than,
  secure_less_than_triple_cost,
}
use psa_for_multiparty.Compare.Word.{
  SharesAll, SharesAll-get, value_of, Holds, Holds-drop, zero_bit_parties, Holds-parties,
}

de_morgan : (p q : Bool) → not (not p && not q) ≡ (p || q)
de_morgan p q = ground arith

-- the first difference that decides
abbrev first_difference : Bool → Bool → Bool → Bool
first_difference p q decided = xor p q && not decided

less_digit :
    (p q : Bool) (x y : ℕ)
    → (ltb x y || (first_difference p q (not (x == y)) && q)) ≡ ltb (bit p + 2 * x) (bit q + 2 * y)
less_digit true true x y = ground arith
less_digit true false x y = ground arith
less_digit false true x y = ground arith
less_digit false false x y = ground arith

decided_digit :
    (p q : Bool) (x y : ℕ)
    → (not (x == y) || first_difference p q (not (x == y)))
      ≡ not ((bit p + 2 * x) == (bit q + 2 * y))
decided_digit true true x y = ground arith
decided_digit true false x y = ground arith
decided_digit false true x y = ground arith
decided_digit false false x y = ground arith

module _ {n : ℕ} (pos : 0 < n) {bag : Bag} (good : IsGoodBag n bag) where
  pub secure_or_lem :
      {i : ℕ} {a b : SharedBit} {p q : Bool}
      → i ≤ length bag
      → Shares n a p
      → Shares n b q
      → Outcome bag i 1 (λ r. Shares n r (p || q)) (secure_or a b)
  unfolding secure_or
  secure_or_lem {i} {a} {b} {p} {q} fits ha hb =
      Outcome-bind {d = 0}
        (and_next_lem pos good fits (not_shared_lem pos ha) (not_shared_lem pos hb))
        λ r fits' hr.
          Outcome-pure (not_shared r) fits' (rw (de_morgan p q) at (not_shared_lem pos hr))

  less_round_lem :
      {i : ℕ} {x y result decided : SharedBit} {p q r d : Bool}
      → i ≤ length bag
      → Shares n x p
      → Shares n y q
      → Shares n result r
      → Shares n decided d
      → Outcome bag i 4
          (λ out.
            Shares n out.0 (r || (first_difference p q d && q))
            × Shares n out.1 (d || first_difference p q d))
          (less_round x y result decided)
  unfolding less_round
  less_round_lem {i} {x} {y} {result} {decided} {p} {q} {r} {d} fits hx hy hr hd =
      let (diff, diff_eq, diff_h) = xor_shared_lem hx hy in
      Outcome-lift _ diff_eq (
        Outcome-bind {d = 3} (and_next_lem pos good fits diff_h (not_shared_lem pos hd))
          λ first fits1 h1.
            Outcome-bind {d = 2} (and_next_lem pos good fits1 h1 hy) λ contrib fits2 h2.
              Outcome-bind {d = 1} (secure_or_lem fits2 hr h2) λ result' fits3 h3.
                Outcome-bind {d = 0} (secure_or_lem fits3 hd h1)
                  λ decided' fits4 h4. Outcome-pure (result', decided') fits4 (h3, h4))

  less_loop_lem :
      (k : ℕ) (xs ys : List SharedBit) (ps qs : List Bool)
      → {i : ℕ} {result decided : SharedBit} → i ≤ length bag
      → SharesAll n xs ps
      → SharesAll n ys qs
      → k ≤ length xs
      → k ≤ length ys
      → Shares n result (ltb (value_of (drop k ps)) (value_of (drop k qs)))
      → Shares n decided (not (value_of (drop k ps) == value_of (drop k qs)))
      → Outcome bag i
          (k * 4)
          (λ r. Shares n r (ltb (value_of ps) (value_of qs)))
          (less_loop k xs ys result decided)
  unfolding less_loop
  less_loop_lem zero xs ys ps qs {result = result} fits hx hy kx ky hr hd =
      Outcome-pure result fits hr
  less_loop_lem (suc k) xs ys ps qs fits hx hy kx ky hr hd =
      let (x, p, x_eq, x_h, x_v) = SharesAll-get n xs ps k hx (omega arith) in
      let (y, q, y_eq, y_h, y_v) = SharesAll-get n ys qs k hy (omega arith) in
      let vx = value_of (drop (suc k) ps) in
      let vy = value_of (drop (suc k) qs) in
      Outcome-cost {c = 4 + k * 4} (omega arith) (
        Outcome-lift _ x_eq (
          Outcome-lift _ y_eq (
            Outcome-bind (less_round_lem fits x_h y_h hr hd) λ r fits' h.
              less_loop_lem k xs ys ps qs fits' hx hy (omega arith) (omega arith)
                (rw (x_v, y_v, ← less_digit p q vx vy) h.0)
                (rw (x_v, y_v, ← decided_digit p q vx vy) h.1))))

  -- On words shared among the same parties, with a bag of triples for them, secure less-than consumes
  -- exactly `secureLessThanTripleCost()` triples, and its result shares the unsigned comparison of
  -- the two words; with fewer triples left it throws.
  pub secure_less_than_lem :
      {i : ℕ} {x y : SharedU64Bin} {v w : ℕ}
      → i ≤ length bag
      → Holds n x v
      → Holds n y w
      → Outcome bag i secure_less_than_triple_cost
          (λ r. Shares n r (ltb v w))
          (secure_less_than x y)
  unfolding secure_less_than secure_less_than_triple_cost
  secure_less_than_lem {i} {x} {y} {v} {w} fits hx hy =
      Outcome-require (bin_parties x == bin_parties y) _
        (ground (arith, Holds-parties x hx, Holds-parties y hy))
        (Outcome-mono (λ r h. rw (← hx.value, ← hy.value) h)
          (less_loop_lem 64 x.bits y.bits hx.bools hy.bools fits hx.shared hy.shared
            (omega (arith, hx.width)) (omega (arith, hy.width))
            (rw (Holds-drop x hx, Holds-drop y hy) (zero_bit_parties x hx))
            (rw (Holds-drop x hx, Holds-drop y hy) (zero_bit_parties x hx))))

-- ===== src/Arithmetic/Divide.antt =====
-- Long division: what it computes, and the triples that it consumes.
use psa_for_multiparty.Common.{
  ℕ, zero, suc, ◌+◌, ◌-◌, ◌*◌, ◌/◌, ◌%◌, ◌≤◌, ◌<◌, ◌≡◌, refl, ap, inl, inr, Bool, false, not, List,
  [], ◌∷◌, drop, replicate, length, length-replicate, dec_lt, ltb, ◌==◌, if◌then◌else◌, arith,
}
use psa_for_multiparty.Common.Bits.{bit}
use native.Mathlib.Nat.{mul-add-div_right, mul-add-mod_self_right, mod-eq_of_lt, div-eq_of_lt}
use psa_for_multiparty.Share.{u64, SharedBit, zero_bit}
use psa_for_multiparty.Share.Bit.{Shares, zero_bit_lem}
use psa_for_multiparty.Bag.{Bag}
use psa_for_multiparty.Bag.Cost.{
  Outcome, IsGoodBag, Outcome-cost, Outcome-pure, Outcome-bind, Outcome-lift, Outcome-require,
}
use psa_for_multiparty.Compare.{SharedU64Bin, bin_parties, secure_equal_triple_cost}
use psa_for_multiparty.Compare.Equal.{secure_equal_lem}
use psa_for_multiparty.Compare.Word.{
  SharesAll, SharesAll-get, SharesAll-lt, value_of, Holds, Holds-parties, Holds-drop,
}
use psa_for_multiparty.Arithmetic.{
  divide_loop, secure_divide_u64_bin, secure_divide_u64_bin_triple_cost,
}
use psa_for_multiparty.Arithmetic.Round.{
  IsPartial, IsPartial-step, value_of-drop-le, divide_round_lem,
}

-- What the loop has done: the remainder word, and the quotient bits found so far.
record Divided (n d p len : ℕ) (out : List SharedBit × List SharedBit) : Type 0 where
  r : ℕ
  bools : List Bool
  remainder : Holds n (record { bits = out.0 }) r
  quotient : SharesAll n out.1 bools
  width : length out.1 ≡ len
  partial : IsPartial d p (value_of bools) r len

zeros_shared :
    (n k : ℕ)
    → SharesAll n (replicate k (zero_bit n)) (replicate k false)
      × (value_of (replicate k false) ≡ 0)
zeros_shared n zero = (tt, refl)
zeros_shared n (suc k) = ((zero_bit_lem, (zeros_shared n k).0), omega (arith, (zeros_shared n k).1))

zeros_Holds : (n : ℕ) → Holds n (record { bits = replicate 64 (zero_bit n) }) 0
zeros_Holds n = record {
  bools = replicate 64 false;
  shared = (zeros_shared n 64).0;
  width = length-replicate 64 (zero_bit n);
  value = (zeros_shared n 64).1;
}

partial-le : {d p q r len : ℕ} → IsPartial d p q r len → r ≤ p
partial-le h = omega (arith, h.split)

partial_quotient : (d p q r : ℕ) → IsPartial d p q r 64 → (q ≡ (if d == 0 then u64 - 1 else p / d))
partial_quotient zero p q r h = ground (arith, h.small)
partial_quotient (suc d) p q r h = elim h.small [
  | inl lt ↦
      let quotient : p / suc d ≡ q =
        rw (← h.split, mul-add-div_right {m = suc d} (omega arith) q r, div-eq_of_lt lt)
          (omega arith) in
      ground (arith, quotient)
  | inr (e, f) ↦ absurd (omega arith)
]

partial_remainder : (d p q r : ℕ) → IsPartial d p q r 64 → (r ≡ (if d == 0 then p else p % d))
partial_remainder zero p q r h = omega (arith, h.split)
partial_remainder (suc d) p q r h = elim h.small [
  | inl lt ↦
      let remainder : p % suc d ≡ r =
        rw (← h.split, mul-add-mod_self_right q (suc d) r) (mod-eq_of_lt lt) in
      ground (arith, remainder)
  | inr (e, f) ↦ absurd (omega arith)
]

module _ {n : ℕ} (pos : 0 < n) {bag : Bag} (good : IsGoodBag n bag) where
  divide_loop_lem :
      (k len : ℕ) (nums : List SharedBit) (ps : List Bool) (denom : SharedU64Bin) {d : ℕ}
      → (rem quot : List SharedBit) → {i : ℕ} → i ≤ length bag
      → SharesAll n nums ps
      → length nums ≡ 64
      → Holds n denom d
      → k + len ≡ 64
      → Divided n d (value_of (drop k ps)) len (rem, quot)
      → Outcome bag i (k * 192) (Divided n d (value_of ps) 64) (divide_loop k nums denom rem quot)
  unfolding divide_loop
  divide_loop_lem zero len nums ps denom rem quot fits hn wn hd e h =
      let e' : len ≡ 64 = omega arith in Outcome-pure (rem, quot) fits (rw e' at h)
  divide_loop_lem (suc k) len nums ps denom {d} rem quot fits hn wn hd e h =
      let (b, p, b_eq, b_h, b_v) = SharesAll-get n nums ps k hn (omega arith) in
      let s_lt : bit p + 2 * h.r < u64 =
        omega
          (arith, b_v, partial-le h.partial, value_of-drop-le k ps, SharesAll-lt n nums ps hn wn) in
      Outcome-cost {c = 192 + k * 192} (omega arith) (
        Outcome-lift _ b_eq (
          Outcome-bind (divide_round_lem pos good rem denom fits b_h h.remainder hd s_lt)
            λ out fits1 ho.
              divide_loop_lem k (suc len) nums ps denom out.0 (out.1 ∷ quot) fits1 hn wn hd
                (omega arith)
                (record {
                  r = if ltb (bit p + 2 * h.r) d then bit p + 2 * h.r else bit p + 2 * h.r - d;
                  bools = not (ltb (bit p + 2 * h.r) d) ∷ h.bools;
                  remainder = ho.0;
                  quotient = (ho.1, h.quotient);
                  width = ap suc h.width;
                  partial = rw b_v (
                      IsPartial-step d (value_of (drop (suc k) ps)) (value_of h.bools) h.r len p
                        h.partial);
                })))

  -- On words shared among the same parties, with a bag of triples for them, division consumes
  -- exactly `secureDivideU64BinTripleCost()` triples. The outputs share the quotient and the remainder
  -- of the unsigned division, and whether the divisor is 0; by 0 the quotient is 2^64 - 1, and the
  -- remainder is the dividend. With fewer triples left it throws.
  pub secure_divide_u64_bin_lem :
      {i : ℕ} {x y : SharedU64Bin} {v w : ℕ}
      → i ≤ length bag
      → Holds n x v
      → Holds n y w
      → Outcome bag i secure_divide_u64_bin_triple_cost
          (λ r.
            Holds n r.quotient (if w == 0 then u64 - 1 else v / w)
            × Holds n r.remainder (if w == 0 then v else v % w)
            × Shares n r.div_by_zero (w == 0))
          (secure_divide_u64_bin x y)
  unfolding secure_divide_u64_bin secure_divide_u64_bin_triple_cost secure_equal_triple_cost
  secure_divide_u64_bin_lem {i} {x} {y} {v} {w} fits hx hy =
      Outcome-require (bin_parties x == bin_parties y) _
        (ground (arith, Holds-parties x hx, Holds-parties y hy))
        (rw (Holds-parties x hx) (
          Outcome-bind {c = 63} {d = 64 * 192} (secure_equal_lem pos good fits hy (zeros_Holds n))
            λ dbz fits1 hz.
              Outcome-bind {d = 0}
                (divide_loop_lem 64 0 x.bits hx.bools y (replicate 64 (zero_bit n)) [] fits1
                  hx.shared hx.width hy refl start)
                λ r fits2 h. Outcome-pure _ fits2 (
                  record {
                    bools = h.bools;
                    shared = h.quotient;
                    width = h.width;
                    value =
                        rw (← hx.value)
                          (partial_quotient w (value_of hx.bools) (value_of h.bools) h.r h.partial);
                  },
                  rw
                      (
                        partial_remainder w (value_of hx.bools) (value_of h.bools) h.r h.partial,
                        hx.value,
                      )
                      at h.remainder,
                  hz,
                )))
    where
      start : Divided n w (value_of (drop 64 hx.bools)) 0 (replicate 64 (zero_bit n), [])
      start = record {
        r = 0;
        bools = [];
        remainder = zeros_Holds n;
        quotient = tt;
        width = refl;
        partial = record {
          split = rw (Holds-drop x hx) (omega arith);
          small = elim (dec_lt 0 w) [ yes h ↦ inl h | no h ↦ inr (omega arith, refl) ];
        };
      }

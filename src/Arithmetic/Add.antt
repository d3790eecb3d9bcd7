-- ===== src/Arithmetic/Add.antt =====
-- The ripple-carry adder: what it computes, and the triples that it consumes.
use psa_for_multiparty.Common.{
  ℕ, suc, ◌+◌, ◌*◌, ◌%◌, ◌^◌, ◌≤◌, ◌<◌, ◌≡◌, refl, ap, Bool, true, false, ◌&&◌, List, [], ◌∷◌,
  length, leb, ◌==◌, arith,
}
use psa_for_multiparty.Common.Bits.{bit, xor}
use native.Mathlib.Nat.{pow-suc}
use psa_for_multiparty.Share.{u64, SharedBit}
use psa_for_multiparty.Share.Bit.{Shares, xor_shared_lem}
use psa_for_multiparty.Bag.{Bag}
use psa_for_multiparty.Bag.Cost.{
  Outcome, IsGoodBag, Outcome-cost, Outcome-mono, Outcome-pure, Outcome-bind, Outcome-lift,
  Outcome-require, and_next_lem,
}
use psa_for_multiparty.Compare.{SharedU64Bin, bin_parties}
use psa_for_multiparty.Compare.Word.{SharesAll, value_of, SharesAll-lt, Holds, Holds-parties}
use psa_for_multiparty.Arithmetic.{
  full_adder, add_rounds, add_bits, secure_add_u64_bin, secure_add_u64_bin_triple_cost,
}

full_adder_digit :
    (p q c : Bool)
    → bit (xor (xor p q) c) + 2 * bit (xor (p && q) (xor p q && c)) ≡ bit p + bit q + bit c
full_adder_digit p q c = ground arith

half_adder_digit : (p q : Bool) → bit (xor p q) + 2 * bit (p && q) ≡ bit p + bit q
half_adder_digit p q = ground arith

-- The bits and the carry together share the number `total`.
pub record Sum (n len total : ℕ) (r : List SharedBit × SharedBit) : Type 0 where
  pub bools : List Bool
  pub carry : Bool
  pub shared : SharesAll n r.0 bools
  pub carried : Shares n r.1 carry
  pub width : length r.0 ≡ len
  pub value : value_of bools + 2 ^ len * bit carry ≡ total

pow-suc-mul : (k b : ℕ) → 2 ^ suc k * b ≡ 2 * (2 ^ k * b)
pow-suc-mul k b = omega (arith, ap (λ (t : ℕ). t * b) (pow-suc 2 k))

Sum-cons :
    {n len total total' : ℕ} {s : SharedBit} {p : Bool} {r : List SharedBit × SharedBit}
    → Shares n s p
    → Sum n len total r
    → bit p + 2 * total ≡ total'
    → Sum n (suc len) total' (s ∷ r.0, r.1)
Sum-cons {len = len} {p = p} hs h e = record {
  bools = p ∷ h.bools;
  carry = h.carry;
  shared = (hs, h.shared);
  carried = h.carried;
  width = ap suc h.width;
  value = omega (arith, e, h.value, pow-suc-mul len (bit h.carry));
}

carry-leb : (c : Bool) (v total : ℕ) → v < u64 → v + u64 * bit c ≡ total → c ≡ leb u64 total
carry-leb true v total h e = ground arith
carry-leb false v total h e = ground arith

-- The bits share the number modulo 2^64, and the carry whether it reaches 2^64.
pub Sum-split :
    {n total : ℕ} (s : SharedU64Bin) (c : SharedBit)
    → Sum n 64 total (s.bits, c)
    → Holds n s (total % u64) × Shares n c (leb u64 total)
Sum-split {n} {total} s c h =
    let lt = SharesAll-lt n s.bits h.bools h.shared h.width in
    (
      record {
        bools = h.bools;
        shared = h.shared;
        width = h.width;
        value = omega (arith, h.value);
      },
      rw (carry-leb h.carry (value_of h.bools) total lt h.value) at h.carried,
    )

module _ {n : ℕ} (pos : 0 < n) {bag : Bag} (good : IsGoodBag n bag) where
  full_adder_lem :
      {i : ℕ} {x y carry : SharedBit} {p q c : Bool}
      → i ≤ length bag
      → Shares n x p
      → Shares n y q
      → Shares n carry c
      → Outcome bag i 2
          (λ r. Shares n r.0 (xor (xor p q) c) × Shares n r.1 (xor (p && q) (xor p q && c)))
          (full_adder x y carry)
  unfolding full_adder
  full_adder_lem fits hx hy hc =
      let (pr, pr_eq, pr_h) = xor_shared_lem hx hy in
      let (s, s_eq, s_h) = xor_shared_lem pr_h hc in
      Outcome-lift _ pr_eq (
        Outcome-bind {d = 1} (and_next_lem pos good fits hx hy) λ g fits1 g_h. Outcome-lift _ s_eq (
          Outcome-bind {d = 0} (and_next_lem pos good fits1 pr_h hc) λ pc fits2 pc_h.
            let (k, k_eq, k_h) = xor_shared_lem g_h pc_h in
            Outcome-lift _ k_eq (Outcome-pure (s, k) fits2 (s_h, k_h))))

  pub add_rounds_lem :
      (xs ys : List SharedBit) (ps qs : List Bool)
      → {i : ℕ} {carry : SharedBit} {c : Bool} → i ≤ length bag
      → SharesAll n xs ps
      → SharesAll n ys qs
      → length xs ≡ length ys
      → Shares n carry c
      → Outcome bag i
          (length xs * 2)
          (Sum n (length xs) (value_of ps + value_of qs + bit c))
          (add_rounds carry xs ys)
  unfolding add_rounds
  add_rounds_lem [] [] [] [] {carry = carry} {c = c} fits hx hy e hc =
      Outcome-pure ([], carry) fits
        (record {
          bools = [];
          carry = c;
          shared = tt;
          carried = hc;
          width = refl;
          value = omega arith;
        })
  add_rounds_lem [] (y ∷ ys) ps qs fits hx hy e hc = absurd (omega arith)
  add_rounds_lem [] [] (p ∷ ps) qs fits hx hy e hc = absurd hx
  add_rounds_lem [] [] [] (q ∷ qs) fits hx hy e hc = absurd hy
  add_rounds_lem (x ∷ xs) [] ps qs fits hx hy e hc = absurd (omega arith)
  add_rounds_lem (x ∷ xs) (y ∷ ys) [] qs fits hx hy e hc = absurd hx
  add_rounds_lem (x ∷ xs) (y ∷ ys) (p ∷ ps) [] fits hx hy e hc = absurd hy
  add_rounds_lem (x ∷ xs) (y ∷ ys) (p ∷ ps) (q ∷ qs) {c = c} fits hx hy e hc =
      Outcome-cost {c = 2 + (length xs * 2 + 0)} (omega arith) (
        Outcome-bind (full_adder_lem fits hx.0 hy.0 hc) λ r fits1 h.
          Outcome-bind {d = 0} (add_rounds_lem xs ys ps qs fits1 hx.1 hy.1 (omega arith) h.1)
            λ rest fits2 hs.
              Outcome-pure (r.0 ∷ rest.0, rest.1) fits2
                (Sum-cons h.0 hs (omega (arith, full_adder_digit p q c))))

  add_bits_lem :
      (xs ys : List SharedBit) (ps qs : List Bool)
      → {i : ℕ} → i ≤ length bag
      → SharesAll n xs ps
      → SharesAll n ys qs
      → length xs ≡ 64
      → length ys ≡ 64
      → Outcome bag i 127
          (λ r. Sum n 64 (value_of ps + value_of qs) (r.sum.bits, r.carry_out))
          (add_bits xs ys)
  unfolding add_bits
  add_bits_lem [] ys ps qs fits hx hy ex ey = absurd (omega arith)
  add_bits_lem (x ∷ xs) [] ps qs fits hx hy ex ey = absurd (omega arith)
  add_bits_lem (x ∷ xs) (y ∷ ys) [] qs fits hx hy ex ey = absurd hx
  add_bits_lem (x ∷ xs) (y ∷ ys) (p ∷ ps) [] fits hx hy ex ey = absurd hy
  add_bits_lem (x ∷ xs) (y ∷ ys) (p ∷ ps) (q ∷ qs) fits hx hy ex ey =
      let (s, s_eq, s_h) = xor_shared_lem hx.0 hy.0 in
      Outcome-lift _ s_eq (
        Outcome-bind {d = 126} (and_next_lem pos good fits hx.0 hy.0) λ carry fits1 hc.
          Outcome-cost {c = length xs * 2 + 0} (omega arith) (
            Outcome-bind {d = 0} (add_rounds_lem xs ys ps qs fits1 hx.1 hy.1 (omega arith) hc)
              λ rest fits2 hs. Outcome-pure _ fits2 (
                rw ex at (
                  Sum-cons {total' = bit p + 2 * value_of ps + (bit q + 2 * value_of qs)} s_h hs
                    (omega (arith, half_adder_digit p q))))))

  -- On words shared among the same parties, with a bag of triples for them, the adder consumes exactly
  -- `secureAddU64BinTripleCost()` triples; `sum` shares the sum modulo 2^64, and `carryOut` shares
  -- whether the sum reaches 2^64. With fewer triples left it throws.
  pub secure_add_u64_bin_lem :
      {i : ℕ} {x y : SharedU64Bin} {v w : ℕ}
      → i ≤ length bag
      → Holds n x v
      → Holds n y w
      → Outcome bag i secure_add_u64_bin_triple_cost
          (λ r. Holds n r.sum ((v + w) % u64) × Shares n r.carry_out (leb u64 (v + w)))
          (secure_add_u64_bin x y)
  unfolding secure_add_u64_bin secure_add_u64_bin_triple_cost
  secure_add_u64_bin_lem {i} {x} {y} {v} {w} fits hx hy =
      Outcome-require (bin_parties x == bin_parties y) _
        (ground (arith, Holds-parties x hx, Holds-parties y hy))
        (Outcome-mono
          (λ r h.
            rw (hx.value, hy.value) at
              (Sum-split {n = n} {total = value_of hx.bools + value_of hy.bools} r.sum r.carry_out
                h))
          (add_bits_lem x.bits y.bits hx.bools hy.bools fits hx.shared hy.shared hx.width hy.width))

-- ===== src/Arithmetic/Sub.antt =====
-- Subtraction by two's complement: what it computes, and the triples that it consumes.
use psa_for_multiparty.Common.{
  ℕ, ◌+◌, ◌-◌, ◌*◌, ◌%◌, ◌^◌, ◌≤◌, ◌<◌, ◌≡◌, refl, sym, ap, ◌∙◌, subst, Bool, true, false, not,
  List, [], ◌∷◌, map, length, length-map, ltb, leb, ◌==◌, arith,
}
use psa_for_multiparty.Common.Bits.{bit}
use native.Mathlib.Nat.{pow-suc}
use psa_for_multiparty.Share.{u64, SharedBit, one_bit}
use psa_for_multiparty.Share.Bit.{Shares, one_bit_lem}
use psa_for_multiparty.Bag.{Bag, not_shared}
use psa_for_multiparty.Bag.Cost.{
  Outcome, IsGoodBag, Outcome-cost, Outcome-pure, Outcome-bind, Outcome-require, not_shared_lem,
}
use psa_for_multiparty.Compare.{SharedU64Bin, bin_parties}
use psa_for_multiparty.Compare.Word.{
  SharesAll, SharesAll-length, value_of, Holds, Holds-parties, Holds-lt,
}
use psa_for_multiparty.Arithmetic.{secure_sub_u64_bin, secure_sub_u64_bin_triple_cost}
use psa_for_multiparty.Arithmetic.Add.{Sum, Sum-split, add_rounds_lem}

map_not_lem :
    {n : ℕ} (ys : List SharedBit) (qs : List Bool)
    → 0 < n
    → SharesAll n ys qs
    → SharesAll n (map not_shared ys) (map not qs)
map_not_lem [] [] pos h = tt
map_not_lem [] (q ∷ qs) pos h = absurd h
map_not_lem (y ∷ ys) [] pos h = absurd h
map_not_lem (y ∷ ys) (q ∷ qs) pos h = (not_shared_lem pos h.0, map_not_lem ys qs pos h.1)

bit-not : (q : Bool) → bit (not q) + bit q ≡ 1
bit-not true = refl
bit-not false = refl

-- the complement of a row of bits
value_of-not : (qs : List Bool) → value_of (map not qs) + value_of qs + 1 ≡ 2 ^ length qs
value_of-not [] = refl
value_of-not (q ∷ qs) = omega (arith, bit-not q, value_of-not qs, pow-suc 2 (length qs))

borrow-ltb : (v w : ℕ) → v < u64 → w < u64 → not (leb u64 (v + (u64 - w))) ≡ ltb v w
borrow-ltb v w h k = ground arith

module _ {n : ℕ} (pos : 0 < n) {bag : Bag} (good : IsGoodBag n bag) where
  -- On words shared among the same parties, with a bag of triples for them, subtraction consumes
  -- exactly `secureSubU64BinTripleCost()` triples; `diff` shares the difference modulo 2^64, and
  -- `borrowOut` shares whether the first word is below the second. With fewer triples left it throws.
  pub secure_sub_u64_bin_lem :
      {i : ℕ} {x y : SharedU64Bin} {v w : ℕ}
      → i ≤ length bag
      → Holds n x v
      → Holds n y w
      → Outcome bag i secure_sub_u64_bin_triple_cost
          (λ r. Holds n r.diff ((v + (u64 - w)) % u64) × Shares n r.borrow_out (ltb v w))
          (secure_sub_u64_bin x y)
  unfolding secure_sub_u64_bin secure_sub_u64_bin_triple_cost
  secure_sub_u64_bin_lem {i} {x} {y} {v} {w} fits hx hy =
      Outcome-require (bin_parties x == bin_parties y) _
        (ground (arith, Holds-parties x hx, Holds-parties y hy))
        (Outcome-cost {c = length x.bits * 2 + 0} (omega (arith, hx.width)) (
          Outcome-bind {d = 0}
            (add_rounds_lem pos good x.bits (map not_shared y.bits) hx.bools (map not hy.bools) fits
              hx.shared (map_not_lem y.bits hy.bools pos hy.shared)
              (omega (arith, hx.width, hy.width, length-map y.bits not_shared)) carry)
            λ r fits1 h.
              let (d, b) = Sum-split (record { bits = r.0 }) r.1 (fit r h) in
              Outcome-pure _ fits1
                (d, rw (borrow-ltb v w (Holds-lt x hx) (Holds-lt y hy)) at (not_shared_lem pos b))))
    where
      carry : Shares n (one_bit (bin_parties x)) true
      carry = subst (λ k. Shares n (one_bit k) true) (sym (Holds-parties x hx)) (one_bit_lem pos)

      total_eq : value_of hx.bools + value_of (map not hy.bools) + 1 ≡ v + (u64 - w)
      total_eq = omega (
        arith,
        hx.value,
        hy.value,
        Holds-lt y hy,
        value_of-not hy.bools,
        ap (λ (k : ℕ). 2 ^ k) (SharesAll-length n y.bits hy.bools hy.shared ∙ hy.width),
      )

      fit :
          (r : List SharedBit × SharedBit)
          → Sum n (length x.bits) (value_of hx.bools + value_of (map not hy.bools) + 1) r
          → Sum n 64 (v + (u64 - w)) r
      fit r h = rw (hx.width, total_eq) at h

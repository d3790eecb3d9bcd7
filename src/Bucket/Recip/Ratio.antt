-- ===== src/Bucket/Recip/Ratio.antt =====
-- The fixed-point ratio of two words.
use psa_for_multiparty.Common.{
  ◌+◌, ℕ, ◌*◌, ◌/◌, ◌^◌, ◌≤◌, ◌<◌, ◌≡◌, refl, ap, true, some, leb, arith,
}
use psa_for_multiparty.Common.Fail.{◌>>=◌}
use native.Mathlib.Nat.{mul-le-mul_left, mul-le-mul_right}
use psa_for_multiparty.Bucket.Recip.{fp_from_u64, fp_ratio}
use psa_for_multiparty.Bucket.Recip.Newton.{fp_mul_lem}
use psa_for_multiparty.Bucket.Recip.Accuracy.{goldschmidt_recip_lem}

-- The ratio of two words: as close as the rounding of the reciprocal allows.
pub record IsRatio (num den q : ℕ) : Type 0 where
  pub lower : num * 2 ^ 40 ≤ q * den + num * (den + 1)
  pub upper : den ≤ 2 ^ 40 → q * den ≤ num * (2 ^ 40 + 2)
  pub twice : q * den ≤ 2 * (num * 2 ^ 40)

-- For a denominator from 1 to 2^63 and a numerator of at most 2^46 times the denominator, the ratio
-- is computed with no value out of range. In units of 2^-40 it is below the exact ratio by at most
-- num + num / den; above it by at most 2 * num / den, for a denominator of at most 2^40; and never
-- above its double.
pub fp_ratio_lem :
    (num den : ℕ)
    → 1 ≤ den
    → den ≤ 2 ^ 63
    → num ≤ 2 ^ 46 * den
    → (q : ℕ) × (fp_ratio num den ≡ some q) × IsRatio num den q
unfolding fp_ratio
fp_ratio_lem num den pos le ratio =
    let (inv, run, bound) = goldschmidt_recip_lem den pos le in
    let positive : leb 1 den ≡ true = ground arith in
    let grown = mul-le-mul_right inv ratio in
    let whole = mul-le-mul_left num (at_most (den * inv) bound.twice) in
    let low = mul-le-mul_left num bound.lower in
    let exact =
      ap (λ (t : ℕ). t * den) (quotient (num * inv) (fp_from_u64 num * inv) (omega arith)) in
    (
      fp_from_u64 num * inv / 2 ^ 40,
      rw
          (
            positive,
            run,
            ◌>>=◌,
            fp_mul_lem (fp_from_u64 num) inv (omega (arith, grown, bound.twice)),
          )
          refl,
      record {
        lower = omega (arith, low, exact);
        upper = λ small. omega (arith, mul-le-mul_left num (bound.upper small), exact);
        twice = omega (arith, whole, exact);
      },
    )
  where
    at_most : (t : ℕ) → t < 2 ^ 41 → t ≤ 2 ^ 41
    at_most t h = omega arith

    quotient : (t s : ℕ) → s ≡ 2 ^ 40 * t → s / 2 ^ 40 ≡ t
    quotient t s e = omega arith

-- ===== src/Bucket/Recip.antt =====
-- The fixed-point reciprocal and ratio of volePSI/MpsvsRatioBucket.cpp, with 40 fractional bits in
-- `__int128`. What is undefined in the source, a shift by 64 or a product of 2^127 and more, is `none`
-- here, as is a difference below 0, which the source would carry on with.
pub mod Newton
pub mod Accuracy
pub mod Ratio
use psa_for_multiparty.Common.{
  ℕ, zero, suc, ◌+◌, ◌-◌, ◌*◌, ◌/◌, ◌^◌, Option, none, some, ltb, leb, ◌==◌, if◌then◌else◌,
}
use psa_for_multiparty.Common.Fail.{◌>>=◌, ◌>>◌, require}

-- `kFpFractionalBits`
abbrev pub fp_fractional_bits : ℕ
fp_fractional_bits = 40

unfoldable pub fp_mul : ℕ → ℕ → Option ℕ
fp_mul a b = if ltb (a * b) (2 ^ 127) then some (a * b / 2 ^ fp_fractional_bits) else none

abbrev pub fp_two : ℕ
fp_two = 2 * 2 ^ fp_fractional_bits

abbrev pub fp_from_u64 : ℕ → ℕ
fp_from_u64 v = v * 2 ^ fp_fractional_bits

-- a difference that is not negative
unfoldable pub fp_sub : ℕ → ℕ → Option ℕ
fp_sub a b = if leb b a then some (a - b) else none

-- `while ((1ULL << p) < x) ++p`, with shifts below 64
unfoldable pub range_power : ℕ → ℕ → ℕ → Option ℕ
range_power zero p x = none
range_power (suc fuel) p x =
    let rest = range_power fuel (p + 1) x in if ltb (2 ^ p) x then rest else some p

unfoldable pub x_prime : ℕ → ℕ → ℕ
x_prime x p =
    if leb p fp_fractional_bits
    then x * 2 ^ (fp_fractional_bits - p)
    else x / 2 ^ (p - fp_fractional_bits)

-- `for (t = 0; t < iterations; ++t)`
unfoldable pub newton : ℕ → ℕ → ℕ → Option ℕ
newton zero x y = some y
newton (suc iterations) x y = do
  xy ← fp_mul x y
  two_minus_xy ← fp_sub fp_two xy
  y' ← fp_mul y two_minus_xy
  newton iterations x y'

unfoldable pub goldschmidt_recip : ℕ → ℕ → Option ℕ
goldschmidt_recip x iterations =
    require (leb 1 x)
    >> (range_power 64 0 x >>= λ p. fp_sub (3 * 2 ^ fp_fractional_bits) (2 * x_prime x p) >>= λ y0.
        newton iterations (x_prime x p) y0 >>= λ y. some (y / 2 ^ p))

unfoldable pub fp_ratio : ℕ → ℕ → Option ℕ
fp_ratio num den =
    require (leb 1 den) >> (goldschmidt_recip den 6 >>= λ inv. fp_mul (fp_from_u64 num) inv)

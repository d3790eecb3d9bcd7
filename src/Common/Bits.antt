-- ===== src/Common/Bits.antt =====
-- `&`, `^`, `|` and `<<` on machine words, as far as the code uses them on single bits.
use Prim.Native.Nat.{
  ℕ, zero, suc, ◌+◌, ◌*◌, ◌/◌, ◌%◌, ◌^◌, ◌≤◌, ◌<◌, min, max, differ, bit_and, bit_or, bit_xor,
  digits, bit_and-bitwise, bit_or-bitwise, bit_xor-bitwise,
}
use mathlib.Core.Path.{◌≡◌, refl, ap}
use mathlib.Core.Bool.{Bool, true, false}
use native.Mathlib.Nat.{pow-suc}
use native.Mathlib.Omega.{arith}

-- A bit as the number that the code stores for it.
abbrev pub bit : Bool → ℕ
bit true = 1
bit false = 0

pub bit-lt-two : (b : Bool) → bit b < 2
bit-lt-two true = omega arith
bit-lt-two false = omega arith

pub bit-injective : (p q : Bool) → bit p ≡ bit q → p ≡ q
bit-injective p q h = ground arith

differ-mod-two : (a b : ℕ) → a < 2 → b < 2 → differ a b % 2 ≡ (a + b) % 2
differ-mod-two zero zero h k = refl
differ-mod-two zero (suc zero) h k = refl
differ-mod-two zero (suc (suc b)) h k = absurd (omega arith)
differ-mod-two (suc zero) zero h k = refl
differ-mod-two (suc zero) (suc zero) h k = refl
differ-mod-two (suc zero) (suc (suc b)) h k = absurd (omega arith)
differ-mod-two (suc (suc a)) b h k = absurd (omega arith)

-- The low bit of `a ^ b`.
pub bit_xor-mod-two : (a b : ℕ) → bit_xor a b % 2 ≡ (a + b) % 2
bit_xor-mod-two zero b = omega (arith, bit_xor-bitwise 0 b)
bit_xor-mod-two (suc a) b = omega (
  arith,
  bit_xor-bitwise (suc a) b,
  differ-mod-two (suc a % 2) (b % 2) (omega arith) (omega arith),
)

and_digits-zero : (n a : ℕ) → digits (λ b. zero) min n a 0 ≡ 0
and_digits-zero zero a = refl
and_digits-zero (suc n) zero = refl
and_digits-zero (suc n) (suc a) = omega (arith, and_digits-zero n (suc a / 2))

-- `a & 1`
pub bit_and-one : (a : ℕ) → bit_and a 1 ≡ a % 2
bit_and-one zero = refl
bit_and-one (suc a) = omega (arith, bit_and-bitwise (suc a) 1, and_digits-zero a (suc a / 2))

-- `a & 0`
pub bit_and-zero : (a : ℕ) → bit_and a 0 ≡ 0
bit_and-zero zero = refl
bit_and-zero (suc a) = omega (arith, bit_and-bitwise (suc a) 0, and_digits-zero (suc a) (suc a))

-- `a & d` for a bit `d`
pub bit_and-bit : (a : ℕ) (d : Bool) → bit_and a (bit d) ≡ a * bit d % 2
bit_and-bit a true = omega (arith, bit_and-one a)
bit_and-bit a false = omega (arith, bit_and-zero a)

or_digits : (i n v b : ℕ) → v ≤ n → v < 2 ^ i → digits (λ y. y) max n v (b * 2 ^ i) ≡ v + b * 2 ^ i
or_digits i zero v b h k = omega arith
or_digits i (suc n) zero b h k = omega arith
or_digits zero (suc n) (suc v) b h k = absurd (omega arith)
or_digits (suc i) (suc n) (suc v) b h k =
    let double : b * 2 ^ suc i ≡ 2 * (b * 2 ^ i) =
      omega (arith, ap (λ (t : ℕ). b * t) (pow-suc 2 i)) in
    rw double (
      omega (
        arith,
        pow-suc 2 i,
        ap (λ (t : ℕ). digits (λ y. y) max n (suc v / 2) t) (halve (b * 2 ^ i)),
        or_digits i n (suc v / 2) b (omega arith) (omega (arith, pow-suc 2 i)),
      ))
  where
    halve : (t : ℕ) → 2 * t / 2 ≡ t
    halve t = omega arith

-- `v | (b << i)` sets a field above `v`.
pub bit_or_field : (i v b : ℕ) → v < 2 ^ i → bit_or v (b * 2 ^ i) ≡ v + b * 2 ^ i
bit_or_field i v b h =
    omega (arith, bit_or-bitwise v (b * 2 ^ i), or_digits i v v b (omega arith) h)

abbrev pub xor : Bool → Bool → Bool
xor true true = false
xor true false = true
xor false q = q

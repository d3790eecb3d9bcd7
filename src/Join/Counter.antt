-- ===== src/Join/Counter.antt =====
-- The mixed-radix counter of the expansion: after `v` increments it holds the digits of `v`.
use psa_for_multiparty.Common.{
  ℕ, zero, suc, ◌+◌, ◌*◌, ◌/◌, ◌%◌, ◌<◌, ◌≡◌, refl, ap, ◌∙◌, List, [], ◌∷◌, length, replicate, ltb,
  All, arith, Bool-cases, inl, inr,
}
use native.Mathlib.Nat.{
  div-add-mod, mod-lt, add-mul-mod_self_left, mod-eq_of_lt, add-mul-div_left, div-eq_of_lt,
  zero-mod, zero-div,
}
use psa_for_multiparty.Join.{increment}

-- The `n` lowest digits of `v` in base `m`, the lowest first.
abbrev pub digits_of : ℕ → ℕ → ℕ → List ℕ
digits_of m zero v = []
digits_of m (suc n) v = v % m ∷ digits_of m n (v / m)

pub length-digits_of : (m n v : ℕ) → length (digits_of m n v) ≡ n
length-digits_of m zero v = refl
length-digits_of m (suc n) v = ap suc (length-digits_of m n (v / m))

pub digits_of-All : (m n v : ℕ) → 0 < m → All (λ d. d < m) (digits_of m n v)
digits_of-All m zero v pos = tt
digits_of-All m (suc n) v pos = (mod-lt v pos, digits_of-All m n (v / m) pos)

-- Quotient and remainder are determined by their equation.
quotient : (m v q r : ℕ) → r < m → v ≡ r + m * q → (v % m ≡ r) × (v / m ≡ q)
quotient m v q r lt e = (
  ap (λ t. t % m) e ∙ add-mul-mod_self_left r m q ∙ mod-eq_of_lt lt,
  ap (λ t. t / m) e
      ∙ add-mul-div_left r q (omega (arith, lt))
      ∙ ap (λ t. t + q) (div-eq_of_lt lt)
      ∙ omega arith,
)

pub increment-digits_of :
    (m n v : ℕ) → 0 < m → increment m (digits_of m n v) ≡ digits_of m n (v + 1)
unfolding increment
increment-digits_of m zero v pos = refl
increment-digits_of m (suc n) v pos =
    let q = v / m in
    let r = v % m in
    let parts : v ≡ r + m * q = omega (arith, div-add-mod v m) in
    elim (Bool-cases (ltb (r + 1) m)) [
      | inl stays ↦
          let (rem, quo) =
            quotient m (v + 1) q (r + 1) (ground (arith, stays)) (omega (arith, parts)) in
          rw (stays, rem, quo) refl
      | inr carries ↦
          let full : r + 1 ≡ m = ground (arith, carries, mod-lt v pos) in
          let (rem, quo) = quotient m (v + 1) (q + 1) 0 pos (omega (arith, parts, full)) in
          rw (carries, rem, quo) (ap (λ t. 0 ∷ t) (increment-digits_of m n q pos))
    ]

pub digits_of-zero : (m n : ℕ) → replicate n 0 ≡ digits_of m n 0
digits_of-zero m zero = refl
digits_of-zero m (suc n) = rw (zero-mod m, zero-div m) (ap (λ t. 0 ∷ t) (digits_of-zero m n))

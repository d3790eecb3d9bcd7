-- ===== src/Bucket/Recip/Accuracy.antt =====
-- How close the reciprocal is: each iteration squares the error.
use psa_for_multiparty.Common.{
  ℕ, zero, suc, ◌+◌, ◌-◌, ◌*◌, ◌/◌, ◌^◌, ◌≤◌, ◌<◌, ◌≡◌, refl, sym, ap, ◌∙◌, subst, true, some, leb,
  dec_lt, arith,
}
use native.Mathlib.Nat.{mul-le-mul_left, mul-le-mul_right, one-le-pow, mod-lt, mod-add-div}
use psa_for_multiparty.Bucket.Recip.{fp_two, x_prime, newton, goldschmidt_recip}
use psa_for_multiparty.Bucket.Recip.Newton.{
  IsIterate, step-IsIterate, fp_mul_lem, fp_sub_lem, range_power_lem, power_sum, x_prime-IsReduced,
  first_square,
}

-- The product of an argument and its iterate is within a distance of 1.
abbrev IsClose : ℕ → ℕ → Type 0
IsClose d z = (2 ^ 80 ≤ z + d) × (z ≤ 2 ^ 80 + d)

-- The distance before so many iterations.
abbrev distance : ℕ → ℕ
distance zero = 2 ^ 41
distance (suc zero) = 2 ^ 41
distance (suc (suc zero)) = 2 ^ 47
distance (suc (suc (suc zero))) = 2 ^ 63
distance (suc (suc (suc (suc zero)))) = 2 ^ 71
distance (suc (suc (suc (suc (suc zero))))) = 2 ^ 75
distance (suc (suc (suc (suc (suc (suc n)))))) = 2 ^ 77

distance_step : (n : ℕ) → distance (suc n) * distance (suc n) + 2 ^ 120 ≤ 2 ^ 80 * distance n
distance_step zero = omega arith
distance_step (suc zero) = omega arith
distance_step (suc (suc zero)) = omega arith
distance_step (suc (suc (suc zero))) = omega arith
distance_step (suc (suc (suc (suc zero)))) = omega arith
distance_step (suc (suc (suc (suc (suc zero))))) = omega arith
distance_step (suc (suc (suc (suc (suc (suc n)))))) = omega arith

distance-least : (n : ℕ) → 2 ^ 40 ≤ distance n
distance-least zero = omega arith
distance-least (suc zero) = omega arith
distance-least (suc (suc zero)) = omega arith
distance-least (suc (suc (suc zero))) = omega arith
distance-least (suc (suc (suc (suc zero)))) = omega arith
distance-least (suc (suc (suc (suc (suc zero))))) = omega arith
distance-least (suc (suc (suc (suc (suc (suc n)))))) = omega arith

-- The square of a difference.
square_close : (z f d : ℕ) → f ≤ z + d → z ≤ f + d → z * z + f * f ≤ 2 * (f * z) + d * d
square_close z f d low high = elim (dec_lt z f) [
  | yes h ↦ ordered z (f - z) f d (omega arith) (omega arith)
  | no h ↦ omega (arith, ordered f (z - f) z d (omega arith) (omega arith))
]
  where
    ordered : (a e b d : ℕ) → b ≡ a + e → e ≤ d → a * a + b * b ≤ 2 * (b * a) + d * d
    ordered a e b d eq le =
        let small = mul-le-mul_left e le in
        let large = mul-le-mul_right d le in rw eq (omega (arith, small, large))

-- One iteration.
step-lower :
    (x y d d' : ℕ)
    → x ≤ 2 ^ 40
    → IsClose d (x * y)
    → x * y / 2 ^ 40 ≤ fp_two
    → d * d + 2 ^ 120 ≤ 2 ^ 80 * d'
    → 2 ^ 80 ≤ x * (y * (fp_two - x * y / 2 ^ 40) / 2 ^ 40) + d'
step-lower x y d d' high close z_small squared =
    let z = x * y in
    let k = z / 2 ^ 40 in
    let w = fp_two - k in
    let y' = y * w / 2 ^ 40 in
    let part : y * w ≤ 2 ^ 40 * y' + (2 ^ 40 - 1) = omega arith in
    let scaled = mul-le-mul_left x part in
    let rest = mul-le-mul_right (2 ^ 40 - 1) high in
    let narrow : 2 * 2 ^ 80 ≤ 2 ^ 40 * w + z = omega (arith, z_small) in
    let widened = mul-le-mul_left z narrow in
    let square = square_close z (2 ^ 80) d close.0 close.1 in
    omega (arith, scaled, rest, widened, square, squared)

newton-IsClose :
    (n x y : ℕ)
    → 2 ^ 40 ≤ 2 * x
    → x ≤ 2 ^ 40
    → IsIterate x y
    → IsClose (distance n) (x * y)
    → (y' : ℕ) × (newton n x y ≡ some y') × IsIterate x y' × IsClose (2 ^ 41) (x * y')
unfolding newton
newton-IsClose zero x y low high it close = (y, refl, it, close)
newton-IsClose (suc n) x y low high it close =
    let (z_small, fits, next, above) = step-IsIterate x y low it in
    let below =
      step-lower x y (distance (suc n)) (distance n) high close z_small (distance_step n) in
    let (y', e, last, near) =
      newton-IsClose n x _ low high next (below, omega (arith, above, distance-least n)) in
    (
      y',
      rw
          (
            fp_mul_lem x y (omega (arith, it.product)),
            fp_sub_lem fp_two (x * y / 2 ^ 40) z_small,
            fp_mul_lem y (fp_two - x * y / 2 ^ 40) fits,
          )
          e,
      last,
      near,
    )

first_lower : (F X : ℕ) → X ≤ F → F ≤ 2 * X → F * F ≤ X * (3 * F - 2 * X)
first_lower F X high low = at (F - X) F (omega arith) (omega arith)
  where
    at : (a F : ℕ) → F ≡ X + a → a ≤ X → F * F ≤ X * (3 * F - 2 * X)
    at a F e le =
        let square = mul-le-mul_left a le in
        let parts : 3 * (X + a) - 2 * X ≡ X + 3 * a = omega arith in
        rw (e, parts) (omega (arith, square))

-- The reciprocal of `x`: within the rounding of one unit of `x`.
pub record IsReciprocal (x r : ℕ) : Type 0 where
  pub lower : 2 ^ 40 ≤ x * r + x + 1
  pub upper : x ≤ 2 ^ 40 → x * r ≤ 2 ^ 40 + 2
  pub twice : x * r < 2 ^ 41

scaled-left :
    (x q D y : ℕ)
    → 2 ^ q * D ≡ 2 ^ 40
    → 1 ≤ x * D
    → IsClose (2 ^ 41) (x * D * y)
    → (2 ^ 40 ≤ x * (y / 2 ^ q) + x + 1) × (x * (y / 2 ^ q) ≤ 2 ^ 40 + 2)
scaled-left x q D y e some_x close =
    let r = y / 2 ^ q in
    let whole = mod-add-div y (2 ^ q) in
    let rest = mod-lt y {m = 2 ^ q} (one-le-pow q 2 (omega arith)) in
    let over : y + 1 ≤ 2 ^ q * (r + 1) = omega (arith, whole, rest) in
    let under : 2 ^ q * r ≤ y = omega (arith, whole) in
    let high = mul-le-mul_left (x * D) over in
    let low = mul-le-mul_left (x * D) under in
    let unit = ap (λ (t : ℕ). x * t * (r + 1)) e in
    let unit' = ap (λ (t : ℕ). x * t * r) e in
    (omega (arith, high, unit, close.0, some_x), omega (arith, low, unit', close.1))

far-above : (x q : ℕ) → 40 < q → 2 ^ q < 2 * x → 2 ^ 40 < x
far-above x q above lt =
    let split : 41 + (q - 41) ≡ q = omega arith in
    let power = power_sum 41 (q - 41) in
    let some_power : 1 ≤ 2 ^ (q - 41) = one-le-pow (q - 41) 2 (omega arith) in
    omega (arith, power, ap (λ (t : ℕ). 2 ^ t) split, some_power, lt)

scaled-back :
    (x q y : ℕ)
    → x ≤ 2 ^ q
    → 2 ^ q < 2 * x
    → IsClose (2 ^ 41) (x_prime x q * y)
    → (2 ^ 40 ≤ x * (y / 2 ^ q) + x + 1) × (x ≤ 2 ^ 40 → x * (y / 2 ^ q) ≤ 2 ^ 40 + 2)
unfolding x_prime
scaled-back x q y le lt close = elim (dec_lt 40 q) [
  | yes above ↦
      let far = far-above x q above lt in
      (omega (arith, far), λ small. absurd (omega (arith, far, small)))
  | no out ↦
      let near : leb q 40 ≡ true = ground arith in
      let join : q + (40 - q) ≡ 40 = omega (arith, out) in
      let whole : 2 ^ q * 2 ^ (40 - q) ≡ 2 ^ 40 =
        sym (power_sum q (40 - q)) ∙ ap (λ (t : ℕ). 2 ^ t) join in
      let some_power = one-le-pow (40 - q) 2 (omega arith) in
      let some_x : 1 ≤ x = omega (arith, lt) in
      let positive = mul-le-mul_left x some_power in
      let product : x_prime x q ≡ x * 2 ^ (40 - q) = rw near refl in
      let (lower, upper) =
        scaled-left x q (2 ^ (40 - q)) y whole (omega (arith, positive, some_x))
          (subst (λ t. IsClose (2 ^ 41) (t * y)) product close) in
      (lower, λ small. upper)
]

-- For every word from 1 to 2^63 the reciprocal with six iterations is computed with no shift out of
-- range, no product of 2^127 and no negative value. Times the word it is, in units of 2^-40, at least
-- the unit less the word and 1; at most the unit and 2 for a word of at most 2^40; and always less than
-- twice the unit.
pub goldschmidt_recip_lem :
    (x : ℕ) → 1 ≤ x → x ≤ 2 ^ 63 → (r : ℕ) × (goldschmidt_recip x 6 ≡ some r) × IsReciprocal x r
unfolding goldschmidt_recip
goldschmidt_recip_lem x pos le =
    let (q, power, over, under) = range_power_lem 64 0 x refl le (omega arith) in
    let reduced = x_prime-IsReduced x q over under in
    let X = x_prime x q in
    let y0 = 3 * 2 ^ 40 - 2 * X in
    let above = first_square X reduced.high in
    let start : IsIterate X y0 = record {
      product = omega (arith, above);
      small = omega (arith, reduced.low);
    } in
    let near : IsClose (distance 6) (X * y0) =
      (omega (arith, first_lower (2 ^ 40) X reduced.high reduced.low), omega (arith, above)) in
    let (y, run, last, close) = newton-IsClose 6 X y0 reduced.low reduced.high start near in
    let positive : leb 1 x ≡ true = ground arith in
    let (lower, upper) = scaled-back x q y over under close in
    (
      y / 2 ^ q,
      rw (positive, power, fp_sub_lem (3 * 2 ^ 40) (2 * X) (omega (arith, reduced.high)), run) refl,
      record { lower = lower; upper = upper; twice = reduced.scaled y last.product last.small },
    )

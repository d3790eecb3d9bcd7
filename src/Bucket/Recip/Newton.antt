-- ===== src/Bucket/Recip/Newton.antt =====
-- The steps of the reciprocal: every intermediate value is in range.
use psa_for_multiparty.Common.{
  ℕ, zero, suc, ◌+◌, ◌-◌, ◌*◌, ◌/◌, ◌^◌, ◌≤◌, ◌<◌, ◌≡◌, refl, sym, ap, ◌∙◌, subst, true, false,
  some, leb, dec_lt, lt→ltb, arith,
}
use native.Mathlib.Nat.{
  mul-le-mul_left, mul-le-mul_right, pow-suc, one-le-pow, mod-lt, mod-add-div, div-mul-le_self,
}
use psa_for_multiparty.Compare.Word.{pow-add-one}
use psa_for_multiparty.Bucket.Recip.{fp_mul, fp_two, fp_sub, range_power, x_prime}

-- An iterate y of the reciprocal of x: their product is at most 9/8, and y at most 9/4.
pub record IsIterate (x y : ℕ) : Type 0 where
  pub product : x * y ≤ 9 * 2 ^ 77
  pub small : y ≤ 9 * 2 ^ 38

-- 4·a·b is at most the square of a + b.
pub square_above : (a b : ℕ) → 4 * (a * b) ≤ (a + b) * (a + b)
square_above a b = elim (dec_lt a b) [
  | yes h ↦ ordered a (b - a) b (omega arith)
  | no h ↦ omega (arith, ordered b (a - b) a (omega arith))
]
  where
    ordered : (a d b : ℕ) → b ≡ a + d → 4 * (a * b) ≤ (a + b) * (a + b)
    ordered a d b e = rw e (omega arith)

-- The next iterate is one.
pub step-IsIterate :
    (x y : ℕ)
    → 2 ^ 40 ≤ 2 * x
    → IsIterate x y
    → (x * y / 2 ^ 40 ≤ fp_two)
      × (y * (fp_two - x * y / 2 ^ 40) < 2 ^ 127)
      × IsIterate x (y * (fp_two - x * y / 2 ^ 40) / 2 ^ 40)
      × (x * (y * (fp_two - x * y / 2 ^ 40) / 2 ^ 40) ≤ 2 ^ 80 + 2 ^ 40)
step-IsIterate x y h it =
    let z = x * y / 2 ^ 40 in
    let w = fp_two - z in
    let y' = y * w / 2 ^ 40 in
    let z_small : z ≤ fp_two = omega (arith, it.product) in
    let y'_le : 2 ^ 40 * y' ≤ y * w = omega arith in
    let chain : x * (2 ^ 40 * y') ≤ x * (y * w) = mul-le-mul_left x y'_le in
    let xy_le : x * y ≤ (z + 1) * 2 ^ 40 = omega arith in
    let chain2 : x * y * w ≤ (z + 1) * 2 ^ 40 * w = mul-le-mul_right w xy_le in
    let product : x * y' ≤ (z + 1) * w = omega (arith, chain, chain2) in
    let total : z + 1 + w ≡ fp_two + 1 = omega (arith, z_small) in
    let square : 4 * ((z + 1) * w) ≤ (fp_two + 1) * (fp_two + 1) =
      subst (λ s. 4 * ((z + 1) * w) ≤ s * s) total (square_above (z + 1) w) in
    let bound : x * y' ≤ 9 * 2 ^ 77 = omega (arith, product, square) in
    let yw : y * w ≤ 9 * 2 ^ 38 * w = mul-le-mul_right w it.small in
    (
      z_small,
      omega (arith, yw),
      record { product = bound; small = omega (arith, bound, mul-le-mul_right y' h) },
      omega (arith, product, square),
    )

pub fp_mul_lem : (a b : ℕ) → a * b < 2 ^ 127 → fp_mul a b ≡ some (a * b / 2 ^ 40)
unfolding fp_mul
fp_mul_lem a b h = rw (lt→ltb (a * b) (2 ^ 127) h) refl

pub fp_sub_lem : (a b : ℕ) → b ≤ a → fp_sub a b ≡ some (a - b)
unfolding fp_sub
fp_sub_lem a b h = ground arith

-- The least power of two that is not below x.
pub range_power_lem :
    (fuel p x : ℕ)
    → p + fuel ≡ 64
    → x ≤ 2 ^ 63
    → 2 ^ p < 2 * x
    → (q : ℕ) × (range_power fuel p x ≡ some q) × (x ≤ 2 ^ q) × (2 ^ q < 2 * x)
unfolding range_power
range_power_lem zero p x e le lt = absurd (omega (arith, ap (λ (t : ℕ). 2 ^ t) (full p e)))
  where
    full : (p : ℕ) → p + 0 ≡ 64 → p ≡ 64
    full p e = omega arith
range_power_lem (suc fuel) p x e le lt = elim (dec_lt (2 ^ p) x) [
  | yes below ↦
      let (q, run, over, under) =
        range_power_lem fuel (p + 1) x (omega arith) le (omega (arith, pow-add-one p)) in
      (q, rw (lt→ltb (2 ^ p) x below) run, over, under)
  | no out ↦ (p, ground arith, omega arith, lt)
]

-- The reduced argument is between 1/2 and 1.
pub record IsReduced (x q X : ℕ) : Type 0 where
  pub low : 2 ^ 40 ≤ 2 * X
  pub high : X ≤ 2 ^ 40
  pub scaled : (y : ℕ) → X * y ≤ 9 * 2 ^ 77 → y ≤ 9 * 2 ^ 38 → x * (y / 2 ^ q) < 2 ^ 41

pub power_sum : (a b : ℕ) → 2 ^ (a + b) ≡ 2 ^ a * 2 ^ b
power_sum zero b = ap (λ (t : ℕ). 2 ^ t) (zero_add b) ∙ omega arith
  where
    zero_add : (b : ℕ) → 0 + b ≡ b
    zero_add b = omega arith
power_sum (suc a) b =
    ap (λ (t : ℕ). 2 ^ t) (shift a b)
    ∙ omega (arith, pow-suc 2 (a + b), power_sum a b, ap (λ (t : ℕ). t * 2 ^ b) (pow-suc 2 a))
  where
    shift : (a b : ℕ) → suc a + b ≡ suc (a + b)
    shift a b = omega arith

IsReduced-left :
    (x q D : ℕ) → 2 ^ q * D ≡ 2 ^ 40 → x ≤ 2 ^ q → 2 ^ q < 2 * x → IsReduced x q (x * D)
IsReduced-left x q D e le lt = record {
  low = omega (arith, e, mul-le-mul_right D (under (2 ^ q) x lt));
  high = omega (arith, e, mul-le-mul_right D le);
  scaled = λ y h small.
      let part = mul-le-mul_left (x * D) (div-mul-le_self y (2 ^ q)) in
      omega (arith, h, part, ap (λ (t : ℕ). x * (y / 2 ^ q) * t) e);
}
  where
    under : (P x : ℕ) → P < 2 * x → P ≤ 2 * x
    under P x h = omega arith

IsReduced-right :
    (x q D : ℕ) → 2 ^ q ≡ 2 ^ 40 * D → 0 < D → x ≤ 2 ^ q → 2 ^ q < 2 * x → IsReduced x q (x / D)
IsReduced-right x q D e pos le lt =
    let X = x / D in
    let whole = mod-add-div x D in
    let rest = mod-lt x pos in
    record {
      low = elim (dec_lt (2 * X) (2 ^ 40)) [
        | yes h ↦ absurd (omega (arith, mul-le-mul_right D (below X h), whole, rest))
        | no h ↦ omega arith
      ];
      high = elim (dec_lt (2 ^ 40) X) [
        | yes h ↦ absurd (omega (arith, mul-le-mul_right D h, whole))
        | no h ↦ omega arith
      ];
      scaled = λ y h small.
          let r = y / 2 ^ q in
          let x_le : x ≤ (X + 1) * D = omega (arith, whole, rest) in
          let part = mul-le-mul_right (r * 2 ^ 40) x_le in
          let back = mul-le-mul_left (X + 1) (div-mul-le_self y (2 ^ q)) in
          omega (arith, h, small, part, back, ap (λ (t : ℕ). (X + 1) * (r * t)) e);
    }
  where
    below : (X : ℕ) → 2 * X < 2 ^ 40 → X + 1 ≤ 2 ^ 39
    below X h = omega arith

pub x_prime-IsReduced : (x q : ℕ) → x ≤ 2 ^ q → 2 ^ q < 2 * x → IsReduced x q (x_prime x q)
unfolding x_prime
x_prime-IsReduced x q le lt = elim (dec_lt 40 q) [
  | yes above ↦
      let far : leb q 40 ≡ false = ground arith in
      rw far (
        IsReduced-right x q (2 ^ (q - 40))
          (ap (λ (t : ℕ). 2 ^ t) (split q above) ∙ power_sum 40 (q - 40))
          (one-le-pow (q - 40) 2 (omega arith)) le lt)
  | no out ↦
      let near : leb q 40 ≡ true = ground arith in
      rw near (
        IsReduced-left x q (2 ^ (40 - q))
          (sym (power_sum q (40 - q)) ∙ ap (λ (t : ℕ). 2 ^ t) (join q out)) le lt)
]
  where
    split : (q : ℕ) → 40 < q → q ≡ 40 + (q - 40)
    split q h = omega arith

    join : (q : ℕ) → ¬ (40 < q) → q + (40 - q) ≡ 40
    join q h = omega arith

-- The first iterate, of a reduced argument.
pub first_square :
    (X : ℕ) → X ≤ 2 ^ 40 → 4 * (2 * X * (3 * 2 ^ 40 - 2 * X)) ≤ (3 * 2 ^ 40) * (3 * 2 ^ 40)
first_square X h =
    subst (λ t. 4 * (2 * X * (3 * 2 ^ 40 - 2 * X)) ≤ t * t) (whole X h)
      (square_above (2 * X) (3 * 2 ^ 40 - 2 * X))
  where
    whole : (X : ℕ) → X ≤ 2 ^ 40 → 2 * X + (3 * 2 ^ 40 - 2 * X) ≡ 3 * 2 ^ 40
    whole X h = omega arith

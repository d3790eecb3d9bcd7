-- ===== src/Bitonic/Pairs.antt =====
-- One exchange and a row of exchanges, on an array of keys.
use psa_for_multiparty.Common.{
  ℕ, suc, ◌+◌, ◌-◌, ◌≤◌, ◌<◌, ◌≡◌, refl, sym, ap, ◌∙◌, Bool, true, false, ◌&&◌, ltb, leb,
  if◌then◌else◌, ℕ_discrete, dec_lt, arith,
}
use psa_for_multiparty.Bitonic.{same_bool}
use psa_for_multiparty.Bitonic.Keys.{minimum, maximum}

-- What stands at the lower and at the upper index afterwards.
abbrev pub lower_key : Bool → ℕ → ℕ → ℕ
lower_key true = minimum
lower_key false = maximum

abbrev pub upper_key : Bool → ℕ → ℕ → ℕ
upper_key true = maximum
upper_key false = minimum

-- The exchanges of `count` pairs.
abbrev pub pairs : Bool → ℕ → ℕ → ℕ → (ℕ → ℕ) → ℕ → ℕ
pairs ascending count i k f x =
    if leb i x && ltb x (i + count)
    then lower_key ascending (f x) (f (x + k))
    else if leb (i + k) x && ltb x (i + k + count)
    then upper_key ascending (f (x - k)) (f x)
    else f x

swapped :
    (ascending : Bool) (a b : ℕ)
    → same_bool (ltb b a) ascending ≡ true
    → (b ≡ lower_key ascending a b) × (a ≡ upper_key ascending a b)
swapped true a b e = (ground (arith, e), ground (arith, e))
swapped false a b e = (ground (arith, e), ground (arith, e))

kept :
    (ascending : Bool) (a b : ℕ)
    → same_bool (ltb b a) ascending ≡ false
    → (a ≡ lower_key ascending a b) × (b ≡ upper_key ascending a b)
kept true a b e = (ground (arith, e), ground (arith, e))
kept false a b e = (ground (arith, e), ground (arith, e))

module _ (ascending : Bool) (i k : ℕ) (f : ℕ → ℕ) (pos : 1 ≤ k) where
  single_low : pairs ascending 1 i k f i ≡ lower_key ascending (f i) (f (i + k))
  single_low = let inside : (leb i i && ltb i (i + 1)) ≡ true = ground arith in rw inside refl

  single_high : pairs ascending 1 i k f (i + k) ≡ upper_key ascending (f i) (f (i + k))
  single_high =
      let outside : (leb i (i + k) && ltb (i + k) (i + 1)) ≡ false = ground arith in
      let inside : (leb (i + k) (i + k) && ltb (i + k) (i + k + 1)) ≡ true = ground arith in
      let back : i + k - k ≡ i = omega arith in
      rw (outside, inside) (ap (λ x. upper_key ascending (f x) (f (i + k))) back)

  pub single_else : (j : ℕ) → ¬ (j ≡ i) → ¬ (j ≡ i + k) → pairs ascending 1 i k f j ≡ f j
  single_else j h h' =
      let outside : (leb i j && ltb j (i + 1)) ≡ false = ground arith in
      let outside' : (leb (i + k) j && ltb j (i + k + 1)) ≡ false = ground arith in
      rw (outside, outside') refl

  pub swapped_keys :
      same_bool (ltb (f (i + k)) (f i)) ascending ≡ true
      → (f (i + k) ≡ pairs ascending 1 i k f i) × (f i ≡ pairs ascending 1 i k f (i + k))
  swapped_keys e =
      let (low, high) = swapped ascending (f i) (f (i + k)) e in
      (low ∙ sym single_low, high ∙ sym single_high)

  kept_keys :
      same_bool (ltb (f (i + k)) (f i)) ascending ≡ false
      → (f i ≡ pairs ascending 1 i k f i) × (f (i + k) ≡ pairs ascending 1 i k f (i + k))
  kept_keys e =
      let (low, high) = kept ascending (f i) (f (i + k)) e in
      (low ∙ sym single_low, high ∙ sym single_high)

  pub kept_everywhere :
      same_bool (ltb (f (i + k)) (f i)) ascending ≡ false
      → (j : ℕ) → f j ≡ pairs ascending 1 i k f j
  kept_everywhere e j = elim (ℕ_discrete j i) [
    | yes at ↦ ap f at ∙ (kept_keys e).0 ∙ ap (pairs ascending 1 i k f) (sym at)
    | no off ↦ elim (ℕ_discrete j (i + k)) [
      | yes at ↦ ap f at ∙ (kept_keys e).1 ∙ ap (pairs ascending 1 i k f) (sym at)
      | no off' ↦ sym (single_else j off off')
    ]
  ]

pub ltb_keys : {a a' b b' : ℕ} → a ≡ a' → b ≡ b' → ltb b a ≡ ltb b' a'
ltb_keys e e' = rw (e, e') refl

module _ (ascending : Bool) (count i k : ℕ) (f : ℕ → ℕ) (x : ℕ) where
  low_at :
      i ≤ x → x < i + count → pairs ascending count i k f x ≡ lower_key ascending (f x) (f (x + k))
  low_at le lt = let inside : (leb i x && ltb x (i + count)) ≡ true = ground arith in rw inside refl

  high_at :
      count ≤ k
      → i + k ≤ x
      → x < i + k + count
      → pairs ascending count i k f x ≡ upper_key ascending (f (x - k)) (f x)
  high_at small le lt =
      let outside : (leb i x && ltb x (i + count)) ≡ false = ground arith in
      let inside : (leb (i + k) x && ltb x (i + k + count)) ≡ true = ground arith in
      rw (outside, inside) refl

  else_at :
      (leb i x && ltb x (i + count)) ≡ false
      → (leb (i + k) x && ltb x (i + k + count)) ≡ false
      → pairs ascending count i k f x ≡ f x
  else_at outside outside' = rw (outside, outside') refl

-- The upper part of the exchanges.
pairs_step_upper :
    (ascending : Bool) (count i k : ℕ) (f : ℕ → ℕ)
    → count < k
    → (x : ℕ) → i + k ≤ x
    → pairs ascending count (i + 1) k (pairs ascending 1 i k f) x
      ≡ pairs ascending (suc count) i k f x
pairs_step_upper ascending count i k f small x le =
    let g = pairs ascending 1 i k f in
    let same : (y : ℕ) → ¬ (y ≡ i) → ¬ (y ≡ i + k) → g y ≡ f y =
      single_else ascending i k f (omega arith) in
    elim (ℕ_discrete x (i + k)) [
      | yes at ↦
          else_at ascending count (i + 1) k g x (ground arith) (ground arith)
          ∙ high_at ascending 1 i k f x (omega arith) (omega arith) (omega arith)
          ∙ sym (high_at ascending (suc count) i k f x (omega arith) (omega arith) (omega arith))
      | no after ↦ elim (dec_lt x (i + k + suc count)) [
        | yes inside ↦
            high_at ascending count (i + 1) k g x (omega arith) (omega (arith, after)) (omega arith)
            ∙ rw
                (
                  same (x - k) (λ e. after (omega (arith, e))) (λ e. omega (arith, e)),
                  same x (λ e. omega (arith, e)) after,
                )
                refl
            ∙ sym (high_at ascending (suc count) i k f x (omega arith) (omega arith) (omega arith))
        | no past ↦
            else_at ascending count (i + 1) k g x (ground arith) (ground arith)
            ∙ same x (λ e. omega (arith, e)) after
            ∙ sym (else_at ascending (suc count) i k f x (ground arith) (ground arith))
      ]
    ]

-- One pair and then the others.
pub pairs_step :
    (ascending : Bool) (count i k : ℕ) (f : ℕ → ℕ)
    → count < k
    → (x : ℕ)
    → pairs ascending count (i + 1) k (pairs ascending 1 i k f) x
      ≡ pairs ascending (suc count) i k f x
pairs_step ascending count i k f small x =
    let g = pairs ascending 1 i k f in
    let same : (y : ℕ) → ¬ (y ≡ i) → ¬ (y ≡ i + k) → g y ≡ f y =
      single_else ascending i k f (omega arith) in
    elim (dec_lt x i) [
      | yes below ↦
          else_at ascending count (i + 1) k g x (ground arith) (ground arith)
          ∙ same x (λ e. omega (arith, e)) (λ e. omega (arith, e))
          ∙ sym (else_at ascending (suc count) i k f x (ground arith) (ground arith))
      | no from ↦ elim (ℕ_discrete x i) [
        | yes at ↦
            else_at ascending count (i + 1) k g x (ground arith) (ground arith)
            ∙ low_at ascending 1 i k f x (omega arith) (omega arith)
            ∙ sym (low_at ascending (suc count) i k f x (omega arith) (omega arith))
        | no after ↦ elim (dec_lt x (i + suc count)) [
          | yes low ↦
              low_at ascending count (i + 1) k g x (omega (arith, after)) (omega arith)
              ∙ rw
                  (
                    same x after (λ e. omega (arith, e)),
                    same (x + k) (λ e. omega (arith, e)) (λ e. after (omega (arith, e))),
                  )
                  refl
              ∙ sym (low_at ascending (suc count) i k f x (omega arith) (omega arith))
          | no past ↦ elim (dec_lt x (i + k)) [
            | yes between ↦
                else_at ascending count (i + 1) k g x (ground arith) (ground arith)
                ∙ same x after (λ e. omega (arith, e))
                ∙ sym (else_at ascending (suc count) i k f x (ground arith) (ground arith))
            | no upper ↦ pairs_step_upper ascending count i k f small x (omega arith)
          ]
        ]
      ]
    ]

pub pairs-zero : (ascending : Bool) (i k : ℕ) (f : ℕ → ℕ) (x : ℕ) → pairs ascending 0 i k f x ≡ f x
pairs-zero ascending i k f x = else_at ascending 0 i k f x (ground arith) (ground arith)

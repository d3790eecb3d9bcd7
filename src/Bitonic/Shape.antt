-- ===== src/Bitonic/Shape.antt =====
-- Bitonic rows of bits, and what the exchanges of a merge make of them.
use psa_for_multiparty.Common.{
  ℕ, ◌+◌, ◌-◌, ◌<◌, ◌≡◌, refl, sym, ap, ◌∙◌, Bool, true, false, not, ◌&&◌, ◌||◌, ltb, leb, ◌⊎◌, inl,
  inr, dec_lt, arith,
}

abbrev pub both : Bool → Bool → Bool
both p q = p && q

abbrev pub either : Bool → Bool → Bool
either p q = p || q

-- A bitonic row of bits: the ones are an interval, or all but an interval.
pub data Shape : Type 0 where
  inner : ℕ → ℕ → Shape
  outer : ℕ → ℕ → Shape

abbrev pub at : Shape → ℕ → Bool
at (inner p q) i = leb p i && ltb i q
at (outer p q) i = not (leb p i && ltb i q)

abbrev pub flip : Shape → Shape
flip (inner p q) = outer p q
flip (outer p q) = inner p q

pub not-not : (b : Bool) → not (not b) ≡ b
not-not true = refl
not-not false = refl

pub at-flip : (s : Shape) (i : ℕ) → at (flip s) i ≡ not (at s i)
at-flip (inner p q) i = refl
at-flip (outer p q) i = sym (not-not _)

-- The halves of a row of 2·k bits after the exchanges are bitonic, and one of them is constant.
pub record Halved (k : ℕ) (s : Shape) : Type 0 where
  pub lower : Shape
  pub upper : Shape
  pub lower_at : (i : ℕ) → i < k → (at s i && at s (i + k)) ≡ at lower i
  pub upper_at : (i : ℕ) → i < k → (at s i || at s (i + k)) ≡ at upper i
  pub constant : ((i : ℕ) → i < k → at lower i ≡ false) ⊎ ((i : ℕ) → i < k → at upper i ≡ true)

Halved-inner : (k p q : ℕ) → Halved k (inner p q)
Halved-inner k p q = elim (dec_lt k q) [
  | no short ↦ record {
    lower = inner p (q - k);
    upper = inner p q;
    lower_at = λ i h. ground arith;
    upper_at = λ i h. ground arith;
    constant = inl (λ i h. ground arith);
  }
  | yes long ↦ elim (dec_lt p k) [
    | no late ↦ record {
      lower = inner p (q - k);
      upper = inner (p - k) (q - k);
      lower_at = λ i h. ground arith;
      upper_at = λ i h. ground arith;
      constant = inl (λ i h. ground arith);
    }
    | yes early ↦ record {
      lower = inner p (q - k);
      upper = outer (q - k) p;
      lower_at = λ i h. ground arith;
      upper_at = λ i h. ground arith;
      constant = elim (dec_lt p (q - k)) [
        | yes overlap ↦ inr (λ i h. ground arith)
        | no apart ↦ inl (λ i h. ground arith)
      ];
    }
  ]
]

pub not-both : (p q : Bool) → (not p && not q) ≡ not (p || q)
not-both p q = ground arith

pub not-either : (p q : Bool) → (not p || not q) ≡ not (p && q)
not-either p q = ground arith

pub halved : (k : ℕ) (s : Shape) → Halved k s
halved k (inner p q) = Halved-inner k p q
halved k (outer p q) =
    let h = Halved-inner k p q in
    record {
      lower = flip h.upper;
      upper = flip h.lower;
      lower_at = λ i lt.
          not-both (at (inner p q) i) (at (inner p q) (i + k))
          ∙ ap not (h.upper_at i lt)
          ∙ sym (at-flip h.upper i);
      upper_at = λ i lt.
          not-either (at (inner p q) i) (at (inner p q) (i + k))
          ∙ ap not (h.lower_at i lt)
          ∙ sym (at-flip h.lower i);
      constant = elim h.constant [
        | inl none ↦ inr (λ i lt. at-flip h.lower i ∙ ap not (none i lt))
        | inr all ↦ inl (λ i lt. at-flip h.upper i ∙ ap not (all i lt))
      ];
    }

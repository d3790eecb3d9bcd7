-- ===== src/Inclusion/Included.antt =====
-- When a metric of a firm is included: the table at the top of volePSI/MpsvsInclusion.h.
use psa_for_multiparty.Common.{
  ℕ, zero, suc, ◌≤◌, ◌<◌, List, [], ◌∷◌, ◌++◌, All, ◌≡◌, ◌↔◌, refl, arith,
}
use psa_for_multiparty.Inclusion.{
  Metric, dti, dsi, demp, ipw, delq, npl, unsec_share, st_debt_share, gap, UnionRow, AttrRange,
  RangeConfig, in_range, sand, metric_pair,
}
use psa_for_multiparty.Inclusion.Fields

abbrev pub IsOne : ℕ → Type 0
IsOne f = f ≡ 1

-- The bits of a row are bits.
pub record IsFlagged (u : UnionRow) : Type 0 where
  pub live_bit : u.live < 2
  pub mas_bit : u.b_mas < 2
  pub dos_bit : u.b_dos < 2
  pub mom_bit : u.b_mom < 2
  pub mas_valid : (i : ℕ) → u.p_mas.valid i < 2
  pub dos_valid : (i : ℕ) → u.p_dos.valid i < 2
  pub mom_valid : (i : ℕ) → u.p_mom.valid i < 2
  pub mas_growth : u.p_mas.v_g < 2
  pub dos_growth : u.p_dos.v_g < 2

-- The flags that a metric asks for: the row is live, the sources it reads are members, and the fields
-- it reads are valid.
unfoldable pub flags : UnionRow → Metric → List ℕ
flags u dti =
    u.live
    ∷ u.b_mas
    ∷ u.b_dos
    ∷ u.p_mas.valid Fields.mas_debt
    ∷ u.p_dos.valid Fields.dos_income
    ∷ []
flags u dsi =
    u.live
    ∷ u.b_mas
    ∷ u.b_dos
    ∷ u.p_mas.valid Fields.mas_dserv
    ∷ u.p_dos.valid Fields.dos_income
    ∷ []
flags u demp =
    u.live ∷ u.b_mas ∷ u.b_mom ∷ u.p_mas.valid Fields.mas_debt ∷ u.p_mom.valid Fields.mom_emp ∷ []
flags u ipw =
    u.live ∷ u.b_dos ∷ u.b_mom ∷ u.p_dos.valid Fields.dos_income ∷ u.p_mom.valid Fields.mom_emp ∷ []
flags u delq = u.live ∷ u.b_mas ∷ u.p_mas.valid Fields.mas_delq ∷ u.p_mas.valid Fields.mas_debt ∷ []
flags u npl = u.live ∷ u.b_mas ∷ u.p_mas.valid Fields.mas_npl ∷ u.p_mas.valid Fields.mas_debt ∷ []
flags u unsec_share =
    u.live ∷ u.b_mas ∷ u.p_mas.valid Fields.mas_unsec ∷ u.p_mas.valid Fields.mas_debt ∷ []
flags u st_debt_share =
    u.live ∷ u.b_mas ∷ u.p_mas.valid Fields.mas_stdebt ∷ u.p_mas.valid Fields.mas_debt ∷ []
flags u gap = u.live ∷ u.b_mas ∷ u.b_dos ∷ u.p_mas.v_g ∷ u.p_dos.v_g ∷ []

abbrev pub IsWithin : ℕ → AttrRange → Type 0
IsWithin v r = (r.min_incl ≤ v) × (v ≤ r.max_incl)

-- The denominator of a metric is within its closed range; the gap has no range.
unfoldable pub InRange : RangeConfig → UnionRow → Metric → Type 0
InRange rc u dti = IsWithin (u.p_dos.v Fields.dos_income) rc.income
InRange rc u dsi = IsWithin (u.p_dos.v Fields.dos_income) rc.income
InRange rc u demp = IsWithin (u.p_mom.v Fields.mom_emp) rc.emp
InRange rc u ipw = IsWithin (u.p_mom.v Fields.mom_emp) rc.emp
InRange rc u delq = IsWithin (u.p_mas.v Fields.mas_debt) rc.debt
InRange rc u npl = IsWithin (u.p_mas.v Fields.mas_debt) rc.debt
InRange rc u unsec_share = IsWithin (u.p_mas.v Fields.mas_debt) rc.debt
InRange rc u st_debt_share = IsWithin (u.p_mas.v Fields.mas_debt) rc.debt
InRange rc u gap = Unit

-- The flags, with that of the range.
unfoldable pub required : RangeConfig → UnionRow → Metric → List ℕ
unfolding flags
required rc u dti = flags u dti ++ (in_range (u.p_dos.v Fields.dos_income) rc.income ∷ [])
required rc u dsi = flags u dsi ++ (in_range (u.p_dos.v Fields.dos_income) rc.income ∷ [])
required rc u demp = flags u demp ++ (in_range (u.p_mom.v Fields.mom_emp) rc.emp ∷ [])
required rc u ipw = flags u ipw ++ (in_range (u.p_mom.v Fields.mom_emp) rc.emp ∷ [])
required rc u delq = flags u delq ++ (in_range (u.p_mas.v Fields.mas_debt) rc.debt ∷ [])
required rc u npl = flags u npl ++ (in_range (u.p_mas.v Fields.mas_debt) rc.debt ∷ [])
required rc u unsec_share =
    flags u unsec_share ++ (in_range (u.p_mas.v Fields.mas_debt) rc.debt ∷ [])
required rc u st_debt_share =
    flags u st_debt_share ++ (in_range (u.p_mas.v Fields.mas_debt) rc.debt ∷ [])
required rc u gap = flags u gap

-- A bit that is the conjunction of flags.
abbrev pub IsConj : ℕ → List ℕ → Type 0
IsConj x fs = (x < 2) × (x ≡ 1 → All IsOne fs) × (All IsOne fs → x ≡ 1)

All-append : (xs ys : List ℕ) → All IsOne xs → All IsOne ys → All IsOne (xs ++ ys)
All-append [] ys h k = k
All-append (x ∷ xs) ys h k = (h.0, All-append xs ys h.1 k)

All-append_left : (xs ys : List ℕ) → All IsOne (xs ++ ys) → All IsOne xs
All-append_left [] ys h = tt
All-append_left (x ∷ xs) ys h = (h.0, All-append_left xs ys h.1)

All-append_right : (xs ys : List ℕ) → All IsOne (xs ++ ys) → All IsOne ys
All-append_right [] ys h = h
All-append_right (x ∷ xs) ys h = All-append_right xs ys h.1

flag-IsConj : (f : ℕ) → f < 2 → IsConj f (f ∷ [])
flag-IsConj f h = (h, λ e. (e, tt), λ e. e.0)

sand-bit : (a b : ℕ) → a < 2 → b < 2 → sand a b < 2
sand-bit zero zero h k = omega arith
sand-bit zero (suc zero) h k = omega arith
sand-bit (suc zero) zero h k = omega arith
sand-bit (suc zero) (suc zero) h k = omega arith
sand-bit (suc (suc a)) b h k = absurd (omega arith)
sand-bit zero (suc (suc b)) h k = absurd (omega arith)
sand-bit (suc zero) (suc (suc b)) h k = absurd (omega arith)

sand-one : (a b : ℕ) → a < 2 → b < 2 → sand a b ≡ 1 → (a ≡ 1) × (b ≡ 1)
sand-one zero zero h k e = absurd (omega arith)
sand-one zero (suc zero) h k e = absurd (omega arith)
sand-one (suc zero) zero h k e = absurd (omega arith)
sand-one (suc zero) (suc zero) h k e = (refl, refl)
sand-one (suc (suc a)) b h k e = absurd (omega arith)
sand-one zero (suc (suc b)) h k e = absurd (omega arith)
sand-one (suc zero) (suc (suc b)) h k e = absurd (omega arith)

sand-ones : (a b : ℕ) → a ≡ 1 → b ≡ 1 → sand a b ≡ 1
sand-ones a b h k = rw (h, k) refl

sand-IsConj : (x y : ℕ) (xs ys : List ℕ) → IsConj x xs → IsConj y ys → IsConj (sand x y) (xs ++ ys)
sand-IsConj x y xs ys (bx, fx, gx) (by_bit, fy, gy) = (
  sand-bit x y bx by_bit,
  λ e. All-append xs ys (fx (sand-one x y bx by_bit e).0) (fy (sand-one x y bx by_bit e).1),
  λ h. sand-ones x y (gx (All-append_left xs ys h)) (gy (All-append_right xs ys h)),
)

in_range-bit : (v : ℕ) (r : AttrRange) → in_range v r < 2
unfolding in_range
in_range-bit v r = ground arith

-- `in_range` says that the value is within the closed interval.
in_range-IsWithin : (v : ℕ) (r : AttrRange) → (in_range v r ≡ 1) ↔ IsWithin v r
unfolding in_range
in_range-IsWithin v r = (λ h. (ground (arith, h), ground (arith, h)), λ w. ground (arith, w.0, w.1))

two : {a b : ℕ} → a < 2 → b < 2 → IsConj (sand a b) (a ∷ b ∷ [])
two {a} {b} h k = sand-IsConj a b (a ∷ []) (b ∷ []) (flag-IsConj a h) (flag-IsConj b k)

-- The shape of the four shares of the debt.
debt_share-IsConj :
    (rc : RangeConfig) (u : UnionRow) (v : ℕ)
    → IsFlagged u
    → v < 2
    → IsConj
        (sand
          (sand (sand u.live u.b_mas) v)
          (sand (u.p_mas.valid Fields.mas_debt) (in_range (u.p_mas.v Fields.mas_debt) rc.debt)))
        (u.live
          ∷ u.b_mas
          ∷ v
          ∷ u.p_mas.valid Fields.mas_debt
          ∷ in_range (u.p_mas.v Fields.mas_debt) rc.debt
          ∷ [])
debt_share-IsConj rc u v h k =
    sand-IsConj _ _ (_ ∷ _ ∷ _ ∷ []) (_ ∷ _ ∷ [])
      (sand-IsConj _ _ (_ ∷ _ ∷ []) (_ ∷ []) (two h.live_bit h.mas_bit) (flag-IsConj v k))
      (two (h.mas_valid Fields.mas_debt) (in_range-bit _ rc.debt))

-- The inclusion bit of a metric is the conjunction of its flags and that of its range.
pub metric_pair-IsConj :
    (rc : RangeConfig) (u : UnionRow) (m : Metric)
    → IsFlagged u
    → IsConj (metric_pair rc u m).incl (required rc u m)
unfolding metric_pair required flags
metric_pair-IsConj rc u dti h =
    sand-IsConj _ _ (_ ∷ _ ∷ _ ∷ _ ∷ []) (_ ∷ _ ∷ [])
      (sand-IsConj _ _ (_ ∷ _ ∷ []) (_ ∷ _ ∷ []) (two h.live_bit h.mas_bit)
        (two h.dos_bit (h.mas_valid Fields.mas_debt)))
      (two (h.dos_valid Fields.dos_income) (in_range-bit _ rc.income))
metric_pair-IsConj rc u dsi h =
    sand-IsConj _ _ (_ ∷ _ ∷ _ ∷ _ ∷ []) (_ ∷ _ ∷ [])
      (sand-IsConj _ _ (_ ∷ _ ∷ []) (_ ∷ _ ∷ []) (two h.live_bit h.mas_bit)
        (two h.dos_bit (h.mas_valid Fields.mas_dserv)))
      (two (h.dos_valid Fields.dos_income) (in_range-bit _ rc.income))
metric_pair-IsConj rc u demp h =
    sand-IsConj _ _ (_ ∷ _ ∷ _ ∷ _ ∷ []) (_ ∷ _ ∷ [])
      (sand-IsConj _ _ (_ ∷ _ ∷ []) (_ ∷ _ ∷ []) (two h.live_bit h.mas_bit)
        (two h.mom_bit (h.mas_valid Fields.mas_debt)))
      (two (h.mom_valid Fields.mom_emp) (in_range-bit _ rc.emp))
metric_pair-IsConj rc u ipw h =
    sand-IsConj _ _ (_ ∷ _ ∷ _ ∷ _ ∷ []) (_ ∷ _ ∷ [])
      (sand-IsConj _ _ (_ ∷ _ ∷ []) (_ ∷ _ ∷ []) (two h.live_bit h.dos_bit)
        (two h.mom_bit (h.dos_valid Fields.dos_income)))
      (two (h.mom_valid Fields.mom_emp) (in_range-bit _ rc.emp))
metric_pair-IsConj rc u delq h =
    debt_share-IsConj rc u (u.p_mas.valid Fields.mas_delq) h (h.mas_valid Fields.mas_delq)
metric_pair-IsConj rc u npl h =
    debt_share-IsConj rc u (u.p_mas.valid Fields.mas_npl) h (h.mas_valid Fields.mas_npl)
metric_pair-IsConj rc u unsec_share h =
    debt_share-IsConj rc u (u.p_mas.valid Fields.mas_unsec) h (h.mas_valid Fields.mas_unsec)
metric_pair-IsConj rc u st_debt_share h =
    debt_share-IsConj rc u (u.p_mas.valid Fields.mas_stdebt) h (h.mas_valid Fields.mas_stdebt)
metric_pair-IsConj rc u gap h =
    sand-IsConj _ _ (_ ∷ _ ∷ _ ∷ []) (_ ∷ _ ∷ [])
      (sand-IsConj _ _ (_ ∷ _ ∷ []) (_ ∷ []) (two h.live_bit h.mas_bit) (flag-IsConj _ h.dos_bit))
      (two h.mas_growth h.dos_growth)

ranged :
    (x v : ℕ) (r : AttrRange) (fs : List ℕ)
    → IsConj x (fs ++ (in_range v r ∷ []))
    → (x ≡ 1) ↔ (All IsOne fs × IsWithin v r)
ranged x v r fs (bit, all, one) = (
  λ e. (All-append_left fs _ (all e), (in_range-IsWithin v r).0 (All-append_right fs _ (all e)).0),
  λ h. one (All-append fs _ h.0 ((in_range-IsWithin v r).1 h.1, tt)),
)

-- For a row whose flags are bits: the inclusion bit of a metric is a bit, and it is 1 exactly when the
-- row is live, the sources that the metric reads are members, the fields it reads are valid and,
-- except for the gap, which has no range, its denominator is within the closed range for it.
pub metric_pair-required :
    (rc : RangeConfig) (u : UnionRow) (m : Metric)
    → IsFlagged u
    → ((metric_pair rc u m).incl < 2)
      × (((metric_pair rc u m).incl ≡ 1) ↔ (All IsOne (flags u m) × InRange rc u m))
unfolding required flags InRange
metric_pair-required rc u m h =
    ((metric_pair-IsConj rc u m h).0, exactly m (metric_pair-IsConj rc u m h))
  where
    exactly :
        (m : Metric)
        → IsConj (metric_pair rc u m).incl (required rc u m)
        → ((metric_pair rc u m).incl ≡ 1) ↔ (All IsOne (flags u m) × InRange rc u m)
    exactly dti c = ranged _ _ _ (flags u dti) c
    exactly dsi c = ranged _ _ _ (flags u dsi) c
    exactly demp c = ranged _ _ _ (flags u demp) c
    exactly ipw c = ranged _ _ _ (flags u ipw) c
    exactly delq c = ranged _ _ _ (flags u delq) c
    exactly npl c = ranged _ _ _ (flags u npl) c
    exactly unsec_share c = ranged _ _ _ (flags u unsec_share) c
    exactly st_debt_share c = ranged _ _ _ (flags u st_debt_share) c
    exactly gap (bit, all, one) = (λ e. (all e, tt), λ a. one a.0)

-- ===== src/Sector/Ratios.antt =====
-- The ratios of the sectors.
use psa_for_multiparty.Common.{
  ◌*◌, ◌^◌, ◌≤◌, ◌≡◌, ◌≢◌, refl, some, List, [], ◌∷◌, All, ◌==◌, Bool-cases, inl, inr, arith,
}
use psa_for_multiparty.Common.Fail.{◌>>=◌}
use psa_for_multiparty.Inclusion.{Metric, EntityMetricRow}
use psa_for_multiparty.Bucket.Recip.Ratio.{IsRatio, fp_ratio_lem}
use psa_for_multiparty.Sector.{
  SectorKey, SectorRatio, sum_ratios, set_ratio, set_ratios, aggregate_ratios,
}

-- A denominator of at most 2^63, and a ratio of at most 2^46.
abbrev pub IsInRange : SectorKey × SectorRatio → Type 0
IsInRange e = (e.1.sum_den ≤ 2 ^ 63) × (1 ≤ e.1.sum_den → e.1.sum_num ≤ 2 ^ 46 * e.1.sum_den)

-- The result keeps the key and the sums of its entry; with an included pair and a denominator above 0,
-- its ratio is as close to the exact one as `IsRatio` says.
pub record IsRatioOf (e r : SectorRatio) : Type 0 where
  pub key : r.key ≡ e.key
  pub num : r.sum_num ≡ e.sum_num
  pub den : r.sum_den ≡ e.sum_den
  pub ratio : e.incl ≢ 0 → 1 ≤ e.sum_den → IsRatio e.sum_num e.sum_den r.ratio_fp

abbrev pub AreRatiosOf : List (SectorKey × SectorRatio) → List SectorRatio → Type 0
AreRatiosOf [] [] = Unit {0}
AreRatiosOf [] (r ∷ rs) = ⊥
AreRatiosOf (e ∷ es) [] = ⊥
AreRatiosOf (e ∷ es) (r ∷ rs) = IsRatioOf e.1 r × AreRatiosOf es rs

set_ratio_lem :
    (e : SectorKey × SectorRatio)
    → IsInRange e
    → (r : SectorRatio) × (set_ratio e.1 ≡ some r) × IsRatioOf e.1 r
unfolding set_ratio
set_ratio_lem e h = elim (Bool-cases (e.1.incl == 0)) [
  | inl a ↦ (
    e.1,
    rw a refl,
    record {
      key = refl;
      num = refl;
      den = refl;
      ratio = λ some_pair pos. absurd (some_pair (ground (arith, a)));
    },
  )
  | inr a ↦ elim (Bool-cases (e.1.sum_den == 0)) [
    | inl b ↦ (
      e.1,
      rw (a, b) refl,
      record {
        key = refl;
        num = refl;
        den = refl;
        ratio = λ some_pair pos. absurd (ground (arith, b));
      },
    )
    | inr b ↦
        let pos : 1 ≤ e.1.sum_den = ground (arith, b) in
        let (q, run, bound) = fp_ratio_lem e.1.sum_num e.1.sum_den pos h.0 (h.1 pos) in
        (
          record {
            key = e.1.key;
            metric = e.1.metric;
            sum_num = e.1.sum_num;
            sum_den = e.1.sum_den;
            incl = e.1.incl;
            ratio_fp = q;
          },
          rw (a, b, run) refl,
          record { key = refl; num = refl; den = refl; ratio = λ some_pair pos. bound },
        )
  ]
]

set_ratios_lem :
    (es : List (SectorKey × SectorRatio))
    → All IsInRange es
    → (out : List SectorRatio) × (set_ratios es ≡ some out) × AreRatiosOf es out
unfolding set_ratios
set_ratios_lem [] h = ([], refl, tt)
set_ratios_lem (e ∷ es) h =
    let (r, run, is) = set_ratio_lem e h.0 in
    let (rs, rest, are) = set_ratios_lem es h.1 in (r ∷ rs, rw (run, ◌>>=◌, rest) refl, (is, are))

-- For every table and metric whose sectors have sums in range, a denominator of at most 2^63 and a
-- ratio of at most 2^46, the ratios are computed with no value out of range: there is one result for
-- each sector, in the same order, with its key and its sums. Where a pair is included and the
-- denominator is not 0 the ratio is, in units of 2^-40, below the exact one num / den by at most
-- num + num / den, above it by at most 2 * num / den when den is at most 2^40, and never above its
-- double.
pub aggregate_ratios_lem :
    (rows : List EntityMetricRow) (m : Metric)
    → All IsInRange (sum_ratios m [] rows)
    → (out : List SectorRatio) × (aggregate_ratios rows m ≡ some out)
      × AreRatiosOf (sum_ratios m [] rows) out
unfolding aggregate_ratios
aggregate_ratios_lem rows m h = set_ratios_lem (sum_ratios m [] rows) h

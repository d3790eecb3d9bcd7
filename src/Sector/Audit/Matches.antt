-- ===== src/Sector/Audit/Matches.antt =====
-- The audit of the sector aggregates finds that they match.
use psa_for_multiparty.Common.{
  ℕ, ◌+◌, ◌%◌, ◌≤◌, ◌<◌, ◌≡◌, refl, ◌∙◌, true, some, List, [], ◌∷◌, map, All, length, ◌==◌, arith,
}
use psa_for_multiparty.Common.Fail.{◌>>=◌}
use psa_for_multiparty.Share.{u64, add64}
use psa_for_multiparty.Inclusion.{
  Metric, dti, dsi, demp, ipw, delq, npl, unsec_share, st_debt_share, gap, EntityMetricRow,
  aggregate_over_all,
}
use psa_for_multiparty.Inclusion.Totals.{aggregate_over_all_lem}
use psa_for_multiparty.Rank.{BucketEdges, edges_for, ratio_scale_for}
use psa_for_multiparty.Sector.{
  SectorKey, SectorRatio, SectorHistogram, sum_ratios, aggregate_ratios, aggregate_histograms,
}
use psa_for_multiparty.Sector.Totals.{total_of, sum_where-all, sum_ratios_lem}
use psa_for_multiparty.Sector.Ratios.{IsInRange, IsRatioOf, AreRatiosOf, aggregate_ratios_lem}
use psa_for_multiparty.Sector.Histograms.{sum_histograms_lem}
use psa_for_multiparty.Sector.Audit.{
  SectorAggregateBundle, SectorAggregateAudit, all_metrics, aggregate_metrics,
  aggregate_all_metrics, sum_field, audit_metrics, audit_sector_aggregate,
}

-- Every metric has from 1 to 128 buckets.
abbrev pub HasBuckets : BucketEdges → Metric → Type 0
HasBuckets edges m = (2 ≤ length (edges_for edges m)) × (length (edges_for edges m) ≤ 129)

-- The sums of every sector are in the range of the ratios.
abbrev pub IsRatioRange : List EntityMetricRow → Metric → Type 0
IsRatioRange rows m = All IsInRange (sum_ratios m [] rows)

scale_lem : (m : Metric) → 1 ≤ ratio_scale_for m
unfolding ratio_scale_for
scale_lem dti = omega arith
scale_lem dsi = omega arith
scale_lem demp = omega arith
scale_lem ipw = omega arith
scale_lem delq = omega arith
scale_lem npl = omega arith
scale_lem unsec_share = omega arith
scale_lem st_debt_share = omega arith
scale_lem gap = omega arith

-- The wrapping sum over the values of a map.
sum_field-map :
    {V : Type 0} (field : V → ℕ) (total : ℕ) (es : List (SectorKey × V))
    → total < u64
    → sum_field field total (map (λ e. e.1) es) ≡ (total + total_of (λ k. true) field es) % u64
unfolding sum_field
sum_field-map field total [] h = omega arith
sum_field-map field total (e ∷ es) h =
    omega (arith, sum_field-map field (add64 total (field e.1)) es (omega arith))

-- The ratios keep the sums of their entries.
sum_field-ratios :
    (field : SectorRatio → ℕ) (total : ℕ) (es : List (SectorKey × SectorRatio))
    (out : List SectorRatio)
    → ((e r : SectorRatio) → IsRatioOf e r → field r ≡ field e)
    → AreRatiosOf es out
    → sum_field field total out ≡ sum_field field total (map (λ e. e.1) es)
unfolding sum_field
sum_field-ratios field total [] [] keep h = refl
sum_field-ratios field total [] (r ∷ rs) keep h = absurd h
sum_field-ratios field total (e ∷ es) [] keep h = absurd h
sum_field-ratios field total (e ∷ es) (r ∷ rs) keep h =
    rw (keep e.1 r h.0) (sum_field-ratios field (add64 total (field e.1)) es rs keep h.1)

hist_total :
    (rows : List EntityMetricRow) (m : Metric) (edges : BucketEdges)
    → HasBuckets edges m
    → (out : List SectorHistogram) × (aggregate_histograms rows m edges ≡ some out)
      × (sum_field (λ s. s.hist.n_valid) 0 out ≡ (aggregate_over_all rows m).n_valid)
unfolding aggregate_histograms
hist_total rows m edges h =
    let (es, run, _, sums) =
      sum_histograms_lem (edges_for edges m) (ratio_scale_for m) m (λ k. true) rows [] h.0 h.1
        (scale_lem m) tt in
    let totals = aggregate_over_all_lem rows m in
    (
      map (λ e. e.1) es,
      rw run refl,
      sum_field-map (λ (s : SectorHistogram). s.hist.n_valid) 0 es (omega arith)
          ∙ omega (arith, sums, sum_where-all (λ p. 1) m rows, totals.2),
    )

ratio_totals :
    (rows : List EntityMetricRow) (m : Metric)
    → IsRatioRange rows m
    → (out : List SectorRatio) × (aggregate_ratios rows m ≡ some out)
      × (sum_field (λ r. r.sum_num) 0 out ≡ (aggregate_over_all rows m).sum_num)
      × (sum_field (λ r. r.sum_den) 0 out ≡ (aggregate_over_all rows m).sum_den)
ratio_totals rows m h =
    let es = sum_ratios m [] rows in
    let (out, run, are) = aggregate_ratios_lem rows m h in
    let (_, _, _, num, den) = sum_ratios_lem rows m (λ k. true) in
    (
      out,
      run,
      sum_field-ratios (λ r. r.sum_num) 0 es out (λ e r is. is.num) are
          ∙ sum_field-map (λ (r : SectorRatio). r.sum_num) 0 es (omega arith)
          ∙ omega (arith, num),
      sum_field-ratios (λ r. r.sum_den) 0 es out (λ e r is. is.den) are
          ∙ sum_field-map (λ (r : SectorRatio). r.sum_den) 0 es (omega arith)
          ∙ omega (arith, den),
    )

abbrev passed : SectorAggregateAudit
passed = record { hist_totals_match = true; ratio_totals_match = true }

metrics_match :
    (rows : List EntityMetricRow) (edges : BucketEdges) (ms : List Metric)
    → ((m : Metric) → HasBuckets edges m)
    → ((m : Metric) → IsRatioRange rows m)
    → (b : SectorAggregateBundle) × (aggregate_metrics ms rows edges ≡ some b)
      × (audit_metrics (aggregate_over_all rows) ms b.hists b.ratios passed ≡ some passed)
unfolding aggregate_metrics audit_metrics
metrics_match rows edges [] buckets range = (record { hists = []; ratios = [] }, refl, refl)
metrics_match rows edges (m ∷ ms) buckets range =
    let (hist, e0, valid) = hist_total rows m edges (buckets m) in
    let (ratio, e1, num, den) = ratio_totals rows m (range m) in
    let (rest, e2, passes) = metrics_match rows edges ms buckets range in
    let same = eq_refl (aggregate_over_all rows m).n_valid in
    let same_num = eq_refl (aggregate_over_all rows m).sum_num in
    let same_den = eq_refl (aggregate_over_all rows m).sum_den in
    (
      record { hists = hist ∷ rest.hists; ratios = ratio ∷ rest.ratios },
      rw (e0, ◌>>=◌, e1, ◌>>=◌, e2) refl,
      rw (valid, num, den, same, same_num, same_den) passes,
    )
  where
    eq_refl : (n : ℕ) → (n == n) ≡ true
    eq_refl n = ground arith

-- For every table, edges of 1 to 128 buckets for each metric, and sectors whose sums are in the range
-- of the ratios: aggregating the nine metrics succeeds, and the audit of its result against the
-- totals over all firms finds that the histograms and the ratios match.
pub audit_sector_aggregate_lem :
    (rows : List EntityMetricRow) (edges : BucketEdges)
    → ((m : Metric) → HasBuckets edges m)
    → ((m : Metric) → IsRatioRange rows m)
    → (b : SectorAggregateBundle) × (aggregate_all_metrics rows edges ≡ some b)
      × (audit_sector_aggregate rows b
          ≡ some (record { hist_totals_match = true; ratio_totals_match = true }))
unfolding aggregate_all_metrics audit_sector_aggregate
audit_sector_aggregate_lem rows edges buckets range =
    metrics_match rows edges all_metrics buckets range

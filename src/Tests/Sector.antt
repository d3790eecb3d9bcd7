-- ===== src/Tests/Sector.antt =====
-- The sector totals at concrete inputs.
use psa_for_multiparty.Common.{
  ℕ, ◌%◌, ◌^◌, ◌≡◌, refl, Bool, true, none, some, List, [], ◌∷◌, All, ◌==◌, arith,
}
use psa_for_multiparty.Inclusion.{
  Metric, EntityMetricRow, dti, dsi, demp, ipw, delq, npl, unsec_share, st_debt_share, gap,
  aggregate_over_all,
}
use psa_for_multiparty.Bucket.Recip.{
  fp_mul, fp_sub, range_power, x_prime, newton, goldschmidt_recip, fp_ratio,
}
use psa_for_multiparty.Sector.{SectorKey, SectorRatio, key_of, at_key, sum_ratios, aggregate_ratios}
use psa_for_multiparty.Rank.{BucketEdges, edges_for}
use psa_for_multiparty.Sector.Audit.{
  SectorAggregateBundle, aggregate_all_metrics, audit_sector_aggregate,
}
use psa_for_multiparty.Sector.Audit.Matches.{HasBuckets, audit_sector_aggregate_lem}
use psa_for_multiparty.Sector.Order.{IsAscendingKeys}
use psa_for_multiparty.Sector.Totals.{total_of, sum_where, sum_ratios_lem}
use psa_for_multiparty.Sector.Ratios.{IsInRange, AreRatiosOf, aggregate_ratios_lem}

-- a firm of a sector, with one pair for every metric
abbrev row : ℕ → ℕ → ℕ → ℕ → EntityMetricRow
row sector num den incl = record {
  bin = 0;
  period = 202_601;
  sector = sector;
  sector_conflict = 0;
  live = 1;
  b_mas = 1;
  b_dos = 1;
  b_mom = 1;
  metrics = λ m. record { num = num; den = den; incl = incl };
  avail_core_count = 4;
  incl_vuln = 1;
}

abbrev rows : List EntityMetricRow
rows = row 7 10 40 1 ∷ row 2 5 9 1 ∷ row 7 3 4 1 ∷ row 2 6 6 0 ∷ []

abbrev is_two : SectorKey → Bool
is_two k = k.sector == 2

sectors_run : total_of is_two (λ r. r.sum_num) (sum_ratios npl [] rows) ≡ 5
unfolding sum_ratios at_key key_of
sectors_run = refl

sum_ratios_example :
    let es = sum_ratios npl [] rows in
    IsAscendingKeys es
    × (total_of is_two (λ r. r.sum_num) es % 2 ^ 64
        ≡ sum_where is_two (λ p. p.num) npl rows % 2 ^ 64)
    × (total_of is_two (λ r. r.sum_den) es % 2 ^ 64
        ≡ sum_where is_two (λ p. p.den) npl rows % 2 ^ 64)
    × (total_of (λ k. true) (λ r. r.sum_num) es % 2 ^ 64 ≡ (aggregate_over_all rows npl).sum_num)
    × (total_of (λ k. true) (λ r. r.sum_den) es % 2 ^ 64 ≡ (aggregate_over_all rows npl).sum_den)
sum_ratios_example = sum_ratios_lem rows npl is_two

rows-IsInRange : (m : Metric) → All IsInRange (sum_ratios m [] rows)
unfolding sum_ratios at_key key_of
rows-IsInRange m = ((omega arith, λ h. omega arith), ((omega arith, λ h. omega arith), tt))

aggregate_ratios_example :
    (out : List SectorRatio) × (aggregate_ratios rows npl ≡ some out)
    × AreRatiosOf (sum_ratios npl [] rows) out
aggregate_ratios_example = aggregate_ratios_lem rows npl (rows-IsInRange npl)

abbrev three_edges : List ℕ
three_edges = 0 ∷ 5000 ∷ 10_000 ∷ []

abbrev edges : BucketEdges
edges = record {
  dti_edges = three_edges;
  dsi_edges = three_edges;
  demp_edges = three_edges;
  ipw_edges = three_edges;
  delq_edges = three_edges;
  npl_edges = three_edges;
  unsec_share_edges = three_edges;
  st_debt_share_edges = three_edges;
  gap_edges = three_edges;
}

edges-HasBuckets : (m : Metric) → HasBuckets edges m
unfolding edges_for
edges-HasBuckets dti = (omega arith, omega arith)
edges-HasBuckets dsi = (omega arith, omega arith)
edges-HasBuckets demp = (omega arith, omega arith)
edges-HasBuckets ipw = (omega arith, omega arith)
edges-HasBuckets delq = (omega arith, omega arith)
edges-HasBuckets npl = (omega arith, omega arith)
edges-HasBuckets unsec_share = (omega arith, omega arith)
edges-HasBuckets st_debt_share = (omega arith, omega arith)
edges-HasBuckets gap = (omega arith, omega arith)

sector_audit_example :
    (b : SectorAggregateBundle) × (aggregate_all_metrics rows edges ≡ some b)
    × (audit_sector_aggregate rows b
        ≡ some (record { hist_totals_match = true; ratio_totals_match = true }))
sector_audit_example = audit_sector_aggregate_lem rows edges edges-HasBuckets rows-IsInRange

-- 3/4, and a numerator so large that the product leaves the range
ratio_runs : fp_ratio 3 4 ≡ some 824_633_720_832
unfolding fp_ratio goldschmidt_recip newton x_prime range_power fp_sub fp_mul
ratio_runs = refl

ratio_overflow : fp_ratio (2 ^ 63) 1 ≡ none
unfolding fp_ratio goldschmidt_recip newton x_prime range_power fp_sub fp_mul
ratio_overflow = refl

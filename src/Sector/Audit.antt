-- ===== src/Sector/Audit.antt =====
-- `aggregateAllMetrics` and `auditSectorAggregate` of volePSI/MpsvsSectorAgg.cpp: the results of the
-- nine metrics, in the order of `Metric`, against the totals over all firms. An array of nine is a
-- list of nine, `none` when it has another length.
pub mod Matches
use psa_for_multiparty.Common.{
  ℕ, Bool, true, false, Option, none, some, List, [], ◌∷◌, ◌==◌, ◌&&◌, if◌then◌else◌,
}
use psa_for_multiparty.Common.Fail.{◌>>=◌}
use psa_for_multiparty.Share.{add64}
use psa_for_multiparty.Inclusion.{
  Metric, dti, dsi, demp, ipw, delq, npl, unsec_share, st_debt_share, gap, EntityMetricRow,
  MetricAggregate, aggregate_over_all,
}
use psa_for_multiparty.Rank.{BucketEdges}
use psa_for_multiparty.Sector.{SectorRatio, SectorHistogram, aggregate_ratios, aggregate_histograms}

pub record SectorAggregateBundle : Type 0 where
  pub hists : List (List SectorHistogram)
  pub ratios : List (List SectorRatio)

pub record SectorAggregateAudit : Type 0 where
  pub hist_totals_match : Bool
  pub ratio_totals_match : Bool

-- the metrics from 0 to `kMetricCount - 1`
abbrev pub all_metrics : List Metric
all_metrics = dti ∷ dsi ∷ demp ∷ ipw ∷ delq ∷ npl ∷ unsec_share ∷ st_debt_share ∷ gap ∷ []

-- the loop over the metrics
unfoldable pub aggregate_metrics :
    List Metric → List EntityMetricRow → BucketEdges → Option SectorAggregateBundle
aggregate_metrics [] rows edges = some (record { hists = []; ratios = [] })
aggregate_metrics (m ∷ ms) rows edges = do
  hist ← aggregate_histograms rows m edges
  ratio ← aggregate_ratios rows m
  rest ← aggregate_metrics ms rows edges
  some (record { hists = hist ∷ rest.hists; ratios = ratio ∷ rest.ratios })

unfoldable pub aggregate_all_metrics :
    List EntityMetricRow → BucketEdges → Option SectorAggregateBundle
aggregate_all_metrics rows edges = aggregate_metrics all_metrics rows edges

-- `total += field(x)` for each x
unfoldable pub sum_field : {V : Type 0} → (V → ℕ) → ℕ → List V → ℕ
sum_field field total [] = total
sum_field field total (x ∷ xs) = sum_field field (add64 total (field x)) xs

-- one metric
abbrev pub audit_metric :
    MetricAggregate
    → List SectorHistogram
    → List SectorRatio
    → SectorAggregateAudit
    → SectorAggregateAudit
audit_metric plain hist ratio a = record {
  hist_totals_match =
      if sum_field (λ s. s.hist.n_valid) 0 hist == plain.n_valid
      then a.hist_totals_match
      else false;
  ratio_totals_match =
      if sum_field (λ r. r.sum_num) 0 ratio == plain.sum_num
        && sum_field (λ r. r.sum_den) 0 ratio == plain.sum_den
      then a.ratio_totals_match
      else false;
}

unfoldable pub audit_metrics :
    (Metric → MetricAggregate)
    → List Metric
    → List (List SectorHistogram)
    → List (List SectorRatio)
    → SectorAggregateAudit
    → Option SectorAggregateAudit
audit_metrics plain [] hists ratios a = some a
audit_metrics plain (m ∷ ms) [] ratios a = none
audit_metrics plain (m ∷ ms) (hist ∷ hists) [] a = none
audit_metrics plain (m ∷ ms) (hist ∷ hists) (ratio ∷ ratios) a =
    audit_metrics plain ms hists ratios (audit_metric (plain m) hist ratio a)

unfoldable pub audit_sector_aggregate :
    List EntityMetricRow → SectorAggregateBundle → Option SectorAggregateAudit
audit_sector_aggregate rows bundle =
    audit_metrics (aggregate_over_all rows) all_metrics bundle.hists bundle.ratios
      (record { hist_totals_match = true; ratio_totals_match = true })

-- ===== src/Tests/Rank.antt =====
-- The ranks, scores and percentiles at concrete inputs.
use psa_for_multiparty.Common.{
  zero, suc, ◌<◌, ◌^◌, ℕ, ◌+◌, ◌*◌, ◌/◌, ◌≡◌, refl, true, some, List, [], ◌∷◌, length, arith,
}
use psa_for_multiparty.Inclusion.{
  entity_metrics, metric_pair, EntityMetricRow, default_ranges, strict_gating, dti,
  compute_entity_metrics,
}
use psa_for_multiparty.Bitonic.Network.{total}
use psa_for_multiparty.Bucket.{edge}
use psa_for_multiparty.Rank.{
  SlimRow, Histogram, BucketEdges, edges_for, ratio_scale_for, build_slim, rank_via_histogram,
  make_cdf,
}
use psa_for_multiparty.Rank.Sorted.{IsSlimSorted}
use psa_for_multiparty.Rank.Ranked.{IsRanked, unranked, rank_via_histogram_lem}
use psa_for_multiparty.Rank.Score.{EntityRankRow, compute_metric_ranks}
use psa_for_multiparty.Rank.Score.Bounds.{
  AreScored, population, HasProducts, compute_metric_ranks_lem,
}
use psa_for_multiparty.Rank.Percentile.{percentile_bucket}
use psa_for_multiparty.Rank.Percentile.Search.{IsPercentile, percentile_bucket-make_cdf}
use psa_for_multiparty.Tests.Pipeline.{firm, three_edges}

-- a row of a population that is included or not
abbrev row_of : ℕ → ℕ → ℕ → SlimRow
row_of popkey incl bucket = record {
  entity_idx = 0;
  popkey = popkey;
  incl = incl;
  bucket = bucket;
  rank = 0;
}

abbrev two_populations : List SlimRow
two_populations = row_of 7 1 1 ∷ row_of 3 1 2 ∷ row_of 7 0 0 ∷ row_of 3 1 0 ∷ row_of 7 1 0 ∷ []

rank_example :
    ((f : SlimRow → ℕ)
      → total (λ r. f (unranked r)) (rank_via_histogram 3 two_populations).slim
        ≡ total (λ r. f (unranked r)) two_populations)
    × IsSlimSorted (rank_via_histogram 3 two_populations).slim
    × IsRanked [] (rank_via_histogram 3 two_populations).slim
rank_example = rank_via_histogram_lem 3 two_populations (omega arith)

abbrev some_edges : BucketEdges
some_edges = record {
  dti_edges = three_edges;
  dsi_edges = three_edges;
  demp_edges = three_edges;
  ipw_edges = three_edges;
  delq_edges = three_edges;
  npl_edges = three_edges;
  unsec_share_edges = three_edges;
  st_debt_share_edges = three_edges;
  gap_edges = three_edges;
}

abbrev metric_rows : List EntityMetricRow
metric_rows = compute_entity_metrics (firm ∷ firm ∷ firm ∷ []) default_ranges strict_gating

three_edges-products : (d i : ℕ) → d < 2 ^ 64 → i < 3 → edge three_edges i * d < 2 ^ 127
three_edges-products d zero small lt = omega arith
three_edges-products d (suc zero) small lt = omega (arith, small)
three_edges-products d (suc (suc zero)) small lt = omega (arith, small)
three_edges-products d (suc (suc (suc i))) small lt = absurd (omega arith)

firm-HasProducts : HasProducts dti three_edges (entity_metrics default_ranges strict_gating firm)
unfolding entity_metrics metric_pair ratio_scale_for
firm-HasProducts = (omega arith, λ i. three_edges-products 900 i (omega arith))

scores_example :
    (slim : List SlimRow) × (build_slim 0 metric_rows dti three_edges 10_000 (λ r. 0) ≡ some slim)
    × ((out : List EntityRankRow) × (compute_metric_ranks metric_rows dti some_edges 2 (λ r. 0)
          ≡ some out)
        × (length out ≡ 3)
        × AreScored
            (λ k. population dti (λ r. 0) k metric_rows)
            (rank_via_histogram 2 slim).slim
            out)
unfolding edges_for ratio_scale_for compute_entity_metrics
scores_example =
    compute_metric_ranks_lem metric_rows dti some_edges 2 (λ r. 0) (omega arith) (omega arith)
      (firm-HasProducts, (firm-HasProducts, (firm-HasProducts, tt)))

-- the rank of a percentage, rounded up
abbrev percent_rank : ℕ → ℕ → ℕ
percent_rank q n = (q * n + 99) / 100

abbrev counts : Histogram
counts = record { h = 2 ∷ 0 ∷ 5 ∷ 1 ∷ []; n_valid = 8 }

percent_example :
    ((make_cdf counts).monotone ≡ true)
    × IsPercentile
        (percent_rank 75 8)
        (2 ∷ 0 ∷ 5 ∷ 1 ∷ [])
        (percentile_bucket percent_rank (make_cdf counts) 75)
percent_example =
    percentile_bucket-make_cdf percent_rank 75 counts (omega arith) (omega arith) (omega arith)

percentile_run : percentile_bucket percent_rank (make_cdf counts) 75 ≡ 2
unfolding percentile_bucket make_cdf
percentile_run = refl

-- ===== src/Tests/Pipeline.antt =====
-- The metrics and the buckets at concrete inputs.
use psa_for_multiparty.Common.{
  ℕ, zero, suc, ◌+◌, ◌*◌, ◌%◌, ◌^◌, ◌≤◌, ◌<◌, ◌≡◌, refl, ◌↔◌, ◌⊎◌, some, List, [], ◌∷◌, All, set,
  replicate, arith,
}
use psa_for_multiparty.Inclusion.{
  PayloadPerSource, UnionRow, default_ranges, strict_gating, renormalised_weights, dti, npl,
  metric_pair, vuln_inclusion, in_range, vuln_core_metrics, entity_metrics, compute_entity_metrics,
  aggregate_over_all,
}
use psa_for_multiparty.Inclusion.Included.{IsFlagged, IsOne, flags, InRange, metric_pair-required}
use psa_for_multiparty.Inclusion.Vulnerability.{entity_metrics-strict, entity_metrics-renormalised}
use psa_for_multiparty.Inclusion.Totals.{sum_included, aggregate_over_all_lem}
use psa_for_multiparty.Bucket.{edge, bucket_index}
use psa_for_multiparty.Bucket.Search.{IsAscending, bucket_index_lem}

abbrev payload : ℕ → PayloadPerSource
payload k = record { v = λ i. k + i; valid = λ i. 1; g = k; v_g = 0; contraction = 0 }

-- a live firm that MAS and DOS know
abbrev pub firm : UnionRow
firm = record {
  bin = 3;
  period = 1;
  sector = 2;
  b_mas = 1;
  b_dos = 1;
  b_mom = 0;
  p_mas = payload 700;
  p_dos = payload 900;
  p_mom = payload 0;
  canonical = 1;
  live = 1;
  sector_conflict = 0;
}

firm-IsFlagged : IsFlagged firm
firm-IsFlagged = record {
  live_bit = omega arith;
  mas_bit = omega arith;
  dos_bit = omega arith;
  mom_bit = omega arith;
  mas_valid = λ i. omega arith;
  dos_valid = λ i. omega arith;
  mom_valid = λ i. omega arith;
  mas_growth = omega arith;
  dos_growth = omega arith;
}

metric_pair_example :
    ((metric_pair default_ranges firm npl).incl < 2)
    × (((metric_pair default_ranges firm npl).incl ≡ 1)
        ↔ (All IsOne (flags firm npl) × InRange default_ranges firm npl))
metric_pair_example = metric_pair-required default_ranges firm npl firm-IsFlagged

strict_example :
    ((entity_metrics default_ranges strict_gating firm).incl_vuln ≡ 1)
    ↔ All (λ m. (metric_pair default_ranges firm m).incl ≡ 1) vuln_core_metrics
strict_example = entity_metrics-strict default_ranges firm firm-IsFlagged

renormalised_example :
    ((entity_metrics default_ranges renormalised_weights firm).incl_vuln ≡ 0)
    ↔ All (λ m. (metric_pair default_ranges firm m).incl ≡ 0) vuln_core_metrics
renormalised_example = entity_metrics-renormalised default_ranges firm firm-IsFlagged

strict_runs : (entity_metrics default_ranges strict_gating firm).incl_vuln ≡ 1
unfolding entity_metrics metric_pair vuln_inclusion in_range
strict_runs = refl

abbrev pub three_edges : List ℕ
three_edges = 0 ∷ 10 ∷ 20 ∷ []

three_edges-IsAscending : IsAscending three_edges
three_edges-IsAscending zero j le inside = omega arith
three_edges-IsAscending (suc zero) (suc zero) le inside = omega arith
three_edges-IsAscending (suc zero) (suc (suc zero)) le inside = omega arith
three_edges-IsAscending (suc (suc zero)) (suc (suc zero)) le inside = omega arith
three_edges-IsAscending (suc zero) zero le inside = absurd (omega arith)
three_edges-IsAscending (suc (suc zero)) zero le inside = absurd (omega arith)
three_edges-IsAscending (suc (suc zero)) (suc zero) le inside = absurd (omega arith)
three_edges-IsAscending i (suc (suc (suc j))) le inside = absurd (omega arith)
three_edges-IsAscending (suc (suc (suc i))) j le inside = absurd (omega arith)

three_edges-small : (i : ℕ) → i < 3 → edge three_edges i * 2 < 2 ^ 127
three_edges-small zero lt = omega arith
three_edges-small (suc zero) lt = omega arith
three_edges-small (suc (suc zero)) lt = omega arith
three_edges-small (suc (suc (suc i))) lt = absurd (omega arith)

bucket_index_example :
    (b : ℕ) × (bucket_index 3 2 three_edges 1 10
      ≡ some (record { bucket = b; one_hot = set (replicate 2 0) b 1 }))
    × (b < 2)
    × ((b ≡ 0) ⊎ (edge three_edges b * 2 ≤ 30))
    × ((j : ℕ) → b < j → j < 2 → 30 < edge three_edges j * 2)
bucket_index_example =
    bucket_index_lem 3 2 three_edges 1 10 three_edges-IsAscending (omega arith) (omega arith)
      (omega arith) (omega arith) (omega arith) three_edges-small

aggregate_example :
    let rows = compute_entity_metrics (firm ∷ firm ∷ []) default_ranges strict_gating in
    ((aggregate_over_all rows dti).sum_num ≡ sum_included (λ p. p.num) dti rows % 2 ^ 64)
    × ((aggregate_over_all rows dti).sum_den ≡ sum_included (λ p. p.den) dti rows % 2 ^ 64)
    × ((aggregate_over_all rows dti).n_valid ≡ sum_included (λ p. 1) dti rows % 2 ^ 64)
aggregate_example =
    aggregate_over_all_lem (compute_entity_metrics (firm ∷ firm ∷ []) default_ranges strict_gating)
      dti

-- ===== src/Rank/Score/Bounds.antt =====
-- `computeMetricRanks` gives every row a score, in the range of the ratios.
use psa_for_multiparty.Common.{
  ℕ, suc, ◌+◌, ◌*◌, ◌^◌, ◌≤◌, ◌<◌, false, some, List, [], ◌∷◌, length, ltb, ◌==◌, if◌then◌else◌,
  ◌≡◌, refl, sym, ap, ◌∙◌, subst, Bool-cases, inl, inr, ◌⊎◌, arith, All,
}
use psa_for_multiparty.Inclusion.{
  Metric, dti, dsi, demp, ipw, delq, npl, unsec_share, st_debt_share, gap, EntityMetricRow,
}
use psa_for_multiparty.Bucket.{edge, BucketResult, bucket_index}
use psa_for_multiparty.Bitonic.Network.{total}
use psa_for_multiparty.Rank.{
  SlimRow, BucketEdges, edges_for, ratio_scale_for, slim_row, build_slim, rank_via_histogram,
}
use psa_for_multiparty.Rank.Counts.{rank_via_histogram-n_valid}
use psa_for_multiparty.Rank.Ranked.{
  one_in, unranked, one_in-same, count_in, count_in-le-length, IsRanked, rank_via_histogram_lem,
}
use psa_for_multiparty.Rank.Sorted.{first-IsGrouped}
use psa_for_multiparty.Rank.Score.{
  EntityRankRow, entity_rank, n_valid_by_popkey, find_n_valid, score_rows, compute_metric_ranks,
}
use psa_for_multiparty.Rank.Score.Table.{find-n_valid_by_popkey}
use psa_for_multiparty.Rank.Score.Quotient.{IsScored, score_of_lem}

-- The rows with their scores.
abbrev pub AreScored : (ℕ → ℕ) → List SlimRow → List EntityRankRow → Type 0
AreScored n [] [] = Unit
AreScored n [] (e ∷ es) = ⊥
AreScored n (r ∷ rows) [] = ⊥
AreScored n (r ∷ rows) (e ∷ es) =
    (e ≡ entity_rank r e.score_fp) × IsScored (n r.popkey) e × AreScored n rows es

-- The rows of a population with the inclusion bit of a metric.
abbrev pub population : Metric → (EntityMetricRow → ℕ) → ℕ → List EntityMetricRow → ℕ
population m sel k [] = 0
population m sel k (r ∷ rows) =
    (if sel r == k then (if (r.metrics m).incl == 0 then 0 else 1) else 0) + population m sel k rows

-- The products of `bucketIndex` for a row are within `__int128`.
abbrev pub HasProducts : Metric → List ℕ → EntityMetricRow → Type 0
HasProducts m edges r =
    ((r.metrics m).num * ratio_scale_for m < 2 ^ 127)
    × ((i : ℕ) → i < length edges → edge edges i * (r.metrics m).den < 2 ^ 127)

rank_below :
    (table : List (ℕ × ℕ)) (before rows : List SlimRow) (r : SlimRow)
    → find_n_valid r.popkey table ≡ count_in r.popkey before + count_in r.popkey (r ∷ rows)
    → r.rank ≡ (if r.incl == 0 then 0 else count_in r.popkey before)
    → (r.incl ≡ 0) ⊎ (r.rank < find_n_valid r.popkey table)
rank_below table before rows r here ranked = elim (Bool-cases (r.incl == 0)) [
  | inl e ↦ inl (ground (arith, e))
  | inr e ↦ inr (ground (arith, e, here, ranked, one_in-same r))
]

score_rows_lem :
    (table : List (ℕ × ℕ)) (n : ℕ → ℕ) (before rows : List SlimRow)
    → ((k : ℕ) → find_n_valid k table ≡ n k)
    → ((k : ℕ) → find_n_valid k table ≡ count_in k before + count_in k rows)
    → length before + length rows ≤ 2 ^ 63
    → IsRanked before rows
    → (out : List EntityRankRow) × (score_rows table rows ≡ some out)
      × (length out ≡ length rows)
      × AreScored n rows out
unfolding score_rows
score_rows_lem table n before [] same counts small ranked = ([], refl, refl, tt)
score_rows_lem table n before (r ∷ rows) same counts small (first, ranked) =
    let here = counts r.popkey in
    let (q, eq, score) = score_of_lem table r (rank_below table before rows r here first) (
      omega (
        arith,
        here,
        small,
        count_in-le-length r.popkey before,
        count_in-le-length r.popkey (r ∷ rows),
      )) in
    let (out, run, len, scored) =
      score_rows_lem table n (r ∷ before) rows same (λ k. omega (arith, counts k))
        (omega (arith, small)) ranked in
    (
      entity_rank r q ∷ out,
      rw (eq, run) refl,
      ap suc len,
      (refl, subst (λ t. IsScored t (entity_rank r q)) (same r.popkey) score, scored),
    )

bucket_index-total :
    (num den : ℕ) (edges : List ℕ) (incl scale : ℕ)
    → 2 ≤ length edges
    → 1 ≤ scale
    → (b : BucketResult) × (bucket_index num den edges incl scale ≡ some b)
unfolding bucket_index
bucket_index-total num den edges incl scale two pos =
    let long : ltb (length edges) 2 ≡ false = ground (arith, two) in
    let scaled : (scale == 0) ≡ false = ground (arith, pos) in
    rw (long, scaled)
      (elim (Bool-cases (incl == 0)) [
        | inl e ↦ rw e (_, refl)
        | inr e ↦ elim (Bool-cases (den == 0)) [
          | inl d ↦ rw (e, d) (_, refl)
          | inr d ↦ rw (e, d) (_, refl)
        ]
      ])

build_slim-total :
    (i : ℕ) (rows : List EntityMetricRow) (m : Metric) (edges : List ℕ) (scale : ℕ)
    (sel : EntityMetricRow → ℕ)
    → 2 ≤ length edges
    → 1 ≤ scale
    → (slim : List SlimRow) × (build_slim i rows m edges scale sel ≡ some slim)
      × (length slim ≡ length rows)
      × ((k : ℕ) → count_in k slim ≡ population m sel k rows)
unfolding build_slim
build_slim-total i [] m edges scale sel two pos = ([], refl, refl, λ k. refl)
build_slim-total i (r ∷ rows) m edges scale sel two pos =
    let mp = r.metrics m in
    let (b, eq) = bucket_index-total mp.num mp.den edges mp.incl scale two pos in
    let (slim, run, len, counts) = build_slim-total (i + 1) rows m edges scale sel two pos in
    (
      slim_row i r m sel b.bucket ∷ slim,
      rw (eq, run) refl,
      ap suc len,
      λ k. ap (λ t. one_in k (slim_row i r m sel b.bucket) + t) (counts k),
    )

ratio_scale-positive : (m : Metric) → 1 ≤ ratio_scale_for m
unfolding ratio_scale_for
ratio_scale-positive dti = omega arith
ratio_scale-positive dsi = omega arith
ratio_scale-positive demp = omega arith
ratio_scale-positive ipw = omega arith
ratio_scale-positive delq = omega arith
ratio_scale-positive npl = omega arith
ratio_scale-positive unsec_share = omega arith
ratio_scale-positive st_debt_share = omega arith
ratio_scale-positive gap = omega arith

total-count_in :
    (k : ℕ) (rows : List SlimRow) → total (λ r. one_in k (unranked r)) rows ≡ count_in k rows
total-count_in k [] = refl
total-count_in k (r ∷ rows) = ap (λ t. one_in k r + t) (total-count_in k rows)

-- For a metric with the edges of at least one bucket, products within `__int128` and at most 2^63 rows,
-- the ranks are computed: there is one row for each row, in the order of `rankViaHistogram` and with
-- its fields. The score of an included row in a population of n included rows, n at least 2, is its
-- rank over n - 1, in units of 2^-40: below the exact ratio by at most the rank and rank / (n - 1),
-- above it by at most 2 * rank / (n - 1) when n - 1 is at most 2^40. A score is at most twice the unit,
-- and 0 for an excluded row and for a row of rank 0.
pub compute_metric_ranks_lem :
    (rows : List EntityMetricRow) (m : Metric) (edges : BucketEdges) (b : ℕ)
    (popkey_selector : EntityMetricRow → ℕ)
    → 2 ≤ length (edges_for edges m)
    → length rows ≤ 2 ^ 63
    → All (HasProducts m (edges_for edges m)) rows
    → (slim : List SlimRow) × (build_slim 0 rows m
          (edges_for edges m)
          (ratio_scale_for m)
          popkey_selector
        ≡ some slim)
      × ((out : List EntityRankRow) × (compute_metric_ranks rows m edges b popkey_selector
            ≡ some out)
          × (length out ≡ length rows)
          × AreScored
              (λ k. population m popkey_selector k rows)
              (rank_via_histogram b slim).slim
              out)
unfolding compute_metric_ranks
compute_metric_ranks_lem rows m edges b popkey_selector two small products =
    let (slim, built, len, counts) =
      build_slim-total 0 rows m (edges_for edges m) (ratio_scale_for m) popkey_selector two
        (ratio_scale-positive m) in
    let few : length slim < 2 ^ 64 = omega (arith, small, len) in
    let (same, sorted, ranked) = rank_via_histogram_lem b slim few in
    let (n, size) = rank_via_histogram-n_valid b slim in
    let ranks = (rank_via_histogram b slim).slim in
    let table : (k : ℕ) → find_n_valid k (n_valid_by_popkey ranks) ≡ count_in k ranks = λ k.
      find-n_valid_by_popkey k ranks (first-IsGrouped ranks sorted) (omega (arith, few, size)) in
    let (out, run, out_len, scored) =
      score_rows_lem (n_valid_by_popkey ranks) (λ k. population m popkey_selector k rows) [] ranks
        (λ k.
          table k
          ∙ sym (total-count_in k ranks)
          ∙ same (one_in k)
          ∙ total-count_in k slim
          ∙ counts k)
        (λ k. omega (arith, table k)) (omega (arith, small, len, size)) ranked in
    (slim, built, (out, rw built run, out_len ∙ size ∙ len, scored))

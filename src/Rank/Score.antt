-- ===== src/Rank/Score.antt =====
-- `computeMetricRanks` of volePSI/MpsvsRank.cpp: the scores of the ranked rows, with the fixed-point
-- ratio of Bucket.Recip. The vectors `popkeys` and `n_valid_by_popkey` are one list of pairs.
pub mod Table
pub mod Quotient
pub mod Bounds
use psa_for_multiparty.Common.{
  ℕ, zero, suc, ◌+◌, ◌-◌, ◌||◌, Option, none, some, List, [], ◌∷◌, ltb, ◌==◌, if◌then◌else◌,
}
use psa_for_multiparty.Common.Fail.{◌>>=◌}
use psa_for_multiparty.Share.{add64}
use psa_for_multiparty.Inclusion.{Metric, EntityMetricRow}
use psa_for_multiparty.Bucket.Recip.{fp_ratio}
use psa_for_multiparty.Rank.{
  SlimRow, RankResult, BucketEdges, edges_for, ratio_scale_for, build_slim, rank_via_histogram,
}

pub record EntityRankRow : Type 0 where
  pub entity_idx : ℕ
  pub popkey : ℕ
  pub incl : ℕ
  pub bucket : ℕ
  pub rank : ℕ
  pub score_fp : ℕ

-- `if (r.incl) ++n_valid_by_popkey.back()`
abbrev pub add_row : SlimRow → ℕ → ℕ
add_row r n = if r.incl == 0 then n else add64 n 1

-- the loop over the rows, with the last key and its count so far
pub counts_from : ℕ → ℕ → List SlimRow → List (ℕ × ℕ)
counts_from key n [] = (key, n) ∷ []
counts_from key n (r ∷ rows) =
    let same = counts_from key (add_row r n) rows in
    let other = counts_from r.popkey (add_row r 0) rows in
    if key == r.popkey then same else (key, n) ∷ other

unfoldable pub n_valid_by_popkey : List SlimRow → List (ℕ × ℕ)
unfolding counts_from
n_valid_by_popkey [] = []
n_valid_by_popkey (r ∷ rows) = counts_from r.popkey (add_row r 0) rows

-- the count of the first entry with the key, 0 if there is none
pub find_n_valid : ℕ → List (ℕ × ℕ) → ℕ
find_n_valid k [] = 0
find_n_valid k (e ∷ es) = let rest = find_n_valid k es in if e.0 == k then e.1 else rest

unfoldable pub score_of : List (ℕ × ℕ) → SlimRow → Option ℕ
unfolding find_n_valid
score_of table r =
    let nv = find_n_valid r.popkey table in
    let denom = if ltb 1 nv then nv - 1 else 1 in
    if r.incl == 0 || nv == 0 then some 0 else fp_ratio r.rank denom

abbrev pub entity_rank : SlimRow → ℕ → EntityRankRow
entity_rank r score = record {
  entity_idx = r.entity_idx;
  popkey = r.popkey;
  incl = r.incl;
  bucket = r.bucket;
  rank = r.rank;
  score_fp = score;
}

-- `for (const auto& r : res.slim)`
unfoldable pub score_rows : List (ℕ × ℕ) → List SlimRow → Option (List EntityRankRow)
unfolding score_of
score_rows table [] = some []
score_rows table (r ∷ rows) = do
  score ← score_of table r
  rest ← score_rows table rows
  some (entity_rank r score ∷ rest)

unfoldable pub compute_metric_ranks :
    List EntityMetricRow
    → Metric
    → BucketEdges
    → ℕ
    → (EntityMetricRow → ℕ)
    → Option (List EntityRankRow)
unfolding build_slim rank_via_histogram n_valid_by_popkey score_rows
compute_metric_ranks rows m edges b popkey_selector = do
  slim ← build_slim 0 rows m (edges_for edges m) (ratio_scale_for m) popkey_selector
  let res = rank_via_histogram b slim
  score_rows (n_valid_by_popkey res.slim) res.slim

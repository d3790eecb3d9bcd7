-- ===== src/Rank.antt =====
-- volePSI/MpsvsRank.h and volePSI/MpsvsRank.cpp up to the ranks within a population, and `makeCdf` of
-- volePSI/MpsvsPercentiles.cpp. `none` is an exception. Rank.Score has the scores and Rank.Percentile the
-- percentiles.
pub mod Counts
pub mod Sorted
pub mod Ranked
pub mod Score
pub mod Percentile
use psa_for_multiparty.Common.{
  ℕ, zero, suc, ◌+◌, ◌-◌, ◌%◌, ◌^◌, Bool, true, false, Option, none, some, List, [], ◌∷◌, length,
  get_elem?, set, replicate, ltb, ◌==◌, if◌then◌else◌,
}
use psa_for_multiparty.Common.Fail.{◌>>=◌, ◌>>◌, require}
use psa_for_multiparty.Share.{add64}
use psa_for_multiparty.Inclusion.{
  Metric, dti, dsi, demp, ipw, delq, npl, unsec_share, st_debt_share, gap, EntityMetricRow,
}
use psa_for_multiparty.Bucket.{edge, bucket_index}

pub record SlimRow : Type 0 where
  pub entity_idx : ℕ
  pub popkey : ℕ
  pub incl : ℕ
  pub bucket : ℕ
  pub rank : ℕ

pub record Histogram : Type 0 where
  pub h : List ℕ
  pub n_valid : ℕ

pub record RankResult : Type 0 where
  pub slim : List SlimRow
  pub histogram : Histogram

pub record BucketEdges : Type 0 where
  pub dti_edges : List ℕ
  pub dsi_edges : List ℕ
  pub demp_edges : List ℕ
  pub ipw_edges : List ℕ
  pub delq_edges : List ℕ
  pub npl_edges : List ℕ
  pub unsec_share_edges : List ℕ
  pub st_debt_share_edges : List ℕ
  pub gap_edges : List ℕ

unfoldable pub edges_for : BucketEdges → Metric → List ℕ
edges_for e dti = e.dti_edges
edges_for e dsi = e.dsi_edges
edges_for e demp = e.demp_edges
edges_for e ipw = e.ipw_edges
edges_for e delq = e.delq_edges
edges_for e npl = e.npl_edges
edges_for e unsec_share = e.unsec_share_edges
edges_for e st_debt_share = e.st_debt_share_edges
edges_for e gap = e.gap_edges

-- basis points for the ratios, the unit itself for the two per firm or per head
unfoldable pub ratio_scale_for : Metric → ℕ
ratio_scale_for demp = 1
ratio_scale_for ipw = 1
ratio_scale_for _ = 10_000

abbrev pub slim_row : ℕ → EntityMetricRow → Metric → (EntityMetricRow → ℕ) → ℕ → SlimRow
slim_row i r m popkey_selector bucket = record {
  entity_idx = i % 2 ^ 32;
  popkey = popkey_selector r;
  incl = (r.metrics m).incl;
  bucket = bucket;
  rank = 0;
}

-- `buildSlim`, from the row `i` on
unfoldable pub build_slim :
    ℕ → List EntityMetricRow → Metric → List ℕ → ℕ → (EntityMetricRow → ℕ) → Option (List SlimRow)
build_slim i [] m edges ratio_scale popkey_selector = some []
build_slim i (r ∷ rows) m edges ratio_scale popkey_selector = do
  let mp = r.metrics m
  b ← bucket_index mp.num mp.den edges mp.incl ratio_scale
  rest ← build_slim (i + 1) rows m edges ratio_scale popkey_selector
  some (slim_row i r m popkey_selector b.bucket ∷ rest)

-- the comparison of `slimSort`; `1 - incl` is in `uint8_t`
abbrev pub slim_less : SlimRow → SlimRow → Bool
slim_less a b =
    let inv_a = (2 ^ 8 + 1 - a.incl) % 2 ^ 8 in
    let inv_b = (2 ^ 8 + 1 - b.incl) % 2 ^ 8 in
    if a.popkey == b.popkey
    then (if inv_a == inv_b then ltb a.bucket b.bucket else ltb inv_a inv_b)
    else ltb a.popkey b.popkey

abbrev pub insert_slim : SlimRow → List SlimRow → List SlimRow
insert_slim r [] = r ∷ []
insert_slim r (s ∷ rows) =
    let rest = insert_slim r rows in if slim_less s r then s ∷ rest else r ∷ s ∷ rows

-- `std::stable_sort`
pub slim_sort : List SlimRow → List SlimRow
slim_sort [] = []
slim_sort (r ∷ rows) = insert_slim r (slim_sort rows)

-- the loop of `segmentedInclusiveSum`, from an accumulator on
pub segmented_from : ℕ → List ℕ → List ℕ → List ℕ
segmented_from acc (x ∷ xs) (b ∷ bs) =
    let acc' = add64 (if b == 0 then acc else 0) x in acc' ∷ segmented_from acc' xs bs
segmented_from acc _ _ = []

unfoldable pub segmented_inclusive_sum : List ℕ → List ℕ → Option (List ℕ)
unfolding segmented_from
segmented_inclusive_sum xs boundary = do
  require (length xs == length boundary)
  some (segmented_from 0 xs boundary)

-- `if (r.bucket < cfg.B) ++h[r.bucket]`
abbrev pub count_bucket : ℕ → ℕ → List ℕ → List ℕ
count_bucket bucket b h = if ltb bucket b then set h bucket (add64 (edge h bucket) 1) else h

-- `++n_valid` and `++h[r.bucket]` for an included row
unfoldable pub count_row : ℕ → SlimRow → Histogram → Histogram
count_row b r hist =
    if r.incl == 0
    then hist
    else record { h = count_bucket r.bucket b hist.h; n_valid = add64 hist.n_valid 1 }

-- the loop of `rankViaHistogram`: the population, the next rank in it and the histogram so far
pub rank_rows : ℕ → ℕ → ℕ → Histogram → List SlimRow → RankResult
unfolding count_row
rank_rows b cur next hist [] = record { slim = []; histogram = hist }
rank_rows b cur next hist (r ∷ rows) =
    let rank = if r.popkey == cur then next else 0 in
    let next' = if r.incl == 0 then rank else add64 rank 1 in
    let rest = rank_rows b r.popkey next' (count_row b r hist) rows in
    let ranked : SlimRow = record {
      entity_idx = r.entity_idx;
      popkey = r.popkey;
      incl = r.incl;
      bucket = r.bucket;
      rank = if r.incl == 0 then 0 else rank;
    } in
    record { slim = ranked ∷ rest.slim; histogram = rest.histogram }

abbrev pub first_popkey : List SlimRow → ℕ
first_popkey [] = 0
first_popkey (r ∷ rows) = r.popkey

unfoldable pub rank_via_histogram : ℕ → List SlimRow → RankResult
unfolding slim_sort rank_rows
rank_via_histogram b slim =
    rank_rows b (first_popkey (slim_sort slim)) 0 (record { h = replicate b 0; n_valid = 0 })
      (slim_sort slim)

pub record Cdf : Type 0 where
  pub cum : List ℕ
  pub total : ℕ
  pub monotone : Bool

-- the loop of `makeCdf`
pub cdf_from : ℕ → Bool → List ℕ → Cdf
cdf_from acc monotone [] = record { cum = []; total = acc; monotone = monotone }
cdf_from acc monotone (x ∷ xs) =
    let next = add64 acc x in
    let rest = cdf_from next (if ltb next acc then false else monotone) xs in
    record { cum = next ∷ rest.cum; total = rest.total; monotone = rest.monotone }

unfoldable pub make_cdf : Histogram → Cdf
unfolding cdf_from
make_cdf hist = cdf_from 0 true hist.h

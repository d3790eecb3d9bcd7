-- ===== src/Sector.antt =====
-- volePSI/MpsvsSectorAgg.h and volePSI/MpsvsSectorAgg.cpp: the totals of a metric per sector and
-- period, and the shared cells of volePSI/MpsvsSectorAggWire.h. A `std::map` is the list of its entries
-- in the order of their keys. `uint16_t sector` and `uint32_t period` narrow what they are given.
pub mod Order
pub mod Totals
pub mod Ratios
pub mod Histograms
pub mod Audit
use psa_for_multiparty.Common.{
  ℕ, ◌%◌, ◌^◌, Bool, true, false, Option, none, some, List, [], ◌∷◌, map, replicate, set, ltb, ◌==◌,
  if◌then◌else◌,
}
use psa_for_multiparty.Common.Fail.{◌>>=◌, ◌>>◌, require}
use psa_for_multiparty.Rank.{Histogram, BucketEdges, edges_for, ratio_scale_for}
use psa_for_multiparty.Bucket.{edge, bucket_index}
use psa_for_multiparty.Share.{add64, SharedU64}
use psa_for_multiparty.Inclusion.{Metric, MetricPair, EntityMetricRow}
use psa_for_multiparty.Bucket.Recip.{fp_ratio}

pub record SectorKey : Type 0 where
  pub sector : ℕ
  pub period : ℕ

pub record SharedSectorHistogram : Type 0 where
  pub key : SectorKey
  pub metric : Metric
  pub sum_num : SharedU64
  pub sum_den : SharedU64
  pub n_valid : SharedU64

pub record SectorRatio : Type 0 where
  pub key : SectorKey
  pub metric : Metric
  pub sum_num : ℕ
  pub sum_den : ℕ
  pub incl : ℕ
  pub ratio_fp : ℕ

-- `operator<`
abbrev pub key_less : SectorKey → SectorKey → Bool
key_less a b = if a.sector == b.sector then ltb a.period b.period else ltb a.sector b.sector

-- `SectorKey k{r.sector, r.period}`
unfoldable pub key_of : EntityMetricRow → SectorKey
key_of r = record { sector = r.sector % 2 ^ 16; period = r.period % 2 ^ 32 }

-- the entry of a key in the map, put there when it is missing, then changed
unfoldable pub at_key :
    {V : Type 0} → SectorKey → V → (V → V) → List (SectorKey × V) → List (SectorKey × V)
at_key k fresh f [] = (k, f fresh) ∷ []
at_key k fresh f (e ∷ es) =
    let rest = at_key k fresh f es in
    if key_less k e.0
    then (k, f fresh) ∷ e ∷ es
    else if key_less e.0 k
    then e ∷ rest
    else (e.0, f e.1) ∷ es

abbrev pub fresh_ratio : SectorKey → Metric → SectorRatio
fresh_ratio k m = record { key = k; metric = m; sum_num = 0; sum_den = 0; incl = 0; ratio_fp = 0 }

-- `if (mp.incl)`
abbrev pub add_ratio : MetricPair → SectorRatio → SectorRatio
add_ratio mp r = if mp.incl == 0 then r else record {
  key = r.key;
  metric = r.metric;
  sum_num = add64 r.sum_num mp.num;
  sum_den = add64 r.sum_den mp.den;
  incl = 1;
  ratio_fp = r.ratio_fp;
}

-- the loop over the rows
unfoldable pub sum_ratios :
    Metric → List (SectorKey × SectorRatio) → List EntityMetricRow → List (SectorKey × SectorRatio)
sum_ratios m agg [] = agg
sum_ratios m agg (r ∷ rows) =
    sum_ratios m (at_key (key_of r) (fresh_ratio (key_of r) m) (add_ratio (r.metrics m)) agg) rows

-- `if (incl && sum_den > 0) ratio_fp = fpRatio(sum_num, sum_den)`
unfoldable pub set_ratio : SectorRatio → Option SectorRatio
set_ratio r =
    if r.incl == 0
    then some r
    else if r.sum_den == 0
    then some r
    else fp_ratio r.sum_num r.sum_den >>= λ q. some (record {
      key = r.key;
      metric = r.metric;
      sum_num = r.sum_num;
      sum_den = r.sum_den;
      incl = r.incl;
      ratio_fp = q;
    })

unfoldable pub set_ratios : List (SectorKey × SectorRatio) → Option (List SectorRatio)
set_ratios [] = some []
set_ratios (e ∷ es) = do r ← set_ratio e.1; rest ← set_ratios es; some (r ∷ rest)

unfoldable pub aggregate_ratios : List EntityMetricRow → Metric → Option (List SectorRatio)
aggregate_ratios rows m = set_ratios (sum_ratios m [] rows)

pub record SectorHistogram : Type 0 where
  pub key : SectorKey
  pub metric : Metric
  pub hist : Histogram

-- `kBucketCount`
abbrev pub k_bucket_count : ℕ
k_bucket_count = 128

abbrev pub fresh_histogram : SectorKey → Metric → SectorHistogram
fresh_histogram k m = record {
  key = k;
  metric = m;
  hist = record { h = replicate k_bucket_count 0; n_valid = 0 };
}

-- `++hist.h[bucket]; ++hist.n_valid`
abbrev pub count_at : ℕ → SectorHistogram → SectorHistogram
count_at bucket s = record {
  key = s.key;
  metric = s.metric;
  hist = record {
    h = set s.hist.h bucket (add64 (edge s.hist.h bucket) 1);
    n_valid = add64 s.hist.n_valid 1;
  };
}

-- what a pair does to the histogram of its key; a bucket past the histogram is undefined
unfoldable pub count_pair : List ℕ → ℕ → MetricPair → Option (SectorHistogram → SectorHistogram)
count_pair edges scale mp =
    if mp.incl == 0
    then some (λ s. s)
    else bucket_index mp.num mp.den edges mp.incl scale >>= λ b.
        require (ltb b.bucket k_bucket_count) >> some (count_at b.bucket)

unfoldable pub sum_histograms :
    List ℕ
    → ℕ
    → Metric
    → List (SectorKey × SectorHistogram)
    → List EntityMetricRow
    → Option (List (SectorKey × SectorHistogram))
sum_histograms edges scale m agg [] = some agg
sum_histograms edges scale m agg (r ∷ rows) = count_pair edges scale (r.metrics m) >>= λ f.
    sum_histograms edges scale m (at_key (key_of r) (fresh_histogram (key_of r) m) f agg) rows

unfoldable pub aggregate_histograms :
    List EntityMetricRow → Metric → BucketEdges → Option (List SectorHistogram)
aggregate_histograms rows m edges =
    sum_histograms (edges_for edges m) (ratio_scale_for m) m [] rows >>= λ agg.
    some (map (λ e. e.1) agg)

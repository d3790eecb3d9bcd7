-- ===== src/Rank/Percentile.antt =====
-- `percentileBucket` and `standardPercentiles` of volePSI/MpsvsPercentiles.cpp. A `double` is a
-- parameter, with `ceil_rank q n` for `ceil(q * n)` as a word after the clamp of `q` to the interval
-- from 0 to 1, and `percent k` for the constant of `k` per cent. The loop takes fuel.
pub mod Search
use psa_for_multiparty.Common.{
  ℕ, zero, suc, ◌+◌, ◌-◌, ◌/◌, ◌||◌, List, length, ltb, leb, ◌==◌, if◌then◌else◌,
}
use psa_for_multiparty.Bucket.{edge}
use psa_for_multiparty.Rank.{Cdf}

-- `while (lo < hi)`
pub search_cum : ℕ → List ℕ → ℕ → ℕ → ℕ → ℕ
search_cum zero cum target lo hi = lo
search_cum (suc fuel) cum target lo hi =
    let mid = (lo + hi) / 2 in
    let down = search_cum fuel cum target lo mid in
    let up = search_cum fuel cum target (mid + 1) hi in
    if ltb lo hi then (if leb target (edge cum mid) then down else up) else lo

-- `if (target == 0) target = 1`
abbrev pub at_least_one : ℕ → ℕ
at_least_one target = if target == 0 then 1 else target

pub record StdPercentiles : Type 0 where
  pub p25 : ℕ
  pub p50 : ℕ
  pub p75 : ℕ
  pub p90 : ℕ
  pub p95 : ℕ
  pub p99 : ℕ

module _ {Double : Type 0} (ceil_rank : Double → ℕ → ℕ) where
  unfoldable pub percentile_bucket : Cdf → Double → ℕ
  unfolding search_cum
  percentile_bucket cdf q =
      let found =
        search_cum (length cdf.cum) cdf.cum (at_least_one (ceil_rank q cdf.total)) 0
          (length cdf.cum - 1) in
      if cdf.total == 0 || length cdf.cum == 0 then 0 else found

  unfoldable pub standard_percentiles : (ℕ → Double) → Cdf → StdPercentiles
  unfolding percentile_bucket
  standard_percentiles percent cdf = record {
    p25 = percentile_bucket cdf (percent 25);
    p50 = percentile_bucket cdf (percent 50);
    p75 = percentile_bucket cdf (percent 75);
    p90 = percentile_bucket cdf (percent 90);
    p95 = percentile_bucket cdf (percent 95);
    p99 = percentile_bucket cdf (percent 99);
  }

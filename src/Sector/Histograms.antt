-- ===== src/Sector/Histograms.antt =====
-- The histograms of the sectors.
use psa_for_multiparty.Common.{
  ℕ, ◌+◌, ◌-◌, ◌*◌, ◌%◌, ◌≤◌, ◌<◌, ◌≡◌, refl, Bool, true, false, some, List, [], ◌∷◌, set,
  replicate, length, ltb, leb, ◌==◌, if◌then◌else◌, Bool-cases, inl, inr, lt→ltb, arith,
}
use psa_for_multiparty.Common.Fail.{◌>>=◌}
use psa_for_multiparty.Share.{u64}
use psa_for_multiparty.Inclusion.{Metric, MetricPair, EntityMetricRow}
use psa_for_multiparty.Bucket.{BucketResult, search_loop, bucket_index}
use psa_for_multiparty.Sector.{
  SectorKey, SectorHistogram, key_of, at_key, fresh_histogram, count_at, count_pair, sum_histograms,
}
use psa_for_multiparty.Sector.Order.{IsAscendingKeys, at_key-IsAscendingKeys}
use psa_for_multiparty.Sector.Totals.{total_of, added, sum_where, at_key-total}

-- With at least one bucket and a positive scale there is a bucket within the buckets.
bucket_index-some :
    (num den : ℕ) (edges : List ℕ) (incl scale : ℕ)
    → 2 ≤ length edges
    → 1 ≤ scale
    → (r : BucketResult) × (bucket_index num den edges incl scale ≡ some r)
      × (r.bucket < length edges - 1)
unfolding bucket_index
bucket_index-some num den edges incl scale two pos =
    let many : ltb (length edges) 2 ≡ false = ground arith in
    let scaled : (scale == 0) ≡ false = ground arith in
    let b = length edges - 1 in
    let none_found : BucketResult = record { bucket = 0; one_hot = replicate b 0 } in
    let found = search_loop b edges den (num * scale) 0 b in
    let bucket = if leb b found then b - 1 else found in
    elim (Bool-cases (incl == 0)) [
      | inl a ↦ (none_found, rw (many, scaled, a) refl, omega arith)
      | inr a ↦ elim (Bool-cases (den == 0)) [
        | inl d ↦ (none_found, rw (many, scaled, a, d) refl, omega arith)
        | inr d ↦ (
          record { bucket = bucket; one_hot = set (replicate b 0) bucket 1 },
          rw (many, scaled, a, d) refl,
          clamp b found (omega arith),
        )
      ]
    ]
  where
    clamp : (b found : ℕ) → 1 ≤ b → (if leb b found then b - 1 else found) < b
    clamp b found h = ground arith

-- A pair is counted, or left out.
count_pair_lem :
    (edges : List ℕ) (scale : ℕ) (mp : MetricPair)
    → 2 ≤ length edges
    → length edges ≤ 129
    → 1 ≤ scale
    → (f : SectorHistogram → SectorHistogram) × (count_pair edges scale mp ≡ some f)
      × ((s : SectorHistogram)
          → (f s).hist.n_valid % u64 ≡ (s.hist.n_valid + added (λ p. 1) mp) % u64)
unfolding count_pair
count_pair_lem edges scale mp two most pos = elim (Bool-cases (mp.incl == 0)) [
  | inl a ↦ ((λ s. s), rw a refl, λ s. rw a (omega arith))
  | inr a ↦
      let (r, run, inside) = bucket_index-some mp.num mp.den edges mp.incl scale two pos in
      let near : ltb r.bucket 128 ≡ true = lt→ltb r.bucket 128 (omega arith) in
      (count_at r.bucket, rw (a, run, ◌>>=◌, near) refl, λ s. rw a (omega arith))
]

pub sum_histograms_lem :
    (edges : List ℕ) (scale : ℕ) (m : Metric) (w : SectorKey → Bool) (rows : List EntityMetricRow)
    (agg : List (SectorKey × SectorHistogram))
    → 2 ≤ length edges
    → length edges ≤ 129
    → 1 ≤ scale
    → IsAscendingKeys agg
    → (es : List (SectorKey × SectorHistogram)) × (sum_histograms edges scale m agg rows ≡ some es)
      × IsAscendingKeys es
      × (total_of w (λ s. s.hist.n_valid) es % u64
          ≡ (total_of w (λ s. s.hist.n_valid) agg + sum_where w (λ p. 1) m rows) % u64)
unfolding sum_histograms
sum_histograms_lem edges scale m w [] agg two most pos h = (agg, refl, h, omega arith)
sum_histograms_lem edges scale m w (r ∷ rows) agg two most pos h =
    let (f, run, adds) = count_pair_lem edges scale (r.metrics m) two most pos in
    let fresh = fresh_histogram (key_of r) m in
    let (es, rest, ascending, sums) =
      sum_histograms_lem edges scale m w rows (at_key (key_of r) fresh f agg) two most pos
        (at_key-IsAscendingKeys (key_of r) fresh f agg h) in
    let here =
      at_key-total (λ (s : SectorHistogram). s.hist.n_valid) w (key_of r) fresh f
        (added (λ p. 1) (r.metrics m)) agg adds refl in
    (es, rw run rest, ascending, omega (arith, sums, here))

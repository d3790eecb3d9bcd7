-- ===== src/Sector/Totals.antt =====
-- The totals per sector: every key once, in order, and together the totals over all firms.
use psa_for_multiparty.Common.{
  ℕ, ◌+◌, ◌%◌, ◌≡◌, refl, ap, Bool, true, false, List, [], ◌∷◌, ◌==◌, if◌then◌else◌, Bool-cases,
  inl, inr, arith,
}
use psa_for_multiparty.Share.{u64, add64}
use psa_for_multiparty.Inclusion.{Metric, MetricPair, EntityMetricRow, aggregate_over_all}
use psa_for_multiparty.Inclusion.Totals.{sum_included, aggregate_over_all_lem}
use psa_for_multiparty.Sector.Order.{IsAscendingKeys, key_less-total, sum_ratios-IsAscendingKeys}
use psa_for_multiparty.Sector.{
  SectorKey, SectorRatio, key_less, key_of, at_key, fresh_ratio, add_ratio, sum_ratios,
}

-- The sum of a field over the entries whose keys satisfy a test.
abbrev pub total_of : {V : Type 0} → (SectorKey → Bool) → (V → ℕ) → List (SectorKey × V) → ℕ
total_of w f [] = 0
total_of w f (e ∷ es) = (if w e.0 then f e.1 else 0) + total_of w f es

-- What a pair adds to the totals.
abbrev pub added : (MetricPair → ℕ) → MetricPair → ℕ
added f p = if p.incl == 0 then 0 else f p

-- The sum over the included pairs of the rows whose keys satisfy a test, without wrapping.
abbrev pub sum_where : (SectorKey → Bool) → (MetricPair → ℕ) → Metric → List EntityMetricRow → ℕ
sum_where w f m [] = 0
sum_where w f m (r ∷ rows) =
    (if w (key_of r) then added f (r.metrics m) else 0) + sum_where w f m rows

pub sum_where-all :
    (f : MetricPair → ℕ) (m : Metric) (rows : List EntityMetricRow)
    → sum_where (λ k. true) f m rows ≡ sum_included f m rows
sum_where-all f m [] = refl
sum_where-all f m (r ∷ rows) = ap (λ (t : ℕ). added f (r.metrics m) + t) (sum_where-all f m rows)

-- Changing the entry of a key by a map that adds `c` to a field.
pub at_key-total :
    {V : Type 0} (field : V → ℕ) (w : SectorKey → Bool) (k : SectorKey) (fresh : V) (f : V → V)
    (c : ℕ) (es : List (SectorKey × V))
    → ((v : V) → field (f v) % u64 ≡ (field v + c) % u64)
    → field fresh ≡ 0
    → total_of w field (at_key k fresh f es) % u64
      ≡ (total_of w field es + (if w k then c else 0)) % u64
unfolding at_key
at_key-total field w k fresh f c [] adds empty = start (w k)
  where
    start :
        (b : Bool)
        → ((if b then field (f fresh) else 0) + 0) % u64 ≡ (0 + (if b then c else 0)) % u64
    start true = omega (arith, adds fresh, empty)
    start false = omega arith
at_key-total field w k fresh f c (e ∷ es) adds empty = elim (Bool-cases (key_less k e.0)) [
  | inl h ↦ rw h (before (w k) (total_of w field (e ∷ es)))
  | inr h ↦ elim (Bool-cases (key_less e.0 k)) [
    | inl l ↦ rw (h, l) (omega (arith, at_key-total field w k fresh f c es adds empty))
    | inr l ↦ rw (h, l, key_less-total k e.0 h l) (here (w e.0) (total_of w field es))
  ]
]
  where
    before :
        (b : Bool) (t : ℕ)
        → ((if b then field (f fresh) else 0) + t) % u64 ≡ (t + (if b then c else 0)) % u64
    before true t = omega (arith, adds fresh, empty)
    before false t = omega arith

    here :
        (b : Bool) (t : ℕ)
        → ((if b then field (f e.1) else 0) + t) % u64
          ≡ ((if b then field e.1 else 0) + t + (if b then c else 0)) % u64
    here true t = omega (arith, adds e.1)
    here false t = omega arith

module _ (field : SectorRatio → ℕ) (part : MetricPair → ℕ) where
  -- The field of an entry counts a part of the pairs.
  Counts : Type 0
  Counts =
      ((mp : MetricPair) (r : SectorRatio)
        → field (add_ratio mp r) % u64 ≡ (field r + added part mp) % u64)
      × ((k : SectorKey) (m : Metric) → field (fresh_ratio k m) ≡ 0)

  sum_ratios-total :
      Counts
      → (w : SectorKey → Bool) (m : Metric) (rows : List EntityMetricRow)
        (agg : List (SectorKey × SectorRatio))
      → total_of w field (sum_ratios m agg rows) % u64
        ≡ (total_of w field agg + sum_where w part m rows) % u64
  unfolding sum_ratios Counts
  sum_ratios-total c w m [] agg = omega arith
  sum_ratios-total c w m (r ∷ rows) agg = omega (
    arith,
    at_key-total field w (key_of r) (fresh_ratio (key_of r) m) (add_ratio (r.metrics m))
        (added part (r.metrics m)) agg (c.0 (r.metrics m)) (c.1 (key_of r) m),
    sum_ratios-total c w m rows
        (at_key (key_of r) (fresh_ratio (key_of r) m) (add_ratio (r.metrics m)) agg),
  )

num-Counts : Counts (λ r. r.sum_num) (λ p. p.num)
unfolding Counts
num-Counts = (λ mp r. one (mp.incl == 0) mp r, λ k m. refl)
  where
    one :
        (b : Bool) (mp : MetricPair) (r : SectorRatio)
        → (if b then r else record {
          key = r.key;
          metric = r.metric;
          sum_num = add64 r.sum_num mp.num;
          sum_den = add64 r.sum_den mp.den;
          incl = 1;
          ratio_fp = r.ratio_fp;
        }).sum_num
            % u64
          ≡ (r.sum_num + (if b then 0 else mp.num)) % u64
    one true mp r = omega arith
    one false mp r = omega arith

den-Counts : Counts (λ r. r.sum_den) (λ p. p.den)
unfolding Counts
den-Counts = (λ mp r. one (mp.incl == 0) mp r, λ k m. refl)
  where
    one :
        (b : Bool) (mp : MetricPair) (r : SectorRatio)
        → (if b then r else record {
          key = r.key;
          metric = r.metric;
          sum_num = add64 r.sum_num mp.num;
          sum_den = add64 r.sum_den mp.den;
          incl = 1;
          ratio_fp = r.ratio_fp;
        }).sum_den
            % u64
          ≡ (r.sum_den + (if b then 0 else mp.den)) % u64
    one true mp r = omega arith
    one false mp r = omega arith

-- For every table and metric, the entries of the sectors are in strictly ascending order of their
-- keys, so that each key has one; for every test on keys, the numerators and the denominators of the
-- entries whose keys pass it sum up to those of the included pairs of the rows whose keys pass it,
-- modulo 2^64; and over all keys to the totals of `aggregateOverAll`.
pub sum_ratios_lem :
    (rows : List EntityMetricRow) (m : Metric) (w : SectorKey → Bool)
    → let es = sum_ratios m [] rows in
      IsAscendingKeys es
      × (total_of w (λ r. r.sum_num) es % u64 ≡ sum_where w (λ p. p.num) m rows % u64)
      × (total_of w (λ r. r.sum_den) es % u64 ≡ sum_where w (λ p. p.den) m rows % u64)
      × (total_of (λ k. true) (λ r. r.sum_num) es % u64 ≡ (aggregate_over_all rows m).sum_num)
      × (total_of (λ k. true) (λ r. r.sum_den) es % u64 ≡ (aggregate_over_all rows m).sum_den)
sum_ratios_lem rows m w =
    let totals = aggregate_over_all_lem rows m in
    (
      sum_ratios-IsAscendingKeys m rows [] tt,
      omega (arith, sum_ratios-total _ _ num-Counts w m rows []),
      omega (arith, sum_ratios-total _ _ den-Counts w m rows []),
      omega (
        arith,
        sum_ratios-total _ _ num-Counts (λ k. true) m rows [],
        sum_where-all (λ p. p.num) m rows,
        totals.0,
      ),
      omega (
        arith,
        sum_ratios-total _ _ den-Counts (λ k. true) m rows [],
        sum_where-all (λ p. p.den) m rows,
        totals.1,
      ),
    )

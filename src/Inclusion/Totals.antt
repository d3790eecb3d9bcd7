-- ===== src/Inclusion/Totals.antt =====
-- `aggregateOverAll` against the sums over the included pairs.
use psa_for_multiparty.Common.{
  ℕ, ◌+◌, ◌%◌, ◌^◌, Bool, true, false, List, [], ◌∷◌, ◌==◌, if◌then◌else◌, ◌≡◌, arith,
}
use psa_for_multiparty.Share.{add64}
use psa_for_multiparty.Inclusion.{
  Metric, MetricPair, EntityMetricRow, MetricAggregate, empty_aggregate, add_pair, aggregate_from,
  aggregate_over_all,
}

-- The sum of a quantity over the pairs of a metric whose inclusion bit is set, without wrapping.
abbrev pub sum_included : (MetricPair → ℕ) → Metric → List EntityMetricRow → ℕ
sum_included f m [] = 0
sum_included f m (r ∷ rs) =
    (if (r.metrics m).incl == 0 then 0 else f (r.metrics m)) + sum_included f m rs

IsTotal : MetricAggregate → ℕ → ℕ → ℕ → Type 0
IsTotal a n d c = (a.sum_num ≡ n % 2 ^ 64) × (a.sum_den ≡ d % 2 ^ 64) × (a.n_valid ≡ c % 2 ^ 64)

-- One pair, added or not.
added-IsTotal :
    (b : Bool) (a : MetricAggregate) (x y n d c : ℕ)
    → IsTotal a n d c
    → IsTotal
        (if b then a else record {
          sum_num = add64 a.sum_num x;
          sum_den = add64 a.sum_den y;
          n_valid = add64 a.n_valid 1;
        })
        (n + (if b then 0 else x))
        (d + (if b then 0 else y))
        (c + (if b then 0 else 1))
unfolding IsTotal
added-IsTotal true a x y n d c (hn, hd, hc) = (omega arith, omega arith, omega arith)
added-IsTotal false a x y n d c (hn, hd, hc) = (omega arith, omega arith, omega arith)

aggregate_from_lem :
    (m : Metric) (rows : List EntityMetricRow) (a : MetricAggregate) (n d c : ℕ)
    → IsTotal a n d c
    → IsTotal
        (aggregate_from m a rows)
        (n + sum_included (λ p. p.num) m rows)
        (d + sum_included (λ p. p.den) m rows)
        (c + sum_included (λ p. 1) m rows)
unfolding IsTotal aggregate_from add_pair
aggregate_from_lem m [] a n d c (hn, hd, hc) = (omega arith, omega arith, omega arith)
aggregate_from_lem m (r ∷ rs) a n d c h =
    let p = r.metrics m in
    let (hn, hd, hc) =
      aggregate_from_lem m rs (add_pair a p) _ _ _
        (added-IsTotal (p.incl == 0) a p.num p.den n d c h) in
    (omega arith, omega arith, omega arith)

-- For every metric, `aggregate_over_all` returns the sum of the numerators, the sum of the
-- denominators and the number of the pairs whose inclusion bit is set, each modulo 2^64; the pairs
-- left out contribute to none of the three.
pub aggregate_over_all_lem :
    (rows : List EntityMetricRow) (m : Metric)
    → (((aggregate_over_all rows m).sum_num ≡ sum_included (λ p. p.num) m rows % 2 ^ 64)
        × ((aggregate_over_all rows m).sum_den ≡ sum_included (λ p. p.den) m rows % 2 ^ 64)
        × ((aggregate_over_all rows m).n_valid ≡ sum_included (λ p. 1) m rows % 2 ^ 64))
unfolding IsTotal aggregate_over_all
aggregate_over_all_lem rows m =
    let (hn, hd, hc) =
      aggregate_from_lem m rows empty_aggregate 0 0 0 (omega arith, omega arith, omega arith) in
    (omega arith, omega arith, omega arith)

-- ===== src/Bitonic/Count.antt =====
-- `bitonicCompareSwapCount` against the compare-and-swaps that the network does.
use psa_for_multiparty.Common.{
  ℕ, zero, suc, ◌+◌, ◌*◌, ◌/◌, ◌^◌, ◌≤◌, ◌<◌, Bool, true, false, length, ltb, leb, ◌≡◌, ap, dec_lt,
  lt→ltb, arith,
}
use native.Mathlib.Nat.{pow-suc, pow-le-pow_right}
use psa_for_multiparty.Bitonic.{
  SortElement, SortState, double_until, log2_from, log2_floor, double_until, next_power_of_two,
  bitonic_compare_swap_count, bitonic_sort_helper,
}
use psa_for_multiparty.Bitonic.Network.{Runs, merge_count, sort_count, bitonic_sort_helper_lem}
use psa_for_multiparty.Bitonic.Total.{positive_power, lt-power, next_power_of_two_lem}

power_test : (r k : ℕ) → r < k → ltb (2 ^ r) (2 ^ k) ≡ true
power_test r k lt = lt→ltb (2 ^ r) (2 ^ k) (
    omega (
      arith,
      pow-suc 2 r,
      pow-le-pow_right {n = 2} (omega arith) {i = suc r} {j = k} lt,
      positive_power r,
    ))

log2_from_lem : (fuel r k : ℕ) → r ≤ k → k ≤ r + fuel → log2_from fuel r (2 ^ k) ≡ k
unfolding log2_from
log2_from_lem zero r k h le = omega arith
log2_from_lem (suc fuel) r k h le = elim (dec_lt r k) [
  | yes lt ↦
      let below = power_test r k lt in
      rw below (log2_from_lem fuel (r + 1) k (omega arith) (omega arith))
  | no out ↦
      let equal : r ≡ k = omega arith in
      let over : ltb (2 ^ r) (2 ^ k) ≡ false = rw equal (ground arith) in rw over equal
]

double_until_power :
    (fuel r k : ℕ) → r ≤ k → k ≤ r + fuel → double_until fuel (2 ^ r) (2 ^ k) ≡ 2 ^ k
unfolding double_until
double_until_power zero r k h le = ap (λ (t : ℕ). 2 ^ t) (omega arith)
double_until_power (suc fuel) r k h le = elim (dec_lt r k) [
  | yes lt ↦
      let below : ltb (2 ^ r) (2 ^ k) ≡ true = power_test r k lt in
      let doubled : 2 ^ r * 2 ≡ 2 ^ suc r = omega (arith, pow-suc 2 r) in
      rw (below, doubled) (double_until_power fuel (suc r) k (omega arith) (omega arith))
  | no out ↦
      let equal : r ≡ k = omega arith in
      let over : ltb (2 ^ r) (2 ^ k) ≡ false = rw equal (ground arith) in
      rw over (ap (λ (t : ℕ). 2 ^ t) equal)
]

merge_count_lem : (k : ℕ) → 2 * merge_count k ≡ k * 2 ^ k
merge_count_lem zero = omega arith
merge_count_lem (suc k) = omega (arith, merge_count_lem k, ap (λ (t : ℕ). suc k * t) (pow-suc 2 k))

sort_count_lem : (j : ℕ) → 2 * sort_count (suc j) ≡ 2 ^ j * suc j * (suc j + 1)
sort_count_lem zero = omega arith
sort_count_lem (suc j) = omega (
  arith,
  sort_count_lem j,
  merge_count_lem (suc (suc j)),
  pow-suc 2 (suc j),
  pow-suc 2 j,
  ap (λ (t : ℕ). t * suc (suc j) * (suc (suc j) + 1)) (pow-suc 2 j),
  ap (λ (t : ℕ). suc (suc j) * t) (pow-suc 2 (suc j)),
  ap (λ (t : ℕ). suc (suc j) * t) (pow-suc 2 j),
)

-- The network on 2^k elements does as many compare-and-swaps as the formula says.
formula : (k : ℕ) → leb (2 ^ k) 1 ≡ false → 2 ^ k / 2 * k * (k + 1) / 2 ≡ sort_count k
formula zero h = absurd (ground (arith, h))
formula (suc j) h =
    omega (arith, sort_count_lem j, ap (λ (t : ℕ). t * suc j * (suc j + 1)) (half_power j))
  where
    half_power : (j : ℕ) → 2 ^ suc j / 2 ≡ 2 ^ j
    half_power j = omega (arith, pow-suc 2 j)

-- For every n of at least two, the padded length is a power of two that is not below n, and the
-- network on as many elements, in either direction, succeeds and does exactly
-- `bitonicCompareSwapCount(n)` compare-and-swaps, under every comparator.
pub bitonic_compare_swap_count_lem :
    {Block : Type 0} (cmp : SortElement Block → SortElement Block → Bool) (n : ℕ) (ascending : Bool)
    (s : SortState Block)
    → leb n 1 ≡ false
    → next_power_of_two n ≤ length s.0
    → (k : ℕ) × (next_power_of_two n ≡ 2 ^ k)
      × (n ≤ 2 ^ k)
      × Runs cmp
          (bitonic_compare_swap_count n)
          s
          (bitonic_sort_helper cmp (next_power_of_two n) 0 (next_power_of_two n) ascending s)
unfolding bitonic_compare_swap_count log2_floor
bitonic_compare_swap_count_lem cmp n ascending s many inside =
    let (k, power, le) = next_power_of_two_lem n many in
    let count : bitonic_compare_swap_count n ≡ sort_count k =
      rw (many, power, log2_from_lem (2 ^ k) 0 k (omega arith) (omega (arith, lt-power k)))
        (formula k (ground (arith, many, le))) in
    (
      k,
      power,
      le,
      rw (count, power)
          (bitonic_sort_helper_lem cmp k (2 ^ k) 0 ascending s (lt-power k)
            (omega (arith, power, inside))),
    )

-- The formula at a power of two.
pub bitonic_compare_swap_count-power :
    (k : ℕ) → leb (2 ^ k) 1 ≡ false → bitonic_compare_swap_count (2 ^ k) ≡ sort_count k
unfolding bitonic_compare_swap_count log2_floor next_power_of_two
bitonic_compare_swap_count-power k h =
    rw
      (
        h,
        double_until_power (2 ^ k) 0 k (omega arith) (omega (arith, lt-power k)),
        log2_from_lem (2 ^ k) 0 k (omega arith) (omega (arith, lt-power k)),
      )
      (formula k h)

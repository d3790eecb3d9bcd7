-- ===== src/Bitonic/Total.antt =====
-- The whole sort: the padding to a power of two, the network and the cut.
use psa_for_multiparty.Common.{
  ℕ, zero, suc, ◌+◌, ◌-◌, ◌*◌, ◌^◌, ◌≤◌, ◌<◌, Bool, true, false, some, List, ◌++◌, length, take,
  replicate, ltb, leb, ◌≡◌, refl, sym, ap, ◌∙◌, subst, choose_false, Bool-cases, inl, inr,
  length-append, length-replicate, length-take, arith,
}
use psa_for_multiparty.Common.Fail.{◌>>=◌}
use native.Mathlib.Nat.{pow-suc}
use psa_for_multiparty.Bitonic.{
  SortElement, SortState, double_until, next_power_of_two, payload_width, bitonic_sort_helper,
  oblivious_bitonic_sort_with_comparator,
}
use psa_for_multiparty.Bitonic.Network.{IsRearranged, bitonic_sort_helper_lem}

pub positive_power : (k : ℕ) → 1 ≤ 2 ^ k
positive_power zero = omega arith
positive_power (suc k) = omega (arith, pow-suc 2 k, positive_power k)

pub lt-power : (k : ℕ) → k < 2 ^ k
lt-power zero = omega arith
lt-power (suc k) = omega (arith, pow-suc 2 k, lt-power k)

double_until_lem :
    (fuel j n : ℕ)
    → n ≤ 2 ^ j + fuel
    → (k : ℕ) × (double_until fuel (2 ^ j) n ≡ 2 ^ k) × (n ≤ 2 ^ k)
unfolding double_until
double_until_lem zero j n h = (j, refl, omega arith)
double_until_lem (suc fuel) j n h = elim (Bool-cases (ltb (2 ^ j) n)) [
  | inl e ↦
      let doubled : 2 ^ j * 2 ≡ 2 ^ suc j = omega (arith, pow-suc 2 j) in
      let (k, eq, le) =
        double_until_lem fuel (suc j) n (omega (arith, pow-suc 2 j, positive_power j, h)) in
      (k, rw (e, doubled) eq, le)
  | inr e ↦ (j, rw e refl, ground (arith, e))
]

pub next_power_of_two_lem :
    (n : ℕ) → leb n 1 ≡ false → (k : ℕ) × (next_power_of_two n ≡ 2 ^ k) × (n ≤ 2 ^ k)
unfolding next_power_of_two
next_power_of_two_lem n e = rw e (double_until_lem n 0 n (omega arith))

module _ {Block : Type 0} (cmp : SortElement Block → SortElement Block → Bool) (zero_block : Block)
    (xs : List (SortElement Block)) where
  abbrev pub sentinel : SortElement Block
  sentinel = record {
    key = 2 ^ 64 - 1;
    payload = replicate (payload_width cmp zero_block xs) zero_block;
  }

  -- The vector and its sentinels.
  abbrev pub padded : List (SortElement Block)
  padded = xs ++ replicate (next_power_of_two (length xs) - length xs) sentinel

  pub padded-length :
      (k : ℕ) → next_power_of_two (length xs) ≡ 2 ^ k → length xs ≤ 2 ^ k → length padded ≡ 2 ^ k
  padded-length k power le = omega (
    arith,
    length-append xs (replicate (next_power_of_two (length xs) - length xs) sentinel),
    length-replicate (next_power_of_two (length xs) - length xs) sentinel,
    power,
    le,
  )

  -- The result by the run of the network.
  pub sort_of_run :
      (k : ℕ) (t : SortState Block)
      → leb (length xs) 1 ≡ false
      → next_power_of_two (length xs) ≡ 2 ^ k
      → bitonic_sort_helper cmp (next_power_of_two (length xs)) 0 (2 ^ k) true (padded, 0) ≡ some t
      → oblivious_bitonic_sort_with_comparator cmp zero_block xs ≡ some (take (length xs) t.0)
  unfolding oblivious_bitonic_sort_with_comparator
  sort_of_run k t many power run =
      let n = length xs in
      let run' =
        subst (λ c. bitonic_sort_helper cmp (next_power_of_two n) 0 c true (padded, 0) ≡ some t)
          (sym power) run in
      choose_false (leb n 1) (some xs) _ many ∙ ap (λ o. o >>= λ s. some (take n s.0)) run'

-- For every comparator and every vector of at least two elements: the sort succeeds, and its result
-- is the first part, as long as the vector, of a rearrangement of the vector and its sentinels.
pub oblivious_bitonic_sort_with_comparator_lem :
    {Block : Type 0} (cmp : SortElement Block → SortElement Block → Bool) (zero_block : Block)
    (xs : List (SortElement Block))
    → leb (length xs) 1 ≡ false
    → (zs : List (SortElement Block)) × (oblivious_bitonic_sort_with_comparator cmp zero_block xs
        ≡ some (take (length xs) zs))
      × (length (take (length xs) zs) ≡ length xs)
      × IsRearranged cmp (padded cmp zero_block xs) zs
oblivious_bitonic_sort_with_comparator_lem cmp zero_block xs many =
    let n = length xs in
    let (k, power, le) = next_power_of_two_lem n many in
    let long = padded-length cmp zero_block xs k power le in
    let (t, run, (len, sums), _) =
      bitonic_sort_helper_lem cmp k (next_power_of_two n) 0 true (padded cmp zero_block xs, 0)
        (omega (arith, power, lt-power k)) (omega (arith, long)) in
    (
      t.0,
      sort_of_run cmp zero_block xs k t many power run,
      length-take n t.0 (omega (arith, len, long, le)),
      (len, sums),
    )

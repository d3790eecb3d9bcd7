-- ===== src/Join/Shared/Total.antt =====
-- The private join in memory: the sort of the bag, the expansion and the filter in one run.
use psa_for_multiparty.Common.{
  ℕ, zero, suc, ◌+◌, ◌*◌, ◌^◌, ◌%◌, ◌≤◌, ◌<◌, ◌≡◌, refl, sym, ap, ◌∙◌, subst, true, false, not,
  ◌&&◌, ◌||◌, some, List, [], ◌∷◌, ◌++◌, length, ◌==◌, arith, All, length-append, ==_iff,
  choose_false,
}
use psa_for_multiparty.Common.Fail
use native.Mathlib.Nat.{add_assoc, mul-mod_left}
use mathlib.Core.Option.{some_inj}
use psa_for_multiparty.Bag.{Bag, ◌>>=◌}
use psa_for_multiparty.Bag.Cost.{
  Outcome, IsGoodBag, Outcome-cost, Outcome-mono, Outcome-bind, Outcome-lift, Outcome-require,
}
use psa_for_multiparty.Bitonic.{default_less}
use psa_for_multiparty.Bitonic.Network.{IsRearranged}
use psa_for_multiparty.Bitonic.Increasing.{Increasing}
use psa_for_multiparty.Bitonic.Ordered.{HasRealKey}
use psa_for_multiparty.Sort.{mpc_bitonic_sort, mpc_bitonic_sort_triple_cost, SharedSortElement}
use psa_for_multiparty.Sort.Elements.{Clear, StandsAll, StandsAll-length}
use psa_for_multiparty.Sort.Whole.{mpc_bitonic_sort-any}
use psa_for_multiparty.Join.Shared.{
  MpcJoinRow, JoinInputRowShared, first_count, all_counts, mpc_cross_product_expand,
  mpc_filter_intersection, mpc_cross_product_expand_triple_cost,
  mpc_filter_intersection_triple_cost, mpc_execute_private_join_in_memory,
  mpc_execute_private_join_in_memory_triple_cost,
}
use psa_for_multiparty.Join.Shared.Rows.{ClearRow, clear_row}
use psa_for_multiparty.Join.Shared.Expand.{
  StandsRows, clear_combos, clear_windows, mpc_cross_product_expand_lem,
}
use psa_for_multiparty.Join.Shared.Front.{FilteredRows, mpc_filter_intersection_lem}
use psa_for_multiparty.Join.Shared.Bag.{
  ClearInput, StandsParties, clear_bag, aggregate_tuples_lem, all_counts_lem,
}
use psa_for_multiparty.Join.Counter.{digits_of}

-- The rows of the join of the tuples in the clear: a vector in ascending order of composite keys,
-- expanded window by window, and the rows of the intersection in front. The vector is a rearrangement
-- of the bag when every key of the bag is below that of the sentinels, 2^64 - 1.
pub record JoinResult (n parties m b r count : ℕ) (bag : List Clear) (out : List MpcJoinRow)
    : Type 0 where
  pub sorted : List Clear
  pub increasing : Increasing sorted
  pub rearranged : All HasRealKey bag → IsRearranged default_less bag sorted
  pub expanded : List ClearRow
  pub expansion : clear_windows sorted parties m b 0 count ≡ some expanded
  pub filtered : FilteredRows n (parties * r) expanded out

StandsRows-length :
    (n blocks : ℕ) (xs : List MpcJoinRow) (cs : List ClearRow)
    → StandsRows n blocks xs cs
    → length xs ≡ length cs
StandsRows-length n blocks [] [] h = refl
StandsRows-length n blocks [] (c ∷ cs) h = absurd h
StandsRows-length n blocks (x ∷ xs) [] h = absurd h
StandsRows-length n blocks (x ∷ xs) (c ∷ cs) h = ap suc (StandsRows-length n blocks xs cs h.1)

length-clear_combos :
    (es : List Clear) (parties m b base v count : ℕ) {cs : List ClearRow}
    → clear_combos es parties m b base v count ≡ some cs
    → length cs ≡ count
unfolding clear_combos
length-clear_combos es parties m b base v zero h = ground (arith, h)
length-clear_combos es parties m b base v (suc count) h =
    let (row, row_eq, after) =
      Fail.>>=-eq-some (clear_row es m b base (digits_of m parties v)) _ h in
    let (rest, rest_eq, last) =
      Fail.>>=-eq-some (clear_combos es parties m b base (v + 1) count) _ after in
    let size = length-clear_combos es parties m b base (v + 1) count rest_eq in
    ground (arith, last, size)

length-clear_windows :
    (es : List Clear) (parties m b base count : ℕ) {cs : List ClearRow}
    → clear_windows es parties m b base count ≡ some cs
    → length cs ≡ count * m ^ parties
unfolding clear_windows
length-clear_windows es parties m b base zero h = ground (arith, h)
length-clear_windows es parties m b base (suc count) {cs} h =
    let (rows, rows_eq, after) =
      Fail.>>=-eq-some (clear_combos es parties m b base 0 (m ^ parties)) _ h in
    let (rest, rest_eq, last) =
      Fail.>>=-eq-some (clear_windows es parties m b (base + parties * m) count) _ after in
    let whole : rows ++ rest ≡ cs = some_inj.0 last in
    sym (ap length whole)
    ∙ omega (
      arith,
      length-append rows rest,
      length-clear_combos es parties m b base 0 (m ^ parties) rows_eq,
      length-clear_windows es parties m b (base + parties * m) count rest_eq,
    )

bag_size : (parties count m : ℕ) → parties * (count * m) ≡ count * (parties * m)
bag_size parties count m = omega arith

-- The published cost, in the order of the phases.
phase_costs :
    (k m r count size : ℕ)
    → 0 < m
    → 0 < count
    → size ≡ suc k * m * count
    → mpc_bitonic_sort_triple_cost size (1 + r)
        + (mpc_cross_product_expand_triple_cost count (suc k) m
            + mpc_filter_intersection_triple_cost (count * m ^ suc k) (suc k) r)
      ≡ mpc_execute_private_join_in_memory_triple_cost (suc k) m r count
unfolding mpc_execute_private_join_in_memory_triple_cost
phase_costs k m r count size many some_ids e =
    let proper : (suc k == 0 || m == 0 || count == 0) ≡ false = ground (arith, many, some_ids) in
    rw (proper, e) (sym (add_assoc _ _ _))

nonzero_test : (a : ℕ) → 0 < a → (a == 0) ≡ false
nonzero_test a h = ground arith

divides_test : (c m : ℕ) → 0 < m → (not (m == 0) && c * m % m == 0) ≡ true
divides_test c m h = rw (mul-mod_left c m) (ground arith)

positive_product : (c m : ℕ) → 0 < c → 0 < m → 0 < c * m
positive_product c m h k = grind arith

first_count_lem :
    (n r count : ℕ) (per_party : List (List JoinInputRowShared)) (cs : List (List ClearInput))
    → StandsParties n r count per_party cs
    → 0 < length per_party
    → first_count per_party ≡ count
first_count_lem n r count [] [] h some_party = absurd (omega arith)
first_count_lem n r count [] (c ∷ cs) h some_party = absurd h
first_count_lem n r count (rows ∷ rest) [] h some_party = absurd h
first_count_lem n r count (rows ∷ rest) (c ∷ cs) h some_party = h.0

module _ {n : ℕ} (pos : 0 < n) {bag : Bag} (good : IsGoodBag n bag) (r m b : ℕ) (small : b ≤ 32)
    (many : 0 < m) (k : ℕ) (bounded : m ^ suc k ≤ 2 ^ 40) where
  -- The phases after the aggregation.
  phases :
      (xs : List SharedSortElement) (es : List Clear) (count : ℕ) {i : ℕ}
      → i ≤ length bag
      → StandsAll n (1 + r) xs es
      → length xs ≡ count * (suc k * m)
      → Outcome bag i
          (mpc_bitonic_sort_triple_cost (length xs) (1 + r)
            + (mpc_cross_product_expand_triple_cost count (suc k) m
                + mpc_filter_intersection_triple_cost (count * m ^ suc k) (suc k) r))
          (JoinResult n (suc k) m b r count es)
          (mpc_bitonic_sort xs >>= (λ sorted.
            mpc_cross_product_expand sorted (suc k) m b r
            >>= (λ expanded. mpc_filter_intersection expanded (suc k) r)))
  phases xs es count fits h size =
      Outcome-bind (mpc_bitonic_sort-any pos (1 + r) good xs es fits h) λ sorted fits1 s.
        Outcome-bind
          (mpc_cross_product_expand_lem pos good r m b (omega (arith, small)) many k sorted s.clear
            count fits1 bounded s.stands
            (sym (StandsAll-length n (1 + r) sorted s.clear s.stands)
              ∙ s.same_length
              ∙ StandsAll-length n (1 + r) xs es h
              ∙ size))
          λ rows fits2 e.
            Outcome-cost
              (ap (λ t. mpc_filter_intersection_triple_cost t (suc k) r)
                (StandsRows-length n (suc k * r) rows e.0 e.2
                  ∙ length-clear_windows s.clear (suc k) m b 0 count e.1))
              (Outcome-mono
                (λ out f. record {
                  sorted = s.clear;
                  increasing = s.increasing;
                  rearranged = s.rearranged;
                  expanded = e.0;
                  expansion = e.1;
                  filtered = f;
                })
                (mpc_filter_intersection_lem pos good (suc k) r rows e.0 fits2 e.2))

  -- For at least one sharing party, a bag of triples for them, N input parties with the same number of
  -- tuples that are shared among them, M for each of `count` ids, N, M and `count` at least 1, M ^ N at
  -- most 2^40 and at most 32 bits for the party in a key: the join started inside the bag either
  -- consumes exactly `mpcExecutePrivateJoinInMemoryTripleCost` triples and returns rows that stand for
  -- those of a vector in ascending order of composite keys, expanded window by window, with the rows
  -- of the intersection in front, where the vector is a rearrangement of the aggregated bag when every
  -- composite key of the bag is below 2^64 - 1; or it finds fewer triples left and throws.
  pub mpc_execute_private_join_in_memory_lem :
      (per_party : List (List JoinInputRowShared)) (cs : List (List ClearInput)) (count : ℕ) {i : ℕ}
      → i ≤ length bag
      → 0 < count
      → length per_party ≡ suc k
      → StandsParties n r (count * m) per_party cs
      → Outcome bag i
          (mpc_execute_private_join_in_memory_triple_cost (suc k) m r count)
          (JoinResult n (suc k) m b r count (clear_bag b 0 cs))
          (mpc_execute_private_join_in_memory (suc k) m b r per_party)
  unfolding mpc_execute_private_join_in_memory
  mpc_execute_private_join_in_memory_lem per_party cs count fits some_ids parties h =
      let (xs, xs_eq, xs_h, xs_n) =
        aggregate_tuples_lem pos r b small 0 (count * m) per_party cs h in
      let first : first_count per_party ≡ count * m =
        first_count_lem n r (count * m) per_party cs h (omega (arith, parties)) in
      let size : length xs ≡ count * (suc k * m) =
        xs_n ∙ ap (λ t. t * (count * m)) parties ∙ bag_size (suc k) count m in
      let filled : (first_count per_party == 0) ≡ false =
        subst (λ t. (t == 0) ≡ false) (sym first)
          (nonzero_test (count * m) (positive_product count m some_ids many)) in
      let whole : (not (m == 0) && first_count per_party % m == 0) ≡ true =
        subst (λ t. (not (m == 0) && t % m == 0) ≡ true) (sym first) (divides_test count m many) in
      let equal : all_counts (first_count per_party) per_party ≡ true =
        subst (λ t. all_counts t per_party ≡ true) (sym first)
          (all_counts_lem n r (count * m) per_party cs h) in
      Outcome-require (length per_party == suc k) _ ((==_iff _ _).1 parties) (
        rw (choose_false (first_count per_party == 0) _ _ filled) (
          Outcome-require _ _ whole (
            Outcome-require _ _ equal (
              Outcome-lift _ xs_eq (
                Outcome-cost
                  (phase_costs k m r count (length xs) many some_ids (omega (arith, size)))
                  (phases xs (clear_bag b 0 cs) count fits xs_h size))))))

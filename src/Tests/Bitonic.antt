-- ===== src/Tests/Bitonic.antt =====
-- The bitonic sort at concrete inputs.
use psa_for_multiparty.Common.{
  ℕ, ◌-◌, ◌^◌, true, Option, none, some, List, [], ◌∷◌, ◌++◌, length, take, replicate, map, ◌≡◌,
  refl, arith,
}
use psa_for_multiparty.Bitonic.{
  bitonic_compare_swap_count, log2_floor, SortElement, default_less, payload_width,
  next_power_of_two, bitonic_sort_helper, oblivious_bitonic_sort_with_comparator,
  oblivious_bitonic_sort, compare_and_swap, is_sorted_ascending,
}
use psa_for_multiparty.Bitonic.Network.{sort_count, IsRearranged, Runs, bitonic_sort_helper_lem}
use psa_for_multiparty.Bitonic.Ordered.{
  is_sorted_ascending-oblivious_bitonic_sort, oblivious_bitonic_sort-IsRearranged,
}
use psa_for_multiparty.Bitonic.Total.{oblivious_bitonic_sort_with_comparator_lem}

abbrev with_key : ℕ → SortElement ℕ
with_key k = record { key = k; payload = k ∷ [] }

abbrev three : List (SortElement ℕ)
three = with_key 30 ∷ with_key 10 ∷ with_key 20 ∷ []

abbrev four : List (SortElement ℕ)
four = with_key 4 ∷ three

abbrev keys_of : Option (List (SortElement ℕ)) → List ℕ
keys_of none = []
keys_of (some xs) = map (λ x. x.key) xs

sort_runs : keys_of (oblivious_bitonic_sort 0 three) ≡ 10 ∷ 20 ∷ 30 ∷ []
unfolding oblivious_bitonic_sort next_power_of_two compare_and_swap
sort_runs = refl

-- The published count of the network is that of its runs.
count_runs :
    map bitonic_compare_swap_count (2 ∷ 4 ∷ 8 ∷ 16 ∷ []) ≡ map sort_count (1 ∷ 2 ∷ 3 ∷ 4 ∷ [])
unfolding bitonic_compare_swap_count next_power_of_two log2_floor
count_runs = refl

network_example :
    Runs default_less 6 (four, 0) (bitonic_sort_helper default_less 3 0 4 true (four, 0))
network_example =
    bitonic_sort_helper_lem default_less 2 3 0 true (four, 0) (omega arith) (omega arith)

sort_example :
    (zs : List (SortElement ℕ)) × (oblivious_bitonic_sort_with_comparator default_less 0 three
      ≡ some (take 3 zs))
    × (length (take 3 zs) ≡ 3)
    × IsRearranged default_less
        (three
          ++ replicate (next_power_of_two 3 - 3) (record {
            key = 2 ^ 64 - 1;
            payload = replicate (payload_width default_less 0 three) 0;
          }))
        zs
sort_example = oblivious_bitonic_sort_with_comparator_lem default_less 0 three refl

sorted_example :
    (ys : List (SortElement ℕ)) × (oblivious_bitonic_sort 0 three ≡ some ys)
    × (is_sorted_ascending ys ≡ true)
sorted_example = is_sorted_ascending-oblivious_bitonic_sort 0 three

sort_keeps_example :
    (ys : List (SortElement ℕ)) × (oblivious_bitonic_sort 0 three ≡ some ys)
    × (is_sorted_ascending ys ≡ true)
    × IsRearranged default_less three ys
sort_keeps_example =
    oblivious_bitonic_sort-IsRearranged 0 three (omega arith, (omega arith, (omega arith, tt)))

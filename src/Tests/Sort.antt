-- ===== src/Tests/Sort.antt =====
-- The sorts at concrete inputs.
use Prim.Native.Nat.{zero-le}
use psa_for_multiparty.Common.{
  ℕ, ◌^◌, ◌≤◌, ◌≡◌, refl, Bool, true, false, List, [], ◌∷◌, map, replicate, arith,
}
use psa_for_multiparty.Bag.Cost.{Outcome}
use psa_for_multiparty.Compare.{secure_less_than_triple_cost}
use psa_for_multiparty.Compare.Word.{SharesAll, value_of}
use psa_for_multiparty.Bitonic.{
  SortElement, default_less, next_power_of_two, bitonic_compare_swap_count, log2_floor,
  bitonic_sort_helper,
}
use psa_for_multiparty.Bitonic.Network.{Runs}
use psa_for_multiparty.Bitonic.Count.{bitonic_compare_swap_count_lem}
use psa_for_multiparty.Sort.{
  SharedSortElement, conditional_swap, conditional_swap_triple_cost, mpc_bitonic_sort,
  mpc_bitonic_sort_triple_cost,
}
use psa_for_multiparty.Sort.Swap.{Stands, conditional_swap_lem}
use psa_for_multiparty.Sort.Total.{Sorted, mpc_bitonic_sort_lem}
use psa_for_multiparty.Tests.Fixtures.{share_pair, share_pair-Shares, bag_of, bag_of-IsGoodBag}

-- the 64 bits of a key whose lowest three are given
abbrev pub key_bits : Bool → Bool → Bool → List Bool
key_bits p q r = p ∷ q ∷ r ∷ replicate 61 false

abbrev pub element : List Bool → Bool → SharedSortElement
element ps b = record { key = record { bits = map share_pair ps }; payload = share_pair b ∷ [] }

abbrev pub clear_element : List Bool → Bool → SortElement Bool
clear_element ps b = record { key = value_of ps; payload = b ∷ [] }

pub map-SharesAll : (ps : List Bool) → SharesAll 2 (map share_pair ps) ps
map-SharesAll [] = tt
map-SharesAll (p ∷ ps) = (share_pair-Shares p, map-SharesAll ps)

pub element-Stands :
    (p q r b : Bool) → Stands 2 1 (element (key_bits p q r) b) (clear_element (key_bits p q r) b)
element-Stands p q r b = record {
  key = record {
    bools = key_bits p q r;
    shared = map-SharesAll (key_bits p q r);
    width = refl;
    value = refl;
  };
  payload = (share_pair-Shares b, tt);
  width = refl;
}

abbrev pub five_on : SharedSortElement
five_on = element (key_bits true false true) true

abbrev pub two_off : SharedSortElement
two_off = element (key_bits false true false) false

abbrev three_on : SharedSortElement
three_on = element (key_bits true true false) true

abbrev pub five_clear : SortElement Bool
five_clear = clear_element (key_bits true false true) true

abbrev pub two_clear : SortElement Bool
two_clear = clear_element (key_bits false true false) false

abbrev three_clear : SortElement Bool
three_clear = clear_element (key_bits true true false) true

conditional_swap_example :
    Outcome
      (bag_of 100)
      0
      (conditional_swap_triple_cost 1)
      (λ (r : SharedSortElement × SharedSortElement).
        Stands 2 1 r.0 two_clear × Stands 2 1 r.1 five_clear)
      (conditional_swap five_on two_off (share_pair true))
conditional_swap_example =
    conditional_swap_lem {n = 2} (omega arith) (bag_of-IsGoodBag 100) {w = 1} {c = true}
      {d = five_clear} {e = two_clear} zero-le (element-Stands true false true true)
      (element-Stands false true false false) (share_pair-Shares true)

mpc_sort_example :
    Outcome
      (bag_of 2000)
      0
      (mpc_bitonic_sort_triple_cost 3 1)
      (Sorted 2 1 (five_clear ∷ two_clear ∷ three_clear ∷ []))
      (mpc_bitonic_sort (five_on ∷ two_off ∷ three_on ∷ []))
mpc_sort_example =
    mpc_bitonic_sort_lem {n = 2} (omega arith) 1 (bag_of-IsGoodBag 2000)
      (five_on ∷ two_off ∷ three_on ∷ []) (five_clear ∷ two_clear ∷ three_clear ∷ []) zero-le refl
      (
        element-Stands true false true true,
        (element-Stands false true false false, (element-Stands true true false true, tt)),
      )

-- The cost of a sort of three elements with payloads of one bit: six swaps of 321 triples.
sort_cost : mpc_bitonic_sort_triple_cost 3 1 ≡ 1926
unfolding mpc_bitonic_sort_triple_cost bitonic_compare_swap_count next_power_of_two log2_floor
    secure_less_than_triple_cost conditional_swap_triple_cost
sort_cost = refl

next_three : next_power_of_two 3 ≡ 4
unfolding next_power_of_two
next_three = refl

compare_count_example :
    (k : ℕ) × (next_power_of_two 3 ≡ 2 ^ k)
    × (3 ≤ 2 ^ k)
    × Runs default_less
        (bitonic_compare_swap_count 3)
        (five_clear ∷ two_clear ∷ three_clear ∷ five_clear ∷ [], 0)
        (bitonic_sort_helper default_less
          (next_power_of_two 3)
          0
          (next_power_of_two 3)
          false
          (five_clear ∷ two_clear ∷ three_clear ∷ five_clear ∷ [], 0))
compare_count_example =
    bitonic_compare_swap_count_lem default_less 3 false
      (five_clear ∷ two_clear ∷ three_clear ∷ five_clear ∷ [], 0) refl (omega (arith, next_three))

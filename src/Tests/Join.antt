-- ===== src/Tests/Join.antt =====
-- The joins at concrete inputs.
use Prim.Native.Nat.{zero-le}
use psa_for_multiparty.Common.{
  ℕ, ◌≡◌, refl, Bool, true, false, some, List, [], ◌∷◌, map, length, arith, All,
}
use psa_for_multiparty.Bag.Cost.{Outcome}
use psa_for_multiparty.Compare.Word.{SharesAll}
use psa_for_multiparty.Bitonic.Network.{total}
use psa_for_multiparty.Join.{JoinExpandedRow, pack_tuple_meta, unpack_tuple_meta}
use psa_for_multiparty.Join.Meta.{unpack_tuple_meta-pack_tuple_meta}
use psa_for_multiparty.Join.Filter.{count_intersection, filter_and_truncate, zero_block}
use psa_for_multiparty.Join.Filter.Kept.{
  IsIntersection, intersection_weight, filter_and_truncate_lem,
}
use psa_for_multiparty.Join.Shared.{
  JoinInputRowShared, mpc_window_ends, mpc_window_ends_triple_cost,
  mpc_execute_private_join_in_memory, mpc_execute_private_join_in_memory_triple_cost,
}
use psa_for_multiparty.Join.Shared.Windows.{last_of_window, mpc_window_ends_lem}
use psa_for_multiparty.Join.Shared.Bag.{ClearInput, StandsInput, clear_bag}
use psa_for_multiparty.Join.Shared.Total.{JoinResult, mpc_execute_private_join_in_memory_lem}
use psa_for_multiparty.Tests.Fixtures.{share_pair, share_pair-Shares, bag_of, bag_of-IsGoodBag}
use psa_for_multiparty.Tests.Sort.{
  key_bits, map-SharesAll, five_on, two_off, five_clear, two_clear, element-Stands,
}

-- a tuple of id 5 with one bit of data
abbrev tuple_five : Bool → JoinInputRowShared
tuple_five d = record {
  id = record { bits = map share_pair (key_bits true false true) };
  is_real = share_pair true;
  row_data = share_pair d ∷ [];
}

abbrev clear_five : Bool → ClearInput
clear_five d = record { id = 5; is_real = true; row_data = d ∷ [] }

tuple_five-StandsInput : (d : Bool) → StandsInput 2 1 (tuple_five d) (clear_five d)
tuple_five-StandsInput d = record {
  id = record {
    bools = key_bits true false true;
    shared = map-SharesAll (key_bits true false true);
    width = refl;
    value = refl;
  };
  flag = share_pair-Shares true;
  payload = (share_pair-Shares d, tt);
  width = refl;
}

private_join_example :
    Outcome
      (bag_of 1000)
      0
      (mpc_execute_private_join_in_memory_triple_cost 2 1 1 1)
      (JoinResult 2 2 1 1 1 1
        (clear_bag 1 0 ((clear_five true ∷ []) ∷ (clear_five false ∷ []) ∷ [])))
      (mpc_execute_private_join_in_memory 2 1 1 1
        ((tuple_five true ∷ []) ∷ (tuple_five false ∷ []) ∷ []))
private_join_example =
    mpc_execute_private_join_in_memory_lem {n = 2} (omega arith) (bag_of-IsGoodBag 1000) 1 1 1
      (omega arith) (omega arith) 1 (omega arith)
      ((tuple_five true ∷ []) ∷ (tuple_five false ∷ []) ∷ [])
      ((clear_five true ∷ []) ∷ (clear_five false ∷ []) ∷ []) 1 zero-le (omega arith) refl
      (refl, (tuple_five-StandsInput true, tt), (refl, (tuple_five-StandsInput false, tt), tt))

window_ends_example :
    Outcome
      (bag_of 100)
      0
      (mpc_window_ends_triple_cost 2)
      (λ r. SharesAll 2 r (last_of_window 1 (five_clear ∷ two_clear ∷ [])))
      (mpc_window_ends (five_on ∷ two_off ∷ []) 1)
window_ends_example =
    mpc_window_ends_lem {n = 2} (omega arith) (bag_of-IsGoodBag 100) 1 1 (omega arith)
      (five_on ∷ two_off ∷ []) (five_clear ∷ two_clear ∷ []) zero-le
      (element-Stands true false true true, (element-Stands false true false false, tt))

abbrev expanded_row : Bool → JoinExpandedRow
expanded_row b = record { id = 9; joined_payload = zero_block ∷ []; is_intersection = b }

filter_example :
    (out : List JoinExpandedRow) × (filter_and_truncate
        (expanded_row false ∷ expanded_row true ∷ [])
        1
      ≡ some (count_intersection (expanded_row false ∷ expanded_row true ∷ []), out))
    × All IsIntersection out
    × (length out ≡ count_intersection (expanded_row false ∷ expanded_row true ∷ []))
    × ((f : JoinExpandedRow → ℕ)
        → total f out ≡ total (intersection_weight f) (expanded_row false ∷ expanded_row true ∷ []))
filter_example =
    filter_and_truncate_lem 1 1 (expanded_row false) (expanded_row true ∷ []) (omega arith) (
      record { id = omega arith; payload = refl },
      (record { id = omega arith; payload = refl }, tt),
    )

metadata_example :
    unpack_tuple_meta (pack_tuple_meta 258 70000 true)
    ≡ some (record { party_idx = 258; row_idx = 70000; is_real = true })
metadata_example = unpack_tuple_meta-pack_tuple_meta 258 70000 true (omega arith) (omega arith)

-- ===== src/Join/Shared.antt =====
-- volePSI/MpMpcJoin.h and volePSI/MpMpcJoin.cpp: the join on shared tuples. Reading a bit or a tuple
-- that is missing is undefined in the source, and `none` here. The sizes do not reach 2^64.
pub mod Words
pub mod Windows
pub mod Rows
pub mod Expand
pub mod Encoding
pub mod Kept
pub mod Front
pub mod Bag
pub mod Total
use psa_for_multiparty.Common.{
  ℕ, zero, suc, ◌+◌, ◌-◌, ◌*◌, ◌/◌, ◌%◌, ◌^◌, Bool, true, false, not, ◌&&◌, ◌||◌, Option, none,
  some, List, [], ◌∷◌, ◌++◌, length, get_elem?, drop, replicate, leb, ◌==◌, if◌then◌else◌,
}
use psa_for_multiparty.Common.Fail
use psa_for_multiparty.Share.{SharedBit, zero_bit, one_bit}
use psa_for_multiparty.Bag.{M, ◌>>=◌, ◌>>◌, pure, lift, and_next, not_shared}
use psa_for_multiparty.Compare.{SharedU64Bin, bin_parties, secure_equal, secure_equal_triple_cost}
use psa_for_multiparty.Sort.{SharedSortElement, mpc_bitonic_sort, mpc_bitonic_sort_triple_cost}
use psa_for_multiparty.Join.{increment}

-- the first `count` bits
unfoldable pub first_bits : ℕ → List SharedBit → Option (List SharedBit)
first_bits zero xs = some []
first_bits (suc count) [] = none
first_bits (suc count) (x ∷ xs) = Fail.◌>>=◌ (first_bits count xs) λ rest. some (x ∷ rest)

-- a public bit: party 0 holds it
abbrev pub public_bit : ℕ → ℕ → SharedBit
public_bit n b = if b == 0 then zero_bit n else one_bit n

-- `(party_idx >> i) & 1` for `count` bits from `i` on
abbrev pub public_bits : ℕ → ℕ → ℕ → ℕ → List SharedBit
public_bits n party_idx i zero = []
public_bits n party_idx i (suc count) =
    public_bit n (party_idx / 2 ^ i % 2) ∷ public_bits n party_idx (i + 1) count

unfoldable pub make_composite_key : SharedU64Bin → ℕ → ℕ → Option SharedU64Bin
unfolding first_bits
make_composite_key id party_idx_bits party_idx = Fail.◌>>◌ (Fail.require (leb party_idx_bits 32)) (
    Fail.◌>>=◌ (first_bits (64 - party_idx_bits) id.bits) λ high.
      some (record { bits = public_bits (bin_parties id) party_idx 0 party_idx_bits ++ high }))

unfoldable pub extract_id_from_composite : SharedU64Bin → ℕ → Option SharedU64Bin
unfolding first_bits
extract_id_from_composite composite party_idx_bits =
    Fail.◌>>=◌ (first_bits (64 - party_idx_bits) (drop party_idx_bits composite.bits)) λ low.
      some (record {
        bits = low ++ replicate (64 - (64 - party_idx_bits)) (zero_bit (bin_parties composite));
      })

-- `for (i = 1; i < bits.size(); ++i) acc = secureAnd(acc, bits[i], …)`
unfoldable pub and_chain : SharedBit → List SharedBit → M SharedBit
and_chain acc [] = pure acc
and_chain acc (b ∷ bs) = do next ← and_next acc b; and_chain next bs

unfoldable pub secure_and_chain : List SharedBit → M SharedBit
unfolding and_chain
secure_and_chain [] = lift none
secure_and_chain (b ∷ bs) = and_chain b bs

unfoldable pub mpc_window_ends_triple_cost : ℕ → ℕ
mpc_window_ends_triple_cost n = if leb n 1 then 0 else (n - 1) * secure_equal_triple_cost

-- The loop over the neighbours; `n` is the number of parties of the first key.
unfoldable pub window_ends_loop :
    ℕ → ℕ → SharedSortElement → List SharedSortElement → M (List SharedBit)
unfolding extract_id_from_composite
window_ends_loop n party_idx_bits x [] = pure (one_bit n ∷ [])
window_ends_loop n party_idx_bits x (y ∷ rest) = do
  id_x ← lift (extract_id_from_composite x.key party_idx_bits)
  id_y ← lift (extract_id_from_composite y.key party_idx_bits)
  eq ← secure_equal id_x id_y
  ends ← window_ends_loop n party_idx_bits y rest
  pure (not_shared eq ∷ ends)

unfoldable pub mpc_window_ends : List SharedSortElement → ℕ → M (List SharedBit)
unfolding window_ends_loop
mpc_window_ends [] party_idx_bits = pure []
mpc_window_ends (x ∷ rest) party_idx_bits =
    window_ends_loop (bin_parties x.key) party_idx_bits x rest

unfoldable pub mpc_cross_product_expand_triple_cost : ℕ → ℕ → ℕ → ℕ
mpc_cross_product_expand_triple_cost window_count n m =
    if leb n 1 then 0 else window_count * m ^ n * (n - 1)

pub record MpcJoinRow : Type 0 where
  pub id : SharedU64Bin
  pub joined_payload : List SharedBit
  pub is_intersection : SharedBit

-- The tuples that the digits pick, from the first tuple of a party on: their data in the order of
-- the parties, and their flags.
unfoldable pub pick_shared :
    List SharedSortElement → ℕ → ℕ → ℕ → List ℕ → Option (List SharedBit × List SharedBit)
unfolding first_bits
pick_shared bag m row_data_bits base [] = some ([], [])
pick_shared bag m row_data_bits base (d ∷ ds) = Fail.◌>>=◌ (get_elem? bag (base + d)) λ e.
    Fail.◌>>=◌ (get_elem? e.payload 0) λ is_real.
      Fail.◌>>=◌ (first_bits row_data_bits (drop 1 e.payload)) λ data_bits.
        Fail.◌>>=◌ (pick_shared bag m row_data_bits (base + m) ds)
          λ others. some (data_bits ++ others.0, is_real ∷ others.1)

abbrev pub first_digit : List ℕ → Option ℕ
first_digit [] = none
first_digit (d ∷ ds) = some d

-- the row of one combination
unfoldable pub shared_row : List SharedSortElement → ℕ → ℕ → ℕ → ℕ → List ℕ → M MpcJoinRow
unfolding pick_shared extract_id_from_composite secure_and_chain
shared_row bag m party_idx_bits row_data_bits base digits = do
  d ← lift (first_digit digits)
  e ← lift (get_elem? bag (base + d))
  id ← lift (extract_id_from_composite e.key party_idx_bits)
  picked ← lift (pick_shared bag m row_data_bits base digits)
  is_intersection ← secure_and_chain picked.1
  pure (record { id = id; joined_payload = picked.0; is_intersection = is_intersection })

-- `for (combo = 0; combo < combosPerWindow; ++combo)`, with `count` rounds left
unfoldable pub shared_combos :
    List SharedSortElement → ℕ → ℕ → ℕ → ℕ → ℕ → List ℕ → M (List MpcJoinRow)
unfolding shared_row increment
shared_combos bag m party_idx_bits row_data_bits base zero digits = pure []
shared_combos bag m party_idx_bits row_data_bits base (suc count) digits = do
  row ← shared_row bag m party_idx_bits row_data_bits base digits
  rest ← shared_combos bag m party_idx_bits row_data_bits base count (increment m digits)
  pure (row ∷ rest)

-- `for (w = 0; w < windowCount; ++w)`, with `count` rounds left, the next one at `base`
unfoldable pub shared_windows : List SharedSortElement → ℕ → ℕ → ℕ → ℕ → ℕ → ℕ → M (List MpcJoinRow)
unfolding shared_combos
shared_windows bag n m party_idx_bits row_data_bits zero base = pure []
shared_windows bag n m party_idx_bits row_data_bits (suc count) base = do
  rows ← shared_combos bag m party_idx_bits row_data_bits base (m ^ n) (replicate n 0)
  rest ← shared_windows bag n m party_idx_bits row_data_bits count (base + n * m)
  pure (rows ++ rest)

abbrev pub all_wide : ℕ → List SharedSortElement → Bool
all_wide w [] = true
all_wide w (x ∷ xs) = length x.payload == w && all_wide w xs

-- The guard compares N * log2 M, in floating point, with 40; below it the product of the loop is
-- M ^ N.
unfoldable pub mpc_cross_product_expand :
    List SharedSortElement → ℕ → ℕ → ℕ → ℕ → M (List MpcJoinRow)
unfolding shared_windows
mpc_cross_product_expand bag n m party_idx_bits row_data_bits =
    lift (Fail.require (not (n == 0 || m == 0)))
    >> (lift (Fail.require (length bag % (n * m) == 0))
        >> (lift (Fail.require (leb (m ^ n) (2 ^ 40)))
            >> (lift (Fail.require (all_wide (1 + row_data_bits) bag))
                >> shared_windows bag n m party_idx_bits row_data_bits (length bag / (n * m)) 0)))

unfoldable pub mpc_filter_intersection_triple_cost : ℕ → ℕ → ℕ → ℕ
mpc_filter_intersection_triple_cost num_rows n row_data_bits =
    mpc_bitonic_sort_triple_cost num_rows (64 + n * row_data_bits + 1)

-- `party_n` is the number of parties of the first row.
unfoldable pub encode_shared : ℕ → ℕ → MpcJoinRow → Option SharedSortElement
unfolding first_bits
encode_shared party_n blocks row = Fail.◌>>◌ (Fail.require (length row.joined_payload == blocks)) (
    Fail.◌>>=◌ (first_bits 64 row.id.bits) λ id_bits. some (record {
      key = record { bits = not_shared row.is_intersection ∷ replicate 63 (zero_bit party_n) };
      payload = id_bits ++ (row.joined_payload ++ (row.is_intersection ∷ []));
    }))

unfoldable pub encode_all : ℕ → ℕ → List MpcJoinRow → Option (List SharedSortElement)
unfolding encode_shared
encode_all party_n blocks [] = some []
encode_all party_n blocks (row ∷ rows) =
    Fail.◌>>=◌ (encode_shared party_n blocks row)
      λ e. Fail.◌>>=◌ (encode_all party_n blocks rows) λ rest. some (e ∷ rest)

unfoldable pub decode_shared : ℕ → SharedSortElement → Option MpcJoinRow
unfolding first_bits
decode_shared blocks e = Fail.◌>>=◌ (first_bits 64 e.payload) λ id_bits.
    Fail.◌>>=◌ (first_bits blocks (drop 64 e.payload)) λ joined.
      Fail.◌>>=◌ (get_elem? e.payload (64 + blocks)) λ is_intersection. some (record {
        id = record { bits = id_bits };
        joined_payload = joined;
        is_intersection = is_intersection;
      })

unfoldable pub decode_all_shared : ℕ → List SharedSortElement → Option (List MpcJoinRow)
unfolding decode_shared
decode_all_shared blocks [] = some []
decode_all_shared blocks (e ∷ es) =
    Fail.◌>>=◌ (decode_shared blocks e)
      λ row. Fail.◌>>=◌ (decode_all_shared blocks es) λ rest. some (row ∷ rest)

unfoldable pub mpc_filter_intersection : List MpcJoinRow → ℕ → ℕ → M (List MpcJoinRow)
unfolding encode_all decode_all_shared
mpc_filter_intersection [] n row_data_bits = pure []
mpc_filter_intersection (row ∷ rows) n row_data_bits = do
  encoded ← lift (encode_all (bin_parties row.id) (n * row_data_bits) (row ∷ rows))
  sorted ← mpc_bitonic_sort encoded
  lift (decode_all_shared (n * row_data_bits) sorted)

pub record JoinInputRowShared : Type 0 where
  pub id : SharedU64Bin
  pub is_real : SharedBit
  pub row_data : List SharedBit

unfoldable pub mpc_execute_private_join_in_memory_triple_cost : ℕ → ℕ → ℕ → ℕ → ℕ
unfolding mpc_cross_product_expand_triple_cost mpc_filter_intersection_triple_cost
mpc_execute_private_join_in_memory_triple_cost n m row_data_bits universe_size =
    if n == 0 || m == 0 || universe_size == 0
    then 0
    else mpc_bitonic_sort_triple_cost (n * m * universe_size) (1 + row_data_bits)
      + mpc_cross_product_expand_triple_cost universe_size n m
      + mpc_filter_intersection_triple_cost (universe_size * m ^ n) n row_data_bits

abbrev pub all_counts : ℕ → List (List JoinInputRowShared) → Bool
all_counts count [] = true
all_counts count (rows ∷ rest) = length rows == count && all_counts count rest

-- the tuples of party `i`
unfoldable pub party_tuples : ℕ → ℕ → ℕ → List JoinInputRowShared → Option (List SharedSortElement)
unfolding make_composite_key
party_tuples party_idx_bits row_data_bits i [] = some []
party_tuples party_idx_bits row_data_bits i (r ∷ rs) =
    Fail.◌>>◌ (Fail.require (length r.row_data == row_data_bits)) (
      Fail.◌>>=◌ (make_composite_key r.id party_idx_bits i) λ key.
        Fail.◌>>=◌ (party_tuples party_idx_bits row_data_bits i rs)
          λ rest. some (record { key = key; payload = r.is_real ∷ r.row_data } ∷ rest))

-- `for (i = 0; i < N; ++i)`, from party `i` on
unfoldable pub aggregate_tuples :
    ℕ → ℕ → ℕ → List (List JoinInputRowShared) → Option (List SharedSortElement)
unfolding party_tuples
aggregate_tuples party_idx_bits row_data_bits i [] = some []
aggregate_tuples party_idx_bits row_data_bits i (rows ∷ rest) =
    Fail.◌>>=◌ (party_tuples party_idx_bits row_data_bits i rows) λ tuples.
      Fail.◌>>=◌ (aggregate_tuples party_idx_bits row_data_bits (i + 1) rest)
        λ others. some (tuples ++ others)

abbrev pub first_count : List (List JoinInputRowShared) → ℕ
first_count [] = 0
first_count (rows ∷ rest) = length rows

-- The remainder by M is undefined for M of 0.
unfoldable pub mpc_execute_private_join_in_memory :
    ℕ → ℕ → ℕ → ℕ → List (List JoinInputRowShared) → M (List MpcJoinRow)
unfolding aggregate_tuples mpc_cross_product_expand mpc_filter_intersection
mpc_execute_private_join_in_memory n m party_idx_bits row_data_bits per_party =
    lift (Fail.require (length per_party == n)) >> elim (first_count per_party == 0) [
      | true ↦ pure []
      | false ↦
          lift (Fail.require (not (m == 0) && first_count per_party % m == 0))
          >> (lift (Fail.require (all_counts (first_count per_party) per_party))
              >> (lift (aggregate_tuples party_idx_bits row_data_bits 0 per_party) >>= (λ bag.
                  mpc_bitonic_sort bag >>= (λ sorted.
                    mpc_cross_product_expand sorted n m party_idx_bits row_data_bits
                    >>= (λ expanded. mpc_filter_intersection expanded n row_data_bits)))))
    ]

-- ===== src/Bitonic.antt =====
-- volePSI/MpObliviousSort.h and volePSI/MpObliviousSort.cpp: the bitonic network on a vector in place,
-- with the count of its compare-and-swaps. Indices are read in range, `none` otherwise; the recursion
-- on `cnt` takes fuel. The block type of the payloads is a parameter.
pub mod Network
pub mod Total
pub mod Count
pub mod Function
pub mod Shape
pub mod Boolean
pub mod Keys
pub mod Pairs
pub mod Tracked
pub mod Increasing
pub mod Ordered
use psa_for_multiparty.Common.{
  ℕ, zero, suc, ◌+◌, ◌-◌, ◌*◌, ◌/◌, ◌^◌, Bool, true, false, not, Option, none, some, List, [], ◌∷◌,
  ◌++◌, length, get_elem?, set, take, replicate, ltb, leb, if◌then◌else◌,
}
use psa_for_multiparty.Common.Fail.{◌>>=◌}

pub record SortElement (Block : Type 0) : Type 0 where
  pub key : ℕ
  pub payload : List Block

-- `while (p < n) p <<= 1`
pub double_until : ℕ → ℕ → ℕ → ℕ
double_until zero p n = p
double_until (suc fuel) p n = let next = double_until fuel (p * 2) n in if ltb p n then next else p

unfoldable pub next_power_of_two : ℕ → ℕ
unfolding double_until
next_power_of_two n = if leb n 1 then 1 else double_until n 1 n

-- `while ((1ULL << r) < n) ++r`
pub log2_from : ℕ → ℕ → ℕ → ℕ
log2_from zero r n = r
log2_from (suc fuel) r n = let next = log2_from fuel (r + 1) n in if ltb (2 ^ r) n then next else r

unfoldable pub log2_floor : ℕ → ℕ
unfolding log2_from
log2_floor n = log2_from n 0 n

-- The products do not reach 2^64 for the vectors that fit in memory.
unfoldable pub bitonic_compare_swap_count : ℕ → ℕ
bitonic_compare_swap_count n =
    let padded = next_power_of_two n in
    let log_n = log2_floor padded in if leb n 1 then 0 else padded / 2 * log_n * (log_n + 1) / 2

abbrev pub same_bool : Bool → Bool → Bool
same_bool true b = b
same_bool false b = not b

-- the vector and `compareCount`
abbrev pub SortState : Type 0 → Type 0
SortState Block = List (SortElement Block) × ℕ

module _ {Block : Type 0} where
  abbrev pub default_less : SortElement Block → SortElement Block → Bool
  default_less a b = ltb a.key b.key

  module _ (cmp : SortElement Block → SortElement Block → Bool) where
    unfoldable pub compare_and_swap :
        List (SortElement Block) → ℕ → ℕ → Bool → Option (List (SortElement Block))
    compare_and_swap xs i j ascending = do
      a ← get_elem? xs i
      b ← get_elem? xs j
      some (if same_bool (cmp b a) ascending then set (set xs i b) j a else xs)

    -- `for (i = low; i < low + k; ++i)`, with `count` rounds left
    unfoldable pub compare_pairs : ℕ → ℕ → ℕ → Bool → SortState Block → Option (SortState Block)
    compare_pairs zero i k ascending s = some s
    compare_pairs (suc count) i k ascending s = do
      xs ← compare_and_swap s.0 i (i + k) ascending
      compare_pairs count (i + 1) k ascending (xs, s.1 + 1)

    unfoldable pub bitonic_merge : ℕ → ℕ → ℕ → Bool → SortState Block → Option (SortState Block)
    unfolding compare_pairs
    bitonic_merge zero low cnt ascending s = none
    bitonic_merge (suc fuel) low cnt ascending s = elim (leb cnt 1) [
      | true ↦ some s
      | false ↦ compare_pairs (cnt / 2) low (cnt / 2) ascending s >>= (λ s1.
          bitonic_merge fuel low (cnt / 2) ascending s1
          >>= (λ s2. bitonic_merge fuel (low + cnt / 2) (cnt / 2) ascending s2))
    ]

    unfoldable pub bitonic_sort_helper :
        ℕ → ℕ → ℕ → Bool → SortState Block → Option (SortState Block)
    unfolding bitonic_merge
    bitonic_sort_helper zero low cnt ascending s = none
    bitonic_sort_helper (suc fuel) low cnt ascending s = elim (leb cnt 1) [
      | true ↦ some s
      | false ↦ bitonic_sort_helper fuel low (cnt / 2) true s >>= (λ s1.
          bitonic_sort_helper fuel (low + cnt / 2) (cnt / 2) false s1
          >>= (λ s2. bitonic_merge (suc fuel) low cnt ascending s2))
    ]

    abbrev pub payload_width : (Block → List (SortElement Block) → ℕ)
    payload_width zero_block [] = 0
    payload_width zero_block (x ∷ xs) = length x.payload

    unfoldable pub oblivious_bitonic_sort_with_comparator :
        Block → List (SortElement Block) → Option (List (SortElement Block))
    unfolding bitonic_sort_helper
    oblivious_bitonic_sort_with_comparator zero_block xs =
        let n = length xs in
        let padded = next_power_of_two n in
        let sentinel : SortElement Block = record {
          key = 2 ^ 64 - 1;
          payload = replicate (payload_width zero_block xs) zero_block;
        } in
        elim (leb n 1) [
          | true ↦ some xs
          | false ↦
              bitonic_sort_helper padded 0 padded true (xs ++ replicate (padded - n) sentinel, 0)
              >>= (λ s. some (take n s.0))
        ]

  unfoldable pub oblivious_bitonic_sort :
      Block → List (SortElement Block) → Option (List (SortElement Block))
  unfolding oblivious_bitonic_sort_with_comparator
  oblivious_bitonic_sort = oblivious_bitonic_sort_with_comparator default_less

  unfoldable pub is_sorted_ascending : List (SortElement Block) → Bool
  is_sorted_ascending [] = true
  is_sorted_ascending (x ∷ []) = true
  is_sorted_ascending (x ∷ y ∷ rest) =
      let next = is_sorted_ascending (y ∷ rest) in if ltb y.key x.key then false else next

-- ===== src/Sort.antt =====
-- volePSI/MpMpcSort.h and volePSI/MpMpcSort.cpp: the bitonic network on elements whose keys and
-- payloads are shared bit by bit. An operation on elements in place returns the new elements; the
-- vector is read in range, `none` otherwise, and the recursion on `cnt` takes fuel. Reading a bit or
-- an element that is missing is undefined in the source, and `none` here.
pub mod Swap
pub mod Elements
pub mod Step
pub mod Network
pub mod Total
pub mod Whole
use psa_for_multiparty.Common.{
  ℕ, zero, suc, ◌+◌, ◌-◌, ◌*◌, ◌/◌, Bool, true, false, ◌&&◌, none, some, List, [], ◌∷◌, ◌++◌,
  length, get_elem?, set, take, replicate, ltb, leb, ◌==◌, if◌then◌else◌,
}
use psa_for_multiparty.Common.Fail
use psa_for_multiparty.Share.{SharedBit, bit_parties, zero_bit, one_bit, xor_shared}
use psa_for_multiparty.Bag.{M, ◌>>=◌, ◌>>◌, pure, lift, and_next}
use psa_for_multiparty.Compare.{
  SharedU64Bin, bin_parties, secure_less_than, secure_less_than_triple_cost,
}
use psa_for_multiparty.Bitonic.{next_power_of_two, bitonic_compare_swap_count}

pub record SharedSortElement : Type 0 where
  pub key : SharedU64Bin
  pub payload : List SharedBit

unfoldable pub conditional_swap_triple_cost : ℕ → ℕ
conditional_swap_triple_cost payload_bits = 64 + payload_bits

-- the bits of both sides after the swap
unfoldable pub swap_one_bit : SharedBit → SharedBit → SharedBit → M (SharedBit × SharedBit)
swap_one_bit selector a_bit b_bit = do
  diff ← lift (xor_shared a_bit b_bit)
  masked_diff ← and_next selector diff
  new_a ← lift (xor_shared a_bit masked_diff)
  new_b ← lift (xor_shared b_bit masked_diff)
  pure (new_a, new_b)

-- `swapOneBit` at the first `count` positions
unfoldable pub swap_bits :
    ℕ → SharedBit → List SharedBit → List SharedBit → M (List SharedBit × List SharedBit)
swap_bits zero selector xs ys = pure (xs, ys)
swap_bits (suc count) selector [] ys = lift none
swap_bits (suc count) selector (x ∷ xs) [] = lift none
swap_bits (suc count) selector (x ∷ xs) (y ∷ ys) = do
  r ← swap_one_bit selector x y
  rest ← swap_bits count selector xs ys
  pure (r.0 ∷ rest.0, r.1 ∷ rest.1)

unfoldable pub conditional_swap :
    SharedSortElement → SharedSortElement → SharedBit → M (SharedSortElement × SharedSortElement)
conditional_swap a b selector = do
  lift (Fail.require (length a.payload == length b.payload))
  lift (
      Fail.require
        (bin_parties a.key == bin_parties b.key && bin_parties a.key == bit_parties selector))
  keys ← swap_bits 64 selector a.key.bits b.key.bits
  payloads ← swap_bits (length a.payload) selector a.payload b.payload
  pure (
    record { key = record { bits = keys.0 }; payload = payloads.0 },
    record { key = record { bits = keys.1 }; payload = payloads.1 },
  )

-- the comparison that selects the swap
abbrev pub swap_selector : Bool → SharedSortElement → SharedSortElement → M SharedBit
swap_selector true a b = secure_less_than b.key a.key
swap_selector false a b = secure_less_than a.key b.key

-- `mpcCompareAndSwap(xs[i], xs[j], ascending, …)`
unfoldable pub mpc_compare_and_swap :
    List SharedSortElement → ℕ → ℕ → Bool → M (List SharedSortElement)
mpc_compare_and_swap xs i j ascending = do
  a ← lift (get_elem? xs i)
  b ← lift (get_elem? xs j)
  selector ← swap_selector ascending a b
  r ← conditional_swap a b selector
  pure (set (set xs i r.0) j r.1)

-- `for (i = low; i < low + k; ++i)`, with `count` rounds left
unfoldable pub mpc_compare_pairs :
    ℕ → ℕ → ℕ → Bool → List SharedSortElement → M (List SharedSortElement)
mpc_compare_pairs zero i k ascending xs = pure xs
mpc_compare_pairs (suc count) i k ascending xs = do
  ys ← mpc_compare_and_swap xs i (i + k) ascending
  mpc_compare_pairs count (i + 1) k ascending ys

unfoldable pub mpc_bitonic_merge :
    ℕ → ℕ → ℕ → Bool → List SharedSortElement → M (List SharedSortElement)
mpc_bitonic_merge zero low cnt ascending xs = lift none
mpc_bitonic_merge (suc fuel) low cnt ascending xs = elim (leb cnt 1) [
  | true ↦ pure xs
  | false ↦ mpc_compare_pairs (cnt / 2) low (cnt / 2) ascending xs >>= (λ ys.
      mpc_bitonic_merge fuel low (cnt / 2) ascending ys
      >>= (λ zs. mpc_bitonic_merge fuel (low + cnt / 2) (cnt / 2) ascending zs))
]

unfoldable pub mpc_bitonic_sort_helper :
    ℕ → ℕ → ℕ → Bool → List SharedSortElement → M (List SharedSortElement)
mpc_bitonic_sort_helper zero low cnt ascending xs = lift none
mpc_bitonic_sort_helper (suc fuel) low cnt ascending xs = elim (leb cnt 1) [
  | true ↦ pure xs
  | false ↦ mpc_bitonic_sort_helper fuel low (cnt / 2) true xs >>= (λ ys.
      mpc_bitonic_sort_helper fuel (low + cnt / 2) (cnt / 2) false ys
      >>= (λ zs. mpc_bitonic_merge (suc fuel) low cnt ascending zs))
]

-- `nextPow2`, the same loop as `nextPowerOfTwo` of volePSI/MpObliviousSort.cpp
abbrev pub next_pow2 : ℕ → ℕ
next_pow2 n = next_power_of_two n

unfoldable pub mpc_bitonic_sort_triple_cost : ℕ → ℕ → ℕ
mpc_bitonic_sort_triple_cost n payload_bits =
    if leb n 1
    then 0
    else bitonic_compare_swap_count (next_pow2 n)
      * (secure_less_than_triple_cost + conditional_swap_triple_cost payload_bits)

-- the element of key 2^64 - 1 and payload 0
unfoldable pub sentinel : ℕ → ℕ → SharedSortElement
sentinel n payload_len = record {
  key = record { bits = replicate 64 (one_bit n) };
  payload = replicate payload_len (zero_bit n);
}

-- `xs` with sentinels up to `padded`, like its first element
abbrev pub pad_elements : List SharedSortElement → ℕ → List SharedSortElement
pad_elements [] padded = []
pad_elements (x ∷ xs) padded =
    (x ∷ xs)
    ++ replicate (padded - length (x ∷ xs)) (sentinel (bin_parties x.key) (length x.payload))

unfoldable pub mpc_bitonic_sort : List SharedSortElement → M (List SharedSortElement)
mpc_bitonic_sort xs = elim (leb (length xs) 1) [
  | true ↦ pure xs
  | false ↦
      mpc_bitonic_sort_helper (next_pow2 (length xs)) 0 (next_pow2 (length xs)) true
        (pad_elements xs (next_pow2 (length xs)))
      >>= (λ ys. pure (take (length xs) ys))
]

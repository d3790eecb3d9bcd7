-- ===== src/Compare.antt =====
-- volePSI/MpSecureCompare.h and volePSI/MpSecureCompare.cpp: words shared bit by bit, secure
-- less-than and secure equality. `bits[0]` is the lowest bit and the head of the list. A loop over
-- `bits[i]` from the bottom is a recursion on the list, one from the top goes down from its length.
pub mod Word
pub mod Sharing
pub mod Less
pub mod Equal
pub mod Reconstruct
use psa_for_multiparty.Common.{
  ℕ, zero, suc, ◌+◌, ◌-◌, ◌*◌, ◌/◌, ◌^◌, Option, none, some, List, [], ◌∷◌, length, get_elem?,
  replicate, ◌==◌, bit_and, bit_or,
}
use psa_for_multiparty.Common.Fail
use psa_for_multiparty.Random.{Prng}
use psa_for_multiparty.Share.{
  SharedBit, bit_parties, reconstruct_bit, zero_bit, one_bit, xor_shared, share_bit,
}
use psa_for_multiparty.Bag.{M, ◌>>=◌, ◌>>◌, pure, lift, and_next, not_shared}

pub record SharedU64Bin : Type 0 where
  pub bits : List SharedBit

-- `N()`
abbrev pub bin_parties : SharedU64Bin → ℕ
bin_parties x = elim x.bits [ [] ↦ 0 | b ∷ bs ↦ bit_parties b ]

-- `v |= uint64_t(bits[i].reconstruct() & 1) << i`, from `i` on
pub reconstruct_from : ℕ → ℕ → List SharedBit → ℕ
reconstruct_from i v [] = v
reconstruct_from i v (b ∷ bs) =
    reconstruct_from (i + 1) (bit_or v (bit_and (reconstruct_bit b) 1 * 2 ^ i)) bs

unfoldable pub reconstruct_bin : SharedU64Bin → ℕ
unfolding reconstruct_from
reconstruct_bin x = reconstruct_from 0 0 x.bits

module _ (p : Prng) where
  open p use {State}

  -- `shareBit(N, (value >> i) & 1, prng)` for `count` bits from `i` on
  pub share_bits : ℕ → ℕ → ℕ → ℕ → State → Option (List SharedBit × State)
  share_bits n value i zero g = some ([], g)
  share_bits n value i (suc count) g =
      Fail.◌>>=◌ (share_bit p n (bit_and (value / 2 ^ i) 1) g)
        λ r. Fail.◌>>=◌ (share_bits n value (i + 1) count r.1) λ rest. some (r.0 ∷ rest.0, rest.1)

  unfoldable pub share_u64_bin : ℕ → ℕ → State → Option (SharedU64Bin × State)
  unfolding share_bits
  share_u64_bin n value g =
      Fail.◌>>=◌ (share_bits n value 0 64 g) λ r. some (record { bits = r.0 }, r.1)

-- `secureOr`, by De Morgan
unfoldable pub secure_or : SharedBit → SharedBit → M SharedBit
secure_or a b = do na_and_nb ← and_next (not_shared a) (not_shared b); pure (not_shared na_and_nb)

unfoldable pub secure_less_than_triple_cost : ℕ
secure_less_than_triple_cost = 64 * 4

-- One round of the loop of `secureLessThan`: the new `result` and `decided`.
unfoldable pub less_round :
    SharedBit → SharedBit → SharedBit → SharedBit → M (SharedBit × SharedBit)
less_round x_bit y_bit result decided = do
  diff ← lift (xor_shared x_bit y_bit)
  first ← and_next diff (not_shared decided)
  contrib ← and_next first y_bit
  result' ← secure_or result contrib
  decided' ← secure_or decided first
  pure (result', decided')

-- `for (int i = 63; i >= 0; --i)`, with `i + 1` rounds left
pub less_loop : ℕ → List SharedBit → List SharedBit → SharedBit → SharedBit → M SharedBit
less_loop zero xs ys result decided = pure result
less_loop (suc i) xs ys result decided = do
  x_bit ← lift (get_elem? xs i)
  y_bit ← lift (get_elem? ys i)
  r ← less_round x_bit y_bit result decided
  less_loop i xs ys r.0 r.1

unfoldable pub secure_less_than : SharedU64Bin → SharedU64Bin → M SharedBit
unfolding less_loop
secure_less_than x y = do
  lift (Fail.require (bin_parties x == bin_parties y))
  less_loop 64 x.bits y.bits (zero_bit (bin_parties x)) (zero_bit (bin_parties x))

unfoldable pub secure_equal_triple_cost : ℕ
secure_equal_triple_cost = 63

-- eq_i = NOT (x_i XOR y_i)
unfoldable pub eq_bits : List SharedBit → List SharedBit → M (List SharedBit)
eq_bits [] ys = pure []
eq_bits (x ∷ xs) [] = lift none
eq_bits (x ∷ xs) (y ∷ ys) = do
  diff ← lift (xor_shared x y)
  rest ← eq_bits xs ys
  pure (not_shared diff ∷ rest)

-- one level of the AND tree: neighbours pairwise, an odd one at the end kept
unfoldable pub and_level : List SharedBit → M (List SharedBit)
and_level [] = pure []
and_level (a ∷ []) = pure (a ∷ [])
and_level (a ∷ b ∷ rest) = do ab ← and_next a b; next ← and_level rest; pure (ab ∷ next)

-- `while (level.size() > 1)`, on fuel, and what stands after the loop
pub and_tree : ℕ → ℕ → List SharedBit → M SharedBit
and_tree fuel n [] = pure (one_bit n)
and_tree fuel n (a ∷ []) = pure a
and_tree zero n (a ∷ b ∷ rest) = lift none
and_tree (suc fuel) n (a ∷ b ∷ rest) = do next ← and_level (a ∷ b ∷ rest); and_tree fuel n next

unfoldable pub secure_equal : SharedU64Bin → SharedU64Bin → M SharedBit
unfolding eq_bits and_tree and_level
secure_equal x y = do
  lift (Fail.require (bin_parties x == bin_parties y))
  level ← eq_bits x.bits y.bits
  and_tree (length level) (bin_parties x) level

-- ===== src/Arithmetic.antt =====
-- volePSI/MpMpcArithmetic.h and volePSI/MpMpcArithmetic.cpp: addition, subtraction and division of
-- bitwise shared words. The loops over `bits[i]` from the bottom are recursions on the lists of bits;
-- the division loop counts down, and puts each quotient bit in front of the ones above it.
pub mod Add
pub mod Sub
pub mod Round
pub mod Divide
pub mod Reconstruct
use psa_for_multiparty.Common.{
  ℕ, zero, suc, ◌+◌, ◌*◌, Option, none, some, List, [], ◌∷◌, map, replicate, take, get_elem?, ◌==◌,
}
use psa_for_multiparty.Common.Fail.{require}
use psa_for_multiparty.Share.{SharedBit, zero_bit, one_bit, xor_shared}
use psa_for_multiparty.Bag.{M, ◌>>=◌, ◌>>◌, pure, lift, and_next, not_shared}
use psa_for_multiparty.Compare.{SharedU64Bin, bin_parties, secure_equal, secure_equal_triple_cost}

pub record AddResult : Type 0 where
  pub sum : SharedU64Bin
  pub carry_out : SharedBit

pub record SubResult : Type 0 where
  pub diff : SharedU64Bin
  pub borrow_out : SharedBit

pub record DivResult : Type 0 where
  pub quotient : SharedU64Bin
  pub remainder : SharedU64Bin
  pub div_by_zero : SharedBit

-- one position: the sum bit and the carry out
unfoldable pub full_adder : SharedBit → SharedBit → SharedBit → M (SharedBit × SharedBit)
full_adder x y carry = do
  p ← lift (xor_shared x y)
  g ← and_next x y
  s ← lift (xor_shared p carry)
  pc ← and_next p carry
  carry' ← lift (xor_shared g pc)
  pure (s, carry')

-- the carry chain over the positions left, with the last carry
pub add_rounds : SharedBit → List SharedBit → List SharedBit → M (List SharedBit × SharedBit)
add_rounds carry [] ys = pure ([], carry)
add_rounds carry (x ∷ xs) [] = lift none
add_rounds carry (x ∷ xs) (y ∷ ys) = do
  r ← full_adder x y carry
  rest ← add_rounds r.1 xs ys
  pure (r.0 ∷ rest.0, rest.1)

unfoldable pub secure_add_u64_bin_triple_cost : ℕ
secure_add_u64_bin_triple_cost = 1 + 2 * 63

-- bit 0 has no carry in
pub add_bits : List SharedBit → List SharedBit → M AddResult
unfolding add_rounds
add_bits (x ∷ xs) (y ∷ ys) = do
  s ← lift (xor_shared x y)
  carry ← and_next x y
  rest ← add_rounds carry xs ys
  pure (record { sum = record { bits = s ∷ rest.0 }; carry_out = rest.1 })
add_bits _ _ = lift none

unfoldable pub secure_add_u64_bin : SharedU64Bin → SharedU64Bin → M AddResult
unfolding add_bits
secure_add_u64_bin x y = do lift (require (bin_parties x == bin_parties y)); add_bits x.bits y.bits

unfoldable pub secure_sub_u64_bin_triple_cost : ℕ
secure_sub_u64_bin_triple_cost = 2 * 64

-- x + ~y + 1; the borrow is the complement of the last carry
unfoldable pub secure_sub_u64_bin : SharedU64Bin → SharedU64Bin → M SubResult
unfolding add_rounds
secure_sub_u64_bin x y = do
  lift (require (bin_parties x == bin_parties y))
  r ← add_rounds (one_bit (bin_parties x)) x.bits (map not_shared y.bits)
  pure (record { diff = record { bits = r.0 }; borrow_out = not_shared r.1 })

-- `cond ? a : b`
unfoldable pub secure_select_bit : SharedBit → SharedBit → SharedBit → M SharedBit
secure_select_bit c a b = do
  axb ← lift (xor_shared a b)
  maybe ← and_next c axb
  lift (xor_shared b maybe)

-- `secureSelectBit` at each position
pub select_bits : SharedBit → List SharedBit → List SharedBit → M (List SharedBit)
select_bits c [] bs = pure []
select_bits c (a ∷ as') [] = lift none
select_bits c (a ∷ as') (b ∷ bs) = do
  r ← secure_select_bit c a b
  rest ← select_bits c as' bs
  pure (r ∷ rest)

unfoldable pub secure_divide_u64_bin_triple_cost : ℕ
unfolding secure_sub_u64_bin_triple_cost
secure_divide_u64_bin_triple_cost = 64 * (secure_sub_u64_bin_triple_cost + 64) + 63

-- one round: the new remainder and the quotient bit
unfoldable pub divide_round :
    SharedBit → List SharedBit → SharedU64Bin → M (List SharedBit × SharedBit)
unfolding select_bits
divide_round num_bit remainder denom = do
  let shifted = num_bit ∷ take 63 remainder
  sub ← secure_sub_u64_bin (record { bits = shifted }) denom
  new ← select_bits sub.borrow_out shifted sub.diff.bits
  pure (new, not_shared sub.borrow_out)

-- `for (int32_t i = 63; i >= 0; --i)`, with `i + 1` rounds left; the remainder and the quotient bits
-- from `i + 1` up
pub divide_loop :
    ℕ
    → List SharedBit
    → SharedU64Bin
    → List SharedBit
    → List SharedBit
    → M (List SharedBit × List SharedBit)
divide_loop zero num denom remainder quotient = pure (remainder, quotient)
divide_loop (suc i) num denom remainder quotient = do
  num_bit ← lift (get_elem? num i)
  r ← divide_round num_bit remainder denom
  divide_loop i num denom r.0 (r.1 ∷ quotient)

unfoldable pub secure_divide_u64_bin : SharedU64Bin → SharedU64Bin → M DivResult
unfolding divide_loop
secure_divide_u64_bin num denom = do
  lift (require (bin_parties num == bin_parties denom))
  dbz ← secure_equal denom (record { bits = replicate 64 (zero_bit (bin_parties num)) })
  r ← divide_loop 64 num.bits denom (replicate 64 (zero_bit (bin_parties num))) []
  pure (record {
    quotient = record { bits = r.1 };
    remainder = record { bits = r.0 };
    div_by_zero = dbz;
  })

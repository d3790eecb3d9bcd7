-- ===== src/Share.antt =====
-- volePSI/MpSecretShare.h and volePSI/MpSecretShare.cpp: additive shares of a 64-bit word, and
-- XOR shares of a bit, among N parties. The vector of shares is a list, party 0 first; a word is
-- its value, and each addition, subtraction and product is taken modulo 2^64. Vectors are shorter
-- than 2^32, so that the conversion in `N()` keeps their size. `shares[0]` of an empty vector is
-- undefined in the source; here such a write does nothing, and the theorems ask for a party.
pub mod Arith
pub mod Bit
use psa_for_multiparty.Common.{
  ℕ, zero, suc, ◌+◌, ◌-◌, ◌*◌, ◌%◌, ◌^◌, Option, none, some, List, [], ◌∷◌, map, length, replicate,
  ltb, ◌==◌, if◌then◌else◌, bit_and, bit_xor,
}
use psa_for_multiparty.Common.Fail.{◌>>=◌, ◌>>◌, require}
use psa_for_multiparty.Random.{Prng}

abbrev pub u64 : ℕ
u64 = 2 ^ 64

-- `uint64_t` addition, subtraction and product
abbrev pub add64 : ℕ → ℕ → ℕ
add64 a b = (a + b) % u64

abbrev pub sub64 : ℕ → ℕ → ℕ
sub64 a b = (a + (u64 - b % u64)) % u64

abbrev pub mul64 : ℕ → ℕ → ℕ
mul64 a b = a * b % u64

-- `out[i] = f(a[i], b[i])` for each i
abbrev pub zip_with : (ℕ → ℕ → ℕ) → List ℕ → List ℕ → List ℕ
zip_with f [] ys = []
zip_with f (x ∷ xs) [] = []
zip_with f (x ∷ xs) (y ∷ ys) = f x y ∷ zip_with f xs ys

-- `shares[0] = f(shares[0])`
abbrev pub update_first : (ℕ → ℕ) → List ℕ → List ℕ
update_first f [] = []
update_first f (x ∷ xs) = f x ∷ xs

pub record SharedU64 : Type 0 where
  pub shares : List ℕ

pub record SharedBit : Type 0 where
  pub shares : List ℕ

-- `N()`
abbrev pub parties : SharedU64 → ℕ
parties a = length a.shares

abbrev pub bit_parties : SharedBit → ℕ
bit_parties a = length a.shares

-- The constructors from a number of parties: all shares 0.
unfoldable pub zero_u64 : ℕ → SharedU64
zero_u64 n = record { shares = replicate n 0 }

unfoldable pub zero_bit : ℕ → SharedBit
zero_bit n = record { shares = replicate n 0 }

-- `SharedBit one(N); one.shares[0] = 1`
unfoldable pub one_bit : ℕ → SharedBit
one_bit n = record { shares = update_first (λ s. 1) (replicate n 0) }

pub sum_from : ℕ → List ℕ → ℕ
sum_from out [] = out
sum_from out (s ∷ ss) = sum_from (add64 out s) ss

unfoldable pub reconstruct : SharedU64 → ℕ
unfolding sum_from
reconstruct a = sum_from 0 a.shares

pub xor_from : ℕ → List ℕ → ℕ
xor_from out [] = out
xor_from out (s ∷ ss) = xor_from (bit_xor out s) ss

unfoldable pub reconstruct_bit : SharedBit → ℕ
unfolding xor_from
reconstruct_bit a = bit_and (xor_from 0 a.shares) 1

unfoldable pub add_shared : SharedU64 → SharedU64 → Option SharedU64
add_shared a b = do
  require (parties a == parties b)
  some (record { shares = zip_with add64 a.shares b.shares })

unfoldable pub sub_shared : SharedU64 → SharedU64 → Option SharedU64
sub_shared a b = do
  require (parties a == parties b)
  some (record { shares = zip_with sub64 a.shares b.shares })

unfoldable pub add_const : SharedU64 → ℕ → SharedU64
add_const a c = record { shares = update_first (λ s. add64 s c) a.shares }

unfoldable pub mul_const : SharedU64 → ℕ → SharedU64
mul_const a c = record { shares = map (λ s. mul64 s c) a.shares }

unfoldable pub xor_shared : SharedBit → SharedBit → Option SharedBit
xor_shared a b = do
  require (bit_parties a == bit_parties b)
  some (record { shares = zip_with (λ s t. bit_and (bit_xor s t) 1) a.shares b.shares })

unfoldable pub xor_const : SharedBit → ℕ → SharedBit
xor_const a c = record { shares = update_first (λ s. bit_and (bit_xor s (bit_and c 1)) 1) a.shares }

module _ (p : Prng) where
  open p use {State, next_u64, next_u8}

  -- the loop of `shareU64` for parties 1 to N - 1: their shares, `accum` and the generator
  pub draw_u64 : ℕ → ℕ → State → List ℕ × ℕ × State
  draw_u64 zero accum g = ([], accum, g)
  draw_u64 (suc n) accum g =
      let (r, g1) = next_u64 g in
      let (rest, total, g2) = draw_u64 n (add64 accum r) g1 in (r ∷ rest, total, g2)

  unfoldable pub share_u64 : ℕ → ℕ → State → Option (SharedU64 × State)
  unfolding draw_u64
  share_u64 n value g =
      if ltb n 2
      then none
      else (let (rest, accum, g1) = draw_u64 (n - 1) 0 g in
          some (record { shares = sub64 value accum ∷ rest }, g1))

  -- the loop of `shareBit`
  pub draw_bit : ℕ → ℕ → State → List ℕ × ℕ × State
  draw_bit zero accum g = ([], accum, g)
  draw_bit (suc n) accum g =
      let (r, g1) = next_u8 g in
      let (rest, total, g2) = draw_bit n (bit_xor accum (bit_and r 1)) g1 in
      (bit_and r 1 ∷ rest, total, g2)

  unfoldable pub share_bit : ℕ → ℕ → State → Option (SharedBit × State)
  unfolding draw_bit
  share_bit n value g =
      if ltb n 2
      then none
      else (let (rest, accum, g1) = draw_bit (n - 1) 0 g in
          some (record { shares = bit_xor (bit_and value 1) accum ∷ rest }, g1))

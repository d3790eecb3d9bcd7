-- ===== src/Beaver.antt =====
-- volePSI/MpBeaverTriple.h and volePSI/MpBeaverTriple.cpp: Beaver triples over words and over
-- bits, their generation by a trusted dealer, and the multiplications that consume one triple each.
pub mod Multiply
pub mod And
use psa_for_multiparty.Common.{
  ℕ, zero, suc, Option, none, some, List, [], ◌∷◌, map, ltb, ◌==◌, if◌then◌else◌, ◌&&◌, bit_and,
}
use psa_for_multiparty.Common.Fail.{◌>>=◌, ◌>>◌, require}
use psa_for_multiparty.Random.{Prng}
use psa_for_multiparty.Share.{
  mul64, SharedU64, SharedBit, parties, bit_parties, reconstruct, reconstruct_bit, add_shared,
  sub_shared, add_const, mul_const, xor_shared, xor_const, share_u64, share_bit,
}

pub record BeaverTripleU64 : Type 0 where
  pub u : SharedU64
  pub v : SharedU64
  pub w : SharedU64

pub record BeaverTripleBit : Type 0 where
  pub u : SharedBit
  pub v : SharedBit
  pub w : SharedBit

-- `if (x.N() != y.N() || x.N() != triple.u.N()) throw`
unfoldable pub secure_multiply : SharedU64 → SharedU64 → BeaverTripleU64 → Option SharedU64
secure_multiply x y triple = do
  require (parties x == parties y && parties x == parties triple.u)
  d_shared ← sub_shared x triple.u
  e_shared ← sub_shared y triple.v
  let d = reconstruct d_shared
  let e = reconstruct e_shared
  step1 ← add_shared triple.w (mul_const triple.v d)
  step2 ← add_shared step1 (mul_const triple.u e)
  some (add_const step2 (mul64 d e))

-- `t.shares[i] = a.shares[i] & d` for each i
unfoldable pub and_public : SharedBit → ℕ → SharedBit
and_public a d = record { shares = map (λ s. bit_and s d) a.shares }

unfoldable pub secure_and : SharedBit → SharedBit → BeaverTripleBit → Option SharedBit
secure_and x y triple = do
  require (bit_parties x == bit_parties y && bit_parties x == bit_parties triple.u)
  d_shared ← xor_shared x triple.u
  e_shared ← xor_shared y triple.v
  let d = reconstruct_bit d_shared
  let e = reconstruct_bit e_shared
  step1 ← xor_shared triple.w (and_public triple.v d)
  step2 ← xor_shared step1 (and_public triple.u e)
  some (xor_const step2 (bit_and d e))

module _ (p : Prng) where
  open p use {State, next_u64, next_u8}

  -- the sharing of the three values
  pub deal_u64 : ℕ → ℕ → ℕ → State → Option (BeaverTripleU64 × State)
  deal_u64 n u_val v_val g = do
    (u, g1) ← share_u64 p n u_val g
    (v, g2) ← share_u64 p n v_val g1
    (w, g3) ← share_u64 p n (mul64 u_val v_val) g2
    some (record { u = u; v = v; w = w }, g3)

  unfoldable pub generate_beaver_triple : ℕ → State → Option (BeaverTripleU64 × State)
  unfolding deal_u64
  generate_beaver_triple n g =
      if ltb n 2
      then none
      else (let (u_val, g1) = next_u64 g in
          let (v_val, g2) = next_u64 g1 in deal_u64 n u_val v_val g2)

  pub deal_bit : ℕ → ℕ → ℕ → State → Option (BeaverTripleBit × State)
  deal_bit n a b g = do
    (u, g1) ← share_bit p n a g
    (v, g2) ← share_bit p n b g1
    (w, g3) ← share_bit p n (bit_and a b) g2
    some (record { u = u; v = v; w = w }, g3)

  unfoldable pub generate_beaver_triple_bit : ℕ → State → Option (BeaverTripleBit × State)
  unfolding deal_bit
  generate_beaver_triple_bit n g =
      if ltb n 2
      then none
      else (let (a, g1) = next_u8 g in
          let (b, g2) = next_u8 g1 in deal_bit n (bit_and a 1) (bit_and b 1) g2)

  -- `count` calls in order
  unfoldable pub generate_beaver_triples : ℕ → ℕ → State → Option (List BeaverTripleU64 × State)
  generate_beaver_triples n zero g = some ([], g)
  generate_beaver_triples n (suc count) g = do
    (t, g1) ← generate_beaver_triple n g
    (ts, g2) ← generate_beaver_triples n count g1
    some (t ∷ ts, g2)

  unfoldable pub generate_beaver_triple_bits : ℕ → ℕ → State → Option (List BeaverTripleBit × State)
  generate_beaver_triple_bits n zero g = some ([], g)
  generate_beaver_triple_bits n (suc count) g = do
    (t, g1) ← generate_beaver_triple_bit n g
    (ts, g2) ← generate_beaver_triple_bits n count g1
    some (t ∷ ts, g2)

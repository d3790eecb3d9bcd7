-- ===== src/Mac/Laws.antt =====
-- What the theorems assume of the blocks of cryptoTools: GF(2^128) is a commutative ring of
-- characteristic 2, and blocks are compared by value.
use psa_for_multiparty.Common.{true, ◌≡◌, ◌↔◌}
use psa_for_multiparty.Mac.{BlockOps}

pub record IsRing (ops : BlockOps) : Type 0 where
  pub xor_comm : (a b : ops.Block) → ops.xor_block a b ≡ ops.xor_block b a
  pub xor_assoc :
      (a b c : ops.Block)
      → ops.xor_block (ops.xor_block a b) c ≡ ops.xor_block a (ops.xor_block b c)
  pub xor_self : (a : ops.Block) → ops.xor_block a a ≡ ops.zero_block
  pub xor_zero : (a : ops.Block) → ops.xor_block ops.zero_block a ≡ a
  pub mul_comm : (a b : ops.Block) → ops.gf128_mul a b ≡ ops.gf128_mul b a
  pub mul_assoc :
      (a b c : ops.Block)
      → ops.gf128_mul (ops.gf128_mul a b) c ≡ ops.gf128_mul a (ops.gf128_mul b c)
  pub mul_xor :
      (a b c : ops.Block)
      → ops.gf128_mul a (ops.xor_block b c) ≡ ops.xor_block (ops.gf128_mul a b) (ops.gf128_mul a c)
  pub same_iff : (a b : ops.Block) → (ops.same_block a b ≡ true) ↔ (a ≡ b)

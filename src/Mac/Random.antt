-- ===== src/Mac/Random.antt =====
-- `randomAuthShare`: what it returns shares the vector, with valid tags.
use psa_for_multiparty.Common.{List, [], ◌∷◌, ◌≡◌, refl, sym, ap, ◌∙◌}
use psa_for_multiparty.Mac.{BlockOps, zip_blocks, random_auth_share}
use psa_for_multiparty.Mac.Laws.{IsRing}
use psa_for_multiparty.Mac.Verify.{no_more, tagged, IsTagged}

module _ (ops : BlockOps) (laws : IsRing ops) where
  open ops use {Block, zero_block, xor_block, gf128_mul, State, next_block}
  open laws use {xor_assoc, xor_self, xor_zero}

  pub xor_cancel : (a b : Block) → xor_block a (xor_block a b) ≡ b
  xor_cancel a b = sym (xor_assoc a a b) ∙ ap (λ z. xor_block z b) (xor_self a) ∙ xor_zero b

  -- For every vector, key and state of the generator: the two shares have valid tags under the key,
  -- and their data differ by the vector.
  pub random_auth_share-IsTagged :
      (plain : List Block) (alpha : Block) (g : State)
      → let r = random_auth_share ops plain alpha g in
        IsTagged ops alpha r.0 r.1 × (zip_blocks xor_block r.0.data_blocks r.1.data_blocks ≡ plain)
  unfolding random_auth_share
  random_auth_share-IsTagged [] alpha g = (no_more, refl)
  random_auth_share-IsTagged (x ∷ plain) alpha g =
      let (d, g1) = next_block g in
      let (t, g2) = next_block g1 in
      let (h, e) = random_auth_share-IsTagged plain alpha g2 in
      (
        tagged (xor_cancel t _ ∙ ap (gf128_mul alpha) (sym (xor_cancel d x))) h,
        rw (xor_cancel d x, e) refl,
      )

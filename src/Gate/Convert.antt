-- ===== src/Gate/Convert.antt =====
-- The conversions of the gate: of a bit shared between two parties to a shared word, and of a shared
-- word to its bits.
use psa_for_multiparty.Common.{
  ℕ, zero, suc, ◌+◌, ◌*◌, ◌%◌, ◌<◌, ◌≤◌, ◌≡◌, refl, ◌∙◌, Bool, some, List, [], ◌∷◌, length,
  get_elem?, bit_and, arith,
}
use psa_for_multiparty.Common.Bits.{bit, bit_and-one}
use psa_for_multiparty.Random.{Prng}
use psa_for_multiparty.Share.{u64, SharedU64, SharedBit, parties, reconstruct, mul_const}
use psa_for_multiparty.Share.Arith.{
  total, reconstruct-total, add_shared_lem, sub_shared_lem, parties-mul_const,
  reconstruct-mul_const, reconstruct-share_u64,
}
use psa_for_multiparty.Share.Bit.{Shares, reconstruct_bit-total}
use psa_for_multiparty.Beaver.{BeaverTripleU64}
use psa_for_multiparty.Beaver.Multiply.{IsTriple, secure_multiply_lem}
use psa_for_multiparty.Compare.{SharedU64Bin, reconstruct_bin}
use psa_for_multiparty.Compare.Word.{IsWord}
use psa_for_multiparty.Compare.Sharing.{reconstruct_bin-share_u64_bin}
use psa_for_multiparty.Gate.{arith_to_bit, bit_to_arith_single}

-- Two parties have two shares.
two_shares :
    (xs : List ℕ)
    → length xs ≡ 2
    → (s : ℕ) × (t : ℕ) × (get_elem? xs 0 ≡ some s) × (get_elem? xs 1 ≡ some t) × (total xs ≡ s + t)
two_shares [] h = absurd (omega arith)
two_shares (s ∷ []) h = absurd (omega arith)
two_shares (s ∷ t ∷ []) h = (s, t, refl, refl, omega arith)
two_shares (s ∷ t ∷ u ∷ xs) h = absurd (omega arith)

-- x + y - 2·x·y is the parity of x + y, for bits.
parity :
    (x y r : ℕ)
    → x < 2
    → y < 2
    → r < u64
    → (r + x * y % u64 * 2 % u64) % u64 ≡ (x + y) % u64
    → r ≡ (x + y) % 2
parity zero zero r hx hy hr h = omega arith
parity zero (suc zero) r hx hy hr h = omega arith
parity (suc zero) zero r hx hy hr h = omega arith
parity (suc zero) (suc zero) r hx hy hr h = omega arith
parity (suc (suc x)) y r hx hy hr h = absurd (omega arith)
parity zero (suc (suc y)) r hx hy hr h = absurd (omega arith)
parity (suc zero) (suc (suc y)) r hx hy hr h = absurd (omega arith)

pub reconstruct-lt : (x : SharedU64) → reconstruct x < u64
reconstruct-lt x = omega (arith, reconstruct-total x)

module _ (p : Prng) where
  -- For a bit that two parties share and a triple of theirs, the conversion succeeds for every state
  -- of the generator with a word of the two parties that reconstructs to the bit.
  pub bit_to_arith_single_lem :
      {b : SharedBit} {v : Bool} {t : BeaverTripleU64} (g : p.State)
      → Shares 2 b v
      → IsTriple 2 t
      → (r : SharedU64) × (g' : p.State) × (bit_to_arith_single p b t g ≡ some (r, g'))
        × (parties r ≡ 2)
        × (reconstruct r ≡ bit v)
  unfolding bit_to_arith_single
  bit_to_arith_single_lem {b} {v} {t} g hb ht =
      let (s0, s1, e0, e1, sum_b) = two_shares b.shares hb.count in
      let (a0, g1, ea0, na0, va0) = reconstruct-share_u64 p 2 (bit_and s0 1) g (omega arith) in
      let (a1, g2, ea1, na1, va1) = reconstruct-share_u64 p 2 (bit_and s1 1) g1 (omega arith) in
      let (prod, ep, np, vp) = secure_multiply_lem a0 a1 t (omega arith) na0 na1 ht in
      let (sum, es, ns, vs) = add_shared_lem a0 a1 (omega (arith, na0, na1)) in
      let (r, er, nr, vr) =
        sub_shared_lem sum (mul_const prod 2)
          (omega (arith, ns, na0, np, parties-mul_const prod 2)) in
      let low0 = bit_and-one s0 in
      let low1 = bit_and-one s1 in
      let x_eq : reconstruct a0 ≡ s0 % 2 = omega (arith, va0, low0) in
      let y_eq : reconstruct a1 ≡ s1 % 2 = omega (arith, va1, low1) in
      let difference : (reconstruct r + reconstruct a0 * reconstruct a1 % u64 * 2 % u64) % u64
          ≡ (reconstruct a0 + reconstruct a1) % u64 =
        rw (← vp, ← reconstruct-mul_const prod 2, vr) vs in
      (
        r,
        g2,
        rw (hb.count, e0, ea0, e1, ea1, ep, es, er),
        omega (arith, nr, ns, na0),
        parity (reconstruct a0) (reconstruct a1) (reconstruct r) (omega (arith, x_eq))
              (omega (arith, y_eq)) (reconstruct-lt r) difference
            ∙ omega (arith, x_eq, y_eq, hb.value, reconstruct_bit-total b, sum_b),
      )

  -- The conversion to bits succeeds for at least two parties, and keeps the word.
  pub arith_to_bit_lem :
      (x : SharedU64) (g : p.State)
      → 2 ≤ parties x
      → (r : SharedU64Bin) × (g' : p.State) × (arith_to_bit p x g ≡ some (r, g'))
        × IsWord (parties x) r
        × (reconstruct_bin r ≡ reconstruct x)
  unfolding arith_to_bit
  arith_to_bit_lem x g h =
      let (r, g', e, word, value) =
        reconstruct_bin-share_u64_bin p (parties x) (reconstruct x) g h in
      (r, g', e, word, omega (arith, value, reconstruct-lt x))

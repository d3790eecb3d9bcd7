-- ===== src/Beaver/And.antt =====
-- Beaver multiplication of shared bits, and the triples that its dealer makes.
use psa_for_multiparty.Common.{
  ℕ, ◌*◌, ◌%◌, ◌<◌, ◌≤◌, ◌≡◌, refl, sym, ap, ◌∙◌, Bool, true, false, some, arith, ◌==◌, ◌&&◌, map,
  length-map, bit_and,
}
use psa_for_multiparty.Common.Fail.{require}
use psa_for_multiparty.Common.Bits.{bit, xor}
use psa_for_multiparty.Common.Modular.{mod-mul_left}
use psa_for_multiparty.Random.{Prng}
use psa_for_multiparty.Share.{SharedBit, bit_parties, xor_const}
use psa_for_multiparty.Share.Bit.{
  Shares, low_bit, bit-low_bit, xor_shared_lem, xor_const_lem, share_bit_lem, total-and_bit,
  reconstruct_bit-total,
}
use psa_for_multiparty.Share.Arith.{total}
use psa_for_multiparty.Beaver.{BeaverTripleBit, and_public, secure_and, generate_beaver_triple_bit}

-- A triple for `n` parties: `w` shares the conjunction of the bits that `u` and `v` share.
pub record IsBitTriple (n : ℕ) (t : BeaverTripleBit) : Type 0 where
  pub u_bit : Bool
  pub v_bit : Bool
  pub u_holds : Shares n t.u u_bit
  pub v_holds : Shares n t.v v_bit
  pub w_holds : Shares n t.w (u_bit && v_bit)

beaver_identity :
    (p q u v : Bool)
    → let d = xor p u in
      let e = xor q v in xor (xor (xor (u && v) (v && d)) (u && e)) (d && e) ≡ (p && q)
beaver_identity p q u v = ground arith

bit_and-and : (p q : Bool) → bit_and (bit p) (bit q) ≡ bit (p && q)
bit_and-and true true = refl
bit_and-and true false = refl
bit_and-and false true = refl
bit_and-and false false = refl

mul-and : (p q : Bool) → bit p * bit q % 2 ≡ bit (p && q)
mul-and true true = refl
mul-and true false = refl
mul-and false true = refl
mul-and false false = refl

module _ {n : ℕ} where
  and_public_lem :
      {a : SharedBit} {p : Bool} (d : Bool)
      → Shares n a p
      → Shares n (and_public a (bit d)) (p && d)
  unfolding and_public
  and_public_lem {a} {p} d ha = record {
    count = omega (arith, ha.count, length-map a.shares (λ s. bit_and s (bit d)));
    value =
        reconstruct_bit-total (record { shares = map (λ s. bit_and s (bit d)) a.shares })
        ∙ total-and_bit a.shares d
        ∙ sym (mod-mul_left 2 (total a.shares) (bit d))
        ∙ ap (λ (t : ℕ). t * bit d % 2) (sym (reconstruct_bit-total a) ∙ ha.value)
        ∙ mul-and p d;
  }

  -- Among at least one party, with a triple for them, the secure AND of two shared bits succeeds, and
  -- its result shares their conjunction among the same parties.
  pub secure_and_lem :
      {x y : SharedBit} {p q : Bool} {t : BeaverTripleBit}
      → 0 < n
      → Shares n x p
      → Shares n y q
      → IsBitTriple n t
      → (r : SharedBit) × (secure_and x y t ≡ some r) × Shares n r (p && q)
  unfolding secure_and
  secure_and_lem {x} {y} {p} {q} {t} pos hx hy ht =
      let u = ht.u_bit in
      let v = ht.v_bit in
      let (ds, ds_eq, ds_h) = xor_shared_lem hx ht.u_holds in
      let (es, es_eq, es_h) = xor_shared_lem hy ht.v_holds in
      let d = xor p u in
      let e = xor q v in
      let (s1, s1_eq, s1_h) = xor_shared_lem ht.w_holds (and_public_lem d ht.v_holds) in
      let (s2, s2_eq, s2_h) = xor_shared_lem s1_h (and_public_lem e ht.u_holds) in
      let guard : require (bit_parties x == bit_parties y && bit_parties x == bit_parties t.u)
          ≡ some tt =
        ground (arith, hx.count, hy.count, ht.u_holds.count) in
      (
        xor_const s2 (bit (d && e)),
        rw (guard, ds_eq, es_eq, ds_h.value, es_h.value, s1_eq, s2_eq, bit_and-and d e),
        rw (beaver_identity p q u v) at (xor_const_lem (d && e) pos s2_h),
      )

module _ (p : Prng) where
  -- The dealer succeeds for at least two parties and every state of the generator, and what it
  -- deals is a bit triple for those parties.
  pub generate_beaver_triple_bit-IsBitTriple :
      (n : ℕ) (g : p.State)
      → 2 ≤ n
      → (t : BeaverTripleBit) × (g' : p.State) × (generate_beaver_triple_bit p n g ≡ some (t, g'))
        × IsBitTriple n t
  unfolding generate_beaver_triple_bit
  generate_beaver_triple_bit-IsBitTriple n g h =
      let (a, g1) = p.next_u8 g in
      let (b, g2) = p.next_u8 g1 in
      let (u, gu, u_eq, u_h) = share_bit_lem p n (low_bit a) g2 h in
      let (v, gv, v_eq, v_h) = share_bit_lem p n (low_bit b) gu h in
      let (w, gw, w_eq, w_h) = share_bit_lem p n (low_bit a && low_bit b) gv h in
      (
        record { u = u; v = v; w = w },
        gw,
        ground (
          arith,
          u_eq,
          v_eq,
          w_eq,
          bit-low_bit a,
          bit-low_bit b,
          bit_and-and (low_bit a) (low_bit b),
        ),
        record {
          u_bit = low_bit a;
          v_bit = low_bit b;
          u_holds = u_h;
          v_holds = v_h;
          w_holds = w_h;
        },
      )

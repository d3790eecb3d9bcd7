-- ===== src/Beaver/Multiply.antt =====
-- Beaver multiplication of shared words, and the triples that its dealer makes.
use psa_for_multiparty.Common.{ℕ, ◌+◌, ◌*◌, ◌%◌, ◌<◌, ◌≤◌, ◌≡◌, ◌∙◌, some, arith, ◌==◌, ◌&&◌}
use psa_for_multiparty.Common.Fail.{require}
use psa_for_multiparty.Common.Modular.{mod-mul-mod}
use psa_for_multiparty.Random.{Prng}
use psa_for_multiparty.Share.{u64, mul64, SharedU64, parties, reconstruct, mul_const, add_const}
use psa_for_multiparty.Share.Arith.{
  add_shared_lem, sub_shared_lem, parties-add_const, reconstruct-add_const, parties-mul_const,
  reconstruct-mul_const, reconstruct-share_u64,
}
use psa_for_multiparty.Beaver.{BeaverTripleU64, secure_multiply, generate_beaver_triple}

-- A triple for `n` parties: `w` shares the product of what `u` and `v` share.
pub record IsTriple (n : ℕ) (t : BeaverTripleU64) : Type 0 where
  pub u_count : parties t.u ≡ n
  pub v_count : parties t.v ≡ n
  pub w_count : parties t.w ≡ n
  pub product : reconstruct t.w ≡ reconstruct t.u * reconstruct t.v % u64

-- w + d·v + e·u + d·e is the product (d + u)·(e + v), for w = u·v.
beaver_identity :
    (d e u v w s : ℕ)
    → w ≡ u * v % u64
    → s ≡ ((w + v * d % u64) % u64 + u * e % u64) % u64
    → (s + mul64 d e) % u64 ≡ (d + u) % u64 * ((e + v) % u64) % u64
beaver_identity d e u v w s p q = omega (arith, mod-mul-mod u64 (d + u) (e + v))

module _ {n : ℕ} (x y : SharedU64) (t : BeaverTripleU64) where
  -- Among at least one party, with operands and triple of as many parties, Beaver multiplication
  -- succeeds, and its result is shared among them and reconstructs to the product of the operands
  -- modulo 2^64.
  pub secure_multiply_lem :
      0 < n
      → parties x ≡ n
      → parties y ≡ n
      → IsTriple n t
      → (r : SharedU64) × (secure_multiply x y t ≡ some r)
        × (parties r ≡ n)
        × (reconstruct r ≡ reconstruct x * reconstruct y % u64)
  unfolding secure_multiply
  secure_multiply_lem pos hx hy ht =
      let (ds, ds_eq, ds_n, ds_v) = sub_shared_lem x t.u (omega (arith, ht.u_count)) in
      let (es, es_eq, es_n, es_v) = sub_shared_lem y t.v (omega (arith, ht.v_count)) in
      let d = reconstruct ds in
      let e = reconstruct es in
      let (s1, s1_eq, s1_n, s1_v) =
        add_shared_lem t.w (mul_const t.v d)
          (omega (arith, ht.w_count, ht.v_count, parties-mul_const t.v d)) in
      let (s2, s2_eq, s2_n, s2_v) =
        add_shared_lem s1 (mul_const t.u e)
          (omega (arith, s1_n, ht.w_count, ht.u_count, parties-mul_const t.u e)) in
      let guard : require (parties x == parties y && parties x == parties t.u) ≡ some tt =
        ground (arith, ht.u_count) in
      (
        add_const s2 (mul64 d e),
        rw (guard, ds_eq, es_eq, s1_eq, s2_eq),
        omega (arith, parties-add_const s2 (mul64 d e), s2_n, s1_n, ht.w_count),
        reconstruct-add_const s2 (mul64 d e) (omega (arith, s2_n, s1_n, ht.w_count))
            ∙ beaver_identity d e (reconstruct t.u) (reconstruct t.v) (reconstruct t.w)
                (reconstruct s2) ht.product
                (rw (s2_v, s1_v, reconstruct-mul_const t.v d, reconstruct-mul_const t.u e))
            ∙ rw (ds_v, es_v),
      )

module _ (p : Prng) where
  -- The dealer succeeds for at least two parties and every state of the generator, and what it
  -- deals is a triple for those parties.
  pub generate_beaver_triple-IsTriple :
      (n : ℕ) (g : p.State)
      → 2 ≤ n
      → (t : BeaverTripleU64) × (g' : p.State) × (generate_beaver_triple p n g ≡ some (t, g'))
        × IsTriple n t
  unfolding generate_beaver_triple
  generate_beaver_triple-IsTriple n g h =
      let (a, g1) = p.next_u64 g in
      let (b, g2) = p.next_u64 g1 in
      let (u, gu, u_eq, u_n, u_v) = reconstruct-share_u64 p n a g2 h in
      let (v, gv, v_eq, v_n, v_v) = reconstruct-share_u64 p n b gu h in
      let (w, gw, w_eq, w_n, w_v) = reconstruct-share_u64 p n (mul64 a b) gv h in
      (
        record { u = u; v = v; w = w },
        gw,
        ground (arith, u_eq, v_eq, w_eq),
        record {
          u_count = u_n;
          v_count = v_n;
          w_count = w_n;
          product = rw (u_v, v_v) (omega (arith, w_v, mod-mul-mod u64 a b));
        },
      )

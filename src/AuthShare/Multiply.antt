-- ===== src/AuthShare/Multiply.antt =====
-- The authenticated Beaver multiplication of honest shares.
use psa_for_multiparty.Common.{ℕ, ◌+◌, ◌*◌, ◌%◌, ◌≤◌, ◌<◌, some, ◌≡◌, sym, ap, ◌∙◌, arith}
use psa_for_multiparty.Common.Modular.{mod-mul_left, mod-mul-mod}
use psa_for_multiparty.Random.{Prng}
use psa_for_multiparty.Share.{u64, mul64, SharedU64, parties, reconstruct, add_const, mul_const}
use psa_for_multiparty.Share.Arith.{
  add_shared_lem, parties-add_const, reconstruct-add_const, parties-mul_const,
  reconstruct-mul_const,
}
use psa_for_multiparty.AuthShare.{
  AuthSharedU64, AuthBeaverTriple, beaver_sum, auth_secure_multiply, deal_auth,
  generate_auth_beaver_triple,
}
use psa_for_multiparty.AuthShare.Local.{
  IsAuth, mul-mod_right, auth_sub_lem, open_with_mac_check-IsAuth, auth_share_u64-IsAuth,
}

-- An authenticated triple of two factors and their product.
pub record IsAuthTriple (n alpha : ℕ) (t : AuthBeaverTriple) (a b : ℕ) : Type 0 where
  pub u_auth : IsAuth n alpha t.u a
  pub v_auth : IsAuth n alpha t.v b
  pub w_auth : IsAuth n alpha t.w (a * b)

pub beaver_sum_lem :
    (u v w : SharedU64) (d e : ℕ)
    → parties v ≡ parties w
    → parties u ≡ parties w
    → (r : SharedU64) × (beaver_sum u v w d e ≡ some r)
      × (parties r ≡ parties w)
      × (reconstruct r ≡ (reconstruct w + reconstruct v * d + reconstruct u * e) % u64)
unfolding beaver_sum
beaver_sum_lem u v w d e hv hu =
    let (s, es, ns, vs) = add_shared_lem w (mul_const v d) (sym hv ∙ sym (parties-mul_const v d)) in
    let (r, er, nr, vr) =
      add_shared_lem s (mul_const u e) (ns ∙ sym hu ∙ sym (parties-mul_const u e)) in
    (
      r,
      rw (es, er),
      nr ∙ ns,
      omega (arith, vr, vs, reconstruct-mul_const v d, reconstruct-mul_const u e),
    )

-- (d + a)·(e + b) is v·w when d + a is v and e + b is w.
pub opened_product :
    (a b d e v w : ℕ)
    → (d + a) % u64 ≡ v % u64
    → (e + b) % u64 ≡ w % u64
    → (a * b + b * d + a * e + d * e) % u64 ≡ v * w % u64
opened_product a b d e v w hd he =
    omega (arith, sym (mod-mul-mod u64 (d + a) (e + b)))
    ∙ ap (λ (k : ℕ). k * ((e + b) % u64) % u64) hd
    ∙ ap (λ (k : ℕ). v % u64 * k % u64) he
    ∙ mod-mul-mod u64 v w

-- The sum of the Beaver products, from the residues that the shares hold.
pub sum_residues :
    (w v u ws vs us d e c z : ℕ)
    → ws ≡ w % u64
    → vs ≡ v % u64
    → us ≡ u % u64
    → z ≡ (ws + vs * d + us * e) % u64
    → (z + c % u64) % u64 ≡ (w + v * d + u * e + c) % u64
sum_residues w v u ws vs us d e c z hw hv hu hz = omega (
  arith,
  ap (λ (k : ℕ). k * d % u64) hv ∙ mod-mul_left u64 v d,
  ap (λ (k : ℕ). k * e % u64) hu ∙ mod-mul_left u64 u e,
)

module _ {n alpha v w a b : ℕ} (x y : AuthSharedU64) (t : AuthBeaverTriple) where
  -- Among at least one party, with authentic operands and an authentic triple under one key, the
  -- authenticated multiplication succeeds: both checked openings pass, and the result is the product
  -- modulo 2^64, authentic under the same key.
  pub auth_secure_multiply_lem :
      0 < n
      → IsAuth n alpha x v
      → IsAuth n alpha y w
      → IsAuthTriple n alpha t a b
      → (z : AuthSharedU64) × (auth_secure_multiply x y t alpha ≡ some z) × IsAuth n alpha z (v * w)
  unfolding auth_secure_multiply
  auth_secure_multiply_lem pos hx hy ht =
      let (dx, d, e_dx, auth_d, sum_d, small_d) = auth_sub_lem x t.u hx ht.u_auth in
      let (ey, e, e_ey, auth_e, sum_e, small_e) = auth_sub_lem y t.v hy ht.v_auth in
      let tu = ht.u_auth in
      let tv = ht.v_auth in
      let tw = ht.w_auth in
      let (z, ez, nz, vz) =
        beaver_sum_lem t.u.value t.v.value t.w.value d e (tv.value_count ∙ sym tw.value_count)
          (tu.value_count ∙ sym tw.value_count) in
      let (m, em, nm, vm) =
        beaver_sum_lem t.u.mac t.v.mac t.w.mac d e (tv.mac_count ∙ sym tw.mac_count)
          (tu.mac_count ∙ sym tw.mac_count) in
      let self_d : d % u64 ≡ d = omega (arith, small_d) in
      let self_e : e % u64 ≡ e = omega (arith, small_e) in
      let open_d = open_with_mac_check-IsAuth dx auth_d ∙ ap some self_d in
      let open_e = open_with_mac_check-IsAuth ey auth_e ∙ ap some self_e in
      let product = opened_product a b d e v w sum_d sum_e in
      (
        record { value = add_const z (mul64 d e); mac = add_const m (mul64 (mul64 alpha d) e) },
        rw (e_dx, e_ey, open_d, open_e, ez, em),
        record {
          value_count = parties-add_const z (mul64 d e) ∙ nz ∙ tw.value_count;
          mac_count = parties-add_const m (mul64 (mul64 alpha d) e) ∙ nm ∙ tw.mac_count;
          holds =
              reconstruct-add_const z (mul64 d e) (omega (arith, nz, tw.value_count))
              ∙ sum_residues (a * b) b a _ _ _ d e (d * e) (reconstruct z) tw.holds tv.holds
                  tu.holds vz
              ∙ product;
          tagged =
              reconstruct-add_const m (mul64 (mul64 alpha d) e) (omega (arith, nm, tw.mac_count))
              ∙ ap (λ (k : ℕ). (reconstruct m + k) % u64) (mod-mul_left u64 (alpha * d) e)
              ∙ sum_residues (alpha * (a * b)) (alpha * b) (alpha * a) _ _ _ d e (alpha * d * e)
                  (reconstruct m) tw.tagged tv.tagged tu.tagged vm
              ∙ omega (arith, mul-mod_right alpha (a * b + b * d + a * e + d * e) (v * w) product);
        },
      )

module _ (p : Prng) where
  -- The dealer succeeds for at least two parties, every key and every state of the generator, and what
  -- it deals is an authentic triple.
  pub generate_auth_beaver_triple-IsAuthTriple :
      (n alpha : ℕ) (g : p.State)
      → 2 ≤ n
      → (t : AuthBeaverTriple) × (g' : p.State) × (a : ℕ) × (b : ℕ) × (generate_auth_beaver_triple p
            n alpha g
          ≡ some (t, g'))
        × IsAuthTriple n alpha t a b
  unfolding generate_auth_beaver_triple deal_auth
  generate_auth_beaver_triple-IsAuthTriple n alpha g h =
      let (a, g1) = p.next_u64 g in
      let (b, g2) = p.next_u64 g1 in
      let (u, gu, eu, hu) = auth_share_u64-IsAuth p n a alpha g2 h in
      let (v, gv, ev, hv) = auth_share_u64-IsAuth p n b alpha gu h in
      let (w, gw, ew, hw) = auth_share_u64-IsAuth p n (mul64 a b) alpha gv h in
      (
        record { u = u; v = v; w = w },
        gw,
        a,
        b,
        rw (eu, ev, ew),
        record {
          u_auth = hu;
          v_auth = hv;
          w_auth = record {
            value_count = hw.value_count;
            mac_count = hw.mac_count;
            holds = omega (arith, hw.holds);
            tagged = hw.tagged ∙ mul-mod_right alpha (mul64 a b) (a * b) (omega arith);
          };
        },
      )

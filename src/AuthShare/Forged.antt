-- ===== src/AuthShare/Forged.antt =====
-- What the sacrifice check accepts.
use psa_for_multiparty.Common.{ℕ, ◌+◌, ◌*◌, ◌%◌, ◌<◌, some, ◌==◌, ◌≡◌, sym, ap, ◌∙◌, arith}
use psa_for_multiparty.Common.Fail.{◌>>=◌}
use psa_for_multiparty.Common.Modular.{mod-mul-mod}
use psa_for_multiparty.Random.{Prng}
use psa_for_multiparty.Share.{u64, mul64}
use psa_for_multiparty.AuthShare.{
  AuthSharedU64, AuthBeaverTriple, auth_sub, auth_mul_const, open_with_mac_check,
}
use psa_for_multiparty.AuthShare.Local.{
  IsAuth, auth_sub_lem, auth_mul_const_lem, open_with_mac_check-IsAuth,
}
use psa_for_multiparty.AuthShare.Sacrifice.{
  r_x_sub_y, auth_sub_pub_mul_value, sacrifice_with, draw_factor, sacrifice_check_triple,
}

-- An authenticated triple of three words, which need not be a product.
pub record IsAuthWords (n alpha : ℕ) (t : AuthBeaverTriple) (a b c : ℕ) : Type 0 where
  pub u_auth : IsAuth n alpha t.u a
  pub v_auth : IsAuth n alpha t.v b
  pub w_auth : IsAuth n alpha t.w c

opens :
    {n alpha d : ℕ} (x : AuthSharedU64)
    → IsAuth n alpha x d
    → d < u64
    → open_with_mac_check x alpha ≡ some d
opens {d = d} x h small = open_with_mac_check-IsAuth x h ∙ ap some self
  where
    self : d % u64 ≡ d
    self = omega (arith, small)

r_x_sub_y_lem :
    {n alpha v w : ℕ} (r : ℕ) (x y : AuthSharedU64)
    → IsAuth n alpha x v
    → IsAuth n alpha y w
    → (z : AuthSharedU64) × (d : ℕ) × (r_x_sub_y r x y ≡ some z)
      × IsAuth n alpha z d
      × ((d + w) % u64 ≡ v * r % u64)
      × (d < u64)
unfolding r_x_sub_y auth_mul_const auth_sub
r_x_sub_y_lem r x y hx hy = auth_sub_lem (auth_mul_const x r) y (auth_mul_const_lem x r hx) hy

-- The last test of the check, on the words that it opened.
sacrifice_test :
    (r a b c a' b' c' rho sigma t1 t2 tau : ℕ)
    → (rho + a') % u64 ≡ a * r % u64
    → (sigma + b') % u64 ≡ b * 1 % u64
    → (t1 + c') % u64 ≡ c * r % u64
    → (t2 + a' * sigma) % u64 ≡ t1 % u64
    → (tau + b' * rho) % u64 ≡ t2 % u64
    → tau < u64
    → (tau == mul64 rho sigma) ≡ ((c * r + a' * b') % u64 == (c' + a * b * r) % u64)
sacrifice_test r a b c a' b' c' rho sigma t1 t2 tau h1 h2 h3 h4 h5 small =
    let product : (rho + a') * (sigma + b') % u64 ≡ a * r * b % u64 =
      sym (mod-mul-mod u64 (rho + a') (sigma + b'))
      ∙ ap (λ (k : ℕ). k * ((sigma + b') % u64) % u64) h1
      ∙ ap (λ (k : ℕ). a * r % u64 * k % u64) (h2 ∙ omega arith)
      ∙ mod-mul-mod u64 (a * r) b in
    ground (arith, product)

tau_shared_lem :
    (r sigma rho : ℕ) (c a_prime b_prime c_prime : AuthSharedU64) {s3 s4 s5 : AuthSharedU64}
    → auth_sub (auth_mul_const c r) c_prime ≡ some s3
    → auth_sub s3 (auth_mul_const a_prime sigma) ≡ some s4
    → auth_sub s4 (auth_mul_const b_prime rho) ≡ some s5
    → auth_sub_pub_mul_value r c sigma a_prime rho b_prime c_prime ≡ some s5
unfolding auth_sub_pub_mul_value
tau_shared_lem r sigma rho c a_prime b_prime c_prime e3 e4 e5 = rw (e3, e4) e5

-- For two triples of words that are authentic under the key, whether or not they are products, and
-- every state of the generator: the check throws nothing, and with the factor `r` that it draws it
-- accepts exactly when r·(w - u·v) of the triple is w' - u'·v' of the second one, modulo 2^64.
pub sacrifice_check_triple_lem :
    {n alpha a b c a' b' c' : ℕ} (csprng : Prng) (t aux : AuthBeaverTriple) (g : csprng.State)
    → IsAuthWords n alpha t a b c
    → IsAuthWords n alpha aux a' b' c'
    → let r = (draw_factor csprng g).0 in
      sacrifice_check_triple csprng t aux alpha g
      ≡ some ((c * r + a' * b') % u64 == (c' + a * b * r) % u64, (draw_factor csprng g).1)
unfolding sacrifice_check_triple sacrifice_with
sacrifice_check_triple_lem {n} {alpha} {a} {b} {c} {a'} {b'} {c'} csprng t aux g ht hx =
    let r = (draw_factor csprng g).0 in
    let (s1, rho, e1, i1, h1, l1) = r_x_sub_y_lem r t.u aux.u ht.u_auth hx.u_auth in
    let (s2, sigma, e2, i2, h2, l2) = r_x_sub_y_lem 1 t.v aux.v ht.v_auth hx.v_auth in
    let (s3, t1, e3, i3, h3, l3) =
      auth_sub_lem (auth_mul_const t.w r) aux.w (auth_mul_const_lem t.w r ht.w_auth) hx.w_auth in
    let (s4, t2, e4, i4, h4, l4) =
      auth_sub_lem s3 (auth_mul_const aux.u sigma) i3 (auth_mul_const_lem aux.u sigma hx.u_auth) in
    let (s5, tau, e5, i5, h5, l5) =
      auth_sub_lem s4 (auth_mul_const aux.v rho) i4 (auth_mul_const_lem aux.v rho hx.v_auth) in
    rw (e1, opens s1 i1 l1)
      (rw (e2, ◌>>=◌, opens s2 i2 l2)
        (rw (tau_shared_lem r sigma rho t.w aux.u aux.v aux.w e3 e4 e5, opens s5 i5 l5)
          (rw (sacrifice_test r a b c a' b' c' rho sigma t1 t2 tau h1 h2 h3 h4 h5 l5))))

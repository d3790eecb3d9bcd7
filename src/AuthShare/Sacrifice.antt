-- ===== src/AuthShare/Sacrifice.antt =====
-- The sacrifice check of volePSI/MpsvsAuthShare.cpp: a triple is tested against a second one under a
-- random factor, with the key in the clear or shared.
use psa_for_multiparty.Common.{ℕ, Bool, false, Option, none, some, ◌==◌, if◌then◌else◌}
use psa_for_multiparty.Common.Fail.{◌>>=◌}
use psa_for_multiparty.Random.{Prng}
use psa_for_multiparty.Share.{mul64, sub_shared, mul_const}
use psa_for_multiparty.AuthShare.Shared.{Sodium, open_with_mac_check_shared}
use psa_for_multiparty.AuthShare.{
  AlphaShare, AuthSharedU64, AuthBeaverTriple, auth_sub, auth_mul_const, open_with_mac_check,
}

-- r·x - y
unfoldable pub r_x_sub_y : ℕ → AuthSharedU64 → AuthSharedU64 → Option AuthSharedU64
r_x_sub_y r x y = do
  value ← sub_shared (mul_const x.value r) y.value
  mac ← sub_shared (mul_const x.mac r) y.mac
  some (record { value = value; mac = mac })

-- r·c - c' - sigma·a' - rho·b'
unfoldable pub auth_sub_pub_mul_value :
    ℕ → AuthSharedU64 → ℕ → AuthSharedU64 → ℕ → AuthSharedU64 → AuthSharedU64 → Option AuthSharedU64
auth_sub_pub_mul_value r c sigma a_prime rho b_prime c_prime = do
  tmp ← auth_sub (auth_mul_const c r) c_prime
  tmp2 ← auth_sub tmp (auth_mul_const a_prime sigma)
  auth_sub tmp2 (auth_mul_const b_prime rho)

-- The check for the factor `r`: an opening that fails is an answer of false.
unfoldable pub sacrifice_with :
    ℕ → AuthBeaverTriple → AuthBeaverTriple → (AuthSharedU64 → Option ℕ) → Option Bool
sacrifice_with r t aux open_it = do
  rho_shared ← r_x_sub_y r t.u aux.u
  sigma_shared ← r_x_sub_y 1 t.v aux.v
  elim (open_it rho_shared) [
    | none ↦ some false
    | some rho ↦ elim (open_it sigma_shared) [
      | none ↦ some false
      | some sigma ↦ auth_sub_pub_mul_value r t.w sigma aux.u rho aux.v aux.w >>= (λ tau_shared.
          elim (open_it tau_shared) [
            | none ↦ some false
            | some tau ↦ some (tau == mul64 rho sigma)
          ])
    ]
  ]

module _ (csprng : Prng) where
  open csprng use {State, next_u64}

  -- `if (r == 0) r = 1`
  abbrev pub draw_factor : State → ℕ × State
  draw_factor g = let (r, g1) = next_u64 g in (if r == 0 then 1 else r, g1)

  unfoldable pub sacrifice_check_triple :
      AuthBeaverTriple → AuthBeaverTriple → ℕ → State → Option (Bool × State)
  unfolding sacrifice_with
  sacrifice_check_triple t aux alpha g = do
    let drawn = draw_factor g
    b ← sacrifice_with drawn.0 t aux (λ x. open_with_mac_check x alpha)
    some (b, drawn.1)

module _ (sodium : Sodium) (csprng : Prng) where
  open csprng use {State}

  -- The same check with each opening under the shared key; the salts come from the generator too.
  unfoldable pub sacrifice_check_triple_shared :
      AuthBeaverTriple → AuthBeaverTriple → AlphaShare → State → Option (Bool × State)
  sacrifice_check_triple_shared t aux alpha g = do
    let drawn = draw_factor csprng g
    rho_shared ← r_x_sub_y drawn.0 t.u aux.u
    sigma_shared ← r_x_sub_y 1 t.v aux.v
    open_with_mac_check_shared sodium csprng rho_shared alpha drawn.1 >>= (λ o1. elim o1.0 [
      | none ↦ some (false, o1.1)
      | some rho ↦ open_with_mac_check_shared sodium csprng sigma_shared alpha o1.1 >>= (λ o2.
          elim o2.0 [
            | none ↦ some (false, o2.1)
            | some sigma ↦
                auth_sub_pub_mul_value drawn.0 t.w sigma aux.u rho aux.v aux.w >>= (λ tau_shared.
                  open_with_mac_check_shared sodium csprng tau_shared alpha o2.1 >>= (λ o3.
                    elim o3.0 [
                      | none ↦ some (false, o3.1)
                      | some tau ↦ some (tau == mul64 rho sigma, o3.1)
                    ]))
          ])
    ])

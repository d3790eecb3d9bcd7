-- ===== src/AuthShare.antt =====
-- volePSI/MpsvsAuthShare.h and volePSI/MpsvsAuthShare.cpp: a shared word with a shared MAC of it under
-- a key `alpha`, all modulo 2^64; the local operations, the opening that checks the MAC, the
-- authenticated Beaver multiplication and the batched opening. `none` is an exception, or an opening
-- that returns false. `secureRandU64` draws from libsodium: it is a generator of its own.
pub mod Shared
pub mod Sacrifice
pub mod Local
pub mod Multiply
pub mod Tamper
pub mod SharedKey
pub mod Forged
use psa_for_multiparty.Common.{
  ℕ, zero, suc, ◌+◌, Bool, true, false, Option, none, some, List, [], ◌∷◌, length, ltb, ◌==◌,
  if◌then◌else◌,
}
use psa_for_multiparty.Common.Fail.{◌>>=◌, ◌>>◌, require}
use psa_for_multiparty.Random.{Prng}
use psa_for_multiparty.Share.{
  add64, mul64, SharedU64, parties, reconstruct, add_shared, sub_shared, add_const, mul_const,
  share_u64,
}

pub record AuthSharedU64 : Type 0 where
  pub value : SharedU64
  pub mac : SharedU64

pub record AlphaShare : Type 0 where
  pub alpha_share : SharedU64

pub record AuthBeaverTriple : Type 0 where
  pub u : AuthSharedU64
  pub v : AuthSharedU64
  pub w : AuthSharedU64

unfoldable pub auth_add : AuthSharedU64 → AuthSharedU64 → Option AuthSharedU64
auth_add a b = do
  value ← add_shared a.value b.value
  mac ← add_shared a.mac b.mac
  some (record { value = value; mac = mac })

unfoldable pub auth_sub : AuthSharedU64 → AuthSharedU64 → Option AuthSharedU64
auth_sub a b = do
  value ← sub_shared a.value b.value
  mac ← sub_shared a.mac b.mac
  some (record { value = value; mac = mac })

-- Party 0 takes in the public constant.
unfoldable pub auth_add_const : AuthSharedU64 → ℕ → ℕ → AuthSharedU64
auth_add_const a c alpha = record {
  value = add_const a.value c;
  mac = add_const a.mac (mul64 alpha c);
}

unfoldable pub auth_mul_const : AuthSharedU64 → ℕ → AuthSharedU64
auth_mul_const a c = record { value = mul_const a.value c; mac = mul_const a.mac c }

-- `none` when the MAC does not match
unfoldable pub open_with_mac_check : AuthSharedU64 → ℕ → Option ℕ
open_with_mac_check x alpha =
    if mul64 alpha (reconstruct x.value) == reconstruct x.mac
    then some (reconstruct x.value)
    else none

-- w + d·v + e·u
unfoldable pub beaver_sum : SharedU64 → SharedU64 → SharedU64 → ℕ → ℕ → Option SharedU64
beaver_sum u v w d e = do step ← add_shared w (mul_const v d); add_shared step (mul_const u e)

-- An opening that fails throws `AuthShareMacFailure`.
unfoldable pub auth_secure_multiply :
    AuthSharedU64 → AuthSharedU64 → AuthBeaverTriple → ℕ → Option AuthSharedU64
unfolding beaver_sum
auth_secure_multiply x y triple alpha = do
  x_minus_u ← auth_sub x triple.u
  y_minus_v ← auth_sub y triple.v
  d ← open_with_mac_check x_minus_u alpha
  e ← open_with_mac_check y_minus_v alpha
  val_z ← beaver_sum triple.u.value triple.v.value triple.w.value d e
  mac_z ← beaver_sum triple.u.mac triple.v.mac triple.w.mac d e
  some (record {
    value = add_const val_z (mul64 d e);
    mac = add_const mac_z (mul64 (mul64 alpha d) e);
  })

-- `shares[i] = f(shares[i])`
abbrev pub update_at : ℕ → (ℕ → ℕ) → List ℕ → List ℕ
update_at i f [] = []
update_at zero f (s ∷ ss) = f s ∷ ss
update_at (suc i) f (s ∷ ss) = s ∷ update_at i f ss

unfoldable pub simulate_tampering : AuthSharedU64 → ℕ → ℕ → Option AuthSharedU64
simulate_tampering x bad_party tamper_amount = do
  require (ltb bad_party (parties x.value))
  some (record {
    value = record { shares = update_at bad_party (λ s. add64 s tamper_amount) x.value.shares };
    mac = x.mac;
  })

module _ (p : Prng) where
  open p use {State, next_u64}

  unfoldable pub auth_share_u64 : ℕ → ℕ → ℕ → State → Option (AuthSharedU64 × State)
  auth_share_u64 n value alpha g = do
    (v, g1) ← share_u64 p n value g
    (m, g2) ← share_u64 p n (mul64 alpha value) g1
    some (record { value = v; mac = m }, g2)

  -- the three sharings, in order
  unfoldable pub deal_auth : ℕ → ℕ → ℕ → ℕ → ℕ → State → Option (AuthBeaverTriple × State)
  deal_auth n alpha u_plain v_plain w_plain g = do
    (u, g1) ← auth_share_u64 n u_plain alpha g
    (v, g2) ← auth_share_u64 n v_plain alpha g1
    (w, g3) ← auth_share_u64 n w_plain alpha g2
    some (record { u = u; v = v; w = w }, g3)

  unfoldable pub generate_auth_beaver_triple : ℕ → ℕ → State → Option (AuthBeaverTriple × State)
  unfolding deal_auth
  generate_auth_beaver_triple n alpha g =
      let (u_plain, g1) = next_u64 g in
      let (v_plain, g2) = next_u64 g1 in
      deal_auth n alpha u_plain v_plain (mul64 u_plain v_plain) g2

  unfoldable pub generate_malformed_beaver_triple :
      ℕ → ℕ → ℕ → State → Option (AuthBeaverTriple × State)
  unfolding deal_auth
  generate_malformed_beaver_triple n alpha w_offset g =
      let (u_plain, g1) = next_u64 g in
      let (v_plain, g2) = next_u64 g1 in
      deal_auth n alpha u_plain v_plain (add64 (mul64 u_plain v_plain) w_offset) g2

  -- whether a share is 0
  abbrev pub any_zero : List ℕ → Bool
  any_zero [] = false
  any_zero (s ∷ ss) = if s == 0 then true else any_zero ss

  -- `while (true)`, on fuel: the generator may never give a key with no share 0.
  unfoldable pub generate_alpha : ℕ → ℕ → State → Option (AlphaShare × State)
  generate_alpha zero n g = none
  generate_alpha (suc fuel) n g =
      let (alpha_plain, g1) = next_u64 g in
      elim (alpha_plain == 0) [
        | true ↦ generate_alpha fuel n g1
        | false ↦ share_u64 p n alpha_plain g1 >>= (λ r. elim (any_zero r.0.shares) [
          | true ↦ generate_alpha fuel n r.1
          | false ↦ some (record { alpha_share = r.0 }, r.1)
        ])
      ]

  -- The loop of `batchOpenWithMacCheck`: the values, the two combinations and the generator.
  unfoldable pub combine_opens : ℕ → ℕ → List AuthSharedU64 → State → List ℕ × ℕ × ℕ × State
  combine_opens val mac [] g = ([], val, mac, g)
  combine_opens val mac (x ∷ xs) g =
      let (r, g1) = next_u64 g in
      let (out, v, m, g2) =
        combine_opens (add64 val (mul64 r (reconstruct x.value)))
          (add64 mac (mul64 r (reconstruct x.mac))) xs g1 in
      (reconstruct x.value ∷ out, v, m, g2)

  -- The values opened, and whether the check passes.
  unfoldable pub batch_open_with_mac_check : List AuthSharedU64 → ℕ → State → List ℕ × Bool × State
  unfolding combine_opens
  batch_open_with_mac_check xs alpha g =
      let (out, v, m, g1) = combine_opens 0 0 xs g in (out, mul64 alpha v == m, g1)

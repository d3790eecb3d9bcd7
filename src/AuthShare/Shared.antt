-- ===== src/AuthShare/Shared.antt =====
-- volePSI/MpsvsAuthShare.cpp, with the key shared between two parties: the commitments to the sigmas,
-- the opening, the multiplication and the batched opening under challenges derived from a hash.
-- SHA-256 and the comparison of digests are libsodium's: parameters. The outer `Option` is an
-- exception, the inner one an opening that returns false.
use psa_for_multiparty.Common.{
  ℕ, zero, suc, ◌+◌, ◌*◌, ◌/◌, ◌%◌, ◌^◌, Bool, true, ◌&&◌, Option, none, some, List, [], ◌∷◌, ◌++◌,
  get_elem?, replicate, take, ◌==◌, if◌then◌else◌, bit_or,
}
use psa_for_multiparty.Common.Fail.{◌>>=◌, ◌>>◌, require}
use psa_for_multiparty.Random.{Prng}
use psa_for_multiparty.Share.{add64, sub64, mul64, SharedU64, parties, reconstruct, add_const}
use psa_for_multiparty.AuthShare.{AuthSharedU64, AlphaShare, AuthBeaverTriple, auth_sub, beaver_sum}

-- `crypto_hash_sha256` on bytes, and `sodium_memcmp(…) == 0` on digests
pub record Sodium : Type 0 where
  pub crypto_hash_sha256 : List ℕ → List ℕ
  pub sodium_memcmp : List ℕ → List ℕ → Bool

pub record SigmaCommit : Type 0 where
  pub party : ℕ
  pub sigma : ℕ
  pub salt : ℕ
  pub commit : List ℕ

-- the `count` low bytes of a word, the lowest first
abbrev pub low_bytes : ℕ → ℕ → List ℕ
low_bytes zero v = []
low_bytes (suc count) v = v % 2 ^ 8 ∷ low_bytes count (v / 2 ^ 8)

unfoldable pub append_u64_le : List ℕ → ℕ → List ℕ
append_u64_le out v = out ++ low_bytes 8 v

-- "mpsvs.audit"
abbrev pub audit_domain : List ℕ
audit_domain = 109 ∷ 112 ∷ 115 ∷ 118 ∷ 115 ∷ 46 ∷ 97 ∷ 117 ∷ 100 ∷ 105 ∷ 116 ∷ []

-- "mpsvs.omega.r"
abbrev pub omega_domain : List ℕ
omega_domain = 109 ∷ 112 ∷ 115 ∷ 118 ∷ 115 ∷ 46 ∷ 111 ∷ 109 ∷ 101 ∷ 103 ∷ 97 ∷ 46 ∷ 114 ∷ []

-- r |= h[b] << (8 * b), for the bytes from position `b` on
abbrev pub word_from : ℕ → ℕ → List ℕ → ℕ
word_from r b [] = r
word_from r b (h ∷ hs) = word_from (bit_or r (h * 2 ^ (8 * b) % 2 ^ 64)) (b + 1) hs

-- the shares of one element, interleaved with those of its MAC
abbrev pub append_shares : List ℕ → List ℕ → List ℕ → List ℕ
append_shares out (s ∷ ss) (m ∷ ms) = append_shares (append_u64_le (append_u64_le out s) m) ss ms
append_shares out _ _ = out

abbrev pub transcript_of : List ℕ → List AuthSharedU64 → List ℕ
transcript_of out [] = out
transcript_of out (x ∷ xs) = transcript_of (append_shares out x.value.shares x.mac.shares) xs

-- `mac.shares[i] += alpha.shares[i] * d * e`
abbrev pub add_alpha_term : ℕ → ℕ → List ℕ → List ℕ → List ℕ
add_alpha_term d e (m ∷ ms) (a ∷ as') = add64 m (mul64 (mul64 a d) e) ∷ add_alpha_term d e ms as'
add_alpha_term d e _ _ = []

-- `combined.shares[i] += r * shares[i]`, for parties 0 and 1
unfoldable pub add_scaled : ℕ → SharedU64 → SharedU64 → Option SharedU64
add_scaled r combined x = do
  c0 ← get_elem? combined.shares 0
  c1 ← get_elem? combined.shares 1
  x0 ← get_elem? x.shares 0
  x1 ← get_elem? x.shares 1
  some (record { shares = add64 c0 (mul64 r x0) ∷ add64 c1 (mul64 r x1) ∷ [] })

-- The loop of the batched opening: the values and the combined element.
unfoldable pub combine_shared :
    AuthSharedU64 → List ℕ → List AuthSharedU64 → Option (List ℕ × AuthSharedU64)
unfolding add_scaled
combine_shared combined (r ∷ rs) (x ∷ xs) = do
  value ← add_scaled r combined.value x.value
  mac ← add_scaled r combined.mac x.mac
  rest ← combine_shared (record { value = value; mac = mac }) rs xs
  some (reconstruct x.value ∷ rest.0, rest.1)
combine_shared combined _ _ = some ([], combined)

abbrev pub all_two_party : List AuthSharedU64 → Bool
all_two_party [] = true
all_two_party (x ∷ xs) = parties x.value == 2 && all_two_party xs

abbrev pub two_zeros : SharedU64
two_zeros = record { shares = replicate 2 0 }

module _ (sodium : Sodium) where
  open sodium use {crypto_hash_sha256, sodium_memcmp}

  unfoldable pub commit_sigma : ℕ → ℕ → ℕ → List ℕ
  commit_sigma party sigma salt =
      crypto_hash_sha256
        (append_u64_le (append_u64_le (append_u64_le audit_domain party) sigma) salt)

  unfoldable pub verify_sigma_reveal : SigmaCommit → List ℕ → Bool
  unfolding commit_sigma
  verify_sigma_reveal revealed expected_commit =
      sodium_memcmp (commit_sigma revealed.party revealed.sigma revealed.salt) expected_commit

  -- The challenges from position `j` on, one per element; a challenge of 0 becomes 1.
  unfoldable pub omega_challenges : List ℕ → ℕ → List AuthSharedU64 → List ℕ
  omega_challenges tr_hash j [] = []
  omega_challenges tr_hash j (x ∷ xs) =
      let h = crypto_hash_sha256 (append_u64_le omega_domain j ++ tr_hash) in
      let r = word_from 0 0 (take 8 h) in
      (if r == 0 then 1 else r) ∷ omega_challenges tr_hash (j + 1) xs

  unfoldable pub derive_omega_challenges : List AuthSharedU64 → List ℕ
  unfolding omega_challenges
  derive_omega_challenges xs = omega_challenges (crypto_hash_sha256 (transcript_of [] xs)) 0 xs

  module _ (csprng : Prng) where
    open csprng use {State, next_u64}

    unfoldable pub compute_sigma_commit : ℕ → ℕ → ℕ → ℕ → State → SigmaCommit × State
    compute_sigma_commit party alpha_i mac_i x_rec g =
        let sigma = sub64 (mul64 alpha_i x_rec) mac_i in
        let (salt, g1) = next_u64 g in
        (
          record {
            party = party;
            sigma = sigma;
            salt = salt;
            commit = commit_sigma party sigma salt;
          },
          g1,
        )

    -- phases A to D
    unfoldable pub open_with_mac_check_shared :
        AuthSharedU64 → AlphaShare → State → Option (Option ℕ × State)
    unfolding compute_sigma_commit verify_sigma_reveal
    open_with_mac_check_shared x alpha g = do
      require (parties x.value == 2 && parties alpha.alpha_share == 2)
      a1 ← get_elem? alpha.alpha_share.shares 0
      m1 ← get_elem? x.mac.shares 0
      a2 ← get_elem? alpha.alpha_share.shares 1
      m2 ← get_elem? x.mac.shares 1
      let x_rec = reconstruct x.value
      let s1 = compute_sigma_commit 1 a1 m1 x_rec g
      let s2 = compute_sigma_commit 2 a2 m2 x_rec s1.1
      let revealed = verify_sigma_reveal s1.0 s1.0.commit && verify_sigma_reveal s2.0 s2.0.commit
      let sum_zero = add64 s1.0.sigma s2.0.sigma == 0
      some (if revealed && sum_zero then some x_rec else none, s2.1)

    -- An opening that fails throws.
    unfoldable pub auth_secure_multiply_shared :
        AuthSharedU64
        → AuthSharedU64
        → AuthBeaverTriple
        → AlphaShare
        → State
        → Option (AuthSharedU64 × State)
    unfolding open_with_mac_check_shared
    auth_secure_multiply_shared x y triple alpha g = do
      require (parties x.value == 2 && parties y.value == 2)
      require (parties triple.u.value == 2 && parties triple.v.value == 2)
      require (parties triple.w.value == 2 && parties alpha.alpha_share == 2)
      x_minus_u ← auth_sub x triple.u
      y_minus_v ← auth_sub y triple.v
      r1 ← open_with_mac_check_shared x_minus_u alpha g
      d ← r1.0
      r2 ← open_with_mac_check_shared y_minus_v alpha r1.1
      e ← r2.0
      val_z ← beaver_sum triple.u.value triple.v.value triple.w.value d e
      mac_z ← beaver_sum triple.u.mac triple.v.mac triple.w.mac d e
      some (
        record {
          value = add_const val_z (mul64 d e);
          mac = record { shares = add_alpha_term d e mac_z.shares alpha.alpha_share.shares };
        },
        r2.1,
      )

    -- The values opened, and whether the combined check passes.
    unfoldable pub batch_open_with_mac_check_shared :
        List AuthSharedU64 → AlphaShare → State → Option (List ℕ × Option ℕ × State)
    unfolding derive_omega_challenges combine_shared open_with_mac_check_shared
    batch_open_with_mac_check_shared xs alpha g = do
      require (parties alpha.alpha_share == 2)
      require (all_two_party xs)
      combined ←
          combine_shared (record { value = two_zeros; mac = two_zeros })
            (derive_omega_challenges xs) xs
      r ← open_with_mac_check_shared combined.1 alpha g
      some (combined.0, r.0, r.1)

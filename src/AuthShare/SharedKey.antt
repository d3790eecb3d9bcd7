-- ===== src/AuthShare/SharedKey.antt =====
-- The opening under a key shared between two parties is the opening under the key itself.
use psa_for_multiparty.Common.{
  ℕ, ◌+◌, ◌*◌, ◌%◌, true, some, List, [], ◌∷◌, length, get_elem?, ◌==◌, ◌≡◌, refl, ap, ◌∙◌, arith,
}
use psa_for_multiparty.Common.Modular.{mod-mul_left}
use psa_for_multiparty.Random.{Prng}
use psa_for_multiparty.Share.{u64, add64, sub64, mul64, SharedU64, parties, reconstruct}
use psa_for_multiparty.Share.Arith.{total, reconstruct-total}
use psa_for_multiparty.AuthShare.{AuthSharedU64, AlphaShare, open_with_mac_check}
use psa_for_multiparty.AuthShare.Shared.{
  Sodium, verify_sigma_reveal, compute_sigma_commit, open_with_mac_check_shared,
}

-- `sodium_memcmp` finds a digest equal to itself.
pub record IsSodium (sodium : Sodium) : Type 0 where
  pub memcmp_refl : (h : List ℕ) → sodium.sodium_memcmp h h ≡ true

two_shares :
    (x : SharedU64)
    → parties x ≡ 2
    → (s : ℕ) × (t : ℕ) × (get_elem? x.shares 0 ≡ some s)
      × (get_elem? x.shares 1 ≡ some t)
      × (reconstruct x ≡ (s + t) % u64)
two_shares x h = go x.shares h (reconstruct-total x)
  where
    go :
        (ss : List ℕ)
        → length ss ≡ 2
        → reconstruct x ≡ total ss % u64
        → (s : ℕ) × (t : ℕ) × (get_elem? ss 0 ≡ some s)
          × (get_elem? ss 1 ≡ some t)
          × (reconstruct x ≡ (s + t) % u64)
    go [] h e = absurd (omega arith)
    go (s ∷ []) h e = absurd (omega arith)
    go (s ∷ t ∷ []) h e = (s, t, refl, refl, omega (arith, e))
    go (s ∷ t ∷ r ∷ rest) h e = absurd (omega arith)

-- The sigmas sum to 0 exactly when the MAC matches.
sigma_test :
    (a1 a2 m1 m2 x a m : ℕ)
    → a ≡ (a1 + a2) % u64
    → m ≡ (m1 + m2) % u64
    → (add64 (sub64 (mul64 a1 x) m1) (sub64 (mul64 a2 x) m2) == 0) ≡ (mul64 a x == m)
sigma_test a1 a2 m1 m2 x a m ha hm =
    let key : mul64 a x ≡ (a1 * x + a2 * x) % u64 =
      ap (λ (k : ℕ). k * x % u64) ha ∙ mod-mul_left u64 (a1 + a2) x ∙ omega arith in
    ground (arith, key, hm)

-- For a word, a MAC and a key shared between two parties, and a comparison of digests that finds a
-- digest equal to itself: the opening under the shared key throws nothing, and answers for every
-- state of the generator what the opening under the reconstructed key answers.
pub open_with_mac_check_shared_lem :
    (sodium : Sodium) (csprng : Prng)
    → IsSodium sodium
    → (x : AuthSharedU64) (alpha : AlphaShare) (g : csprng.State) → parties x.value ≡ 2
    → parties x.mac ≡ 2
    → parties alpha.alpha_share ≡ 2
    → (g' : csprng.State) × (open_with_mac_check_shared sodium csprng x alpha g
        ≡ some (open_with_mac_check x (reconstruct alpha.alpha_share), g'))
unfolding open_with_mac_check_shared open_with_mac_check compute_sigma_commit verify_sigma_reveal
open_with_mac_check_shared_lem sodium csprng ok x alpha g hx hm ha =
    let (a1, a2, ea1, ea2, va) = two_shares alpha.alpha_share ha in
    let (m1, m2, em1, em2, vm) = two_shares x.mac hm in
    let (salt1, g1) = csprng.next_u64 g in
    let (salt2, g2) = csprng.next_u64 g1 in
    (
      g2,
      rw (
        hx,
        ha,
        ea1,
        em1,
        ea2,
        em2,
        ok.memcmp_refl _,
        ok.memcmp_refl _,
        sigma_test a1 a2 m1 m2 (reconstruct x.value) (reconstruct alpha.alpha_share)
            (reconstruct x.mac) va vm,
      ),
    )

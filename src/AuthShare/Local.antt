-- ===== src/AuthShare/Local.antt =====
-- What the local operations do to authenticated words, and the opening of one.
use psa_for_multiparty.Common.{ℕ, ◌+◌, ◌*◌, ◌%◌, ◌≤◌, ◌<◌, some, ◌≡◌, sym, ap, ◌∙◌, arith}
use psa_for_multiparty.Common.Modular.{mod-mul_left}
use psa_for_multiparty.Random.{Prng}
use psa_for_multiparty.Share.{u64, mul64, SharedU64, parties, reconstruct}
use psa_for_multiparty.Share.Arith.{
  sub_shared_lem, parties-mul_const, reconstruct-mul_const, reconstruct-share_u64,
  reconstruct-total,
}
use psa_for_multiparty.AuthShare.{
  AuthSharedU64, auth_sub, auth_mul_const, open_with_mac_check, auth_share_u64,
}

-- Among `n` parties, `x` shares the word `v` modulo 2^64, and its MAC shares `alpha` times `v`.
pub record IsAuth (n alpha : ℕ) (x : AuthSharedU64) (v : ℕ) : Type 0 where
  pub value_count : parties x.value ≡ n
  pub mac_count : parties x.mac ≡ n
  pub holds : reconstruct x.value ≡ v % u64
  pub tagged : reconstruct x.mac ≡ alpha * v % u64

-- Products that differ by a multiple of 2^64 on the right.
pub mul-mod_right : (a s t : ℕ) → s % u64 ≡ t % u64 → a * s % u64 ≡ a * t % u64
mul-mod_right a s t h =
    omega (arith, mod-mul_left u64 s a, mod-mul_left u64 t a, ap (λ (k : ℕ). k * a % u64) h)

pub reconstruct-lt : (x : SharedU64) → reconstruct x < u64
reconstruct-lt x = omega (arith, reconstruct-total x)

-- The difference `d` of the two words.
pub auth_sub_lem :
    {n alpha v w : ℕ} (a b : AuthSharedU64)
    → IsAuth n alpha a v
    → IsAuth n alpha b w
    → (r : AuthSharedU64) × (d : ℕ) × (auth_sub a b ≡ some r)
      × IsAuth n alpha r d
      × ((d + w) % u64 ≡ v % u64)
      × (d < u64)
unfolding auth_sub
auth_sub_lem {n} {alpha} {v} {w} a b ha hb =
    let (x, ex, nx, vx) = sub_shared_lem a.value b.value (ha.value_count ∙ sym hb.value_count) in
    let (m, em, nm, vm) = sub_shared_lem a.mac b.mac (ha.mac_count ∙ sym hb.mac_count) in
    let small = reconstruct-lt x in
    let sum : (reconstruct x + w) % u64 ≡ v % u64 = omega (arith, vx, ha.holds, hb.holds) in
    (
      record { value = x; mac = m },
      reconstruct x,
      rw (ex, em),
      record {
        value_count = nx ∙ ha.value_count;
        mac_count = nm ∙ ha.mac_count;
        holds = omega (arith, small);
        tagged = omega (
          arith,
          vm,
          ha.tagged,
          hb.tagged,
          reconstruct-lt m,
          mul-mod_right alpha (reconstruct x + w) v sum,
        );
      },
      sum,
      small,
    )

pub auth_mul_const_lem :
    {n alpha v : ℕ} (a : AuthSharedU64) (c : ℕ)
    → IsAuth n alpha a v
    → IsAuth n alpha (auth_mul_const a c) (v * c)
unfolding auth_mul_const
auth_mul_const_lem {n} {alpha} {v} a c h = record {
  value_count = parties-mul_const a.value c ∙ h.value_count;
  mac_count = parties-mul_const a.mac c ∙ h.mac_count;
  holds =
      reconstruct-mul_const a.value c ∙ ap (λ (k : ℕ). k * c % u64) h.holds ∙ mod-mul_left u64 v c;
  tagged =
      reconstruct-mul_const a.mac c
      ∙ ap (λ (k : ℕ). k * c % u64) h.tagged
      ∙ mod-mul_left u64 (alpha * v) c
      ∙ omega arith;
}

-- An authentic word opens to itself.
pub open_with_mac_check-IsAuth :
    {n alpha v : ℕ} (x : AuthSharedU64)
    → IsAuth n alpha x v
    → open_with_mac_check x alpha ≡ some (v % u64)
unfolding open_with_mac_check
open_with_mac_check-IsAuth {n} {alpha} {v} x h =
    let matches : mul64 alpha (reconstruct x.value) ≡ reconstruct x.mac =
      mul-mod_right alpha (reconstruct x.value) v (omega (arith, h.holds)) ∙ sym h.tagged in
    ground (arith, matches, h.holds)

module _ (p : Prng) where
  -- Sharing a word among at least two parties succeeds, and the word is authentic under the key.
  pub auth_share_u64-IsAuth :
      (n value alpha : ℕ) (g : p.State)
      → 2 ≤ n
      → (x : AuthSharedU64) × (g' : p.State) × (auth_share_u64 p n value alpha g ≡ some (x, g'))
        × IsAuth n alpha x value
  unfolding auth_share_u64
  auth_share_u64-IsAuth n value alpha g h =
      let (v, g1, ev, nv, hv) = reconstruct-share_u64 p n value g h in
      let (m, g2, em, nm, hm) = reconstruct-share_u64 p n (mul64 alpha value) g1 h in
      (
        record { value = v; mac = m },
        g2,
        rw (ev, em),
        record { value_count = nv; mac_count = nm; holds = hv; tagged = omega (arith, hm) },
      )

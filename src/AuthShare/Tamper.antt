-- ===== src/AuthShare/Tamper.antt =====
-- The checked opening of a word of which one party changed its share.
use psa_for_multiparty.Common.{
  ℕ, zero, suc, ◌+◌, ◌*◌, ◌%◌, ◌<◌, none, some, List, [], ◌∷◌, length, lt→ltb, ◌==◌, if◌then◌else◌,
  ◌≡◌, arith,
}
use psa_for_multiparty.Share.{u64, add64, mul64, SharedU64, parties, reconstruct}
use psa_for_multiparty.Share.Arith.{total, reconstruct-total}
use psa_for_multiparty.AuthShare.{AuthSharedU64, update_at, simulate_tampering, open_with_mac_check}
use psa_for_multiparty.AuthShare.Local.{IsAuth, mul-mod_right}

total-update_at :
    (xs : List ℕ) (i c : ℕ)
    → i < length xs
    → total (update_at i (λ s. add64 s c) xs) % u64 ≡ (total xs + c) % u64
total-update_at [] i c h = absurd (omega arith)
total-update_at (x ∷ xs) zero c h = omega arith
total-update_at (x ∷ xs) (suc i) c h = omega (arith, total-update_at xs i c (omega arith))

-- The test that the opening runs, when the word was shifted.
shifted_test :
    (alpha v t r m : ℕ)
    → r ≡ (v + t) % u64
    → m ≡ alpha * v % u64
    → (mul64 alpha r == m) ≡ (mul64 alpha t == 0)
shifted_test alpha v t r m hr hm =
    let product = mul-mod_right alpha r (v + t) (omega (arith, hr)) in ground (arith, product, hm)

-- For an authentic word, a party among its parties and an amount: after the party adds the amount to
-- its share, the checked opening returns the shifted word when the key times the amount is 0 modulo
-- 2^64, and fails for every other key.
pub simulate_tampering-open :
    {n alpha v : ℕ} (x : AuthSharedU64) (bad_party amount : ℕ)
    → IsAuth n alpha x v
    → bad_party < n
    → (x' : AuthSharedU64) × (simulate_tampering x bad_party amount ≡ some x')
      × (open_with_mac_check x' alpha
          ≡ (if mul64 alpha amount == 0 then some ((v + amount) % u64) else none))
unfolding simulate_tampering open_with_mac_check
simulate_tampering-open {n} {alpha} {v} x bad_party amount h lt =
    let shifted : SharedU64 = record {
      shares = update_at bad_party (λ s. add64 s amount) x.value.shares;
    } in
    let inside : bad_party < parties x.value = omega (arith, h.value_count, lt) in
    let value : reconstruct shifted ≡ (v + amount) % u64 = omega (
      arith,
      reconstruct-total shifted,
      reconstruct-total x.value,
      h.holds,
      total-update_at x.value.shares bad_party amount inside,
    ) in
    (
      record { value = shifted; mac = x.mac },
      rw (lt→ltb bad_party (parties x.value) inside),
      rw (
        shifted_test alpha v amount (reconstruct shifted) (reconstruct x.mac) value h.tagged,
        value,
      ),
    )

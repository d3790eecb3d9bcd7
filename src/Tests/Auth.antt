-- ===== src/Tests/Auth.antt =====
-- Authenticated shares at concrete inputs.
use psa_for_multiparty.Common.{
  ℕ, ◌+◌, ◌-◌, ◌*◌, ◌%◌, ◌^◌, true, none, some, [], ◌∷◌, ◌==◌, if◌then◌else◌, ◌≡◌, refl, arith,
}
use psa_for_multiparty.Share.{sub_shared, mul_const}
use psa_for_multiparty.AuthShare.{auth_sub, auth_mul_const}
use psa_for_multiparty.AuthShare.Sacrifice.{r_x_sub_y, auth_sub_pub_mul_value}
use psa_for_multiparty.Tests.Fixtures.{counter}
use psa_for_multiparty.Share.{u64, mul64, reconstruct}
use psa_for_multiparty.AuthShare.{
  AuthSharedU64, AlphaShare, AuthBeaverTriple, simulate_tampering, open_with_mac_check,
  auth_secure_multiply, generate_auth_beaver_triple,
}
use psa_for_multiparty.AuthShare.Local.{IsAuth}
use psa_for_multiparty.AuthShare.Multiply.{
  IsAuthTriple, auth_secure_multiply_lem, generate_auth_beaver_triple-IsAuthTriple,
}
use psa_for_multiparty.AuthShare.Tamper.{simulate_tampering-open}
use psa_for_multiparty.AuthShare.Shared.{Sodium, open_with_mac_check_shared}
use psa_for_multiparty.AuthShare.SharedKey.{IsSodium, open_with_mac_check_shared_lem}
use psa_for_multiparty.AuthShare.Sacrifice.{
  draw_factor, sacrifice_check_triple, sacrifice_check_triple_shared,
}
use psa_for_multiparty.AuthShare.Forged.{sacrifice_check_triple_lem}

-- a digest that is the bytes themselves
abbrev plain_sodium : Sodium
plain_sodium = record { crypto_hash_sha256 = λ bytes. bytes; sodium_memcmp = λ a b. true }

plain_sodium-IsSodium : IsSodium plain_sodium
plain_sodium-IsSodium = record { memcmp_refl = λ h. refl }

-- the word under the key 10, between two parties
abbrev word_of : ℕ → AuthSharedU64
word_of v = record {
  value = record { shares = (v + 1) ∷ (2 ^ 64 - 1) ∷ [] };
  mac = record { shares = (10 * v) ∷ 0 ∷ [] };
}

abbrev key : AlphaShare
key = record { alpha_share = record { shares = 4 ∷ 6 ∷ [] } }

abbrev triple_of : ℕ → ℕ → ℕ → AuthBeaverTriple
triple_of a b c = record { u = word_of a; v = word_of b; w = word_of c }

three-IsAuth : IsAuth 2 10 (word_of 3) 3
unfolding reconstruct
three-IsAuth = record { value_count = refl; mac_count = refl; holds = refl; tagged = refl }

five-IsAuth : IsAuth 2 10 (word_of 5) 5
unfolding reconstruct
five-IsAuth = record { value_count = refl; mac_count = refl; holds = refl; tagged = refl }

fifteen-IsAuth : IsAuth 2 10 (word_of 15) 15
unfolding reconstruct
fifteen-IsAuth = record { value_count = refl; mac_count = refl; holds = refl; tagged = refl }

forged-IsAuth : IsAuth 2 10 (word_of (15 + 2 ^ 63)) (15 + 2 ^ 63)
unfolding reconstruct
forged-IsAuth = record { value_count = refl; mac_count = refl; holds = refl; tagged = refl }

checked_product_example :
    (z : AuthSharedU64) × (auth_secure_multiply (word_of 5) (word_of 3) (triple_of 3 5 15) 10
      ≡ some z)
    × IsAuth 2 10 z 15
checked_product_example =
    auth_secure_multiply_lem (word_of 5) (word_of 3) (triple_of 3 5 15) (omega arith) five-IsAuth
      three-IsAuth (record { u_auth = three-IsAuth; v_auth = five-IsAuth; w_auth = fifteen-IsAuth })

checked_dealer_example :
    (t : AuthBeaverTriple) × (g' : ℕ) × (a : ℕ) × (b : ℕ) × (generate_auth_beaver_triple counter 3
        10 5
      ≡ some (t, g'))
    × IsAuthTriple 3 10 t a b
checked_dealer_example = generate_auth_beaver_triple-IsAuthTriple counter 3 10 5 (omega arith)

tamper_example :
    (x : AuthSharedU64) × (simulate_tampering (word_of 5) 1 7 ≡ some x)
    × (open_with_mac_check x 10 ≡ (if mul64 10 7 == 0 then some ((5 + 7) % u64) else none))
tamper_example = simulate_tampering-open (word_of 5) 1 7 five-IsAuth (omega arith)

-- An even key does not notice a change of 2^63.
tamper_unnoticed :
    (x : AuthSharedU64) × (simulate_tampering (word_of 5) 1 (2 ^ 63) ≡ some x)
    × (open_with_mac_check x 10 ≡ some (5 + 2 ^ 63))
tamper_unnoticed = simulate_tampering-open (word_of 5) 1 (2 ^ 63) five-IsAuth (omega arith)

shared_key_example :
    (g' : ℕ) × (open_with_mac_check_shared plain_sodium counter (word_of 5) key 3
      ≡ some (open_with_mac_check (word_of 5) (reconstruct key.alpha_share), g'))
shared_key_example =
    open_with_mac_check_shared_lem plain_sodium counter plain_sodium-IsSodium (word_of 5) key 3 refl
      refl refl

-- A forged product, off by 2^63, that an even factor lets pass.
sacrifice_example :
    let r = (draw_factor counter 2).0 in
    sacrifice_check_triple counter (triple_of 3 5 (15 + 2 ^ 63)) (triple_of 5 3 15) 10 2
    ≡ some (((15 + 2 ^ 63) * r + 5 * 3) % u64 == (15 + 3 * 5 * r) % u64, (draw_factor counter 2).1)
sacrifice_example =
    sacrifice_check_triple_lem counter (triple_of 3 5 (15 + 2 ^ 63)) (triple_of 5 3 15) 2
      (record { u_auth = three-IsAuth; v_auth = five-IsAuth; w_auth = forged-IsAuth })
      (record { u_auth = five-IsAuth; v_auth = three-IsAuth; w_auth = fifteen-IsAuth })

sacrifice_unnoticed :
    sacrifice_check_triple counter (triple_of 3 5 (15 + 2 ^ 63)) (triple_of 5 3 15) 10 2
    ≡ some (true, 3)
sacrifice_unnoticed =
    sacrifice_check_triple_lem counter (triple_of 3 5 (15 + 2 ^ 63)) (triple_of 5 3 15) 2
      (record { u_auth = three-IsAuth; v_auth = five-IsAuth; w_auth = forged-IsAuth })
      (record { u_auth = five-IsAuth; v_auth = three-IsAuth; w_auth = fifteen-IsAuth })

-- The same check under the shared key: one draw for the factor and two salts for each opening.
sacrifice_shared_runs :
    sacrifice_check_triple_shared plain_sodium counter (triple_of 3 5 15) (triple_of 5 3 15) key 2
    ≡ some (true, 9)
unfolding sacrifice_check_triple_shared r_x_sub_y sub_shared mul_const open_with_mac_check_shared
    reconstruct auth_sub_pub_mul_value auth_sub auth_mul_const
sacrifice_shared_runs = refl

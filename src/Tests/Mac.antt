-- ===== src/Tests/Mac.antt =====
-- The MAC of shares at concrete inputs, over the field of two elements.
use psa_for_multiparty.Common.{
  length, Bool, true, false, ◌&&◌, not, List, [], ◌∷◌, ◌≡◌, ◌↔◌, refl, sym,
}
use psa_for_multiparty.Mac.{
  BlockOps, AuthShare, size, verify_auth_shares, verify_auth_shares_batched,
}
use psa_for_multiparty.Mac.Batched.{errors, weighted, verify_auth_shares_batched-errors}
use psa_for_multiparty.Mac.Laws.{IsRing}
use psa_for_multiparty.Mac.Verify.{no_more, tagged, IsTagged, verify_auth_shares_lem}

abbrev pub xor_bool : Bool → Bool → Bool
xor_bool true b = not b
xor_bool false b = b

abbrev pub same_bool : Bool → Bool → Bool
same_bool true b = b
same_bool false b = not b

abbrev pub two : BlockOps
two = record {
  Block = Bool;
  zero_block = false;
  xor_block = xor_bool;
  gf128_mul = λ a b. a && b;
  same_block = same_bool;
  State = Bool;
  next_block = λ g. (g, not g);
}

xor_bool_comm : (a b : Bool) → xor_bool a b ≡ xor_bool b a
xor_bool_comm true true = refl
xor_bool_comm true false = refl
xor_bool_comm false true = refl
xor_bool_comm false false = refl

xor_bool_assoc : (a b c : Bool) → xor_bool (xor_bool a b) c ≡ xor_bool a (xor_bool b c)
xor_bool_assoc true true true = refl
xor_bool_assoc true true false = refl
xor_bool_assoc true false c = refl
xor_bool_assoc false b c = refl

xor_bool_self : (a : Bool) → xor_bool a a ≡ false
xor_bool_self true = refl
xor_bool_self false = refl

and_bool_comm : (a b : Bool) → (a && b) ≡ (b && a)
and_bool_comm true true = refl
and_bool_comm true false = refl
and_bool_comm false true = refl
and_bool_comm false false = refl

and_bool_assoc : (a b c : Bool) → ((a && b) && c) ≡ (a && (b && c))
and_bool_assoc true b c = refl
and_bool_assoc false b c = refl

and_xor_bool : (a b c : Bool) → (a && xor_bool b c) ≡ xor_bool (a && b) (a && c)
and_xor_bool true b c = refl
and_xor_bool false b c = refl

same_bool_iff : (a b : Bool) → (same_bool a b ≡ true) ↔ (a ≡ b)
same_bool_iff true true = (λ h. refl, λ h. refl)
same_bool_iff true false = (λ h. sym h, λ h. sym h)
same_bool_iff false true = (λ h. h, λ h. h)
same_bool_iff false false = (λ h. refl, λ h. refl)

pub two-IsRing : IsRing two
two-IsRing = record {
  xor_comm = xor_bool_comm;
  xor_assoc = xor_bool_assoc;
  xor_self = xor_bool_self;
  xor_zero = λ a. refl;
  mul_comm = and_bool_comm;
  mul_assoc = and_bool_assoc;
  mul_xor = and_xor_bool;
  same_iff = same_bool_iff;
}

abbrev plain : List Bool
plain = true ∷ false ∷ true ∷ []

abbrev left : AuthShare Bool
left = record { data_blocks = false ∷ false ∷ false ∷ []; tag = true ∷ true ∷ true ∷ [] }

abbrev right : AuthShare Bool
right = record { data_blocks = true ∷ false ∷ true ∷ []; tag = false ∷ true ∷ false ∷ [] }

left-IsTagged : IsTagged two true left right
left-IsTagged = tagged refl (tagged refl (tagged refl no_more))

verify_example : (verify_auth_shares two left right true ≡ true) ↔ IsTagged two true left right
verify_example = verify_auth_shares_lem two two-IsRing true left right refl refl

batched_example : (verify_auth_shares_batched two left right true plain ≡ true) ↔ (
    (size two left ≡ size two right)
    × (size two left ≡ length plain)
    × (weighted two plain (errors two true left.data_blocks left.tag right.data_blocks right.tag)
        ≡ false))
batched_example = verify_auth_shares_batched-errors two two-IsRing true left right plain refl refl

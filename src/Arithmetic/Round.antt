-- ===== src/Arithmetic/Round.antt =====
-- One round of the long division: the shift, the trial subtraction and the choice by its borrow.
use psa_for_multiparty.Common.{
  ℕ, zero, suc, ◌+◌, ◌-◌, ◌*◌, ◌%◌, ◌^◌, ◌≤◌, ◌<◌, ◌≡◌, refl, sym, ap, ◌∙◌, ◌⊎◌, Bool, true, false,
  not, ◌&&◌, List, [], ◌∷◌, take, drop, length, ltb, if◌then◌else◌, arith,
}
use psa_for_multiparty.Common.Bits.{bit, xor}
use native.Mathlib.Nat.{pow-suc}
use psa_for_multiparty.Share.{u64, SharedBit}
use psa_for_multiparty.Share.Bit.{Shares, xor_shared_lem}
use psa_for_multiparty.Bag.{Bag, not_shared, lift}
use psa_for_multiparty.Bag.Cost.{
  Outcome, IsGoodBag, Outcome-cost, Outcome-pure, Outcome-bind, Outcome-lift, and_next_lem,
  not_shared_lem,
}
use psa_for_multiparty.Compare.{SharedU64Bin}
use psa_for_multiparty.Compare.Word.{SharesAll, value_of, Holds, Holds-lt}
use psa_for_multiparty.Arithmetic.{
  secure_select_bit, select_bits, divide_round, secure_sub_u64_bin_triple_cost,
}
use psa_for_multiparty.Arithmetic.Sub.{secure_sub_u64_bin_lem}

-- `cond ? a : b` on bits, and on rows of bits
abbrev choose : Bool → List Bool → List Bool → List Bool
choose true ps qs = ps
choose false ps qs = qs

select_digit : (c p q : Bool) → xor q (c && xor p q) ≡ (if c then p else q)
select_digit c p q = ground arith

choose_nil : (n : ℕ) (r : Bool) → SharesAll n [] (choose r [] [])
choose_nil n true = tt
choose_nil n false = tt

choose_cons :
    (n : ℕ) (s : SharedBit) (rest : List SharedBit) (p q : Bool) (ps qs : List Bool) (r : Bool)
    → Shares n s (if r then p else q)
    → SharesAll n rest (choose r ps qs)
    → SharesAll n (s ∷ rest) (choose r (p ∷ ps) (q ∷ qs))
choose_cons n s rest p q ps qs true h k = (h, k)
choose_cons n s rest p q ps qs false h k = (h, k)

value_of-choose :
    (r : Bool) (ps qs : List Bool) {v w : ℕ}
    → value_of ps ≡ v
    → value_of qs ≡ w
    → value_of (choose r ps qs) ≡ (if r then v else w)
value_of-choose true ps qs h k = h
value_of-choose false ps qs h k = k

SharesAll-take :
    (n k : ℕ) (xs : List SharedBit) (ps : List Bool)
    → SharesAll n xs ps
    → SharesAll n (take k xs) (take k ps)
SharesAll-take n zero xs ps h = tt
SharesAll-take n (suc k) [] [] h = tt
SharesAll-take n (suc k) [] (p ∷ ps) h = absurd h
SharesAll-take n (suc k) (x ∷ xs) [] h = absurd h
SharesAll-take n (suc k) (x ∷ xs) (p ∷ ps) h = (h.0, SharesAll-take n k xs ps h.1)

length-take_le : (k : ℕ) (xs : List SharedBit) → k ≤ length xs → length (take k xs) ≡ k
length-take_le zero xs h = refl
length-take_le (suc k) [] h = absurd (omega arith)
length-take_le (suc k) (x ∷ xs) h = ap suc (length-take_le k xs (omega arith))

value_of-take-drop :
    (k : ℕ) (ps : List Bool) → value_of ps ≡ value_of (take k ps) + 2 ^ k * value_of (drop k ps)
value_of-take-drop zero ps = omega arith
value_of-take-drop (suc k) [] = omega arith
value_of-take-drop (suc k) (p ∷ ps) =
    omega (arith, value_of-take-drop k ps, ap (λ (t : ℕ). t * value_of (drop k ps)) (pow-suc 2 k))

pub value_of-drop-le : (k : ℕ) (ps : List Bool) → value_of (drop k ps) ≤ value_of ps
value_of-drop-le zero ps = omega arith
value_of-drop-le (suc k) [] = omega arith
value_of-drop-le (suc k) (p ∷ ps) = omega (arith, value_of-drop-le k ps)

-- A remainder below 2^63 is doubled, and takes the next bit at the bottom.
shift_lem :
    {n : ℕ} {b : SharedBit} {p : Bool} (rs : List SharedBit) {r : ℕ}
    → Shares n b p
    → Holds n (record { bits = rs }) r
    → r < 2 ^ 63
    → Holds n (record { bits = b ∷ take 63 rs }) (bit p + 2 * r)
shift_lem {n} {p = p} rs hb h lt = record {
  bools = p ∷ take 63 h.bools;
  shared = (hb, SharesAll-take n 63 rs h.bools h.shared);
  width = omega (arith, length-take_le 63 rs (omega (arith, h.width)));
  value = omega (arith, h.value, value_of-take-drop 63 h.bools);
}

-- What the division of the high bits `p` by `d` has found: the quotient and the remainder, or, by
-- 0, `len` ones.
pub record IsPartial (d p q r len : ℕ) : Type 0 where
  pub split : q * d + r ≡ p
  pub small : (r < d) ⊎ ((d ≡ 0) × (q + 1 ≡ 2 ^ len))

pub IsPartial-step :
    (d p q r len : ℕ) (b : Bool)
    → IsPartial d p q r len
    → let s = bit b + 2 * r in
      IsPartial d
        (bit b + 2 * p)
        (bit (not (ltb s d)) + 2 * q)
        (if ltb s d then s else s - d)
        (suc len)
IsPartial-step d p q r len true h = record {
  split = ground (arith, h.split);
  small = ground (arith, h.small, pow-suc 2 len);
}
IsPartial-step d p q r len false h = record {
  split = ground (arith, h.split);
  small = ground (arith, h.small, pow-suc 2 len);
}

difference :
    (s d : ℕ)
    → s < u64
    → d < u64
    → (if ltb s d then s else (s + (u64 - d)) % u64) ≡ (if ltb s d then s else s - d)
difference s d h k = ground arith

module _ {n : ℕ} (pos : 0 < n) {bag : Bag} (good : IsGoodBag n bag) where
  secure_select_bit_lem :
      {i : ℕ} {c a b : SharedBit} {r p q : Bool}
      → i ≤ length bag
      → Shares n c r
      → Shares n a p
      → Shares n b q
      → Outcome bag i 1 (λ s. Shares n s (if r then p else q)) (secure_select_bit c a b)
  unfolding secure_select_bit
  secure_select_bit_lem {r = r} {p = p} {q = q} fits hc ha hb =
      let (d, d_eq, d_h) = xor_shared_lem ha hb in
      Outcome-lift _ d_eq (
        Outcome-bind {d = 0} (and_next_lem pos good fits hc d_h) λ m fits1 hm.
          let (s, s_eq, s_h) = xor_shared_lem hb hm in
          rw (s_eq, lift) (Outcome-pure s fits1 (rw (select_digit r p q) at s_h)))

  select_bits_lem :
      (as' bs : List SharedBit) (ps qs : List Bool)
      → {i : ℕ} {c : SharedBit} {r : Bool} → i ≤ length bag
      → Shares n c r
      → SharesAll n as' ps
      → SharesAll n bs qs
      → length as' ≡ length bs
      → Outcome bag i
          (length as')
          (λ s. SharesAll n s (choose r ps qs) × (length s ≡ length as'))
          (select_bits c as' bs)
  unfolding select_bits
  select_bits_lem [] [] [] [] {r = r} fits hc ha hb e = Outcome-pure [] fits (choose_nil n r, refl)
  select_bits_lem [] (b ∷ bs) ps qs fits hc ha hb e = absurd (omega arith)
  select_bits_lem [] [] (p ∷ ps) qs fits hc ha hb e = absurd ha
  select_bits_lem [] [] [] (q ∷ qs) fits hc ha hb e = absurd hb
  select_bits_lem (a ∷ as') [] ps qs fits hc ha hb e = absurd (omega arith)
  select_bits_lem (a ∷ as') (b ∷ bs) [] qs fits hc ha hb e = absurd ha
  select_bits_lem (a ∷ as') (b ∷ bs) (p ∷ ps) [] fits hc ha hb e = absurd hb
  select_bits_lem (a ∷ as') (b ∷ bs) (p ∷ ps) (q ∷ qs) {r = r} fits hc ha hb e =
      Outcome-cost {c = 1 + (length as' + 0)} (omega arith) (
        Outcome-bind (secure_select_bit_lem fits hc ha.0 hb.0) λ s fits1 hs.
          Outcome-bind {d = 0} (select_bits_lem as' bs ps qs fits1 hc ha.1 hb.1 (omega arith))
            λ rest fits2 h.
              Outcome-pure (s ∷ rest) fits2 (choose_cons n s rest p q ps qs r hs h.0, ap suc h.1))

  pub divide_round_lem :
      {i : ℕ} {b : SharedBit} {p : Bool} (rs : List SharedBit) (denom : SharedU64Bin) {r d : ℕ}
      → i ≤ length bag
      → Shares n b p
      → Holds n (record { bits = rs }) r
      → Holds n denom d
      → bit p + 2 * r < u64
      → let s = bit p + 2 * r in
        Outcome bag i 192
          (λ out.
            Holds n (record { bits = out.0 }) (if ltb s d then s else s - d)
            × Shares n out.1 (not (ltb s d)))
          (divide_round b rs denom)
  unfolding divide_round secure_sub_u64_bin_triple_cost
  divide_round_lem {b = b} {p = p} rs denom {r} {d} fits hb hr hd lt =
      let shifted = b ∷ take 63 rs in
      let hs = shift_lem rs hb hr (omega arith) in
      Outcome-bind {d = 64} (secure_sub_u64_bin_lem pos good fits hs hd) λ sub fits1 h.
        Outcome-cost {c = length shifted + 0} (omega (arith, hs.width)) (
          Outcome-bind {d = 0}
            (select_bits_lem shifted sub.diff.bits hs.bools h.0.bools fits1 h.1 hs.shared h.0.shared
              (hs.width ∙ sym h.0.width))
            λ new fits2 hn.
              Outcome-pure (new, not_shared sub.borrow_out) fits2
                (
                  record {
                    bools = choose (ltb (bit p + 2 * r) d) hs.bools h.0.bools;
                    shared = hn.0;
                    width = hn.1 ∙ hs.width;
                    value =
                        value_of-choose (ltb (bit p + 2 * r) d) hs.bools h.0.bools hs.value
                          h.0.value
                        ∙ difference (bit p + 2 * r) d lt (Holds-lt denom hd);
                  },
                  not_shared_lem pos h.1,
                ))

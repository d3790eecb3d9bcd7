-- ===== src/Tests/Mpc.antt =====
-- The secret-sharing operations at concrete inputs.
use Prim.Native.Nat.{zero-le}
use psa_for_multiparty.Common.{
  ℕ, suc, ◌+◌, ◌-◌, ◌*◌, ◌/◌, ◌%◌, ◌≡◌, refl, ap, Bool, true, false, Option, none, some, List, [],
  ◌∷◌, map, length, replicate, ltb, leb, ◌==◌, if◌then◌else◌, All, arith,
}
use psa_for_multiparty.Share.{
  u64, SharedU64, SharedBit, xor_shared, xor_const, zero_bit, parties, reconstruct, reconstruct_bit,
  share_u64,
}
use psa_for_multiparty.Share.Arith.{reconstruct-share_u64}
use psa_for_multiparty.Share.Bit.{Shares}
use psa_for_multiparty.Beaver.{and_public, BeaverTripleU64, secure_multiply, secure_and}
use psa_for_multiparty.Beaver.Multiply.{IsTriple, secure_multiply_lem}
use psa_for_multiparty.Bag.{and_next, not_shared}
use psa_for_multiparty.Bag.Cost.{Outcome}
use psa_for_multiparty.Compare.{
  SharedU64Bin, secure_or, less_round, reconstruct_bin, share_u64_bin, secure_less_than,
  secure_less_than_triple_cost, secure_equal, secure_equal_triple_cost,
}
use psa_for_multiparty.Compare.Word.{IsWord, IsWordOf}
use psa_for_multiparty.Compare.Sharing.{reconstruct_bin-share_u64_bin}
use psa_for_multiparty.Compare.Reconstruct.{secure_less_than-reconstruct, secure_equal-reconstruct}
use psa_for_multiparty.Tests.Fixtures.{counter, share_pair, bag_of, bag_of-IsGoodBag}
use psa_for_multiparty.Arithmetic.{
  secure_add_u64_bin, secure_add_u64_bin_triple_cost, secure_sub_u64_bin,
  secure_sub_u64_bin_triple_cost, secure_divide_u64_bin, secure_divide_u64_bin_triple_cost,
}
use psa_for_multiparty.Arithmetic.Reconstruct.{
  secure_add_u64_bin-reconstruct, secure_sub_u64_bin-reconstruct, secure_divide_u64_bin-reconstruct,
}

word : List Bool → SharedU64Bin
word ps = record { bits = map share_pair ps }

map-share_pair : (ps : List Bool) → All (λ b. length (b.shares) ≡ 2) (map share_pair ps)
map-share_pair [] = tt
map-share_pair (p ∷ ps) = (refl, map-share_pair ps)

length-word : (ps : List Bool) → length (map share_pair ps) ≡ length ps
length-word [] = refl
length-word (p ∷ ps) = ap suc (length-word ps)

word-IsWord : (ps : List Bool) → length ps ≡ 64 → IsWord 2 (word ps)
unfolding word
word-IsWord ps h = record { width = rw (length-word ps) h; counts = map-share_pair ps }

-- the bits of 5 and of 12
abbrev five : List Bool
five = true ∷ false ∷ true ∷ replicate 61 false

abbrev twelve : List Bool
twelve = false ∷ false ∷ true ∷ true ∷ replicate 60 false

-- the index after the call, and the bit
abbrev outcome_of : Option (SharedBit × ℕ) → ℕ × ℕ
unfolding reconstruct_bit
outcome_of none = (0, 0)
outcome_of (some (r, i)) = (i, reconstruct_bit r)

less_runs : outcome_of (secure_less_than (word five) (word twelve) (bag_of 300) 7) ≡ (263, 1)
unfolding secure_less_than less_round secure_or and_next not_shared secure_and xor_shared xor_const
    zero_bit bag_of word and_public outcome_of
less_runs = refl

-- 7 and 2^64 - 1, each as two shares
abbrev seven : SharedU64
seven = record { shares = 10 ∷ 18446744073709551613 ∷ [] }

abbrev last : SharedU64
last = record { shares = 1 ∷ 18446744073709551614 ∷ [] }

abbrev word_triple : BeaverTripleU64
word_triple = record {
  u = record { shares = 3 ∷ 4 ∷ [] };
  v = record { shares = 5 ∷ 6 ∷ [] };
  w = record { shares = 70 ∷ 7 ∷ [] };
}

word_triple-IsTriple : IsTriple 2 word_triple
unfolding reconstruct
word_triple-IsTriple = record { u_count = refl; v_count = refl; w_count = refl; product = refl }

reconstruct-share_u64_example :
    (r : SharedU64) × (g' : ℕ) × (share_u64 counter 3 77 5 ≡ some (r, g'))
    × (parties r ≡ 3)
    × (reconstruct r ≡ 77)
reconstruct-share_u64_example = reconstruct-share_u64 counter 3 77 5 (omega arith)

secure_multiply_example :
    (r : SharedU64) × (secure_multiply seven last word_triple ≡ some r)
    × (parties r ≡ 2)
    × (reconstruct r ≡ reconstruct seven * reconstruct last % u64)
secure_multiply_example =
    secure_multiply_lem {n = 2} seven last word_triple (omega arith) refl refl word_triple-IsTriple

share_u64_bin_example :
    (x : SharedU64Bin) × (g' : ℕ) × (share_u64_bin counter 3 1000 5 ≡ some (x, g'))
    × IsWord 3 x
    × (reconstruct_bin x ≡ 1000)
share_u64_bin_example = reconstruct_bin-share_u64_bin counter 3 1000 5 (omega arith)

secure_less_than_example :
    Outcome
      (bag_of 300)
      0
      secure_less_than_triple_cost
      (λ r. Shares 2 r (ltb (reconstruct_bin (word five)) (reconstruct_bin (word twelve))))
      (secure_less_than (word five) (word twelve))
secure_less_than_example =
    secure_less_than-reconstruct {n = 2} (omega arith) (bag_of-IsGoodBag 300) (word five)
      (word twelve) zero-le (word-IsWord five refl) (word-IsWord twelve refl)

secure_equal_example :
    Outcome
      (bag_of 300)
      0
      secure_equal_triple_cost
      (λ r. Shares 2 r (reconstruct_bin (word five) == reconstruct_bin (word twelve)))
      (secure_equal (word five) (word twelve))
secure_equal_example =
    secure_equal-reconstruct {n = 2} (omega arith) (bag_of-IsGoodBag 300) (word five) (word twelve)
      zero-le (word-IsWord five refl) (word-IsWord twelve refl)

secure_add_example :
    Outcome
      (bag_of 300)
      0
      secure_add_u64_bin_triple_cost
      (λ r.
        IsWordOf 2 r.sum ((reconstruct_bin (word five) + reconstruct_bin (word twelve)) % u64)
        × Shares 2 r.carry_out
            (leb u64 (reconstruct_bin (word five) + reconstruct_bin (word twelve))))
      (secure_add_u64_bin (word five) (word twelve))
secure_add_example =
    secure_add_u64_bin-reconstruct {n = 2} (omega arith) (bag_of-IsGoodBag 300) (word five)
      (word twelve) zero-le (word-IsWord five refl) (word-IsWord twelve refl)

secure_sub_example :
    Outcome
      (bag_of 300)
      0
      secure_sub_u64_bin_triple_cost
      (λ r.
        IsWordOf 2 r.diff
          ((reconstruct_bin (word five) + (u64 - reconstruct_bin (word twelve))) % u64)
        × Shares 2 r.borrow_out (ltb (reconstruct_bin (word five)) (reconstruct_bin (word twelve))))
      (secure_sub_u64_bin (word five) (word twelve))
secure_sub_example =
    secure_sub_u64_bin-reconstruct {n = 2} (omega arith) (bag_of-IsGoodBag 300) (word five)
      (word twelve) zero-le (word-IsWord five refl) (word-IsWord twelve refl)

secure_divide_example :
    Outcome
      (bag_of 12351)
      0
      secure_divide_u64_bin_triple_cost
      (λ r.
        IsWordOf 2 r.quotient (
          if reconstruct_bin (word five) == 0
          then u64 - 1
          else reconstruct_bin (word twelve) / reconstruct_bin (word five))
        × IsWordOf 2 r.remainder (
            if reconstruct_bin (word five) == 0
            then reconstruct_bin (word twelve)
            else reconstruct_bin (word twelve) % reconstruct_bin (word five))
        × Shares 2 r.div_by_zero (reconstruct_bin (word five) == 0))
      (secure_divide_u64_bin (word twelve) (word five))
secure_divide_example =
    secure_divide_u64_bin-reconstruct {n = 2} (omega arith) (bag_of-IsGoodBag 12351) (word twelve)
      (word five) zero-le (word-IsWord twelve refl) (word-IsWord five refl)

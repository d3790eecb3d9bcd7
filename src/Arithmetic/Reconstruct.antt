-- ===== src/Arithmetic/Reconstruct.antt =====
-- The arithmetic, in terms of the words that its operands reconstruct to.
use psa_for_multiparty.Common.{
  ℕ, ◌+◌, ◌-◌, ◌/◌, ◌%◌, ◌≤◌, ◌<◌, length, ltb, leb, ◌==◌, if◌then◌else◌,
}
use psa_for_multiparty.Share.{u64}
use psa_for_multiparty.Share.Bit.{Shares}
use psa_for_multiparty.Bag.{Bag}
use psa_for_multiparty.Bag.Cost.{Outcome, IsGoodBag, Outcome-mono}
use psa_for_multiparty.Compare.{SharedU64Bin, reconstruct_bin}
use psa_for_multiparty.Compare.Word.{IsWord, IsWordOf, IsWord-Holds, Holds-IsWordOf}
use psa_for_multiparty.Arithmetic.{
  secure_add_u64_bin, secure_add_u64_bin_triple_cost, secure_sub_u64_bin,
  secure_sub_u64_bin_triple_cost, secure_divide_u64_bin, secure_divide_u64_bin_triple_cost,
}
use psa_for_multiparty.Arithmetic.Add.{secure_add_u64_bin_lem}
use psa_for_multiparty.Arithmetic.Sub.{secure_sub_u64_bin_lem}
use psa_for_multiparty.Arithmetic.Divide.{secure_divide_u64_bin_lem}

module _ {n : ℕ} (pos : 0 < n) {bag : Bag} (good : IsGoodBag n bag) where
  -- For two words shared among the same parties (at least one), with a bag of triples for them, secure
  -- addition started inside the bag either returns, having consumed exactly
  -- `secureAddU64BinTripleCost()` triples, a word among these parties that reconstructs to the sum
  -- modulo 2^64, and a shared bit that says whether the sum reaches 2^64, or finds fewer triples left
  -- and throws.
  pub secure_add_u64_bin-reconstruct :
      {i : ℕ} (x y : SharedU64Bin)
      → i ≤ length bag
      → IsWord n x
      → IsWord n y
      → Outcome bag i secure_add_u64_bin_triple_cost
          (λ r.
            IsWordOf n r.sum ((reconstruct_bin x + reconstruct_bin y) % u64)
            × Shares n r.carry_out (leb u64 (reconstruct_bin x + reconstruct_bin y)))
          (secure_add_u64_bin x y)
  secure_add_u64_bin-reconstruct x y fits hx hy =
      Outcome-mono (λ r h. (Holds-IsWordOf h.0, h.1))
        (secure_add_u64_bin_lem pos good fits (IsWord-Holds hx) (IsWord-Holds hy))

  -- For two words shared among the same parties (at least one), with a bag of triples for them, secure
  -- subtraction started inside the bag either returns, having consumed exactly
  -- `secureSubU64BinTripleCost()` triples, a word among these parties that reconstructs to the
  -- difference modulo 2^64, and a shared bit that says whether the first word is below the second, or
  -- finds fewer triples left and throws.
  pub secure_sub_u64_bin-reconstruct :
      {i : ℕ} (x y : SharedU64Bin)
      → i ≤ length bag
      → IsWord n x
      → IsWord n y
      → Outcome bag i secure_sub_u64_bin_triple_cost
          (λ r.
            IsWordOf n r.diff ((reconstruct_bin x + (u64 - reconstruct_bin y)) % u64)
            × Shares n r.borrow_out (ltb (reconstruct_bin x) (reconstruct_bin y)))
          (secure_sub_u64_bin x y)
  secure_sub_u64_bin-reconstruct x y fits hx hy =
      Outcome-mono (λ r h. (Holds-IsWordOf h.0, h.1))
        (secure_sub_u64_bin_lem pos good fits (IsWord-Holds hx) (IsWord-Holds hy))

  -- For two words shared among the same parties (at least one), with a bag of triples for them, secure
  -- division started inside the bag either returns, having consumed exactly
  -- `secureDivideU64BinTripleCost()` triples, words among these parties that reconstruct to the
  -- quotient and the remainder of the unsigned division, and a shared bit that says whether the divisor
  -- is 0 (the quotient is then 2^64 - 1 and the remainder is the dividend), or finds fewer triples left
  -- and throws.
  pub secure_divide_u64_bin-reconstruct :
      {i : ℕ} (x y : SharedU64Bin)
      → i ≤ length bag
      → IsWord n x
      → IsWord n y
      → Outcome bag i secure_divide_u64_bin_triple_cost
          (λ r.
            IsWordOf n r.quotient
              (if reconstruct_bin y == 0 then u64 - 1 else reconstruct_bin x / reconstruct_bin y)
            × IsWordOf n r.remainder (
                if reconstruct_bin y == 0
                then reconstruct_bin x
                else reconstruct_bin x % reconstruct_bin y)
            × Shares n r.div_by_zero (reconstruct_bin y == 0))
          (secure_divide_u64_bin x y)
  secure_divide_u64_bin-reconstruct x y fits hx hy =
      Outcome-mono (λ r h. (Holds-IsWordOf h.0, Holds-IsWordOf h.1, h.2))
        (secure_divide_u64_bin_lem pos good fits (IsWord-Holds hx) (IsWord-Holds hy))

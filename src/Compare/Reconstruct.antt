-- ===== src/Compare/Reconstruct.antt =====
-- The secure comparisons, in terms of the words that their operands reconstruct to.
use psa_for_multiparty.Common.{ℕ, ◌≤◌, ◌<◌, length, ltb, ◌==◌}
use psa_for_multiparty.Share.Bit.{Shares}
use psa_for_multiparty.Bag.{Bag}
use psa_for_multiparty.Bag.Cost.{Outcome, IsGoodBag}
use psa_for_multiparty.Compare.{
  SharedU64Bin, reconstruct_bin, secure_less_than, secure_less_than_triple_cost, secure_equal,
  secure_equal_triple_cost,
}
use psa_for_multiparty.Compare.Word.{IsWord, IsWord-Holds}
use psa_for_multiparty.Compare.Less.{secure_less_than_lem}
use psa_for_multiparty.Compare.Equal.{secure_equal_lem}

module _ {n : ℕ} (pos : 0 < n) {bag : Bag} (good : IsGoodBag n bag) where
  -- For two words shared among the same parties (at least one), with a bag of triples for them, secure
  -- less-than started inside the bag either returns, having consumed exactly
  -- `secureLessThanTripleCost()` triples, a bit shared among these parties that says whether the first
  -- word is below the second as unsigned numbers, or finds fewer triples left and throws.
  pub secure_less_than-reconstruct :
      {i : ℕ} (x y : SharedU64Bin)
      → i ≤ length bag
      → IsWord n x
      → IsWord n y
      → Outcome bag i secure_less_than_triple_cost
          (λ r. Shares n r (ltb (reconstruct_bin x) (reconstruct_bin y)))
          (secure_less_than x y)
  secure_less_than-reconstruct x y fits hx hy =
      secure_less_than_lem pos good fits (IsWord-Holds hx) (IsWord-Holds hy)

  -- For two words shared among the same parties (at least one), with a bag of triples for them, secure
  -- equality started inside the bag either returns, having consumed exactly
  -- `secureEqualTripleCost()` triples, a bit shared among these parties that says whether the words are
  -- equal, or finds fewer triples left and throws.
  pub secure_equal-reconstruct :
      {i : ℕ} (x y : SharedU64Bin)
      → i ≤ length bag
      → IsWord n x
      → IsWord n y
      → Outcome bag i secure_equal_triple_cost
          (λ r. Shares n r (reconstruct_bin x == reconstruct_bin y))
          (secure_equal x y)
  secure_equal-reconstruct x y fits hx hy =
      secure_equal_lem pos good fits (IsWord-Holds hx) (IsWord-Holds hy)

-- ===== src/Tests/Fixtures.antt =====
-- What the tests share: a generator, bits of two parties and a bag of triples for them.
use psa_for_multiparty.Common.{
  ℕ, zero, suc, ◌+◌, ◌*◌, ◌%◌, ◌^◌, Bool, true, false, not, [], ◌∷◌, refl, replicate,
}
use psa_for_multiparty.Common.Bits.{bit}
use psa_for_multiparty.Random.{Prng}
use psa_for_multiparty.Share.{SharedBit, reconstruct_bit}
use psa_for_multiparty.Share.Bit.{Shares}
use psa_for_multiparty.Beaver.{BeaverTripleBit}
use psa_for_multiparty.Beaver.And.{IsBitTriple}
use psa_for_multiparty.Bag.{Bag}
use psa_for_multiparty.Bag.Cost.{IsGoodBag}

-- a generator that counts
abbrev pub counter : Prng
counter = record {
  State = ℕ;
  next_u64 = λ g. (g * 1_000_003 % 2 ^ 64, g + 1);
  next_u8 = λ g. (g * 37 % 256, g + 1);
}

abbrev pub share_pair : Bool → SharedBit
share_pair p = record { shares = bit (not p) ∷ 1 ∷ [] }

pub share_pair-Shares : (p : Bool) → Shares 2 (share_pair p) p
unfolding reconstruct_bit
share_pair-Shares true = record { count = refl; value = refl }
share_pair-Shares false = record { count = refl; value = refl }

abbrev pub triple : BeaverTripleBit
triple = record { u = share_pair true; v = share_pair true; w = share_pair true }

pub triple-IsBitTriple : IsBitTriple 2 triple
triple-IsBitTriple = record {
  u_bit = true;
  v_bit = true;
  u_holds = share_pair-Shares true;
  v_holds = share_pair-Shares true;
  w_holds = share_pair-Shares true;
}

unfoldable pub bag_of : ℕ → Bag
bag_of k = replicate k triple

pub bag_of-IsGoodBag : (k : ℕ) → IsGoodBag 2 (bag_of k)
unfolding bag_of
bag_of-IsGoodBag zero = tt
bag_of-IsGoodBag (suc k) = (triple-IsBitTriple, bag_of-IsGoodBag k)

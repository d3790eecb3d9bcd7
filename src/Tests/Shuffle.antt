-- ===== src/Tests/Shuffle.antt =====
-- The shuffle at concrete inputs, with blocks of one bit.
use psa_for_multiparty.Common.{ℕ, ◌≡◌, ◌↔◌, refl, Bool, true, false, not, some, [], ◌∷◌, arith}
use psa_for_multiparty.Mac.{pos, permute}
use psa_for_multiparty.Shuffle.{
  RowVec, CgpCorrelationA, CgpCorrelationB, CascadeStateCgp, malicious, semi_honest,
  cgp_dealer_generate, cgp_run_in_memory, cgp_cascade_round,
}
use psa_for_multiparty.Shuffle.Dealer.{IsFitting, IsCorrelated}
use psa_for_multiparty.Shuffle.Malicious.{cgp_cascade_round-malicious}
use psa_for_multiparty.Shuffle.Total.{Shuffled, cgp_cascade_round-dealt}
use psa_for_multiparty.Tests.Mac.{two, two-IsRing}

abbrev next_two : Bool → ℕ × Bool
next_two g = (1, not g)

-- two rows of two blocks
abbrev sp_rows : RowVec Bool
sp_rows = (true ∷ false ∷ []) ∷ (true ∷ true ∷ []) ∷ []

abbrev peer_rows : RowVec Bool
peer_rows = (false ∷ true ∷ []) ∷ (true ∷ false ∷ []) ∷ []

dealt_example :
    (ca : CgpCorrelationA Bool) × (cb : CgpCorrelationB Bool) × (g' : Bool) × (cgp_dealer_generate
        two next_two 2 2 true
      ≡ some (ca, cb, g'))
    × Shuffled two sp_rows peer_rows ca cb malicious
dealt_example =
    cgp_cascade_round-dealt two two-IsRing 2 2 (omega arith) next_two true malicious sp_rows
      peer_rows (omega arith) (refl, (refl, (refl, tt))) (refl, (refl, (refl, tt)))

-- masks of two rows, swapped
abbrev mask_of : CgpCorrelationA Bool
mask_of = record {
  a = (true ∷ true ∷ []) ∷ (false ∷ true ∷ []) ∷ [];
  alpha = (true ∷ true ∷ []) ∷ (true ∷ false ∷ []) ∷ [];
}

abbrev order_of : CgpCorrelationB Bool
order_of = record { pi = pos 1 ∷ pos 0 ∷ []; b = (true ∷ false ∷ []) ∷ (false ∷ true ∷ []) ∷ [] }

mask_of-IsFitting : IsFitting 2 2 mask_of order_of
mask_of-IsFitting = record {
  a = (refl, (refl, (refl, tt)));
  alpha = (refl, (refl, (refl, tt)));
  b = (refl, (refl, (refl, tt)));
  size = refl;
  indices = (omega arith, (omega arith, tt));
}

malicious_example :
    (passed : Bool) × (out : CascadeStateCgp Bool) × (cgp_cascade_round two
        (record { sp_share = sp_rows; peer_share = peer_rows })
        mask_of
        order_of
        malicious
      ≡ some (passed, out))
    × ((passed ≡ true) ↔ IsCorrelated two mask_of order_of)
    × (passed ≡ false → out ≡ record { sp_share = []; peer_share = [] })
malicious_example =
    cgp_cascade_round-malicious two two-IsRing 2 2 (omega arith) mask_of order_of mask_of-IsFitting
      sp_rows peer_rows (refl, (refl, (refl, tt))) (refl, (refl, (refl, tt)))

run_in_memory_run :
    cgp_run_in_memory two sp_rows peer_rows mask_of order_of
    ≡ some (
      (true ∷ true ∷ []) ∷ (true ∷ false ∷ []) ∷ [],
      (true ∷ false ∷ []) ∷ (false ∷ true ∷ []) ∷ [],
    )
unfolding cgp_run_in_memory permute
run_in_memory_run = refl

-- a share with a row missing
abbrev short_state : CascadeStateCgp Bool
short_state = record { sp_share = sp_rows; peer_share = [] }

short_round :
    cgp_cascade_round two short_state mask_of order_of semi_honest
    ≡ some (false, record { sp_share = []; peer_share = [] })
unfolding cgp_cascade_round
short_round = refl

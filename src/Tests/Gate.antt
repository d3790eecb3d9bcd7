-- ===== src/Tests/Gate.antt =====
-- The gate at concrete inputs.
use Prim.Native.Nat.{zero-le}
use psa_for_multiparty.Common.{ℕ, ◌+◌, ◌-◌, ◌*◌, ◌^◌, List, [], ◌∷◌, map, ◌≡◌, refl, arith}
use psa_for_multiparty.Bag.Cost.{Outcome}
use psa_for_multiparty.Compare.{secure_less_than_triple_cost}
use psa_for_multiparty.Inclusion.{npl}
use psa_for_multiparty.Sector.{SharedSectorHistogram}
use psa_for_multiparty.Gate.{GatedCell, reconstruct_gated_cell, apply_k_anon_gate_batch}
use psa_for_multiparty.Gate.Release.{IsCell, released, apply_k_anon_gate_batch_lem}
use psa_for_multiparty.Tests.Fixtures.{counter, bag_of, bag_of-IsGoodBag}

-- a cell that counts some firms
abbrev cell_of : ℕ → SharedSectorHistogram
cell_of n = record {
  key = record { sector = 4; period = 202_601 };
  metric = npl;
  sum_num = record { shares = 700 ∷ 30 ∷ [] };
  sum_den = record { shares = 900 ∷ 50 ∷ [] };
  n_valid = record { shares = (n + 1) ∷ (2 ^ 64 - 1) ∷ [] };
}

cell_of-IsCell : (n : ℕ) → IsCell (cell_of n)
cell_of-IsCell n = record { num_count = refl; den_count = refl; valid_count = refl }

gate_example :
    Outcome
      (bag_of 600)
      0
      (2 * secure_less_than_triple_cost)
      (λ (r : List GatedCell × ℕ).
        map reconstruct_gated_cell r.0 ≡ map (released 5) (cell_of 4 ∷ cell_of 5 ∷ []))
      (apply_k_anon_gate_batch counter (cell_of 4 ∷ cell_of 5 ∷ []) (record { k_thresh = 5 }) 3)
gate_example =
    apply_k_anon_gate_batch_lem counter (bag_of-IsGoodBag 600) (record { k_thresh = 5 })
      (omega arith) (cell_of 4 ∷ cell_of 5 ∷ []) 3 zero-le
      (cell_of-IsCell 4, (cell_of-IsCell 5, tt))

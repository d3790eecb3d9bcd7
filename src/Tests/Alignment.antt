-- ===== src/Tests/Alignment.antt =====
-- The alignment of three sources at a concrete input.
use psa_for_multiparty.Common.{
  ℕ, ◌+◌, ◌*◌, ◌%◌, ◌^◌, ◌<◌, ◌≡◌, ◌↔◌, refl, some, List, [], ◌∷◌, get_elem?, length, All, arith,
}
use psa_for_multiparty.Random.{Prng}
use psa_for_multiparty.Inclusion.{UnionRow}
use psa_for_multiparty.Alignment.{
  Row, BinParams, BinnedTable, empty_payload, no_duplicate, pack_bins,
}
use psa_for_multiparty.Alignment.Union.{windowed_merge, mark_live, run_f_psa}
use psa_for_multiparty.Alignment.Merge.{OpensKey, windowed_merge-live}
use psa_for_multiparty.Alignment.Shape.{IsInput, pack_bins_lem}
use psa_for_multiparty.Alignment.Total.{run_f_psa_lem}

abbrev steps : Prng
steps = record {
  State = ℕ;
  next_u64 = λ g. (g * 1_000_003 % 2 ^ 64, g + 1);
  next_u8 = λ g. (g * 37 % 256, g + 1);
}

abbrev small_bins : BinParams
small_bins = record { beta = 1; tau_bits = 40; cap_p = 2 }

-- the row of the firm 77 at a source
abbrev firm_at : ℕ → Row
firm_at source = record {
  bin = 1;
  source = source;
  key = 77;
  memb = 1;
  period = 4;
  sector = 9;
  payload = empty_payload;
}

firm_at-IsInput : (source : ℕ) → IsInput source small_bins (firm_at source ∷ [])
unfolding no_duplicate
firm_at-IsInput source = record {
  distinct = refl;
  each = (record { in_bins = omega arith; of_source = refl; real = refl }, tt);
  loads = λ b. ground arith;
}

empty-IsInput : (source : ℕ) → IsInput source small_bins []
unfolding no_duplicate
empty-IsInput source = record { distinct = refl; each = tt; loads = λ b. omega arith }

pack_bins_example :
    (t : BinnedTable) × (g' : ℕ) × (pack_bins steps 1 (firm_at 1 ∷ []) small_bins 5 ≡ some (t, g'))
    × (length t.rows ≡ 2)
    × All (λ bin. length bin ≡ 2) t.rows
pack_bins_example = pack_bins_lem steps 1 small_bins (firm_at 1 ∷ []) 5 (firm_at-IsInput 1)

run_f_psa_example :
    (table : List UnionRow) × (g' : ℕ) × (run_f_psa steps
        (firm_at 0 ∷ [])
        (firm_at 1 ∷ [])
        []
        small_bins
        5
      ≡ some (table, g'))
    × (length table ≡ 12)
run_f_psa_example =
    run_f_psa_lem steps (firm_at 0 ∷ []) (firm_at 1 ∷ []) [] small_bins 5 (firm_at-IsInput 0)
      (firm_at-IsInput 1) (empty-IsInput 2) (omega arith)

-- The rows of one firm at two sources: the second one follows the first.
windowed_merge_example :
    (u : UnionRow) × (get_elem? (mark_live (windowed_merge (firm_at 0 ∷ firm_at 1 ∷ []))) 1
      ≡ some u)
    × (u.live < 2)
    × ((u.live ≡ 1) ↔ (((firm_at 1).memb ≡ 1) × OpensKey (some (firm_at 0)) (firm_at 1)))
windowed_merge_example =
    windowed_merge-live (firm_at 0 ∷ firm_at 1 ∷ []) 1 (firm_at 1) refl (omega arith) (omega arith)

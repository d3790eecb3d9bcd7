-- ===== src/Alignment/Union.antt =====
-- volePSI/MpsvsAlignment.cpp from `windowedMerge` on: the merge of a sorted bin, the live bit, the
-- shuffle, the whole functionality and its audit.
use psa_for_multiparty.Common.{
  ℕ, zero, suc, ◌+◌, ◌-◌, ◌%◌, Bool, true, false, ◌&&◌, ◌||◌, not, Option, none, some, List, [],
  ◌∷◌, ◌++◌, map, length, get_elem?, set, take, ◌==◌, if◌then◌else◌, bit_and, bit_or,
}
use psa_for_multiparty.Common.Fail.{◌>>=◌, ◌>>◌, require}
use psa_for_multiparty.Random.{Prng}
use psa_for_multiparty.Inclusion.{PayloadPerSource, UnionRow}
use psa_for_multiparty.Alignment.{Row, BinParams, empty_payload, pack_bins, within_bin_sort}

-- whether `cand`, in the window of `r`, is the row of a source for the key of `r`
abbrev pub matches : ℕ → Row → Row → Bool
matches src r cand =
    cand.source == src && cand.memb == 1 && (cand.key == r.key && (cand.memb == 1 && r.memb == 1))

-- `pickSource` on the window: the presence bit and the payload
abbrev pub pick_source : ℕ → Row → List Row → ℕ × PayloadPerSource
pick_source src r [] = (0, empty_payload)
pick_source src r (cand ∷ window) =
    let rest = pick_source src r window in if matches src r cand then (1, cand.payload) else rest

-- the sectors of the rows of a source in the window
abbrev pub sectors_of : ℕ → Row → List Row → List ℕ
sectors_of src r [] = []
sectors_of src r (cand ∷ window) =
    let rest = sectors_of src r window in if matches src r cand then cand.sector ∷ rest else rest

-- `saw_sectors`, in the order of the sources
abbrev pub saw_sectors : Row → List Row → List ℕ
saw_sectors r window = sectors_of 0 r window ++ (sectors_of 1 r window ++ sectors_of 2 r window)

abbrev pub first_sector : List ℕ → ℕ
first_sector [] = 0
first_sector (s ∷ ss) = s

abbrev pub differs_from : ℕ → List ℕ → Bool
differs_from s [] = false
differs_from s (t ∷ ts) = not (t == s) || differs_from s ts

abbrev pub is_first : Option Row → Row → Bool
is_first none r = true
is_first (some prev) r = not (prev.key == r.key) || (prev.memb == 0 || r.memb == 0)

-- The union row of a row, from the row before it and the window that starts with it.
unfoldable pub merge_row : Option Row → Row → List Row → UnionRow
merge_row prev r window =
    let canonical = if is_first prev r then 1 else 0 in
    let sectors = saw_sectors r window in
    let mas = pick_source 0 r window in
    let dos = pick_source 1 r window in
    let mom = pick_source 2 r window in
    if r.memb == 0
    then record {
      bin = r.bin;
      period = 0;
      sector = 0;
      b_mas = 0;
      b_dos = 0;
      b_mom = 0;
      p_mas = empty_payload;
      p_dos = empty_payload;
      p_mom = empty_payload;
      canonical = canonical;
      live = 0;
      sector_conflict = 0;
    }
    else record {
      bin = r.bin;
      period = r.period;
      sector = first_sector sectors;
      b_mas = mas.0;
      b_dos = dos.0;
      b_mom = mom.0;
      p_mas = mas.1;
      p_dos = dos.1;
      p_mom = mom.1;
      canonical = canonical;
      live = 0;
      sector_conflict = if differs_from (first_sector sectors) sectors then 1 else 0;
    }

unfoldable pub merge_from : Option Row → List Row → List UnionRow
merge_from prev [] = []
merge_from prev (r ∷ rows) = merge_row prev r (take 3 (r ∷ rows)) ∷ merge_from (some r) rows

unfoldable pub windowed_merge : List Row → List UnionRow
windowed_merge sorted_bin = merge_from none sorted_bin

abbrev pub set_live : UnionRow → UnionRow
set_live u = record {
  bin = u.bin;
  period = u.period;
  sector = u.sector;
  b_mas = u.b_mas;
  b_dos = u.b_dos;
  b_mom = u.b_mom;
  p_mas = u.p_mas;
  p_dos = u.p_dos;
  p_mom = u.p_mom;
  canonical = u.canonical;
  live = bit_and u.canonical (bit_or (bit_or u.b_mas u.b_dos) u.b_mom);
  sector_conflict = u.sector_conflict;
}

unfoldable pub mark_live : List UnionRow → List UnionRow
mark_live rows = map set_live rows

-- `iota`
abbrev pub iota : ℕ → ℕ → List ℕ
iota from zero = []
iota from (suc count) = from ∷ iota (from + 1) count

abbrev pub swap : List ℕ → ℕ → ℕ → Option (List ℕ)
swap perm i j = do x ← get_elem? perm i; y ← get_elem? perm j; some (set (set perm i y) j x)

-- `out[i] = rows[perm[i]]`
abbrev pub permuted : List UnionRow → List ℕ → Option (List UnionRow)
permuted rows [] = some []
permuted rows (i ∷ is) = do u ← get_elem? rows i; rest ← permuted rows is; some (u ∷ rest)

module _ (p : Prng) where
  open p use {State, next_u64}

  -- `for (size_t i = n - 1; i > 0; --i)`, from `i` down
  unfoldable pub fisher_yates : ℕ → List ℕ → State → Option (List ℕ × State)
  fisher_yates zero perm g = some (perm, g)
  fisher_yates (suc i) perm g = do
    let drawn = next_u64 g
    perm' ← swap perm (suc i) (drawn.0 % (suc i + 1))
    fisher_yates i perm' drawn.1

  -- An empty table starts the loop at 2^64 - 1, out of range: no behaviour.
  unfoldable pub composed_shuffle : List UnionRow → State → Option (List UnionRow × State)
  unfolding fisher_yates
  composed_shuffle rows g = do
    require (not (length rows == 0))
    shuffled ← fisher_yates (length rows - 1) (iota 0 (length rows)) g
    out ← permuted rows shuffled.0
    some (out, shuffled.1)

  -- the union rows of all the bins; the tables have as many bins
  unfoldable pub merge_bins : List (List Row) → List (List Row) → List (List Row) → List UnionRow
  merge_bins (a ∷ as') (b ∷ bs) (c ∷ cs) =
      windowed_merge (within_bin_sort (a ++ (b ++ c))) ++ merge_bins as' bs cs
  merge_bins _ _ _ = []

  unfoldable pub run_f_psa :
      List Row → List Row → List Row → BinParams → State → Option (List UnionRow × State)
  unfolding merge_bins composed_shuffle
  run_f_psa mas_rows dos_rows mom_rows params g = do
    mas ← pack_bins p 0 mas_rows params g
    dos ← pack_bins p 1 dos_rows params mas.1
    mom ← pack_bins p 2 mom_rows params dos.1
    composed_shuffle (mark_live (merge_bins mas.0.rows dos.0.rows mom.0.rows)) mom.1

pub record FPsaAudit : Type 0 where
  pub total_rows : ℕ
  pub live_rows : ℕ
  pub canonical_rows : ℕ
  pub sector_conflicts : ℕ

abbrev pub count_set : (UnionRow → ℕ) → List UnionRow → ℕ
count_set f [] = 0
count_set f (u ∷ us) = (if f u == 0 then 0 else 1) + count_set f us

unfoldable pub audit_alignment : List UnionRow → FPsaAudit
audit_alignment table = record {
  total_rows = length table;
  live_rows = count_set (λ u. u.live) table;
  canonical_rows = count_set (λ u. u.canonical) table;
  sector_conflicts = count_set (λ u. u.sector_conflict) table;
}

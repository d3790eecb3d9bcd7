-- ===== src/Alignment.antt =====
-- volePSI/MpsvsAlignment.h and volePSI/MpsvsAlignment.cpp: the rows of the three sources are put into
-- bins of a fixed size, each bin is sorted, rows of one key in a window of three are merged, and the
-- union table is shuffled. `none` is an exception. The rows of the union stand in Inclusion.
pub mod Union
pub mod Shape
pub mod Total
pub mod Merge
use psa_for_multiparty.Common.{
  ℕ, zero, suc, ◌+◌, ◌-◌, ◌*◌, ◌%◌, ◌^◌, Bool, true, false, ◌&&◌, ◌||◌, not, Option, none, some,
  List, [], ◌∷◌, ◌++◌, map, length, get_elem?, set, take, replicate, ltb, leb, ◌==◌, if◌then◌else◌,
  bit_and, bit_or,
}
use psa_for_multiparty.Common.Fail.{◌>>=◌, ◌>>◌, require}
use psa_for_multiparty.Random.{Prng}
use psa_for_multiparty.Inclusion.{PayloadPerSource, UnionRow}

pub record Row : Type 0 where
  pub bin : ℕ
  pub source : ℕ
  pub key : ℕ
  pub memb : ℕ
  pub period : ℕ
  pub sector : ℕ
  pub payload : PayloadPerSource

abbrev pub is_real : Row → Bool
is_real r = r.memb == 1

abbrev pub empty_payload : PayloadPerSource
empty_payload = record { v = λ i. 0; valid = λ i. 0; g = 0; v_g = 0; contraction = 0 }

pub record BinParams : Type 0 where
  pub beta : ℕ
  pub tau_bits : ℕ
  pub cap_p : ℕ

pub record BinnedTable : Type 0 where
  pub beta : ℕ
  pub cap_p : ℕ
  pub rows : List (List Row)

abbrev pub seen_before : List (ℕ × ℕ) → ℕ → ℕ → Bool
seen_before [] key period = false
seen_before (k ∷ ks) key period = (k.0 == key && k.1 == period) || seen_before ks key period

-- whether the loop of `assertNoDuplicateEntityPeriod` ends without throwing, given the keys seen
unfoldable pub no_duplicate : List (ℕ × ℕ) → List Row → Bool
no_duplicate seen [] = true
no_duplicate seen (r ∷ rows) =
    let rest = no_duplicate seen rows in
    let next = no_duplicate ((r.key, r.period) ∷ seen) rows in
    if is_real r then (if seen_before seen r.key r.period then false else next) else rest

-- `t.rows[b].push_back(r)`
abbrev pub push_at : List (List Row) → ℕ → Row → List (List Row)
push_at [] b r = []
push_at (bin ∷ bins) zero r = (bin ++ (r ∷ [])) ∷ bins
push_at (bin ∷ bins) (suc b) r = bin ∷ push_at bins b r

-- the loop that places the rows
pub place_rows : ℕ → ℕ → List Row → List (List Row) → Option (List (List Row))
place_rows num_bins source [] bins = some bins
place_rows num_bins source (r ∷ rows) bins = do
  require (ltb r.bin num_bins)
  require (r.source == source)
  require (r.memb == 1)
  place_rows num_bins source rows (push_at bins r.bin r)

abbrev pub fits : ℕ → List (List Row) → Bool
fits cap [] = true
fits cap (bin ∷ bins) = leb (length bin) cap && fits cap bins

module _ (p : Prng) where
  open p use {State, next_u64}

  -- `count` dummy rows for a bin
  unfoldable pub dummies : ℕ → ℕ → ℕ → ℕ → State → List Row × State
  dummies b source tau_bits zero g = ([], g)
  dummies b source tau_bits (suc count) g =
      let (k, g1) = next_u64 g in
      let (rest, g2) = dummies b source tau_bits count g1 in
      let key = if ltb tau_bits 64 then k % 2 ^ tau_bits else k in
      (
        record {
          bin = b;
          source = source;
          key = key;
          memb = 0;
          period = 0;
          sector = 0;
          payload = empty_payload;
        }
            ∷ rest,
        g2,
      )

  -- the bins from `b` on, each filled up to `cap` rows
  unfoldable pub fill_bins : ℕ → ℕ → ℕ → ℕ → List (List Row) → State → List (List Row) × State
  unfolding dummies
  fill_bins b source tau_bits cap [] g = ([], g)
  fill_bins b source tau_bits cap (bin ∷ bins) g =
      let (ds, g1) = dummies b source tau_bits (cap - length bin) g in
      let (rest, g2) = fill_bins (b + 1) source tau_bits cap bins g1 in ((bin ++ ds) ∷ rest, g2)

  unfoldable pub pack_bins : ℕ → List Row → BinParams → State → Option (BinnedTable × State)
  unfolding no_duplicate place_rows fill_bins
  pack_bins source real_rows params g = do
    require (no_duplicate [] real_rows)
    placed ← place_rows (2 ^ params.beta) source real_rows (replicate (2 ^ params.beta) [])
    require (fits params.cap_p placed)
    let filled = fill_bins 0 source params.tau_bits params.cap_p placed g
    some (record { beta = params.beta; cap_p = params.cap_p; rows = filled.0 }, filled.1)

-- the comparison of `withinBinSort`
abbrev pub row_less : Row → Row → Bool
row_less a b = if a.key == b.key then ltb a.source b.source else ltb a.key b.key

abbrev pub insert_row : Row → List Row → List Row
insert_row r [] = r ∷ []
insert_row r (s ∷ rows) =
    let rest = insert_row r rows in if row_less s r then s ∷ rest else r ∷ s ∷ rows

-- `std::stable_sort`
abbrev pub stable_sort : List Row → List Row
stable_sort [] = []
stable_sort (r ∷ rows) = insert_row r (stable_sort rows)

-- `while (p < n) p *= 2`, on fuel
abbrev pub padded_size : ℕ → ℕ → ℕ → ℕ
padded_size zero p n = p
padded_size (suc fuel) p n = let next = padded_size fuel (p * 2) n in if ltb p n then next else p

abbrev pub first_bin : List Row → ℕ
first_bin [] = 0
first_bin (r ∷ rows) = r.bin

unfoldable pub within_bin_sort : List Row → List Row
within_bin_sort bin = take (length bin) (
    stable_sort (
      bin
      ++ replicate (padded_size (length bin) 1 (length bin) - length bin) (record {
        bin = first_bin bin;
        source = 4;
        key = 2 ^ 64 - 1;
        memb = 0;
        period = 0;
        sector = 0;
        payload = empty_payload;
      })))

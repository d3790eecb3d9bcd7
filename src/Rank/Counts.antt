-- ===== src/Rank/Counts.antt =====
-- The counts of `rankViaHistogram`.
use psa_for_multiparty.Common.{
  ℕ, suc, ◌+◌, ◌%◌, ◌^◌, List, [], ◌∷◌, length, ◌==◌, if◌then◌else◌, ◌≡◌, refl, ap, ◌∙◌, Bool-cases,
  inl, inr, arith,
}
use psa_for_multiparty.Share.{add64}
use psa_for_multiparty.Rank.{
  SlimRow, Histogram, slim_less, insert_slim, slim_sort, count_row, rank_rows, rank_via_histogram,
}

-- The number of included rows.
abbrev pub included : List SlimRow → ℕ
included [] = 0
included (r ∷ rows) = (if r.incl == 0 then 0 else 1) + included rows

included-insert_slim :
    (r : SlimRow) (rows : List SlimRow) → included (insert_slim r rows) ≡ included (r ∷ rows)
included-insert_slim r [] = refl
included-insert_slim r (s ∷ rows) = elim (Bool-cases (slim_less s r)) [
  | inl e ↦ rw e (omega (arith, included-insert_slim r rows))
  | inr e ↦ rw e refl
]

included-slim_sort : (rows : List SlimRow) → included (slim_sort rows) ≡ included rows
unfolding slim_sort
included-slim_sort [] = refl
included-slim_sort (r ∷ rows) =
    omega (arith, included-insert_slim r (slim_sort rows), included-slim_sort rows)

length-insert_slim :
    (r : SlimRow) (rows : List SlimRow) → length (insert_slim r rows) ≡ suc (length rows)
length-insert_slim r [] = refl
length-insert_slim r (s ∷ rows) = elim (Bool-cases (slim_less s r)) [
  | inl e ↦ rw e (ap suc (length-insert_slim r rows))
  | inr e ↦ rw e refl
]

pub length-slim_sort : (rows : List SlimRow) → length (slim_sort rows) ≡ length rows
unfolding slim_sort
length-slim_sort [] = refl
length-slim_sort (r ∷ rows) = length-insert_slim r (slim_sort rows) ∙ ap suc (length-slim_sort rows)

count_row-n_valid :
    (b : ℕ) (r : SlimRow) (hist : Histogram)
    → (count_row b r hist).n_valid % 2 ^ 64
      ≡ (hist.n_valid + (if r.incl == 0 then 0 else 1)) % 2 ^ 64
unfolding count_row
count_row-n_valid b r hist = elim (Bool-cases (r.incl == 0)) [
  | inl e ↦ rw e (omega arith)
  | inr e ↦ rw e (omega arith)
]

rank_rows_lem :
    (b cur next : ℕ) (hist : Histogram) (rows : List SlimRow)
    → ((rank_rows b cur next hist rows).histogram.n_valid % 2 ^ 64
        ≡ (hist.n_valid + included rows) % 2 ^ 64)
      × (length (rank_rows b cur next hist rows).slim ≡ length rows)
unfolding rank_rows
rank_rows_lem b cur next hist [] = (omega arith, refl)
rank_rows_lem b cur next hist (r ∷ rows) =
    let rank = if r.popkey == cur then next else 0 in
    let (n, len) =
      rank_rows_lem b r.popkey (if r.incl == 0 then rank else add64 rank 1) (count_row b r hist)
        rows in
    (omega (arith, n, count_row-n_valid b r hist), ap suc len)

-- For every list of slim rows and number of buckets: the histogram counts the included rows, modulo
-- 2^64, whatever the order of the sort, and the result has as many rows as the list.
pub rank_via_histogram-n_valid :
    (b : ℕ) (slim : List SlimRow)
    → ((rank_via_histogram b slim).histogram.n_valid % 2 ^ 64 ≡ included slim % 2 ^ 64)
      × (length (rank_via_histogram b slim).slim ≡ length slim)
unfolding rank_via_histogram
rank_via_histogram-n_valid b slim =
    let (n, len) = rank_rows_lem b _ 0 _ (slim_sort slim) in
    (omega (arith, n, included-slim_sort slim), len ∙ length-slim_sort slim)

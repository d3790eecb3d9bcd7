-- ===== src/Rank/Ranked.antt =====
-- What `rankViaHistogram` ranks: the rows in the order of the slim key, each with the number of
-- included rows of its population that stand before it.
use psa_for_multiparty.Common.{
  ℕ, ◌+◌, ◌-◌, ◌^◌, ◌≤◌, ◌<◌, true, false, List, [], ◌∷◌, length, ◌==◌, if◌then◌else◌, ◌≡◌, refl,
  ap, sym, ◌∙◌, Bool-cases, inl, inr, arith,
}
use psa_for_multiparty.Share.{add64}
use psa_for_multiparty.Bitonic.Network.{total}
use psa_for_multiparty.Rank.{
  SlimRow, Histogram, slim_sort, count_row, rank_rows, rank_via_histogram,
}
use psa_for_multiparty.Rank.Counts.{length-slim_sort}
use psa_for_multiparty.Rank.Sorted.{
  IsSlimSortedFrom, IsSlimSorted, IsGrouped, slim_sort-IsSlimSorted, total-slim_sort,
  first-IsGrouped,
}

-- The included rows of a population.
abbrev pub one_in : ℕ → SlimRow → ℕ
one_in k r = if r.popkey == k then (if r.incl == 0 then 0 else 1) else 0

abbrev pub count_in : ℕ → List SlimRow → ℕ
count_in k [] = 0
count_in k (r ∷ rows) = one_in k r + count_in k rows

-- The rank of an included row is the number of included rows of its population before it, and that
-- of an excluded row is 0.
abbrev pub IsRanked : List SlimRow → List SlimRow → Type 0
IsRanked before [] = Unit
IsRanked before (r ∷ rows) =
    (r.rank ≡ (if r.incl == 0 then 0 else count_in r.popkey before)) × IsRanked (r ∷ before) rows

abbrev with_rank : ℕ → SlimRow → SlimRow
with_rank k r = record {
  entity_idx = r.entity_idx;
  popkey = r.popkey;
  incl = r.incl;
  bucket = r.bucket;
  rank = k;
}

abbrev pub unranked : SlimRow → SlimRow
unranked r = with_rank 0 r

-- the populations of rows are at most a key
abbrev IsUpTo : ℕ → List SlimRow → Type 0
IsUpTo key [] = Unit
IsUpTo key (r ∷ rows) = (r.popkey ≤ key) × IsUpTo key rows

one_in-le-one : (k : ℕ) (r : SlimRow) → one_in k r ≤ 1
one_in-le-one k r = ground arith

pub count_in-le-length : (k : ℕ) (rows : List SlimRow) → count_in k rows ≤ length rows
count_in-le-length k [] = omega arith
count_in-le-length k (r ∷ rows) = omega (arith, one_in-le-one k r, count_in-le-length k rows)

pub one_in-other : (k : ℕ) (r : SlimRow) → (r.popkey == k) ≡ false → one_in k r ≡ 0
one_in-other k r h = rw h refl

pub one_in-same : (r : SlimRow) → one_in r.popkey r ≡ (if r.incl == 0 then 0 else 1)
one_in-same r = ground arith

above : (key k : ℕ) (rows : List SlimRow) → key < k → IsUpTo key rows → count_in k rows ≡ 0
above key k [] lt up = refl
above key k (r ∷ rows) lt (first, up) =
    omega (arith, one_in-other k r (ground (arith, lt, first)), above key k rows lt up)

IsUpTo-mono : (key k : ℕ) (rows : List SlimRow) → key ≤ k → IsUpTo key rows → IsUpTo k rows
IsUpTo-mono key k [] le up = tt
IsUpTo-mono key k (r ∷ rows) le (first, up) = (omega arith, IsUpTo-mono key k rows le up)

next_rank :
    (incl rank : ℕ)
    → rank < 2 ^ 64 - 1
    → (if incl == 0 then rank else add64 rank 1) ≡ (if incl == 0 then 0 else 1) + rank
next_rank incl rank h = ground (arith, h)

pub same_key : (a b : ℕ) → (a == b) ≡ true → b ≡ a
same_key a b h = ground (arith, h)

-- the rank that a row would have, from that of the row before it
counted_rank :
    (cur next key : ℕ) (before : List SlimRow)
    → cur ≤ key
    → IsUpTo cur before
    → next ≡ count_in cur before
    → (if key == cur then next else 0) ≡ count_in key before
counted_rank cur next key before le up eq = elim (Bool-cases (key == cur)) [
  | inl e ↦ rw e (eq ∙ ap (λ k. count_in k before) (same_key key cur e))
  | inr e ↦ rw e (sym (above cur key before (ground (arith, e, le)) up))
]

rank_rows-IsRanked :
    (b cur next : ℕ) (hist : Histogram) (rows before : List SlimRow)
    → IsGrouped cur rows
    → IsUpTo cur before
    → next ≡ count_in cur before
    → length before + length rows < 2 ^ 64
    → IsRanked before (rank_rows b cur next hist rows).slim
unfolding rank_rows
rank_rows-IsRanked b cur next hist [] before grown up eq small = tt
rank_rows-IsRanked b cur next hist (r ∷ rows) before (first, grown) up eq small =
    let rank = if r.popkey == cur then next else 0 in
    let counted : rank ≡ count_in r.popkey before =
      counted_rank cur next r.popkey before first up eq in
    (
      ap (λ t. if r.incl == 0 then 0 else t) counted,
      rank_rows-IsRanked b r.popkey _ (count_row b r hist) rows (_ ∷ before) grown
          (omega arith, IsUpTo-mono cur r.popkey before first up)
          (next_rank r.incl rank (omega (arith, small, counted, count_in-le-length r.popkey before))
            ∙ ap (λ t. t + rank) (sym (one_in-same r))
            ∙ ap (λ t. one_in r.popkey r + t) counted)
          (omega (arith, small)),
    )

total-rank_rows :
    (f : SlimRow → ℕ) (b cur next : ℕ) (hist : Histogram) (rows : List SlimRow)
    → total (λ r. f (unranked r)) (rank_rows b cur next hist rows).slim
      ≡ total (λ r. f (unranked r)) rows
unfolding rank_rows
total-rank_rows f b cur next hist [] = refl
total-rank_rows f b cur next hist (r ∷ rows) =
    ap (λ t. f (unranked r) + t) (total-rank_rows f b r.popkey _ (count_row b r hist) rows)

rank_rows-IsSlimSortedFrom :
    (b cur next k : ℕ) (hist : Histogram) (p : SlimRow) (rows : List SlimRow)
    → IsSlimSortedFrom p rows
    → IsSlimSortedFrom (with_rank k p) (rank_rows b cur next hist rows).slim
unfolding rank_rows
rank_rows-IsSlimSortedFrom b cur next k hist p [] sorted = tt
rank_rows-IsSlimSortedFrom b cur next k hist p (r ∷ rows) (first, sorted) =
    (first, rank_rows-IsSlimSortedFrom b r.popkey _ _ (count_row b r hist) r rows sorted)

rank_rows-IsSlimSorted :
    (b cur next : ℕ) (hist : Histogram) (rows : List SlimRow)
    → IsSlimSorted rows
    → IsSlimSorted (rank_rows b cur next hist rows).slim
unfolding rank_rows
rank_rows-IsSlimSorted b cur next hist [] sorted = tt
rank_rows-IsSlimSorted b cur next hist (r ∷ rows) sorted =
    rank_rows-IsSlimSortedFrom b r.popkey _ _ (count_row b r hist) r rows sorted

-- For fewer than 2^64 slim rows and every number of buckets: the result holds the rows, up to their
-- ranks and their order; no row is less in the slim key than the one before it; and the rank of an
-- included row is the number of included rows of its population that stand before it, that of an
-- excluded row 0.
pub rank_via_histogram_lem :
    (b : ℕ) (slim : List SlimRow)
    → length slim < 2 ^ 64
    → ((f : SlimRow → ℕ)
        → total (λ r. f (unranked r)) (rank_via_histogram b slim).slim
          ≡ total (λ r. f (unranked r)) slim)
      × IsSlimSorted (rank_via_histogram b slim).slim
      × IsRanked [] (rank_via_histogram b slim).slim
unfolding rank_via_histogram
rank_via_histogram_lem b slim small =
    let sorted = slim_sort-IsSlimSorted slim in
    (
      λ f. total-rank_rows f b _ 0 _ (slim_sort slim) ∙ total-slim_sort (λ r. f (unranked r)) slim,
      rank_rows-IsSlimSorted b _ 0 _ (slim_sort slim) sorted,
      rank_rows-IsRanked b _ 0 _ (slim_sort slim) [] (first-IsGrouped (slim_sort slim) sorted) tt
          refl (omega (arith, small, length-slim_sort slim)),
    )

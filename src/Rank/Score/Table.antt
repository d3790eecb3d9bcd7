-- ===== src/Rank/Score/Table.antt =====
-- The table of `computeMetricRanks` counts the included rows of each population.
use psa_for_multiparty.Common.{
  ℕ, ◌+◌, ◌-◌, ◌^◌, ◌≤◌, ◌<◌, Bool, true, false, List, [], ◌∷◌, length, ◌==◌, if◌then◌else◌, ◌≡◌,
  refl, subst, Bool-cases, inl, inr, arith,
}
use psa_for_multiparty.Share.{add64}
use psa_for_multiparty.Rank.{SlimRow, first_popkey}
use psa_for_multiparty.Rank.Ranked.{one_in, one_in-other, count_in, same_key}
use psa_for_multiparty.Rank.Sorted.{IsGrouped}
use psa_for_multiparty.Rank.Score.{add_row, counts_from, n_valid_by_popkey, find_n_valid}

below : (k key : ℕ) (rows : List SlimRow) → k < key → IsGrouped key rows → count_in k rows ≡ 0
below k key [] lt grown = refl
below k key (r ∷ rows) lt (first, grown) =
    omega (
      arith,
      one_in-other k r (ground (arith, lt, first)),
      below k r.popkey rows (omega arith) grown,
    )

counted : (incl n : ℕ) → n < 2 ^ 64 - 1 → (if incl == 0 then n else add64 n 1) ≤ n + 1
counted incl n h = ground (arith, h)

counted_entry :
    (k key n incl : ℕ)
    → n < 2 ^ 64 - 1
    → (if key == k then (if incl == 0 then n else add64 n 1) else 0)
      ≡ (if key == k then n else 0) + (if key == k then (if incl == 0 then 0 else 1) else 0)
counted_entry k key n incl h = ground (arith, h)

counted_same :
    (k key n : ℕ) (r : SlimRow)
    → r.popkey ≡ key
    → n < 2 ^ 64 - 1
    → (if key == k then add_row r n else 0) ≡ (if key == k then n else 0) + one_in k r
counted_same k key n r same h =
    subst (λ t. (if t == k then add_row r n else 0) ≡ (if t == k then n else 0) + one_in k r) same
      (counted_entry k r.popkey n r.incl h)

add_zero : (m : ℕ) → m ≡ m + 0
add_zero m = omega arith

zero_if : (b : Bool) → ◌≡◌ {A = ℕ} (if b then 0 else 0) 0
zero_if true = refl
zero_if false = refl

-- The entry of a population counts its included rows.
find-counts_from :
    (k key n : ℕ) (rows : List SlimRow)
    → IsGrouped key rows
    → n + length rows < 2 ^ 64
    → find_n_valid k (counts_from key n rows) ≡ (if key == k then n else 0) + count_in k rows
unfolding find_n_valid counts_from
find-counts_from k key n [] grown small = add_zero _
find-counts_from k key n (r ∷ rows) (first, grown) small = elim (Bool-cases (key == r.popkey)) [
  | inl e ↦
      let same = same_key key r.popkey e in
      rw e (
        omega (
          arith,
          find-counts_from k key (add_row r n) rows (subst (λ t. IsGrouped t rows) same grown)
              (omega (arith, counted r.incl n (omega (arith, small)), small)),
          counted_same k key n r same (omega (arith, small)),
        ))
  | inr e ↦
      let apart : key < r.popkey = ground (arith, e, first) in
      let rest =
        find-counts_from k r.popkey (add_row r 0) rows grown
          (omega (arith, counted r.incl 0 (omega arith), small)) in
      elim (Bool-cases (key == k)) [
        | inl at ↦
            rw (e, at)
              (omega (
                arith,
                one_in-other k r (ground (arith, apart, at)),
                below k r.popkey rows (ground (arith, apart, at)) grown,
              ))
        | inr at ↦
            rw (e, at)
              (omega (
                arith,
                rest,
                counted_same k r.popkey 0 r refl (omega arith),
                zero_if (r.popkey == k),
              ))
      ]
]

pub find-n_valid_by_popkey :
    (k : ℕ) (rows : List SlimRow)
    → IsGrouped (first_popkey rows) rows
    → length rows < 2 ^ 64
    → find_n_valid k (n_valid_by_popkey rows) ≡ count_in k rows
unfolding find_n_valid n_valid_by_popkey
find-n_valid_by_popkey k [] grown small = refl
find-n_valid_by_popkey k (r ∷ rows) grown small = omega (
  arith,
  find-counts_from k r.popkey (add_row r 0) rows grown.1
      (omega (arith, counted r.incl 0 (omega arith), small)),
  counted_same k r.popkey 0 r refl (omega arith),
  zero_if (r.popkey == k),
)

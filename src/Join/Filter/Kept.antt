-- ===== src/Join/Filter/Kept.antt =====
-- What the filter keeps: the rows of the intersection, all of them and no other.
use psa_for_multiparty.Common.{
  ℕ, suc, ◌*◌, ◌%◌, ◌/◌, ◌≤◌, ◌≡◌, refl, sym, ◌∙◌, subst, Bool, true, false, not, ◌&&◌, some, List,
  [], ◌∷◌, map, length, take, take_all, ltb, ◌==◌, if◌then◌else◌, All, arith, Bool-cases, inl, inr,
}
use psa_for_multiparty.Common.Fail.{◌>>=◌}
use psa_for_multiparty.Bitonic.{SortElement}
use psa_for_multiparty.Bitonic.Network.{total}
use psa_for_multiparty.Bitonic.Increasing.{Increasing}
use psa_for_multiparty.Join.{Block, JoinExpandedRow}
use psa_for_multiparty.Join.Filter.{
  oblivious_filter_intersection, truncate_to_k, count_intersection, filter_and_truncate,
}
use native.Mathlib.Nat.{mul-div_cancel, mul-mod_left}
use psa_for_multiparty.Join.Filter.Encoding.{IsRow, row_key, encode_rows_lem, Filtered, sort_rows}

abbrev pub intersection_weight : (JoinExpandedRow → ℕ) → JoinExpandedRow → ℕ
intersection_weight f row = if row.is_intersection then f row else 0

abbrev pub IsIntersection : JoinExpandedRow → Type 0
IsIntersection row = row.is_intersection ≡ true

-- Behind a row that is not of the intersection there is none of it.
none_left :
    (f : JoinExpandedRow → ℕ) (rows : List JoinExpandedRow) (es : List (SortElement Block))
    → map row_key rows ≡ map (λ e. e.key) es
    → All (λ e. 1 ≤ e.key) es
    → (count_intersection rows ≡ 0) × (total (intersection_weight f) rows ≡ 0)
unfolding count_intersection
none_left f [] es k h = (refl, refl)
none_left f (row ∷ rows) [] k h = absurd (ground (arith, k))
none_left f (row ∷ rows) (e ∷ es) k (le, h) =
    let key : row_key row ≡ e.key = cc k in
    let rest_keys : map row_key rows ≡ map (λ (x : SortElement Block). x.key) es = cc k in
    let (none_here, weight) = none_left f rows es rest_keys h in
    elim (Bool-cases row.is_intersection) [
      | inl yes_here ↦ absurd (ground (arith, key, le, yes_here))
      | inr not_here ↦ (rw not_here none_here, rw not_here (omega (arith, weight)))
    ]

if_true : {A : Type 0} (b : Bool) (x y : A) → b ≡ true → (if b then x else y) ≡ x
if_true true x y h = refl
if_true false x y h = absurd (ground (arith, h))

if_false : {A : Type 0} (b : Bool) (x y : A) → b ≡ false → (if b then x else y) ≡ y
if_false true x y h = absurd (ground (arith, h))
if_false false x y h = refl

count_there :
    (row : JoinExpandedRow) (rows : List JoinExpandedRow)
    → row.is_intersection ≡ true
    → count_intersection (row ∷ rows) ≡ suc (count_intersection rows)
unfolding count_intersection
count_there row rows h = if_true row.is_intersection _ _ h ∙ omega arith

count_elsewhere :
    (row : JoinExpandedRow) (rows : List JoinExpandedRow)
    → row.is_intersection ≡ false
    → count_intersection (row ∷ rows) ≡ count_intersection rows
unfolding count_intersection
count_elsewhere row rows h = if_false row.is_intersection _ _ h

-- The first `k` rows are those of the intersection.
abbrev Front : (JoinExpandedRow → ℕ) → List JoinExpandedRow → ℕ → Type 0
Front f rows k =
    (total f (take k rows) ≡ total (intersection_weight f) rows) × All IsIntersection (take k rows)

count-Front :
    (f : JoinExpandedRow → ℕ) (rows : List JoinExpandedRow) (es : List (SortElement Block))
    → map row_key rows ≡ map (λ e. e.key) es
    → Increasing es
    → Front f rows (count_intersection rows)
unfolding count_intersection
count-Front f [] es k h = (refl, tt)
count-Front f (row ∷ rows) [] k h = absurd (ground (arith, k))
count-Front f (row ∷ rows) (e ∷ es) k (above, h) =
    let key : row_key row ≡ e.key = cc k in
    let rest_keys : map row_key rows ≡ map (λ (x : SortElement Block). x.key) es = cc k in
    elim (Bool-cases row.is_intersection) [
      | inl there ↦
          let (sums, all) = count-Front f rows es rest_keys h in
          let weight : intersection_weight f row ≡ f row = if_true row.is_intersection _ _ there in
          subst (λ c. Front f (row ∷ rows) c) (sym (count_there row rows there))
            (omega (arith, sums, weight), (there, all))
      | inr elsewhere ↦
          let one : 1 ≡ e.key = ground (arith, key, elsewhere) in
          let (none_here, none_weighs) =
            none_left f rows es rest_keys (subst (λ t. All (λ x. t ≤ x.key) es) (sym one) above) in
          let weight : intersection_weight f row ≡ 0 = if_false row.is_intersection _ _ elsewhere in
          subst (λ c. Front f (row ∷ rows) c) (sym (count_elsewhere row rows elsewhere ∙ none_here))
            (omega (arith, none_weighs, weight), tt)
    ]

count_total :
    (rows : List JoinExpandedRow)
    → count_intersection rows ≡ total (intersection_weight (λ r. 1)) rows
unfolding count_intersection
count_total [] = refl
count_total (row ∷ rows) = elim (Bool-cases row.is_intersection) [
  | inl yes_here ↦ rw yes_here (omega (arith, count_total rows))
  | inr not_here ↦ rw not_here (omega (arith, count_total rows))
]

truncate_to_k-take : (rows : List JoinExpandedRow) (k : ℕ) → truncate_to_k rows k ≡ take k rows
unfolding truncate_to_k
truncate_to_k-take rows k = elim (Bool-cases (ltb k (length rows))) [
  | inl e ↦ rw e refl
  | inr e ↦ rw e (sym (take_all k rows (ground (arith, e))))
]

count_length :
    (rows : List JoinExpandedRow) → All IsIntersection rows → total (λ x. 1) rows ≡ length rows
count_length [] h = refl
count_length (row ∷ rows) (e, h) = omega (arith, count_length rows h)

filter_result :
    (n payload_w : ℕ) (row : JoinExpandedRow) (rows : List JoinExpandedRow)
    → 1 ≤ payload_w
    → All (IsRow (n * payload_w)) (row ∷ rows)
    → (r : Filtered n payload_w (row ∷ rows))
    → oblivious_filter_intersection (row ∷ rows) payload_w ≡ some r.kept
unfolding oblivious_filter_intersection
filter_result n payload_w row rows pos h r =
    let size : length row.joined_payload ≡ n * payload_w = h.0.payload in
    let parties : n * payload_w / payload_w ≡ n = mul-div_cancel n (omega (arith, pos)) in
    let whole : n * payload_w % payload_w ≡ 0 = mul-mod_left n payload_w in
    let accepted : (not (payload_w == 0) && n * payload_w % payload_w == 0) ≡ true =
      rw whole (ground (arith, pos)) in
    rw (size, accepted, encode_rows_lem (n * payload_w) (row ∷ rows) h, ◌>>=◌, r.sort, parties)
      r.result

-- For at least one row, rows whose ids are below 2^64 and whose joined payloads have N * W blocks, and
-- W at least 1: the filter succeeds, returns the number of rows of the intersection, and keeps rows of
-- the intersection only, which are all those of the rows: every weight has the same sum over both.
pub filter_and_truncate_lem :
    (n payload_w : ℕ) (row : JoinExpandedRow) (rows : List JoinExpandedRow)
    → 1 ≤ payload_w
    → All (IsRow (n * payload_w)) (row ∷ rows)
    → (out : List JoinExpandedRow) × (filter_and_truncate (row ∷ rows) payload_w
        ≡ some (count_intersection (row ∷ rows), out))
      × All IsIntersection out
      × (length out ≡ count_intersection (row ∷ rows))
      × ((f : JoinExpandedRow → ℕ) → total f out ≡ total (intersection_weight f) (row ∷ rows))
unfolding filter_and_truncate oblivious_filter_intersection
filter_and_truncate_lem n payload_w row rows pos h =
    let r = sort_rows n payload_w (row ∷ rows) h in
    let k = count_intersection (row ∷ rows) in
    let counted : count_intersection r.kept ≡ k =
      count_total r.kept
      ∙ r.totals (intersection_weight (λ x. 1))
      ∙ sym (count_total (row ∷ rows)) in
    let front : (f : JoinExpandedRow → ℕ) → Front f r.kept k = λ f.
      subst (λ c. Front f r.kept c) counted (count-Front f r.kept r.sorted r.keys r.increasing) in
    (
      take k r.kept,
      rw (filter_result n payload_w row rows pos h r, ◌>>=◌, counted, truncate_to_k-take r.kept k)
          refl,
      (front (λ x. 0)).1,
      sym (count_length (take k r.kept) (front (λ x. 0)).1)
          ∙ (front (λ x. 1)).0
          ∙ r.totals (intersection_weight (λ x. 1))
          ∙ sym (count_total (row ∷ rows)),
      λ f. (front f).0 ∙ r.totals (intersection_weight f),
    )

-- ===== src/Join/Filter/Encoding.antt =====
-- Rows of the expansion as elements of the sort, and back.
use psa_for_multiparty.Common.{
  ℕ, zero, suc, ◌+◌, ◌-◌, ◌*◌, ◌^◌, ◌/◌, ◌<◌, ◌≡◌, refl, ap, ◌∙◌, Bool, true, false, not, Option,
  none, some, List, [], ◌∷◌, map, length, ◌==◌, if◌then◌else◌, All, arith, Option-cases, inl, inr,
}
use psa_for_multiparty.Bitonic.{SortElement, oblivious_bitonic_sort}
use psa_for_multiparty.Bitonic.Network.{total}
use psa_for_multiparty.Bitonic.Increasing.{Increasing}
use psa_for_multiparty.Bitonic.Ordered.{HasRealKey, oblivious_bitonic_sort-Increasing}
use psa_for_multiparty.Join.{Block, to_bytes, of_bytes, byte_of, JoinExpandedRow}
use psa_for_multiparty.Join.Filter.{zero_block, encode_row, decode_row, encode_rows, decode_rows}

-- The values of `count` bytes.
abbrev pub limit : ℕ → ℕ
limit zero = 1
limit (suc count) = 2 ^ 8 * limit count

pub of_bytes-to_bytes : (count v : ℕ) → v < limit count → of_bytes (to_bytes count v) ≡ v
of_bytes-to_bytes zero v lt = omega arith
of_bytes-to_bytes (suc count) v lt =
    let rest = of_bytes-to_bytes count (v / 2 ^ 8) (omega (arith, lt)) in omega (arith, rest)

-- A row of the expansion of N parties with payloads of `payload_w` blocks.
pub record IsRow (total_blocks : ℕ) (row : JoinExpandedRow) : Type 0 where
  pub id : row.id < 2 ^ 64
  pub payload : length row.joined_payload ≡ total_blocks

abbrev pub row_key : JoinExpandedRow → ℕ
row_key row = if row.is_intersection then 0 else 1

flag_of : (b : Bool) → not (byte_of b == 0) ≡ b
flag_of true = refl
flag_of false = refl

decode_row-encode_row :
    (row : JoinExpandedRow) (n payload_w : ℕ)
    → IsRow (n * payload_w) row
    → decode_row (encode_row row) n payload_w ≡ some row
unfolding encode_row decode_row
decode_row-encode_row row n payload_w h =
    let size : (length (encode_row row).payload == 1 + n * payload_w) ≡ true =
      ground (arith, h.payload) in
    let id : of_bytes (to_bytes 8 row.id) ≡ row.id =
      of_bytes-to_bytes 8 row.id (omega (arith, h.id)) in
    rw size (
      ap
        (λ i. some (record {
          id = i;
          joined_payload = row.joined_payload;
          is_intersection = not (byte_of row.is_intersection == 0);
        }))
        id
      ∙ ap
          (λ b.
            some (record { id = row.id; joined_payload = row.joined_payload; is_intersection = b }))
          (flag_of row.is_intersection))

pub encode_rows_lem :
    (total_blocks : ℕ) (rows : List JoinExpandedRow)
    → All (IsRow total_blocks) rows
    → encode_rows total_blocks rows ≡ some (map encode_row rows)
unfolding encode_rows
encode_rows_lem total_blocks [] h = refl
encode_rows_lem total_blocks (row ∷ rows) (ok, h) =
    let size : (length row.joined_payload == total_blocks) ≡ true = ground (arith, ok.payload) in
    rw (size, encode_rows_lem total_blocks rows h) refl

pub total-map :
    {A B : Type 0} (f : B → ℕ) (g : A → B) (xs : List A)
    → total f (map g xs) ≡ total (λ x. f (g x)) xs
total-map f g [] = refl
total-map f g (x ∷ xs) = ap (λ t. f (g x) + t) (total-map f g xs)

pub total-All :
    {A : Type 0} {P : A → Type 0} (f g : A → ℕ) (xs : List A)
    → ((x : A) → P x → f x ≡ g x)
    → All P xs
    → total f xs ≡ total g xs
total-All f g [] h ok = refl
total-All f g (x ∷ xs) h (p, ok) = omega (arith, h x p, total-All f g xs h ok)

pub total-zero : {A : Type 0} (xs : List A) → total (λ x. 0) xs ≡ 0
total-zero [] = refl
total-zero (x ∷ xs) = omega (arith, total-zero xs)

-- What the elements after the sort are: encoded rows, whatever their order.
abbrev decoded : Option JoinExpandedRow → (JoinExpandedRow → ℕ) → ℕ
decoded none f = 0
decoded (some row) f = f row

abbrev misfit : Option JoinExpandedRow → SortElement Block → ℕ
misfit none e = 1
misfit (some row) e = if e.key == row_key row then 0 else 1

module _ (n payload_w : ℕ) where
  record Decoded (es : List (SortElement Block)) : Type 0 where
    rows : List JoinExpandedRow
    result : decode_rows n payload_w es ≡ some rows
    keys : map row_key rows ≡ map (λ e. e.key) es
    totals :
        (f : JoinExpandedRow → ℕ)
        → total f rows ≡ total (λ e. decoded (decode_row e n payload_w) f) es

  decode_all :
      (es : List (SortElement Block))
      → total (λ e. misfit (decode_row e n payload_w) e) es ≡ 0
      → Decoded es
  unfolding decode_rows
  decode_all [] h = record { rows = []; result = refl; keys = refl; totals = λ f. refl }
  decode_all (e ∷ es) h = elim (Option-cases (decode_row e n payload_w)) [
    | inl eq ↦ absurd (ground (arith, h, eq))
    | inr (row, eq) ↦
        let rest = decode_all es (ground (arith, h, eq)) in
        let key : row_key row ≡ e.key = ground (arith, h, eq) in
        record {
          rows = row ∷ rest.rows;
          result = rw (eq, rest.result) refl;
          keys = rw (key, rest.keys) refl;
          totals = λ f. rw eq (ap (λ t. f row + t) (rest.totals f));
        }
  ]

  pub misfit-encode_row :
      (row : JoinExpandedRow)
      → IsRow (n * payload_w) row
      → misfit (decode_row (encode_row row) n payload_w) (encode_row row) ≡ 0
  unfolding encode_row
  misfit-encode_row row h =
      let same : (row_key row == row_key row) ≡ true = ground arith in
      rw (decode_row-encode_row row n payload_w h, same) refl

  encoded-HasRealKey : (rows : List JoinExpandedRow) → All HasRealKey (map encode_row rows)
  unfolding encode_row
  encoded-HasRealKey [] = tt
  encoded-HasRealKey (row ∷ rows) = (small row.is_intersection, encoded-HasRealKey rows)
    where
      small : (b : Bool) → (if b then 0 else 1) < 2 ^ 64 - 1
      small true = omega arith
      small false = omega arith

  -- The filter of rows: the rows, rearranged, with the keys in order.
  pub record Filtered (rows : List JoinExpandedRow) : Type 0 where
    pub sorted : List (SortElement Block)
    pub kept : List JoinExpandedRow
    pub result : decode_rows n payload_w sorted ≡ some kept
    pub increasing : Increasing sorted
    pub keys : map row_key kept ≡ map (λ e. e.key) sorted
    pub sort : oblivious_bitonic_sort zero_block (map encode_row rows) ≡ some sorted
    pub totals : (f : JoinExpandedRow → ℕ) → total f kept ≡ total f rows

  pub sort_rows : (rows : List JoinExpandedRow) → All (IsRow (n * payload_w)) rows → Filtered rows
  sort_rows rows h =
      let (ys, sort, increasing, (_, sums)) =
        oblivious_bitonic_sort-Increasing zero_block (map encode_row rows)
          (encoded-HasRealKey rows) in
      let fits : total (λ e. misfit (decode_row e n payload_w) e) ys ≡ 0 =
        sums (λ e. misfit (decode_row e n payload_w) e)
        ∙ total-map (λ e. misfit (decode_row e n payload_w) e) encode_row rows
        ∙ total-All _ (λ row. 0) rows misfit-encode_row h
        ∙ total-zero rows in
      let d = decode_all ys fits in
      record {
        sorted = ys;
        kept = d.rows;
        result = d.result;
        increasing = increasing;
        keys = d.keys;
        sort = sort;
        totals = λ f.
            d.totals f
            ∙ sums (λ e. decoded (decode_row e n payload_w) f)
            ∙ total-map (λ e. decoded (decode_row e n payload_w) f) encode_row rows
            ∙ total-All _ f rows
                (λ row ok. ap (λ o. decoded o f) (decode_row-encode_row row n payload_w ok)) h;
      }

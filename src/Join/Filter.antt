-- ===== src/Join/Filter.antt =====
-- volePSI/MpJoinFilter.h and volePSI/MpJoinFilter.cpp: the rows of the intersection are sorted to the
-- front, and the rest is cut off.
pub mod Encoding
pub mod Kept
use psa_for_multiparty.Common.{
  ℕ, ◌+◌, ◌*◌, ◌%◌, ◌/◌, not, ◌&&◌, Option, some, List, [], ◌∷◌, ◌++◌, length, get_elem?, take,
  drop, replicate, ltb, ◌==◌, if◌then◌else◌,
}
use psa_for_multiparty.Common.Fail.{◌>>=◌, ◌>>◌, require}
use psa_for_multiparty.Bitonic.{SortElement, oblivious_bitonic_sort}
use psa_for_multiparty.Join.{Block, to_bytes, of_bytes, byte_of, JoinExpandedRow}

abbrev pub zero_block : Block
zero_block = replicate 16 0

unfoldable pub encode_row : JoinExpandedRow → SortElement Block
encode_row row = record {
  key = if row.is_intersection then 0 else 1;
  payload =
      (to_bytes 8 row.id ++ (byte_of row.is_intersection ∷ replicate 7 0)) ∷ row.joined_payload;
}

unfoldable pub decode_row : SortElement Block → ℕ → ℕ → Option JoinExpandedRow
decode_row e n payload_w = do
  require (length e.payload == 1 + n * payload_w)
  meta ← get_elem? e.payload 0
  flag ← get_elem? meta 8
  some (record {
    id = of_bytes (take 8 meta);
    joined_payload = drop 1 e.payload;
    is_intersection = not (flag == 0);
  })

unfoldable pub encode_rows : ℕ → List JoinExpandedRow → Option (List (SortElement Block))
encode_rows total [] = some []
encode_rows total (row ∷ rows) = do
  require (length row.joined_payload == total)
  rest ← encode_rows total rows
  some (encode_row row ∷ rest)

unfoldable pub decode_rows : ℕ → ℕ → List (SortElement Block) → Option (List JoinExpandedRow)
decode_rows n payload_w [] = some []
decode_rows n payload_w (e ∷ es) = do
  row ← decode_row e n payload_w
  rest ← decode_rows n payload_w es
  some (row ∷ rest)

unfoldable pub oblivious_filter_intersection :
    List JoinExpandedRow → ℕ → Option (List JoinExpandedRow)
unfolding encode_row decode_row
oblivious_filter_intersection [] payload_w = some []
oblivious_filter_intersection (row ∷ rows) payload_w =
    let total = length row.joined_payload in
    require (not (payload_w == 0) && total % payload_w == 0)
    >> (encode_rows total (row ∷ rows) >>= (λ encoded.
        oblivious_bitonic_sort zero_block encoded
        >>= (λ sorted. decode_rows (total / payload_w) payload_w sorted)))

unfoldable pub truncate_to_k : List JoinExpandedRow → ℕ → List JoinExpandedRow
truncate_to_k rows k = if ltb k (length rows) then take k rows else rows

unfoldable pub count_intersection : List JoinExpandedRow → ℕ
count_intersection [] = 0
count_intersection (row ∷ rows) =
    let k = count_intersection rows in if row.is_intersection then k + 1 else k

-- the number of rows of the intersection, and the rows left
unfoldable pub filter_and_truncate : List JoinExpandedRow → ℕ → Option (ℕ × List JoinExpandedRow)
unfolding oblivious_filter_intersection truncate_to_k count_intersection
filter_and_truncate rows payload_w = do
  filtered ← oblivious_filter_intersection rows payload_w
  let k = count_intersection filtered in some (k, truncate_to_k filtered k)

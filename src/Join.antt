-- ===== src/Join.antt =====
-- volePSI/MpJoinExpander.h and volePSI/MpJoinExpander.cpp: the windows of a sorted vector and the
-- expansion of each window to all combinations of one tuple of each party. An `oc::block` is the list
-- of its 16 bytes. A vector is read in range, `none` otherwise, and `none` is an exception as well.
pub mod Counter
pub mod Filter
pub mod Meta
pub mod Shared
use psa_for_multiparty.Common.{
  ℕ, zero, suc, ◌+◌, ◌-◌, ◌*◌, ◌^◌, ◌%◌, ◌/◌, Bool, true, false, not, ◌&&◌, ◌||◌, Option, none,
  some, List, [], ◌∷◌, ◌++◌, length, get_elem?, take, drop, replicate, set, ltb, leb, ◌==◌,
  if◌then◌else◌,
}
use psa_for_multiparty.Common.Fail.{◌>>=◌, ◌>>◌, require}
use psa_for_multiparty.Bitonic.{SortElement}

abbrev pub Block : Type 0
Block = List ℕ

-- `memcpy` of a little-endian integer of `count` bytes
abbrev pub to_bytes : ℕ → ℕ → List ℕ
to_bytes zero v = []
to_bytes (suc count) v = v % 2 ^ 8 ∷ to_bytes count (v / 2 ^ 8)

abbrev pub of_bytes : List ℕ → ℕ
of_bytes [] = 0
of_bytes (b ∷ bs) = b + 2 ^ 8 * of_bytes bs

abbrev pub byte_of : Bool → ℕ
byte_of true = 1
byte_of false = 0

unfoldable pub pack_tuple_meta : ℕ → ℕ → Bool → Block
pack_tuple_meta party_idx row_idx is_real =
    to_bytes 4 party_idx ++ to_bytes 4 row_idx ++ (byte_of is_real ∷ replicate 7 0)

pub record TupleMeta : Type 0 where
  pub party_idx : ℕ
  pub row_idx : ℕ
  pub is_real : Bool

unfoldable pub unpack_tuple_meta : Block → Option TupleMeta
unpack_tuple_meta meta = do
  flag ← get_elem? meta 8
  some (record {
    party_idx = of_bytes (take 4 meta);
    row_idx = of_bytes (take 4 (drop 4 meta));
    is_real = not (flag == 0);
  })

unfoldable pub detect_window_ends : List (SortElement Block) → List Bool
detect_window_ends [] = []
detect_window_ends (x ∷ []) = true ∷ []
detect_window_ends (x ∷ y ∷ rest) = not (y.key == x.key) ∷ detect_window_ends (y ∷ rest)

-- `for (i = 1; i < sorted.size(); ++i)`, from position `i` on, after an element of key `previous`
abbrev pub starts_from : ℕ → ℕ → List (SortElement Block) → List ℕ
starts_from i previous [] = []
starts_from i previous (x ∷ rest) =
    let starts = starts_from (i + 1) x.key rest in if x.key == previous then starts else i ∷ starts

unfoldable pub window_start_indices : List (SortElement Block) → List ℕ
window_start_indices [] = []
window_start_indices (x ∷ rest) = 0 ∷ starts_from 1 x.key rest

pub record JoinExpandedRow : Type 0 where
  pub id : ℕ
  pub joined_payload : List Block
  pub is_intersection : Bool

-- `byParty[p].push_back(i)`
abbrev pub push_index : List (List ℕ) → ℕ → ℕ → List (List ℕ)
push_index [] p i = []
push_index (v ∷ rest) zero i = (v ++ (i ∷ [])) ∷ rest
push_index (v ∷ rest) (suc p) i = v ∷ push_index rest p i

abbrev pub meta_of : SortElement Block → Option TupleMeta
meta_of e = get_elem? e.payload 0 >>= unpack_tuple_meta

-- `for (i = start; i < end; ++i)`, with `count` rounds left
unfoldable pub group_by_party :
    ℕ → List (SortElement Block) → ℕ → ℕ → List (List ℕ) → Option (List (List ℕ))
unfolding unpack_tuple_meta
group_by_party n sorted zero i by_party = some by_party
group_by_party n sorted (suc count) i by_party = do
  e ← get_elem? sorted i
  m ← meta_of e
  require (ltb m.party_idx n)
  group_by_party n sorted count (i + 1) (push_index by_party m.party_idx i)

abbrev pub all_full : ℕ → List (List ℕ) → Bool
all_full m [] = true
all_full m (v ∷ rest) = length v == m && all_full m rest

-- The increment of the mixed-radix counter: `if (++digits[p] < M) break; digits[p] = 0;`
unfoldable pub increment : ℕ → List ℕ → List ℕ
increment m [] = []
increment m (d ∷ ds) = if ltb (d + 1) m then (d + 1) ∷ ds else 0 ∷ increment m ds

-- The tuples that the digits pick: their payloads in the order of the parties, and whether all of
-- them are real.
unfoldable pub pick_tuples :
    List (SortElement Block) → ℕ → List (List ℕ) → List ℕ → Option (List Block × Bool)
unfolding unpack_tuple_meta
pick_tuples sorted payload_w [] ds = some ([], true)
pick_tuples sorted payload_w (indices ∷ rest) [] = none
pick_tuples sorted payload_w (indices ∷ rest) (d ∷ ds) = do
  src ← get_elem? indices d
  e ← get_elem? sorted src
  require (leb (1 + payload_w) (length e.payload))
  m ← meta_of e
  others ← pick_tuples sorted payload_w rest ds
  some (take payload_w (drop 1 e.payload) ++ others.0, m.is_real && others.1)

-- `for (combo = 0; combo < expansionPerWindow; ++combo)`, with `count` rounds left
unfoldable pub expand_combos :
    List (SortElement Block)
    → ℕ
    → ℕ
    → ℕ
    → List (List ℕ)
    → ℕ
    → List ℕ
    → Option (List JoinExpandedRow)
unfolding pick_tuples increment
expand_combos sorted m payload_w id by_party zero digits = some []
expand_combos sorted m payload_w id by_party (suc count) digits = do
  picked ← pick_tuples sorted payload_w by_party digits
  rest ← expand_combos sorted m payload_w id by_party count (increment m digits)
  some (record { id = id; joined_payload = picked.0; is_intersection = picked.1 } ∷ rest)

-- the body of the loop over the windows
unfoldable pub expand_window :
    List (SortElement Block) → ℕ → ℕ → ℕ → ℕ → ℕ → Option (List JoinExpandedRow)
unfolding group_by_party expand_combos
expand_window sorted n m payload_w start end_ = do
  require (end_ - start == n * m)
  first ← get_elem? sorted start
  by_party ← group_by_party n sorted (end_ - start) start (replicate n [])
  require (all_full m by_party)
  expand_combos sorted m payload_w first.key by_party (m ^ n) (replicate n 0)

-- `for (w = 0; w < starts.size(); ++w)`
unfoldable pub expand_windows :
    List (SortElement Block) → ℕ → ℕ → ℕ → List ℕ → Option (List JoinExpandedRow)
unfolding expand_window
expand_windows sorted n m payload_w [] = some []
expand_windows sorted n m payload_w (start ∷ []) =
    expand_window sorted n m payload_w start (length sorted)
expand_windows sorted n m payload_w (start ∷ next ∷ starts) = do
  rows ← expand_window sorted n m payload_w start next
  rest ← expand_windows sorted n m payload_w (next ∷ starts)
  some (rows ++ rest)

-- The guard compares N * log2 M, in floating point, with 40; below it the product of the loop is
-- M ^ N.
unfoldable pub cross_product_expand :
    List (SortElement Block) → ℕ → ℕ → ℕ → Option (List JoinExpandedRow)
unfolding window_start_indices expand_windows
cross_product_expand sorted n m payload_w = do
  require (not (n == 0 || m == 0))
  require (leb (m ^ n) (2 ^ 40))
  expand_windows sorted n m payload_w (window_start_indices sorted)

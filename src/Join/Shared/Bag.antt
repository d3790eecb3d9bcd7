-- ===== src/Join/Shared/Bag.antt =====
-- The bag of all tuples under their composite keys: what it stands for.
use psa_for_multiparty.Common.{
  ℕ, suc, ◌+◌, ◌*◌, ◌≤◌, ◌<◌, ◌≡◌, refl, ap, Bool, true, some, List, [], ◌∷◌, ◌++◌, length, ◌==◌,
  arith, length-append, ==_iff,
}
use psa_for_multiparty.Share.Bit.{Shares}
use psa_for_multiparty.Compare.Word.{SharesAll, Holds}
use psa_for_multiparty.Sort.{SharedSortElement}
use psa_for_multiparty.Sort.Elements.{Clear, StandsAll, StandsAll-append}
use psa_for_multiparty.Join.Shared.{JoinInputRowShared, party_tuples, aggregate_tuples, all_counts}
use psa_for_multiparty.Join.Shared.Words.{composite, make_composite_key_lem}

-- A tuple of a party in the clear.
pub record ClearInput : Type 0 where
  pub id : ℕ
  pub is_real : Bool
  pub row_data : List Bool

pub record StandsInput (n r : ℕ) (row : JoinInputRowShared) (c : ClearInput) : Type 0 where
  pub id : Holds n row.id c.id
  pub flag : Shares n row.is_real c.is_real
  pub payload : SharesAll n row.row_data c.row_data
  pub width : length row.row_data ≡ r

abbrev pub StandsInputs : ℕ → ℕ → List JoinInputRowShared → List ClearInput → Type 0
StandsInputs n r [] [] = Unit {0}
StandsInputs n r [] (c ∷ cs) = ⊥
StandsInputs n r (x ∷ xs) [] = ⊥
StandsInputs n r (x ∷ xs) (c ∷ cs) = StandsInput n r x c × StandsInputs n r xs cs

-- The tuples of every party, `count` of each.
abbrev pub StandsParties :
    ℕ → ℕ → ℕ → List (List JoinInputRowShared) → List (List ClearInput) → Type 0
StandsParties n r count [] [] = Unit {0}
StandsParties n r count [] (c ∷ cs) = ⊥
StandsParties n r count (x ∷ xs) [] = ⊥
StandsParties n r count (x ∷ xs) (c ∷ cs) =
    (length x ≡ count) × StandsInputs n r x c × StandsParties n r count xs cs

-- The tuples of party `i` as elements of the sort.
unfoldable pub clear_tuples : ℕ → ℕ → List ClearInput → List Clear
clear_tuples b i [] = []
clear_tuples b i (c ∷ cs) =
    record { key = composite b i c.id; payload = c.is_real ∷ c.row_data } ∷ clear_tuples b i cs

unfoldable pub clear_bag : ℕ → ℕ → List (List ClearInput) → List Clear
unfolding clear_tuples
clear_bag b i [] = []
clear_bag b i (cs ∷ rest) = clear_tuples b i cs ++ clear_bag b (i + 1) rest

module _ {n : ℕ} (pos : 0 < n) (r b : ℕ) (small : b ≤ 32) where
  party_tuples_lem :
      (i : ℕ) (rows : List JoinInputRowShared) (cs : List ClearInput)
      → StandsInputs n r rows cs
      → (xs : List SharedSortElement) × (party_tuples b r i rows ≡ some xs)
        × StandsAll n (1 + r) xs (clear_tuples b i cs)
        × (length xs ≡ length rows)
  unfolding party_tuples clear_tuples
  party_tuples_lem i [] [] h = ([], refl, tt, refl)
  party_tuples_lem i [] (c ∷ cs) h = absurd h
  party_tuples_lem i (row ∷ rows) [] h = absurd h
  party_tuples_lem i (row ∷ rows) (c ∷ cs) (first, h) =
      let (key, key_eq, key_h) = make_composite_key_lem row.id b i pos small first.id in
      let (xs, xs_eq, xs_h, xs_n) = party_tuples_lem i rows cs h in
      let wide : (length row.row_data == r) ≡ true = (==_iff _ _).1 first.width in
      (
        record { key = key; payload = row.is_real ∷ row.row_data } ∷ xs,
        rw (wide, key_eq, xs_eq) refl,
        (
          record {
            key = key_h;
            payload = (first.flag, first.payload);
            width = omega (arith, first.width);
          },
          xs_h,
        ),
        ap suc xs_n,
      )

  pub aggregate_tuples_lem :
      (i count : ℕ) (per_party : List (List JoinInputRowShared)) (cs : List (List ClearInput))
      → StandsParties n r count per_party cs
      → (xs : List SharedSortElement) × (aggregate_tuples b r i per_party ≡ some xs)
        × StandsAll n (1 + r) xs (clear_bag b i cs)
        × (length xs ≡ length per_party * count)
  unfolding aggregate_tuples clear_bag
  aggregate_tuples_lem i count [] [] h = ([], refl, tt, omega arith)
  aggregate_tuples_lem i count [] (c ∷ cs) h = absurd h
  aggregate_tuples_lem i count (rows ∷ rest) [] h = absurd h
  aggregate_tuples_lem i count (rows ∷ rest) (c ∷ cs) (size, first, h) =
      let (xs, xs_eq, xs_h, xs_n) = party_tuples_lem i rows c first in
      let (ys, ys_eq, ys_h, ys_n) = aggregate_tuples_lem (i + 1) count rest cs h in
      (
        xs ++ ys,
        rw (xs_eq, ys_eq) refl,
        StandsAll-append n (1 + r) xs ys (clear_tuples b i c) (clear_bag b (i + 1) cs) xs_h ys_h,
        omega (arith, length-append xs ys, xs_n, ys_n, size),
      )

pub all_counts_lem :
    (n r count : ℕ) (per_party : List (List JoinInputRowShared)) (cs : List (List ClearInput))
    → StandsParties n r count per_party cs
    → all_counts count per_party ≡ true
all_counts_lem n r count [] [] h = refl
all_counts_lem n r count [] (c ∷ cs) h = absurd h
all_counts_lem n r count (rows ∷ rest) [] h = absurd h
all_counts_lem n r count (rows ∷ rest) (c ∷ cs) (size, first, h) =
    rw ((==_iff (length rows) count).1 size, all_counts_lem n r count rest cs h) refl

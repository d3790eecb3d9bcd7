-- ===== src/Rank/Sorted.antt =====
-- The sort of the slim rows by the slim key.
use psa_for_multiparty.Common.{
  ℕ, ◌+◌, ◌-◌, ◌%◌, ◌^◌, ◌≤◌, true, false, List, [], ◌∷◌, ltb, ◌==◌, if◌then◌else◌, ◌≡◌, refl, ap,
  ◌∙◌, Bool-cases, inl, inr, arith,
}
use psa_for_multiparty.Bitonic.Network.{total}
use psa_for_multiparty.Rank.{SlimRow, slim_less, insert_slim, slim_sort, first_popkey}

-- No row is less than the one before it.
abbrev pub IsSlimSortedFrom : SlimRow → List SlimRow → Type 0
IsSlimSortedFrom p [] = Unit
IsSlimSortedFrom p (r ∷ rows) = (slim_less r p ≡ false) × IsSlimSortedFrom r rows

abbrev pub IsSlimSorted : List SlimRow → Type 0
IsSlimSorted [] = Unit
IsSlimSorted (r ∷ rows) = IsSlimSortedFrom r rows

-- The populations ascend.
abbrev pub IsGrouped : ℕ → List SlimRow → Type 0
IsGrouped key [] = Unit
IsGrouped key (r ∷ rows) = (key ≤ r.popkey) × IsGrouped r.popkey rows

lex_asymmetric :
    (a b c d e f : ℕ)
    → (if a == d then (if b == e then ltb c f else ltb b e) else ltb a d) ≡ true
    → (if d == a then (if e == b then ltb f c else ltb e b) else ltb d a) ≡ false
lex_asymmetric a b c d e f h = ground (arith, h)

lex_first :
    (a b c d e f : ℕ)
    → (if a == d then (if b == e then ltb c f else ltb b e) else ltb a d) ≡ false
    → d ≤ a
lex_first a b c d e f h = ground (arith, h)

less_asymmetric : (s r : SlimRow) → slim_less s r ≡ true → slim_less r s ≡ false
less_asymmetric s r h =
    lex_asymmetric s.popkey ((2 ^ 8 + 1 - s.incl) % 2 ^ 8) s.bucket r.popkey
      ((2 ^ 8 + 1 - r.incl) % 2 ^ 8) r.bucket h

less_popkey : (r p : SlimRow) → slim_less r p ≡ false → p.popkey ≤ r.popkey
less_popkey r p h =
    lex_first r.popkey ((2 ^ 8 + 1 - r.incl) % 2 ^ 8) r.bucket p.popkey
      ((2 ^ 8 + 1 - p.incl) % 2 ^ 8) p.bucket h

insert_slim-IsSlimSortedFrom :
    (p r : SlimRow) (rows : List SlimRow)
    → slim_less r p ≡ false
    → IsSlimSortedFrom p rows
    → IsSlimSortedFrom p (insert_slim r rows)
insert_slim-IsSlimSortedFrom p r [] h sorted = (h, tt)
insert_slim-IsSlimSortedFrom p r (s ∷ rows) h (first, sorted) = elim (Bool-cases (slim_less s r)) [
  | inl e ↦ rw e (first, insert_slim-IsSlimSortedFrom s r rows (less_asymmetric s r e) sorted)
  | inr e ↦ rw e (h, (e, sorted))
]

insert_slim-IsSlimSorted :
    (r : SlimRow) (rows : List SlimRow) → IsSlimSorted rows → IsSlimSorted (insert_slim r rows)
insert_slim-IsSlimSorted r [] sorted = tt
insert_slim-IsSlimSorted r (s ∷ rows) sorted = elim (Bool-cases (slim_less s r)) [
  | inl e ↦ rw e (insert_slim-IsSlimSortedFrom s r rows (less_asymmetric s r e) sorted)
  | inr e ↦ rw e (e, sorted)
]

pub slim_sort-IsSlimSorted : (rows : List SlimRow) → IsSlimSorted (slim_sort rows)
unfolding slim_sort
slim_sort-IsSlimSorted [] = tt
slim_sort-IsSlimSorted (r ∷ rows) =
    insert_slim-IsSlimSorted r (slim_sort rows) (slim_sort-IsSlimSorted rows)

total-insert_slim :
    (f : SlimRow → ℕ) (r : SlimRow) (rows : List SlimRow)
    → total f (insert_slim r rows) ≡ f r + total f rows
total-insert_slim f r [] = refl
total-insert_slim f r (s ∷ rows) = elim (Bool-cases (slim_less s r)) [
  | inl e ↦ rw e (omega (arith, total-insert_slim f r rows))
  | inr e ↦ rw e refl
]

pub total-slim_sort :
    (f : SlimRow → ℕ) (rows : List SlimRow) → total f (slim_sort rows) ≡ total f rows
unfolding slim_sort
total-slim_sort f [] = refl
total-slim_sort f (r ∷ rows) =
    total-insert_slim f r (slim_sort rows) ∙ ap (λ t. f r + t) (total-slim_sort f rows)

grouped : (p : SlimRow) (rows : List SlimRow) → IsSlimSortedFrom p rows → IsGrouped p.popkey rows
grouped p [] sorted = tt
grouped p (r ∷ rows) (first, sorted) = (less_popkey r p first, grouped r rows sorted)

pub first-IsGrouped : (rows : List SlimRow) → IsSlimSorted rows → IsGrouped (first_popkey rows) rows
first-IsGrouped [] sorted = tt
first-IsGrouped (r ∷ rows) sorted = (omega arith, grouped r rows sorted)

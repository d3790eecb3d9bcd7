-- ===== src/Alignment/Merge.antt =====
-- Which rows of a merged bin are live.
use psa_for_multiparty.Common.{
  ℕ, zero, suc, ◌<◌, Bool, true, false, Option, none, some, List, [], ◌∷◌, get_elem?, take, ◌==◌,
  if◌then◌else◌, bit_and, bit_or, ◌≡◌, ◌⊎◌, refl, sym, ap, ◌∙◌, subst, Bool-cases, inl, inr, arith,
  ◌≢◌, ◌↔◌, dec_lt,
}
use mathlib.Core.Option.{some_inj}
use psa_for_multiparty.Inclusion.{UnionRow}
use psa_for_multiparty.Alignment.{Row}
use psa_for_multiparty.Alignment.Union.{
  is_first, matches, pick_source, merge_row, merge_from, windowed_merge, set_live, mark_live,
}

-- The row before a position.
abbrev pub before : Option Row → List Row → ℕ → Option Row
before prev rows zero = prev
before prev [] (suc i) = none
before prev (r ∷ rows) (suc i) = before (some r) rows i

pick_source-bit : (src : ℕ) (r : Row) (window : List Row) → (pick_source src r window).0 < 2
pick_source-bit src r [] = omega arith
pick_source-bit src r (c ∷ window) = elim (Bool-cases (matches src r c)) [
  | inl e ↦ rw e (omega arith)
  | inr e ↦ rw e (pick_source-bit src r window)
]

or-bits :
    (a b c : ℕ) → a < 2 → b < 2 → c < 2 → (a ≡ 1) ⊎ ((b ≡ 1) ⊎ (c ≡ 1)) → bit_or (bit_or a b) c ≡ 1
or-bits zero zero zero ha hb hc h = ground (arith, h)
or-bits zero zero (suc zero) ha hb hc h = refl
or-bits zero (suc zero) zero ha hb hc h = refl
or-bits zero (suc zero) (suc zero) ha hb hc h = refl
or-bits (suc zero) zero zero ha hb hc h = refl
or-bits (suc zero) zero (suc zero) ha hb hc h = refl
or-bits (suc zero) (suc zero) zero ha hb hc h = refl
or-bits (suc zero) (suc zero) (suc zero) ha hb hc h = refl
or-bits (suc (suc a)) b c ha hb hc h = absurd (omega arith)
or-bits zero (suc (suc b)) c ha hb hc h = absurd (omega arith)
or-bits (suc zero) (suc (suc b)) c ha hb hc h = absurd (omega arith)
or-bits zero zero (suc (suc c)) ha hb hc h = absurd (omega arith)
or-bits zero (suc zero) (suc (suc c)) ha hb hc h = absurd (omega arith)
or-bits (suc zero) zero (suc (suc c)) ha hb hc h = absurd (omega arith)
or-bits (suc zero) (suc zero) (suc (suc c)) ha hb hc h = absurd (omega arith)

self-matches : (src : ℕ) (r : Row) → r.source ≡ src → r.memb ≡ 1 → matches src r r ≡ true
self-matches src r h k = ground (arith, h, k)

own-source :
    (src : ℕ) (r : Row) (window : List Row)
    → r.source ≡ src
    → r.memb ≡ 1
    → (pick_source src r (r ∷ window)).0 ≡ 1
own-source src r window h k = rw (self-matches src r h k) refl

some-source :
    (r : Row) (window : List Row)
    → r.memb ≡ 1
    → r.source < 3
    → ((pick_source 0 r (r ∷ window)).0 ≡ 1)
      ⊎ (((pick_source 1 r (r ∷ window)).0 ≡ 1) ⊎ ((pick_source 2 r (r ∷ window)).0 ≡ 1))
some-source r window h lt = elim (Bool-cases (r.source == 0)) [
  | inl e ↦ inl (own-source 0 r window (ground (arith, e)) h)
  | inr e ↦ elim (Bool-cases (r.source == 1)) [
    | inl e1 ↦ inr (inl (own-source 1 r window (ground (arith, e1)) h))
    | inr e1 ↦ inr (inr (own-source 2 r window (ground (arith, e, e1)) h))
  ]
]

bit_and-choice : (b : Bool) → bit_and (if b then 1 else 0) 1 ≡ (if b then 1 else 0)
bit_and-choice true = refl
bit_and-choice false = refl

bit_and-nothing : (b : Bool) → bit_and (if b then 1 else 0) 0 ≡ 0
bit_and-nothing true = refl
bit_and-nothing false = refl

-- The live bit of a merged row.
merge_row-live :
    (prev : Option Row) (r : Row) (window : List Row)
    → r.memb < 2
    → r.source < 3
    → (set_live (merge_row prev r (r ∷ window))).live
      ≡ (if r.memb == 0 then 0 else (if is_first prev r then 1 else 0))
unfolding merge_row
merge_row-live prev r window h lt = elim (Bool-cases (r.memb == 0)) [
  | inl e ↦ rw e (bit_and-nothing (is_first prev r))
  | inr e ↦ rw e (
      ap (bit_and (if is_first prev r then 1 else 0)) (
        or-bits (pick_source 0 r (r ∷ window)).0 (pick_source 1 r (r ∷ window)).0
          (pick_source 2 r (r ∷ window)).0 (pick_source-bit 0 r (r ∷ window))
          (pick_source-bit 1 r (r ∷ window)) (pick_source-bit 2 r (r ∷ window))
          (some-source r window (ground (arith, e, h)) lt))
      ∙ bit_and-choice (is_first prev r))
]

merge_from-live :
    (prev : Option Row) (rows : List Row) (i : ℕ) (r : Row)
    → get_elem? rows i ≡ some r
    → r.memb < 2
    → r.source < 3
    → (u : UnionRow) × (get_elem? (mark_live (merge_from prev rows)) i ≡ some u)
      × (u.live ≡ (if r.memb == 0 then 0 else (if is_first (before prev rows i) r then 1 else 0)))
unfolding merge_from mark_live
merge_from-live prev [] i r e h lt = absurd (ground (arith, e))
merge_from-live prev (s ∷ rows) zero r e h lt =
    let same = some_inj.0 e in
    (
      _,
      refl,
      subst
          (λ r.
            (set_live (merge_row prev s (s ∷ take 2 rows))).live
            ≡ (if r.memb == 0 then 0 else (if is_first prev r then 1 else 0)))
          same
          (merge_row-live prev s (take 2 rows) (subst (λ r. r.memb < 2) (sym same) h)
            (subst (λ r. r.source < 3) (sym same) lt)),
    )
merge_from-live prev (s ∷ rows) (suc i) r e h lt = merge_from-live (some s) rows i r e h lt

-- A row opens its key after the row before it: it is the first of the bin, or that row has another key
-- or is a dummy.
abbrev pub OpensKey : Option Row → Row → Type 0
OpensKey none r = Unit
OpensKey (some prev) r = (prev.key ≢ r.key) ⊎ (prev.memb ≡ 0)

is_first-OpensKey :
    (prev : Option Row) (r : Row)
    → r.memb ≡ 1
    → ((is_first prev r ≡ true) → OpensKey prev r) × (OpensKey prev r → is_first prev r ≡ true)
is_first-OpensKey none r h = (λ e. tt, λ o. refl)
is_first-OpensKey (some prev) r h = (
  λ e. elim (dec_lt 0 prev.memb) [
    | yes real ↦ inl (λ same. absurd (ground (arith, e, h, real, same)))
    | no dummy ↦ inr (ground (arith, dummy))
  ],
  λ o. elim o [ inl other ↦ ground (arith, other) | inr dummy ↦ ground (arith, dummy) ],
)

live-exactly :
    (prev : Option Row) (r : Row) (live : ℕ)
    → r.memb < 2
    → live ≡ (if r.memb == 0 then 0 else (if is_first prev r then 1 else 0))
    → (live < 2) × ((live ≡ 1) ↔ ((r.memb ≡ 1) × OpensKey prev r))
live-exactly prev r live h eq = elim (Bool-cases (r.memb == 0)) [
  | inl e ↦ (
    ground (arith, eq, e),
    (λ l. absurd (ground (arith, eq, e, l)), λ o. absurd (ground (arith, e, o.0))),
  )
  | inr e ↦
      let real : r.memb ≡ 1 = ground (arith, e, h) in
      let opens = is_first-OpensKey prev r real in
      elim (Bool-cases (is_first prev r)) [
        | inl f ↦
            (ground (arith, eq, e, f), (λ l. (real, opens.0 f), λ o. ground (arith, eq, e, f)))
        | inr f ↦ (
          ground (arith, eq, e, f),
          (λ l. absurd (ground (arith, eq, e, f, l)), λ o. absurd (differs (opens.1 o.1) f)),
        )
      ]
]
  where
    differs : {x : Bool} → x ≡ true → x ≡ false → ⊥
    differs e f = cc

-- For a real or dummy row of one of the three sources at any position of a sorted bin: after the
-- merge and `mark_live` the live bit of its row is a bit, and it is 1 exactly when the row is real and
-- is the first of the bin, or follows a row of another key or a dummy.
pub windowed_merge-live :
    (rows : List Row) (i : ℕ) (r : Row)
    → get_elem? rows i ≡ some r
    → r.memb < 2
    → r.source < 3
    → (u : UnionRow) × (get_elem? (mark_live (windowed_merge rows)) i ≡ some u)
      × (u.live < 2)
      × ((u.live ≡ 1) ↔ ((r.memb ≡ 1) × OpensKey (before none rows i) r))
unfolding windowed_merge
windowed_merge-live rows i r e h lt =
    let (u, at, eq) = merge_from-live none rows i r e h lt in
    let (bit, exact) = live-exactly (before none rows i) r u.live h eq in (u, at, bit, exact)

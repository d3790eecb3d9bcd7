-- ===== src/Alignment/Total.antt =====
-- `runFPsa` on the inputs of three sources that `packBins` accepts: it succeeds, with a table of a
-- public size.
use psa_for_multiparty.Common.{
  ℕ, zero, suc, ◌+◌, ◌-◌, ◌*◌, ◌%◌, ◌^◌, ◌≤◌, ◌<◌, false, Option, none, some, List, [], ◌∷◌, ◌++◌,
  length, set, take, All, ◌==◌, ◌≡◌, refl, sym, ap, ◌∙◌, length-append, length-set, set-All,
  length-take, length-map, get_elem?-All, Bool-cases, inl, inr, arith,
}
use native.Mathlib.Nat.{pow-suc, mul-le-mul_right}
use psa_for_multiparty.Random.{Prng}
use psa_for_multiparty.Inclusion.{UnionRow}
use psa_for_multiparty.Alignment.{
  Row, BinParams, insert_row, stable_sort, row_less, within_bin_sort,
}
use psa_for_multiparty.Alignment.Union.{
  merge_from, windowed_merge, set_live, mark_live, iota, swap, permuted, fisher_yates,
  composed_shuffle, merge_bins, run_f_psa,
}
use psa_for_multiparty.Alignment.Shape.{IsInput, pack_bins_lem}

length-insert_row : (r : Row) (rows : List Row) → length (insert_row r rows) ≡ suc (length rows)
length-insert_row r [] = refl
length-insert_row r (s ∷ rows) = elim (Bool-cases (row_less s r)) [
  | inl e ↦ rw e (ap suc (length-insert_row r rows))
  | inr e ↦ rw e refl
]

length-stable_sort : (rows : List Row) → length (stable_sort rows) ≡ length rows
length-stable_sort [] = refl
length-stable_sort (r ∷ rows) =
    length-insert_row r (stable_sort rows) ∙ ap suc (length-stable_sort rows)

length-take_sorted :
    (bin dead : List Row) → length (take (length bin) (stable_sort (bin ++ dead))) ≡ length bin
length-take_sorted bin dead =
    length-take (length bin) (stable_sort (bin ++ dead))
      (omega (arith, length-stable_sort (bin ++ dead), length-append bin dead))

length-within_bin_sort : (bin : List Row) → length (within_bin_sort bin) ≡ length bin
unfolding within_bin_sort
length-within_bin_sort bin = length-take_sorted bin _

length-merge_from :
    (prev : Option Row) (rows : List Row) → length (merge_from prev rows) ≡ length rows
unfolding merge_from
length-merge_from prev [] = refl
length-merge_from prev (r ∷ rows) = ap suc (length-merge_from (some r) rows)

length-iota : (i n : ℕ) → length (iota i n) ≡ n
length-iota i zero = refl
length-iota i (suc n) = ap suc (length-iota (i + 1) n)

iota-bound : (i n m : ℕ) → i + n ≤ m → All (λ k. k < m) (iota i n)
iota-bound i zero m h = tt
iota-bound i (suc n) m h = (omega arith, iota-bound (i + 1) n m (omega arith))

-- A vector of indices of a table of `n` rows.
abbrev IsIndexing : ℕ → List ℕ → Type 0
IsIndexing n perm = (length perm ≡ n) × All (λ k. k < n) perm

swap-IsIndexing :
    (n i j : ℕ) (perm : List ℕ)
    → IsIndexing n perm
    → i < n
    → j < n
    → (perm' : List ℕ) × (swap perm i j ≡ some perm') × IsIndexing n perm'
swap-IsIndexing n i j perm (len, h) hi hj =
    let (x, ex, px) = get_elem?-All (λ k. k < n) perm i h (omega arith) in
    let (y, ey, py) = get_elem?-All (λ k. k < n) perm j h (omega arith) in
    (
      set (set perm i y) j x,
      rw (ex, ey) refl,
      (
        length-set (set perm i y) j x ∙ length-set perm i y ∙ len,
        set-All (λ k. k < n) (set perm i y) j x (set-All (λ k. k < n) perm i y h py) px,
      ),
    )

All-unit : (rows : List UnionRow) → All (λ u. Unit {0}) rows
All-unit [] = tt
All-unit (u ∷ us) = (tt, All-unit us)

permuted_lem :
    (rows : List UnionRow) (is : List ℕ)
    → All (λ k. k < length rows) is
    → (out : List UnionRow) × (permuted rows is ≡ some out) × (length out ≡ length is)
permuted_lem rows [] h = ([], refl, refl)
permuted_lem rows (i ∷ is) h =
    let (u, eu, _) = get_elem?-All (λ u. Unit {0}) rows i (All-unit rows) h.0 in
    let (out, eq, len) = permuted_lem rows is h.1 in (u ∷ out, rw (eu, eq) refl, ap suc len)

positive_product : (n b : ℕ) → 1 ≤ b → 1 ≤ 2 ^ n * (3 * b)
positive_product n b h = omega (arith, mul-le-mul_right (3 * b) (positive_power n), h)
  where
    positive_power : (n : ℕ) → 1 ≤ 2 ^ n
    positive_power zero = omega arith
    positive_power (suc n) = omega (arith, pow-suc 2 n, positive_power n)

module _ (p : Prng) where
  open p use {State, next_u64}

  fisher_yates_lem :
      (n i : ℕ) (perm : List ℕ) (g : State)
      → IsIndexing n perm
      → i < n
      → (perm' : List ℕ) × (g' : State) × (fisher_yates p i perm g ≡ some (perm', g'))
        × IsIndexing n perm'
  unfolding fisher_yates
  fisher_yates_lem n zero perm g h lt = (perm, g, refl, h)
  fisher_yates_lem n (suc i) perm g h lt =
      let drawn = next_u64 g in
      let (perm1, e1, h1) =
        swap-IsIndexing n (suc i) (drawn.0 % (suc i + 1)) perm h lt (omega arith) in
      let (perm2, g2, e2, h2) = fisher_yates_lem n i perm1 drawn.1 h1 (omega arith) in
      (perm2, g2, rw (e1, e2) refl, h2)

  composed_shuffle_lem :
      (rows : List UnionRow) (g : State)
      → 1 ≤ length rows
      → (out : List UnionRow) × (g' : State) × (composed_shuffle p rows g ≡ some (out, g'))
        × (length out ≡ length rows)
  unfolding composed_shuffle
  composed_shuffle_lem rows g h =
      let n = length rows in
      let (perm, g1, e1, ix) =
        fisher_yates_lem n (n - 1) (iota 0 n) g (length-iota 0 n, iota-bound 0 n n (omega arith))
          (omega arith) in
      let (out, e2, len2) = permuted_lem rows perm ix.1 in
      (out, g1, rw (not_zero n h, e1, e2) refl, len2 ∙ ix.0)
    where
      not_zero : (n : ℕ) → 1 ≤ n → (n == 0) ≡ false
      not_zero n h = ground (arith, h)

  length-merge_bins :
      (cap : ℕ) (as' bs cs : List (List Row))
      → length bs ≡ length as'
      → length cs ≡ length as'
      → All (λ bin. length bin ≡ cap) as'
      → All (λ bin. length bin ≡ cap) bs
      → All (λ bin. length bin ≡ cap) cs
      → length (merge_bins p as' bs cs) ≡ length as' * (3 * cap)
  unfolding merge_bins windowed_merge
  length-merge_bins cap [] bs cs hb hc ka kb kc = omega arith
  length-merge_bins cap (a ∷ as') [] cs hb hc ka kb kc = absurd (omega arith)
  length-merge_bins cap (a ∷ as') (b ∷ bs) [] hb hc ka kb kc = absurd (omega arith)
  length-merge_bins cap (a ∷ as') (b ∷ bs) (c ∷ cs) hb hc ka kb kc = omega (
    arith,
    length-append (merge_from none (within_bin_sort (a ++ (b ++ c)))) (merge_bins p as' bs cs),
    length-merge_from none (within_bin_sort (a ++ (b ++ c))),
    length-within_bin_sort (a ++ (b ++ c)),
    length-append a (b ++ c),
    length-append b c,
    ka.0,
    kb.0,
    kc.0,
    length-merge_bins cap as' bs cs (omega arith) (omega arith) ka.1 kb.1 kc.1,
  )

  -- For three inputs that `pack_bins` accepts, a positive capacity and every state of the generator:
  -- the alignment succeeds, and its table has 2^beta * 3 * cap_P rows, whatever the inputs hold.
  pub run_f_psa_lem :
      (mas dos mom : List Row) (params : BinParams) (g : State)
      → IsInput 0 params mas
      → IsInput 1 params dos
      → IsInput 2 params mom
      → 1 ≤ params.cap_p
      → (table : List UnionRow) × (g' : State) × (run_f_psa p mas dos mom params g
          ≡ some (table, g'))
        × (length table ≡ 2 ^ params.beta * (3 * params.cap_p))
  unfolding run_f_psa mark_live
  run_f_psa_lem mas dos mom params g h0 h1 h2 pos =
      let (t0, g0, e0, len0, each0) = pack_bins_lem p 0 params mas g h0 in
      let (t1, g1, e1, len1, each1) = pack_bins_lem p 1 params dos g0 h1 in
      let (t2, g2, e2, len2, each2) = pack_bins_lem p 2 params mom g1 h2 in
      let union = merge_bins p t0.rows t1.rows t2.rows in
      let len =
        length-map union set_live
        ∙ length-merge_bins params.cap_p t0.rows t1.rows t2.rows (len1 ∙ sym len0) (len2 ∙ sym len0)
            each0 each1 each2
        ∙ ap (λ n. n * (3 * params.cap_p)) len0 in
      let (out, g3, e3, len3) =
        composed_shuffle_lem (mark_live union) g2
          (omega (arith, len, positive_product params.beta params.cap_p pos)) in
      (out, g3, rw (e0, e1, e2, e3) refl, len3 ∙ len)

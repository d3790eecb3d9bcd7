-- ===== src/Join/Shared/Expand.antt =====
-- The whole expansion on shared tuples: the row of combination `v` of a window is the one that the
-- digits of `v` pick in it.
use psa_for_multiparty.Common.{
  ℕ, zero, suc, ◌+◌, ◌-◌, ◌*◌, ◌/◌, ◌%◌, ◌^◌, ◌≤◌, ◌<◌, ◌≡◌, refl, sym, ap, ◌∙◌, subst, true, false,
  not, ◌||◌, Option, some, List, [], ◌∷◌, ◌++◌, length, leb, ◌==◌, arith,
}
use psa_for_multiparty.Common.Fail
use native.Mathlib.Nat.{mul_assoc, mul-div_cancel, mul-mod_left}
use psa_for_multiparty.Bag.{Bag}
use psa_for_multiparty.Bag.Cost.{
  Outcome, IsGoodBag, Outcome-cost, Outcome-pure, Outcome-bind, Outcome-require,
}
use psa_for_multiparty.Sort.{SharedSortElement}
use psa_for_multiparty.Sort.Elements.{Clear, StandsAll}
use psa_for_multiparty.Join.Counter.{digits_of, digits_of-All, increment-digits_of, digits_of-zero}
use psa_for_multiparty.Join.Counter.{length-digits_of}
use psa_for_multiparty.Join.Shared.{
  MpcJoinRow, shared_combos, shared_windows, all_wide, mpc_cross_product_expand,
  mpc_cross_product_expand_triple_cost,
}
use psa_for_multiparty.Join.Shared.Rows.{ClearRow, StandsRow, clear_row, shared_row_lem}

-- Row by row.
abbrev pub StandsRows : ℕ → ℕ → List MpcJoinRow → List ClearRow → Type 0
StandsRows n blocks [] [] = Unit {0}
StandsRows n blocks [] (c ∷ cs) = ⊥
StandsRows n blocks (x ∷ xs) [] = ⊥
StandsRows n blocks (x ∷ xs) (c ∷ cs) = StandsRow n blocks x c × StandsRows n blocks xs cs

pub StandsRows-append :
    (n blocks : ℕ) (xs ys : List MpcJoinRow) (cs ds : List ClearRow)
    → StandsRows n blocks xs cs
    → StandsRows n blocks ys ds
    → StandsRows n blocks (xs ++ ys) (cs ++ ds)
StandsRows-append n blocks [] ys [] ds h k = k
StandsRows-append n blocks [] ys (c ∷ cs) ds h k = absurd h
StandsRows-append n blocks (x ∷ xs) ys [] ds h k = absurd h
StandsRows-append n blocks (x ∷ xs) ys (c ∷ cs) ds h k =
    (h.0, StandsRows-append n blocks xs ys cs ds h.1 k)

-- The rows of `count` combinations of one window, from combination `v` on, with `parties` digits.
unfoldable pub clear_combos : List Clear → ℕ → ℕ → ℕ → ℕ → ℕ → ℕ → Option (List ClearRow)
clear_combos es parties m b base v zero = some []
clear_combos es parties m b base v (suc count) =
    Fail.◌>>=◌ (clear_row es m b base (digits_of m parties v))
      λ row. Fail.◌>>=◌ (clear_combos es parties m b base (v + 1) count) λ rest. some (row ∷ rest)

-- All combinations of `count` windows, from the one at `base` on.
unfoldable pub clear_windows : List Clear → ℕ → ℕ → ℕ → ℕ → ℕ → Option (List ClearRow)
unfolding clear_combos
clear_windows es parties m b base zero = some []
clear_windows es parties m b base (suc count) =
    Fail.◌>>=◌ (clear_combos es parties m b base 0 (m ^ parties)) λ rows.
      Fail.◌>>=◌ (clear_windows es parties m b (base + parties * m) count)
        λ rest. some (rows ++ rest)

abbrev pub RowsOf : ℕ → ℕ → Option (List ClearRow) → List MpcJoinRow → Type 0
RowsOf n blocks o rows = (cs : List ClearRow) × (o ≡ some cs) × StandsRows n blocks rows cs

all_wide_lem :
    (n w : ℕ) (xs : List SharedSortElement) (es : List Clear)
    → StandsAll n w xs es
    → all_wide w xs ≡ true
all_wide_lem n w [] es h = refl
all_wide_lem n w (x ∷ xs) [] h = absurd h
all_wide_lem n w (x ∷ xs) (e ∷ es) h =
    let rest = all_wide_lem n w xs es h.1 in rw rest (ground (arith, h.0.width))

expand_cost :
    (m k count : ℕ) → count * (m ^ suc k * k) ≡ mpc_cross_product_expand_triple_cost count (suc k) m
unfolding mpc_cross_product_expand_triple_cost
expand_cost m zero count = omega arith
expand_cost m (suc k) count =
    let several : leb (suc (suc k)) 1 ≡ false = ground arith in
    let one_less : suc (suc k) - 1 ≡ suc k = omega arith in
    rw (several, one_less) (sym (mul_assoc count (m ^ suc (suc k)) (suc k)))

module _ {n : ℕ} (pos : 0 < n) {bag : Bag} (good : IsGoodBag n bag) (r m b : ℕ) (small : b ≤ 64)
    (many : 0 < m) (k : ℕ) where
  -- The rows of one window.
  shared_combos_lem :
      (sorted : List SharedSortElement) (es : List Clear) (base v count : ℕ) {i : ℕ}
      → i ≤ length bag
      → StandsAll n (1 + r) sorted es
      → base + suc k * m ≤ length sorted
      → Outcome bag i
          (count * k)
          (RowsOf n (suc k * r) (clear_combos es (suc k) m b base v count))
          (shared_combos sorted m b r base count (digits_of m (suc k) v))
  unfolding shared_combos clear_combos
  shared_combos_lem sorted es base v zero fits h inside =
      Outcome-cost (omega arith) (Outcome-pure [] fits ([], refl, tt))
  shared_combos_lem sorted es base v (suc count) {i} fits h inside =
      let digits = digits_of m (suc k) v in
      let len : length (digits_of m k (v / m)) ≡ k = length-digits_of m k (v / m) in
      Outcome-cost {c = length (digits_of m k (v / m)) + (count * k + 0)} (omega (arith, len)) (
        Outcome-bind
          (shared_row_lem pos good r m b small sorted es base (v % m) (digits_of m k (v / m)) fits h
            (digits_of-All m (suc k) v many) (rw len inside))
          λ row fits1 h1.
            Outcome-bind
              (subst
                (λ ds.
                  Outcome bag (i + length (digits_of m k (v / m))) (count * k)
                    (RowsOf n (suc k * r) (clear_combos es (suc k) m b base (v + 1) count))
                    (shared_combos sorted m b r base count ds))
                (sym (increment-digits_of m (suc k) v many))
                (shared_combos_lem sorted es base (v + 1) count fits1 h inside))
              λ rest fits2 h2.
                Outcome-pure (row ∷ rest) fits2
                  (h1.0 ∷ h2.0, rw (h1.1, h2.1) refl, (rw len at h1.2, h2.2)))

  -- The rows of all windows.
  shared_windows_lem :
      (sorted : List SharedSortElement) (es : List Clear) (base count : ℕ) {i : ℕ}
      → i ≤ length bag
      → StandsAll n (1 + r) sorted es
      → base + count * (suc k * m) ≤ length sorted
      → Outcome bag i
          (count * (m ^ suc k * k))
          (RowsOf n (suc k * r) (clear_windows es (suc k) m b base count))
          (shared_windows sorted (suc k) m b r count base)
  unfolding shared_windows clear_windows
  shared_windows_lem sorted es base zero fits h inside =
      Outcome-cost (omega arith) (Outcome-pure [] fits ([], refl, tt))
  shared_windows_lem sorted es base (suc count) {i} fits h inside =
      Outcome-cost {c = m ^ suc k * k + (count * (m ^ suc k * k) + 0)} (omega arith) (
        Outcome-bind
          (subst
            (λ ds.
              Outcome bag i (m ^ suc k * k)
                (RowsOf n (suc k * r) (clear_combos es (suc k) m b base 0 (m ^ suc k)))
                (shared_combos sorted m b r base (m ^ suc k) ds))
            (sym (digits_of-zero m (suc k)))
            (shared_combos_lem sorted es base 0 (m ^ suc k) fits h (omega (arith, inside))))
          λ rows fits1 h1.
            Outcome-bind
              (shared_windows_lem sorted es (base + suc k * m) count fits1 h
                (omega (arith, inside)))
              λ rest fits2 h2. Outcome-pure (rows ++ rest) fits2 (
                h1.0 ++ h2.0,
                rw (h1.1, h2.1) refl,
                StandsRows-append n (suc k * r) rows rest h1.0 h2.0 h1.2 h2.2,
              ))

  -- For at least one sharing party, a bag of triples for them, and `count` windows of N * M elements,
  -- N and M at least 1 and M ^ N at most 2^40, whose payloads are a flag and `r` bits: the expansion
  -- started inside the bag either consumes exactly `mpcCrossProductExpandTripleCost` triples and
  -- returns, in order, the rows that the digits of 0 to M ^ N - 1 pick in each window; or it finds fewer
  -- triples left and throws.
  pub mpc_cross_product_expand_lem :
      (sorted : List SharedSortElement) (es : List Clear) (count : ℕ) {i : ℕ}
      → i ≤ length bag
      → m ^ suc k ≤ 2 ^ 40
      → StandsAll n (1 + r) sorted es
      → length sorted ≡ count * (suc k * m)
      → Outcome bag i
          (mpc_cross_product_expand_triple_cost count (suc k) m)
          (RowsOf n (suc k * r) (clear_windows es (suc k) m b 0 count))
          (mpc_cross_product_expand sorted (suc k) m b r)
  unfolding mpc_cross_product_expand
  mpc_cross_product_expand_lem sorted es count {i} fits bounded h size =
      let window = suc k * m in
      let some_window : 0 < window = omega (arith, many) in
      let whole : length sorted % window ≡ 0 =
        ap (λ t. t % window) size ∙ mul-mod_left count window in
      let exact : length sorted / window ≡ count =
        ap (λ t. t / window) size ∙ mul-div_cancel count some_window in
      Outcome-require (not (suc k == 0 || m == 0)) _ (ground (arith, many)) (
        Outcome-require (length sorted % window == 0) _ (rw whole refl) (
          Outcome-require (leb (m ^ suc k) (2 ^ 40)) _ (ground (arith, bounded)) (
            Outcome-require (all_wide (1 + r) sorted) _ (all_wide_lem n (1 + r) sorted es h) (
              Outcome-cost (expand_cost m k count) (
                subst
                  (λ c.
                    Outcome bag i (count * (m ^ suc k * k))
                      (RowsOf n (suc k * r) (clear_windows es (suc k) m b 0 count))
                      (shared_windows sorted (suc k) m b r c 0))
                  (sym exact)
                  (shared_windows_lem sorted es 0 count fits h (omega (arith, size))))))))

-- ===== src/Bitonic/Network.antt =====
-- The network on a part of the vector of 2^k elements: it succeeds, it permutes the vector, and the
-- number of its compare-and-swaps depends on k only.
use psa_for_multiparty.Common.{
  ℕ, zero, suc, ◌+◌, ◌/◌, ◌^◌, ◌≤◌, ◌<◌, Bool, true, false, Option, some, List, [], ◌∷◌, length,
  get_elem?, set, leb, ◌≡◌, refl, ap, ◌∙◌, choose_false, Bool-cases, inl, inr, length-set, arith,
}
use psa_for_multiparty.Common.Fail.{◌>>=◌}
use mathlib.Core.Option.{some_inj}
use native.Mathlib.Nat.{pow-suc}
use psa_for_multiparty.Bitonic.{
  SortElement, same_bool, SortState, compare_and_swap, compare_pairs, bitonic_merge,
  bitonic_sort_helper,
}

-- The compare-and-swaps of a merge and of a sort of 2^k elements.
abbrev pub merge_count : ℕ → ℕ
merge_count zero = 0
merge_count (suc k) = 2 ^ k + (merge_count k + merge_count k)

abbrev pub sort_count : ℕ → ℕ
sort_count zero = 0
sort_count (suc k) = sort_count k + (sort_count k + merge_count (suc k))

module _ {ℓ} {A : Type ℓ} where
  -- The sum of a weight over a vector; equal for all weights, two vectors are permutations of each
  -- other.
  abbrev pub total : (A → ℕ) → List A → ℕ
  total f [] = 0
  total f (x ∷ xs) = f x + total f xs

  pub total-set :
      (f : A → ℕ) (xs : List A) (i : ℕ) (a v : A)
      → get_elem? xs i ≡ some a
      → total f (set xs i v) + f a ≡ total f xs + f v
  total-set f [] i a v e = absurd (ground (arith, e))
  total-set f (x ∷ xs) zero a v e = omega (arith, ap f (some_inj.0 e))
  total-set f (x ∷ xs) (suc i) a v e = omega (arith, total-set f xs i a v e)

  pub get_elem?-set :
      (xs : List A) (i j : ℕ) (v : A) → i < j → get_elem? (set xs i v) j ≡ get_elem? xs j
  get_elem?-set [] i j v lt = refl
  get_elem?-set (x ∷ xs) zero zero v lt = absurd (omega arith)
  get_elem?-set (x ∷ xs) zero (suc j) v lt = refl
  get_elem?-set (x ∷ xs) (suc i) zero v lt = absurd (omega arith)
  get_elem?-set (x ∷ xs) (suc i) (suc j) v lt = get_elem?-set xs i j v (omega arith)

  pub index_in_range : (xs : List A) (i : ℕ) → i < length xs → (a : A) × (get_elem? xs i ≡ some a)
  index_in_range [] i lt = absurd (omega arith)
  index_in_range (x ∷ xs) zero lt = (x, refl)
  index_in_range (x ∷ xs) (suc i) lt = index_in_range xs i (omega arith)

module _ {Block : Type 0} (cmp : SortElement Block → SortElement Block → Bool) where
  -- The vectors hold the same elements.
  abbrev pub IsRearranged : List (SortElement Block) → List (SortElement Block) → Type 0
  IsRearranged xs ys =
      (length ys ≡ length xs) × ((f : SortElement Block → ℕ) → total f ys ≡ total f xs)

  -- A run that succeeds, rearranges the vector, and does `count` compare-and-swaps.
  abbrev pub Runs : ℕ → SortState Block → Option (SortState Block) → Type 0
  Runs count s o = (t : SortState Block) × (o ≡ some t) × IsRearranged s.0 t.0 × (t.1 ≡ s.1 + count)

  compare_and_swap_lem :
      (xs : List (SortElement Block)) (i j : ℕ) (ascending : Bool)
      → i < j
      → j < length xs
      → (ys : List (SortElement Block)) × (compare_and_swap cmp xs i j ascending ≡ some ys)
        × IsRearranged xs ys
  unfolding compare_and_swap
  compare_and_swap_lem xs i j ascending lt inside =
      let (a, ea) = index_in_range xs i (omega arith) in
      let (b, eb) = index_in_range xs j inside in
      elim (Bool-cases (same_bool (cmp b a) ascending)) [
        | inl e ↦ (
          set (set xs i b) j a,
          rw (ea, eb, e) refl,
          (
            length-set (set xs i b) j a ∙ length-set xs i b,
            λ f. omega (
              arith,
              total-set f xs i a b ea,
              total-set f (set xs i b) j b a (get_elem?-set xs i j b lt ∙ eb),
            ),
          ),
        )
        | inr e ↦ (xs, rw (ea, eb, e) refl, (refl, λ f. refl))
      ]

  bind-Runs :
      (c d : ℕ) (s : SortState Block) (o : Option (SortState Block))
      (g : SortState Block → Option (SortState Block))
      → Runs c s o
      → ((t : SortState Block) → length t.0 ≡ length s.0 → Runs d t (g t))
      → Runs (c + d) s (o >>= g)
  bind-Runs c d s o g (t, e, (len, sums), n) h =
      let (u, e', (len', sums'), n') = h t len in
      (u, rw e e', (len' ∙ len, λ f. sums' f ∙ sums f), omega (arith, n, n'))

  pub compare_pairs_lem :
      (count i k : ℕ) (ascending : Bool) (s : SortState Block)
      → 1 ≤ k
      → i + k + count ≤ length s.0
      → Runs count s (compare_pairs cmp count i k ascending s)
  unfolding compare_pairs
  compare_pairs_lem zero i k ascending s pos le = (s, refl, (refl, λ f. refl), omega arith)
  compare_pairs_lem (suc count) i k ascending s pos le =
      let (ys, e, (len, sums)) =
        compare_and_swap_lem s.0 i (i + k) ascending (omega arith) (omega arith) in
      let (t, e', (len', sums'), n) =
        compare_pairs_lem count (i + 1) k ascending (ys, s.1 + 1) pos (omega arith) in
      (t, rw e e', (len' ∙ len, λ f. sums' f ∙ sums f), omega (arith, n))

  pub half : (k : ℕ) → 2 ^ suc k / 2 ≡ 2 ^ k
  half k = omega (arith, pow-suc 2 k)

  pub positive_power : (k : ℕ) → 1 ≤ 2 ^ k
  positive_power zero = omega arith
  positive_power (suc k) = omega (arith, pow-suc 2 k, positive_power k)

  pub not_small : (k : ℕ) → leb (2 ^ suc k) 1 ≡ false
  not_small k = ground (arith, pow-suc 2 k, positive_power k)

  pub merge_step :
      (fuel low cnt : ℕ) (ascending : Bool) (s : SortState Block)
      → leb cnt 1 ≡ false
      → bitonic_merge cmp (suc fuel) low cnt ascending s ≡ (
          compare_pairs cmp (cnt / 2) low (cnt / 2) ascending s >>= (λ s1.
            bitonic_merge cmp fuel low (cnt / 2) ascending s1
            >>= (λ s2. bitonic_merge cmp fuel (low + cnt / 2) (cnt / 2) ascending s2)))
  unfolding bitonic_merge
  merge_step fuel low cnt ascending s h = choose_false (leb cnt 1) (some s) _ h

  pub sort_step :
      (fuel low cnt : ℕ) (ascending : Bool) (s : SortState Block)
      → leb cnt 1 ≡ false
      → bitonic_sort_helper cmp (suc fuel) low cnt ascending s ≡ (
          bitonic_sort_helper cmp fuel low (cnt / 2) true s >>= (λ s1.
            bitonic_sort_helper cmp fuel (low + cnt / 2) (cnt / 2) false s1
            >>= (λ s2. bitonic_merge cmp (suc fuel) low cnt ascending s2)))
  unfolding bitonic_sort_helper
  sort_step fuel low cnt ascending s h = choose_false (leb cnt 1) (some s) _ h

  bitonic_merge_lem :
      (k fuel low : ℕ) (ascending : Bool) (s : SortState Block)
      → k < fuel
      → low + 2 ^ k ≤ length s.0
      → Runs (merge_count k) s (bitonic_merge cmp fuel low (2 ^ k) ascending s)
  unfolding bitonic_merge
  bitonic_merge_lem k zero low ascending s lt le = absurd (omega arith)
  bitonic_merge_lem zero (suc fuel) low ascending s lt le =
      (s, refl, (refl, λ f. refl), omega arith)
  bitonic_merge_lem (suc k) (suc fuel) low ascending s lt le =
      rw (merge_step fuel low (2 ^ suc k) ascending s (not_small k), half k)
        (bind-Runs _ _ s (compare_pairs cmp (2 ^ k) low (2 ^ k) ascending s) _
          (compare_pairs_lem (2 ^ k) low (2 ^ k) ascending s (positive_power k)
            (omega (arith, le, pow-suc 2 k)))
          λ t len.
            bind-Runs _ _ t (bitonic_merge cmp fuel low (2 ^ k) ascending t) _
              (bitonic_merge_lem k fuel low ascending t (omega arith)
                (omega (arith, le, len, pow-suc 2 k)))
              λ u len'.
                bitonic_merge_lem k fuel (low + 2 ^ k) ascending u (omega arith)
                  (omega (arith, le, len, len', pow-suc 2 k)))

  -- For every comparator, every k, fuel above k and every part of 2^k elements within the vector: the
  -- network succeeds, its vector is a rearrangement of the one before, and the number of
  -- compare-and-swaps depends on k only.
  pub bitonic_sort_helper_lem :
      (k fuel low : ℕ) (ascending : Bool) (s : SortState Block)
      → k < fuel
      → low + 2 ^ k ≤ length s.0
      → Runs (sort_count k) s (bitonic_sort_helper cmp fuel low (2 ^ k) ascending s)
  unfolding bitonic_sort_helper
  bitonic_sort_helper_lem k zero low ascending s lt le = absurd (omega arith)
  bitonic_sort_helper_lem zero (suc fuel) low ascending s lt le =
      (s, refl, (refl, λ f. refl), omega arith)
  bitonic_sort_helper_lem (suc k) (suc fuel) low ascending s lt le =
      rw (sort_step fuel low (2 ^ suc k) ascending s (not_small k), half k)
        (bind-Runs _ _ s (bitonic_sort_helper cmp fuel low (2 ^ k) true s) _
          (bitonic_sort_helper_lem k fuel low true s (omega arith) (omega (arith, le, pow-suc 2 k)))
          λ t len.
            bind-Runs _ _ t (bitonic_sort_helper cmp fuel (low + 2 ^ k) (2 ^ k) false t) _
              (bitonic_sort_helper_lem k fuel (low + 2 ^ k) false t (omega arith)
                (omega (arith, le, len, pow-suc 2 k)))
              λ u len'.
                bitonic_merge_lem (suc k) (suc fuel) low ascending u lt
                  (omega (arith, le, len, len')))

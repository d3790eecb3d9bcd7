-- ===== src/Bitonic/Ordered.antt =====
-- The sort of a vector: its keys come out in order, and below the sentinel's key nothing is lost.
use psa_for_multiparty.Common.{
  ℕ, zero, suc, ◌+◌, ◌-◌, ◌^◌, ◌<◌, ◌≡◌, refl, sym, ap, ◌∙◌, subst, choose_true, length-append,
  length-take, true, false, ltb, leb, Option, some, none, List, [], ◌∷◌, ◌++◌, length, get_elem?,
  take, replicate, Bool-cases, inl, inr, arith, All,
}
use mathlib.Core.Option.{some_inj}
use psa_for_multiparty.Bitonic.{
  SortElement, SortState, default_less, bitonic_sort_helper, next_power_of_two,
  oblivious_bitonic_sort, is_sorted_ascending, oblivious_bitonic_sort_with_comparator,
}
use psa_for_multiparty.Bitonic.Network.{IsRearranged, total, bitonic_sort_helper_lem}
use psa_for_multiparty.Bitonic.Function.{sort}
use psa_for_multiparty.Bitonic.Keys.{minimum, maximum, sort_increases}
use psa_for_multiparty.Bitonic.Tracked.{bitonic_sort_helper_keys}
use psa_for_multiparty.Bitonic.Total.{
  padded, padded-length, sentinel, sort_of_run, next_power_of_two_lem, lt-power,
}
use psa_for_multiparty.Bitonic.Increasing.{
  Increasing, Increasing-indices, Increasing-take, Increasing-is_sorted_ascending, is_real,
  real_weight, first_real,
}

abbrev pub key_of : {Block : Type 0} → Option (SortElement Block) → ℕ
key_of none = 0
key_of (some a) = a.key

from_zero : (i : ℕ) → 0 + i ≡ i
from_zero i = omega arith

index_inside {ℓ} :
    {A : Type ℓ} (xs : List A) (i : ℕ) (a : A) → get_elem? xs i ≡ some a → i < length xs
index_inside [] i a e = absurd (ground (arith, e))
index_inside (x ∷ xs) zero a e = omega arith
index_inside (x ∷ xs) (suc i) a e = omega (arith, index_inside xs i a e)

module _ {Block : Type 0} where
  abbrev pub HasRealKey : SortElement Block → Type 0
  HasRealKey x = x.key < 2 ^ 64 - 1

  total-append :
      (f : SortElement Block → ℕ) (xs ys : List (SortElement Block))
      → total f (xs ++ ys) ≡ total f xs + total f ys
  total-append f [] ys = omega arith
  total-append f (x ∷ xs) ys = omega (arith, total-append f xs ys)

  total-replicate :
      (f : SortElement Block → ℕ) (n : ℕ) (x : SortElement Block)
      → f x ≡ 0
      → total f (replicate n x) ≡ 0
  total-replicate f zero x e = refl
  total-replicate f (suc n) x e = omega (arith, e, total-replicate f n x e)

  total_is_real : (xs : List (SortElement Block)) → All HasRealKey xs → total is_real xs ≡ length xs
  total_is_real [] h = refl
  total_is_real (x ∷ xs) (lt, h) =
      let small : ltb x.key (2 ^ 64 - 1) ≡ true = ground (arith, lt) in
      rw small (omega (arith, total_is_real xs h))

  total_real_weight :
      (f : SortElement Block → ℕ) (xs : List (SortElement Block))
      → All HasRealKey xs
      → total (real_weight f) xs ≡ total f xs
  total_real_weight f [] h = refl
  total_real_weight f (x ∷ xs) (lt, h) =
      let small : ltb x.key (2 ^ 64 - 1) ≡ true = ground (arith, lt) in
      rw small (ap (λ t. f x + t) (total_real_weight f xs h))

  -- A run of the network on the padded vector.
  record OrderedRun (zero_block : Block) (xs : List (SortElement Block)) : Type 0 where
    vector : List (SortElement Block)
    result : oblivious_bitonic_sort zero_block xs ≡ some (take (length xs) vector)
    moved : IsRearranged default_less (padded default_less zero_block xs) vector
    increasing : Increasing vector

  -- The network makes the keys of a vector of 2^k elements increase.
  pub run_Increasing :
      (k fuel : ℕ) (row : List (SortElement Block)) (t : SortState Block)
      → k < fuel
      → length row ≡ 2 ^ k
      → bitonic_sort_helper default_less fuel 0 (2 ^ k) true (row, 0) ≡ some t
      → Increasing t.0
  run_Increasing k fuel row t lt long run =
      let f : ℕ → ℕ = λ i. key_of (get_elem? row i) in
      let F = sort minimum maximum k 0 true f in
      let (t', run', len, keys) =
        bitonic_sort_helper_keys k fuel 0 true f (row, 0) lt (omega (arith, long))
          (λ i a e. ap key_of (sym e)) in
      let same : t' ≡ t = some_inj.0 (sym run' ∙ run) in
      subst (λ (u : SortState Block). Increasing u.0) same
        (Increasing-indices t'.0 λ i j a b h ea eb.
          let inside : j < 2 ^ k = omega (arith, index_inside t'.0 j b eb, len, long) in
          let ordered = sort_increases k 0 f i j h inside in
          omega (arith, keys i a ea, keys j b eb, ordered, ap F (from_zero i), ap F (from_zero j)))

  ordered_run :
      (zero_block : Block) (xs : List (SortElement Block))
      → leb (length xs) 1 ≡ false
      → OrderedRun zero_block xs
  unfolding oblivious_bitonic_sort
  ordered_run zero_block xs many =
      let n = length xs in
      let (k, power, le) = next_power_of_two_lem n many in
      let row = padded default_less zero_block xs in
      let long = padded-length default_less zero_block xs k power le in
      let enough : k < next_power_of_two n = omega (arith, power, lt-power k) in
      let (t, run, moved, _) =
        bitonic_sort_helper_lem default_less k (next_power_of_two n) 0 true (row, 0) enough
          (omega (arith, long)) in
      record {
        vector = t.0;
        result = sort_of_run default_less zero_block xs k t many power run;
        moved = moved;
        increasing = run_Increasing k (next_power_of_two n) row t enough long run;
      }

  few_sorted :
      (xs : List (SortElement Block)) → leb (length xs) 1 ≡ true → is_sorted_ascending xs ≡ true
  unfolding is_sorted_ascending
  few_sorted [] h = refl
  few_sorted (x ∷ []) h = refl
  few_sorted (x ∷ y ∷ xs) h = absurd (ground (arith, h))

  few_result :
      (zero_block : Block) (xs : List (SortElement Block))
      → leb (length xs) 1 ≡ true
      → oblivious_bitonic_sort zero_block xs ≡ some xs
  unfolding oblivious_bitonic_sort oblivious_bitonic_sort_with_comparator
  few_result zero_block xs h = choose_true (leb (length xs) 1) (some xs) _ h

  -- Of the rearranged vector and its sentinels, the first part is the vector rearranged.
  pub first-IsRearranged :
      (xs : List (SortElement Block)) (m : ℕ) (s : SortElement Block)
      (zs : List (SortElement Block))
      → All HasRealKey xs
      → ltb s.key (2 ^ 64 - 1) ≡ false
      → IsRearranged default_less (xs ++ replicate m s) zs
      → Increasing zs
      → IsRearranged default_less xs (take (length xs) zs)
  first-IsRearranged xs m s zs h large (len, sums) increasing =
      let n = length xs in
      let reals : total is_real zs ≡ n =
        sums is_real
        ∙ total-append is_real xs (replicate m s)
        ∙ omega (arith, total_is_real xs h, total-replicate is_real m s (rw large refl)) in
      (
        length-take n zs (omega (arith, len, length-append xs (replicate m s))),
        λ f.
            first_real f n zs increasing reals
            ∙ sums (real_weight f)
            ∙ total-append (real_weight f) xs (replicate m s)
            ∙ omega (
              arith,
              total_real_weight f xs h,
              total-replicate (real_weight f) m s (rw large refl),
            ),
      )

  -- For every vector, of any length and with any keys: the sort succeeds, and its keys come out in
  -- ascending order.
  pub is_sorted_ascending-oblivious_bitonic_sort :
      (zero_block : Block) (xs : List (SortElement Block))
      → (ys : List (SortElement Block)) × (oblivious_bitonic_sort zero_block xs ≡ some ys)
        × (is_sorted_ascending ys ≡ true)
  is_sorted_ascending-oblivious_bitonic_sort zero_block xs = elim (Bool-cases (leb (length xs) 1)) [
    | inl few ↦ (xs, few_result zero_block xs few, few_sorted xs few)
    | inr many ↦
        let r = ordered_run zero_block xs many in
        (
          take (length xs) r.vector,
          r.result,
          Increasing-is_sorted_ascending _ (Increasing-take (length xs) r.vector r.increasing),
        )
  ]

  few-Increasing : (xs : List (SortElement Block)) → leb (length xs) 1 ≡ true → Increasing xs
  few-Increasing [] h = tt
  few-Increasing (x ∷ []) h = (tt, tt)
  few-Increasing (x ∷ y ∷ xs) h = absurd (ground (arith, h))

  pub oblivious_bitonic_sort-Increasing :
      (zero_block : Block) (xs : List (SortElement Block))
      → All HasRealKey xs
      → (ys : List (SortElement Block)) × (oblivious_bitonic_sort zero_block xs ≡ some ys)
        × Increasing ys
        × IsRearranged default_less xs ys
  oblivious_bitonic_sort-Increasing zero_block xs h = elim (Bool-cases (leb (length xs) 1)) [
    | inl few ↦ (xs, few_result zero_block xs few, few-Increasing xs few, (refl, λ f. refl))
    | inr many ↦
        let r = ordered_run zero_block xs many in
        (
          take (length xs) r.vector,
          r.result,
          Increasing-take (length xs) r.vector r.increasing,
          first-IsRearranged xs (next_power_of_two (length xs) - length xs)
              (sentinel default_less zero_block xs) r.vector h refl r.moved r.increasing,
        )
  ]

  -- For every vector whose keys are below the sentinel's 2^64 - 1: the sort succeeds, and its result
  -- is a rearrangement of the vector in ascending order of the keys.
  pub oblivious_bitonic_sort-IsRearranged :
      (zero_block : Block) (xs : List (SortElement Block))
      → All HasRealKey xs
      → (ys : List (SortElement Block)) × (oblivious_bitonic_sort zero_block xs ≡ some ys)
        × (is_sorted_ascending ys ≡ true)
        × IsRearranged default_less xs ys
  oblivious_bitonic_sort-IsRearranged zero_block xs h =
      let (ys, result, increasing, moved) = oblivious_bitonic_sort-Increasing zero_block xs h in
      (ys, result, Increasing-is_sorted_ascending ys increasing, moved)

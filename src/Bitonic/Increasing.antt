-- ===== src/Bitonic/Increasing.antt =====
-- Vectors whose keys increase.
use psa_for_multiparty.Common.{
  map, subst, ℕ, zero, suc, ◌+◌, ◌-◌, ◌^◌, ◌≤◌, ◌≡◌, refl, sym, ap, true, false, ltb, if◌then◌else◌,
  some, List, [], ◌∷◌, get_elem?, take, Bool-cases, inl, inr, arith, All,
}
use psa_for_multiparty.Bitonic.{SortElement, is_sorted_ascending}
use psa_for_multiparty.Bitonic.Network.{total}

module _ {Block : Type 0} where
  abbrev Above : ℕ → List (SortElement Block) → Type 0
  Above t xs = All (λ x. t ≤ x.key) xs

  abbrev pub Increasing : List (SortElement Block) → Type 0
  Increasing [] = Unit
  Increasing (x ∷ xs) = Above x.key xs × Increasing xs

  Above-indices :
      (t : ℕ) (xs : List (SortElement Block))
      → ((i : ℕ) (a : SortElement Block) → get_elem? xs i ≡ some a → t ≤ a.key)
      → Above t xs
  Above-indices t [] h = tt
  Above-indices t (x ∷ xs) h = (h 0 x refl, Above-indices t xs (λ i a e. h (suc i) a e))

  pub Increasing-indices :
      (xs : List (SortElement Block))
      → ((i j : ℕ) (a b : SortElement Block)
          → i ≤ j
          → get_elem? xs i ≡ some a
          → get_elem? xs j ≡ some b
          → a.key ≤ b.key)
      → Increasing xs
  Increasing-indices [] h = tt
  Increasing-indices (x ∷ xs) h = (
    Above-indices x.key xs (λ i a e. h 0 (suc i) x a (omega arith) refl e),
    Increasing-indices xs (λ i j a b le e e'. h (suc i) (suc j) a b (omega arith) e e'),
  )

  Above-take : (t n : ℕ) (xs : List (SortElement Block)) → Above t xs → Above t (take n xs)
  Above-take t zero xs h = tt
  Above-take t (suc n) [] h = tt
  Above-take t (suc n) (x ∷ xs) (le, h) = (le, Above-take t n xs h)

  pub Increasing-take :
      (n : ℕ) (xs : List (SortElement Block)) → Increasing xs → Increasing (take n xs)
  Increasing-take zero xs h = tt
  Increasing-take (suc n) [] h = tt
  Increasing-take (suc n) (x ∷ xs) (above, h) =
      (Above-take x.key n xs above, Increasing-take n xs h)

  pub Increasing-is_sorted_ascending :
      (xs : List (SortElement Block)) → Increasing xs → is_sorted_ascending xs ≡ true
  unfolding is_sorted_ascending
  Increasing-is_sorted_ascending [] h = refl
  Increasing-is_sorted_ascending (x ∷ []) h = refl
  Increasing-is_sorted_ascending (x ∷ y ∷ rest) ((le, _), h) =
      let ordered : ltb y.key x.key ≡ false = ground (arith, le) in
      rw ordered (Increasing-is_sorted_ascending (y ∷ rest) h)

  abbrev pub is_real : SortElement Block → ℕ
  is_real x = if ltb x.key (2 ^ 64 - 1) then 1 else 0

  -- A weight on the elements below the sentinel's key only.
  abbrev pub real_weight : (SortElement Block → ℕ) → SortElement Block → ℕ
  real_weight f x = if ltb x.key (2 ^ 64 - 1) then f x else 0

  none_real :
      (f : SortElement Block → ℕ) (xs : List (SortElement Block))
      → total is_real xs ≡ 0
      → total (real_weight f) xs ≡ 0
  none_real f [] h = refl
  none_real f (x ∷ xs) h = elim (Bool-cases (ltb x.key (2 ^ 64 - 1))) [
    | inl e ↦ absurd (ground (arith, h, e))
    | inr e ↦
        let rest : total is_real xs ≡ 0 = ground (arith, h, e) in
        rw e (omega (arith, none_real f xs rest))
  ]

  Above-real :
      (t : ℕ) (xs : List (SortElement Block)) → 2 ^ 64 - 1 ≤ t → Above t xs → total is_real xs ≡ 0
  Above-real t [] le h = refl
  Above-real t (x ∷ xs) le (h, above) =
      let large : ltb x.key (2 ^ 64 - 1) ≡ false = ground (arith, le, h) in
      rw large (omega (arith, Above-real t xs le above))

  -- In order, the elements below the sentinel's key come first.
  pub first_real :
      (f : SortElement Block → ℕ) (n : ℕ) (xs : List (SortElement Block))
      → Increasing xs
      → total is_real xs ≡ n
      → total f (take n xs) ≡ total (real_weight f) xs
  first_real f zero xs h e = sym (none_real f xs e)
  first_real f (suc n) [] h e = absurd (omega (arith, e))
  first_real f (suc n) (x ∷ xs) (above, h) e = elim (Bool-cases (ltb x.key (2 ^ 64 - 1))) [
    | inl small ↦
        let rest : total is_real xs ≡ n = ground (arith, e, small) in
        rw small (ap (λ t. f x + t) (first_real f n xs h rest))
    | inr large ↦
        let rest : total is_real xs ≡ 0 = Above-real x.key xs (ground (arith, large)) above in
        absurd (ground (arith, e, large, rest))
  ]

  -- The order is that of the keys.
  pub Above-keys :
      (t : ℕ) (xs ys : List (SortElement Block))
      → map (λ x. x.key) xs ≡ map (λ x. x.key) ys
      → Above t ys
      → Above t xs
  Above-keys t [] ys e h = tt
  Above-keys t (x ∷ xs) [] e h = absurd (ground (arith, e))
  Above-keys t (x ∷ xs) (y ∷ ys) e (le, h) =
      let same : x.key ≡ y.key = cc e in
      let rest : map (λ (z : SortElement Block). z.key) xs ≡ map (λ z. z.key) ys = cc e in
      (omega (arith, same, le), Above-keys t xs ys rest h)

  pub Increasing-keys :
      (xs ys : List (SortElement Block))
      → map (λ x. x.key) xs ≡ map (λ x. x.key) ys
      → Increasing ys
      → Increasing xs
  Increasing-keys [] ys e h = tt
  Increasing-keys (x ∷ xs) [] e h = absurd (ground (arith, e))
  Increasing-keys (x ∷ xs) (y ∷ ys) e (above, h) =
      let same : x.key ≡ y.key = cc e in
      let rest : map (λ (z : SortElement Block). z.key) xs ≡ map (λ z. z.key) ys = cc e in
      (
        subst (λ t. Above t xs) (sym same) (Above-keys y.key xs ys rest above),
        Increasing-keys xs ys rest h,
      )

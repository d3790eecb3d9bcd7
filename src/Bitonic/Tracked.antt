-- ===== src/Bitonic/Tracked.antt =====
-- The network on the vector in place does to the keys what the network on arrays does.
use psa_for_multiparty.Common.{
  ℕ, zero, suc, ◌+◌, ◌^◌, ◌≤◌, ◌<◌, ◌≡◌, refl, sym, ap, ◌∙◌, ◌⊎◌, Bool, true, false, ltb, Option,
  some, List, [], ◌∷◌, length, get_elem?, set, length-set, Bool-cases, inl, inr, arith,
}
use psa_for_multiparty.Common.Fail.{◌>>=◌}
use mathlib.Core.Option.{some_inj}
use native.Mathlib.Nat.{pow-suc}
use psa_for_multiparty.Bitonic.{
  SortElement, SortState, same_bool, default_less, compare_and_swap, compare_pairs, bitonic_merge,
  bitonic_sort_helper,
}
use psa_for_multiparty.Bitonic.Function.{half, merge, sort}
use psa_for_multiparty.Bitonic.Keys.{minimum, maximum}
use psa_for_multiparty.Bitonic.Network.{
  index_in_range, get_elem?-set, positive_power, not_small, merge_step, sort_step,
}
use psa_for_multiparty.Bitonic.Pairs.{
  lower_key, upper_key, pairs, single_else, swapped_keys, kept_everywhere, ltb_keys, pairs_step,
  pairs-zero,
}
use psa_for_multiparty.Bitonic.Network

module _ {Block : Type 0} where
  -- The keys of the vector are those of the array.
  abbrev pub HasKeys : List (SortElement Block) → (ℕ → ℕ) → Type 0
  HasKeys xs f = (i : ℕ) (a : SortElement Block) → get_elem? xs i ≡ some a → a.key ≡ f i

  set_elsewhere :
      (xs : List (SortElement Block)) (i j : ℕ) (v a : SortElement Block)
      → get_elem? (set xs i v) j ≡ some a
      → ((j ≡ i) × (a ≡ v)) ⊎ ((¬ (j ≡ i)) × (get_elem? xs j ≡ some a))
  set_elsewhere [] i j v a e = absurd (ground (arith, e))
  set_elsewhere (x ∷ xs) zero zero v a e = inl (refl, sym (some_inj.0 e))
  set_elsewhere (x ∷ xs) zero (suc j) v a e = inr (λ h. omega (arith, h), e)
  set_elsewhere (x ∷ xs) (suc i) zero v a e = inr (λ h. omega (arith, h), e)
  set_elsewhere (x ∷ xs) (suc i) (suc j) v a e = elim (set_elsewhere xs i j v a e) [
    | inl (same, eq) ↦ inl (ap suc same, eq)
    | inr (other, eq) ↦ inr (λ h. other (omega (arith, h)), eq)
  ]

  module _ (ascending : Bool) (i k : ℕ) (f : ℕ → ℕ) (pos : 1 ≤ k) where
    compare_and_swap_keys :
        (xs : List (SortElement Block))
        → HasKeys xs f
        → i + k < length xs
        → (ys : List (SortElement Block)) × (compare_and_swap default_less xs i (i + k) ascending
            ≡ some ys)
          × (length ys ≡ length xs)
          × HasKeys ys (pairs ascending 1 i k f)
    unfolding compare_and_swap
    compare_and_swap_keys xs h inside =
        let (a, ea) = index_in_range xs i (omega arith) in
        let (b, eb) = index_in_range xs (i + k) inside in
        let ka : a.key ≡ f i = h i a ea in
        let kb : b.key ≡ f (i + k) = h (i + k) b eb in
        let test : same_bool (ltb b.key a.key) ascending
            ≡ same_bool (ltb (f (i + k)) (f i)) ascending =
          ap (λ t. same_bool t ascending) (ltb_keys ka kb) in
        elim (Bool-cases (same_bool (ltb b.key a.key) ascending)) [
          | inl e ↦ (
            set (set xs i b) (i + k) a,
            rw (ea, eb, e) refl,
            length-set (set xs i b) (i + k) a ∙ length-set xs i b,
            λ j c ec. elim (set_elsewhere (set xs i b) (i + k) j a c ec) [
              | inl (at, same) ↦
                  ap (λ x. x.key) same
                  ∙ ka
                  ∙ (swapped_keys ascending i k f pos (sym test ∙ e)).1
                  ∙ ap (pairs ascending 1 i k f) (sym at)
              | inr (off, ec') ↦ elim (set_elsewhere xs i j b c ec') [
                | inl (at, same) ↦
                    ap (λ x. x.key) same
                    ∙ kb
                    ∙ (swapped_keys ascending i k f pos (sym test ∙ e)).0
                    ∙ ap (pairs ascending 1 i k f) (sym at)
                | inr (off', ec'') ↦ h j c ec'' ∙ sym (single_else ascending i k f pos j off' off)
              ]
            ],
          )
          | inr e ↦ (
            xs,
            rw (ea, eb, e) refl,
            refl,
            λ j c ec. h j c ec ∙ kept_everywhere ascending i k f pos (sym test ∙ e) j,
          )
        ]

  -- A run that succeeds and has the keys of `f`.
  abbrev pub Tracks : (ℕ → ℕ) → SortState Block → Option (SortState Block) → Type 0
  Tracks f s o = (t : SortState Block) × (o ≡ some t) × (length t.0 ≡ length s.0) × HasKeys t.0 f

  bind-Tracks :
      (f g : ℕ → ℕ) (s : SortState Block) (o : Option (SortState Block))
      (r : SortState Block → Option (SortState Block))
      → Tracks f s o
      → ((t : SortState Block) → length t.0 ≡ length s.0 → HasKeys t.0 f → Tracks g t (r t))
      → Tracks g s (o >>= r)
  bind-Tracks f g s o r (t, e, len, keys) h =
      let (u, e', len', keys') = h t len keys in (u, rw e e', len' ∙ len, keys')

  compare_pairs_keys :
      (count i k : ℕ) (ascending : Bool) (f : ℕ → ℕ) (s : SortState Block)
      → 1 ≤ k
      → count ≤ k
      → i + k + count ≤ length s.0
      → HasKeys s.0 f
      → Tracks (pairs ascending count i k f) s (compare_pairs default_less count i k ascending s)
  unfolding compare_pairs
  compare_pairs_keys zero i k ascending f s pos small le h =
      (s, refl, refl, λ j a e. h j a e ∙ sym (pairs-zero ascending i k f j))
  compare_pairs_keys (suc count) i k ascending f s pos small le h =
      let (ys, e, len, keys) = compare_and_swap_keys ascending i k f pos s.0 h (omega arith) in
      let (t, e', len', keys') =
        compare_pairs_keys count (i + 1) k ascending (pairs ascending 1 i k f) (ys, s.1 + 1) pos
          (omega arith) (omega (arith, len, le)) keys in
      (
        t,
        rw e e',
        len' ∙ len,
        λ j a ea. keys' j a ea ∙ pairs_step ascending count i k f (omega arith) j,
      )

  bitonic_merge_keys :
      (d fuel low : ℕ) (ascending : Bool) (f : ℕ → ℕ) (s : SortState Block)
      → d < fuel
      → low + 2 ^ d ≤ length s.0
      → HasKeys s.0 f
      → Tracks
          (merge (lower_key ascending) (upper_key ascending) d low f)
          s
          (bitonic_merge default_less fuel low (2 ^ d) ascending s)
  unfolding bitonic_merge merge half
  bitonic_merge_keys d zero low ascending f s lt le h = absurd (omega arith)
  bitonic_merge_keys zero (suc fuel) low ascending f s lt le h = (s, refl, refl, h)
  bitonic_merge_keys (suc d) (suc fuel) low ascending f s lt le h =
      rw
        (
          merge_step default_less fuel low (2 ^ suc d) ascending s
              (not_small {Block = Block} default_less d),
          Network.half {Block = Block} default_less d,
        )
        (bind-Tracks _ _ s (compare_pairs default_less (2 ^ d) low (2 ^ d) ascending s) _
          (compare_pairs_keys (2 ^ d) low (2 ^ d) ascending f s
            (positive_power {Block = Block} default_less d) (omega arith)
            (omega (arith, le, pow-suc 2 d)) h)
          λ t len keys.
            bind-Tracks _ _ t (bitonic_merge default_less fuel low (2 ^ d) ascending t) _
              (bitonic_merge_keys d fuel low ascending _ t (omega arith)
                (omega (arith, le, len, pow-suc 2 d)) keys)
              λ u len' keys'.
                bitonic_merge_keys d fuel (low + 2 ^ d) ascending _ u (omega arith)
                  (omega (arith, le, len, len', pow-suc 2 d)) keys')

  pub bitonic_sort_helper_keys :
      (d fuel low : ℕ) (ascending : Bool) (f : ℕ → ℕ) (s : SortState Block)
      → d < fuel
      → low + 2 ^ d ≤ length s.0
      → HasKeys s.0 f
      → Tracks
          (sort minimum maximum d low ascending f)
          s
          (bitonic_sort_helper default_less fuel low (2 ^ d) ascending s)
  unfolding bitonic_sort_helper sort
  bitonic_sort_helper_keys d zero low ascending f s lt le h = absurd (omega arith)
  bitonic_sort_helper_keys zero (suc fuel) low ascending f s lt le h = (s, refl, refl, h)
  bitonic_sort_helper_keys (suc d) (suc fuel) low true f s lt le h =
      rw
        (
          sort_step default_less fuel low (2 ^ suc d) true s
              (not_small {Block = Block} default_less d),
          Network.half {Block = Block} default_less d,
        )
        (bind-Tracks _ _ s (bitonic_sort_helper default_less fuel low (2 ^ d) true s) _
          (bitonic_sort_helper_keys d fuel low true f s (omega arith)
            (omega (arith, le, pow-suc 2 d)) h)
          λ t len keys.
            bind-Tracks _ _ t (bitonic_sort_helper default_less fuel (low + 2 ^ d) (2 ^ d) false t)
              _
              (bitonic_sort_helper_keys d fuel (low + 2 ^ d) false _ t (omega arith)
                (omega (arith, le, len, pow-suc 2 d)) keys)
              λ u len' keys'.
                bitonic_merge_keys (suc d) (suc fuel) low true _ u lt (omega (arith, le, len, len'))
                  keys')
  bitonic_sort_helper_keys (suc d) (suc fuel) low false f s lt le h =
      rw
        (
          sort_step default_less fuel low (2 ^ suc d) false s
              (not_small {Block = Block} default_less d),
          Network.half {Block = Block} default_less d,
        )
        (bind-Tracks _ _ s (bitonic_sort_helper default_less fuel low (2 ^ d) true s) _
          (bitonic_sort_helper_keys d fuel low true f s (omega arith)
            (omega (arith, le, pow-suc 2 d)) h)
          λ t len keys.
            bind-Tracks _ _ t (bitonic_sort_helper default_less fuel (low + 2 ^ d) (2 ^ d) false t)
              _
              (bitonic_sort_helper_keys d fuel (low + 2 ^ d) false _ t (omega arith)
                (omega (arith, le, len, pow-suc 2 d)) keys)
              λ u len' keys'.
                bitonic_merge_keys (suc d) (suc fuel) low false _ u lt
                  (omega (arith, le, len, len')) keys')

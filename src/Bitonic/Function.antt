-- ===== src/Bitonic/Function.antt =====
-- The bitonic network on an array that is a function of the index, over any two operations: what
-- stands at the lower and at the upper index of a compare-and-swap. A network commutes with maps that
-- commute with the operations, changes nothing outside its part, and keeps a constant part.
use psa_for_multiparty.Common.{
  ℕ, zero, suc, ◌+◌, ◌-◌, ◌^◌, ◌≤◌, ◌<◌, ◌≡◌, refl, ap, ◌∙◌, Bool, true, false, ◌&&◌, ltb, leb,
  if◌then◌else◌, dec_lt, arith,
}
use mathlib.Core.Path.{fun_ext}
use native.Mathlib.Nat.{pow-suc}

module _ {A : Type 0} where
  -- The exchanges of the pairs (i, i + k) for i from low to low + k.
  unfoldable pub half : (A → A → A) → (A → A → A) → ℕ → ℕ → (ℕ → A) → ℕ → A
  half m M low k f x =
      if leb low x && ltb x (low + k)
      then m (f x) (f (x + k))
      else if leb (low + k) x && ltb x (low + k + k)
      then M (f (x - k)) (f x)
      else f x

  -- The merge of 2^d elements.
  unfoldable pub merge : (A → A → A) → (A → A → A) → ℕ → ℕ → (ℕ → A) → ℕ → A
  merge m M zero low f = f
  merge m M (suc d) low f = merge m M d (low + 2 ^ d) (merge m M d low (half m M low (2 ^ d) f))

  -- The sort of 2^d elements, ascending or descending.
  unfoldable pub sort : (A → A → A) → (A → A → A) → ℕ → ℕ → Bool → (ℕ → A) → ℕ → A
  sort m M zero low ascending f = f
  sort m M (suc d) low true f =
      merge m M (suc d) low (sort m M d (low + 2 ^ d) false (sort m M d low true f))
  sort m M (suc d) low false f =
      merge M m (suc d) low (sort m M d (low + 2 ^ d) false (sort m M d low true f))

  module _ (m M : A → A → A) where
    half-outside :
        (low k : ℕ) (f : ℕ → A) (x : ℕ)
        → (leb low x && ltb x (low + k + k)) ≡ false
        → half m M low k f x ≡ f x
    unfolding half
    half-outside low k f x h = ground (arith, h)

    pub merge-outside :
        (d low : ℕ) (f : ℕ → A) (x : ℕ)
        → (leb low x && ltb x (low + 2 ^ d)) ≡ false
        → merge m M d low f x ≡ f x
    unfolding merge
    merge-outside zero low f x h = refl
    merge-outside (suc d) low f x h =
        merge-outside d (low + 2 ^ d) _ x (ground (arith, h, pow-suc 2 d))
        ∙ merge-outside d low _ x (ground (arith, h, pow-suc 2 d))
        ∙ half-outside low (2 ^ d) f x (ground (arith, h, pow-suc 2 d))

    sort_outside_part :
        (d low x : ℕ)
        → (leb low x && ltb x (low + 2 ^ suc d)) ≡ false
        → ((leb low x && ltb x (low + 2 ^ d)) ≡ false)
          × ((leb (low + 2 ^ d) x && ltb x (low + 2 ^ d + 2 ^ d)) ≡ false)
    sort_outside_part d low x h = (ground (arith, h, pow-suc 2 d), ground (arith, h, pow-suc 2 d))

  pub sort-outside :
      (m M : A → A → A) (d low : ℕ) (ascending : Bool) (f : ℕ → A) (x : ℕ)
      → (leb low x && ltb x (low + 2 ^ d)) ≡ false
      → sort m M d low ascending f x ≡ f x
  unfolding sort
  sort-outside m M zero low ascending f x h = refl
  sort-outside m M (suc d) low true f x h =
      let (first, second) = sort_outside_part m M d low x h in
      merge-outside m M (suc d) low _ x h
      ∙ sort-outside m M d (low + 2 ^ d) false _ x second
      ∙ sort-outside m M d low true f x first
  sort-outside m M (suc d) low false f x h =
      let (first, second) = sort_outside_part m M d low x h in
      merge-outside M m (suc d) low _ x h
      ∙ sort-outside m M d (low + 2 ^ d) false _ x second
      ∙ sort-outside m M d low true f x first

  -- A part that is constant stays so.
  module _ (m M : A → A → A) (c : A) (hm : m c c ≡ c) (hM : M c c ≡ c) where
    half-constant :
        (low k : ℕ) (f : ℕ → A)
        → ((x : ℕ) → low ≤ x → x < low + k + k → f x ≡ c)
        → (x : ℕ) → low ≤ x
        → x < low + k + k
        → half m M low k f x ≡ c
    unfolding half
    half-constant low k f h x le lt = elim (dec_lt x (low + k)) [
      | yes below ↦
          let inside : (leb low x && ltb x (low + k)) ≡ true = ground arith in
          rw (inside, h x le lt, h (x + k) (omega arith) (omega arith)) hm
      | no above ↦
          let outside : (leb low x && ltb x (low + k)) ≡ false = ground arith in
          let inside : (leb (low + k) x && ltb x (low + k + k)) ≡ true = ground arith in
          rw (outside, inside, h x le lt, h (x - k) (omega arith) (omega arith)) hM
    ]

    pub merge-constant :
        (d low : ℕ) (f : ℕ → A)
        → ((x : ℕ) → low ≤ x → x < low + 2 ^ d → f x ≡ c)
        → (x : ℕ) → low ≤ x
        → x < low + 2 ^ d
        → merge m M d low f x ≡ c
    unfolding merge
    merge-constant zero low f h x le lt = h x le lt
    merge-constant (suc d) low f h x le lt =
        let k = 2 ^ d in
        let F = half m M low k f in
        let flat = half-constant low k f (λ y a b. h y a (omega (arith, b, pow-suc 2 d))) in
        elim (dec_lt x (low + k)) [
          | yes below ↦
              merge-outside m M d (low + k) _ x (ground arith)
              ∙ merge-constant d low F (λ y a b. flat y a (omega arith)) x le below
          | no above ↦
              merge-constant d (low + k) (merge m M d low F)
                (λ y a b. merge-outside m M d low F y (ground arith) ∙ flat y (omega arith) b) x
                (omega arith) (omega (arith, lt, pow-suc 2 d))
        ]

-- A map that commutes with the operations commutes with the networks.
module _ {A B : Type 0} (h : A → B) (m M : A → A → A) (m' M' : B → B → B)
    (hm : (a b : A) → h (m a b) ≡ m' (h a) (h b))
    (hM : (a b : A) → h (M a b) ≡ M' (h a) (h b)) where
  choose-map : (b : Bool) (x y : A) → h (if b then x else y) ≡ (if b then h x else h y)
  choose-map true x y = refl
  choose-map false x y = refl

  half-map_at :
      (low k : ℕ) (f : ℕ → A) (x : ℕ) → h (half m M low k f x) ≡ half m' M' low k (λ y. h (f y)) x
  unfolding half
  half-map_at low k f x =
      rw
        (
          choose-map (leb low x && ltb x (low + k)) (m (f x) (f (x + k))) _,
          choose-map (leb (low + k) x && ltb x (low + k + k)) (M (f (x - k)) (f x)) (f x),
          hm (f x) (f (x + k)),
          hM (f (x - k)) (f x),
        )
        refl

  half-map :
      (low k : ℕ) (f : ℕ → A) → (λ x. h (half m M low k f x)) ≡ half m' M' low k (λ x. h (f x))
  half-map low k f = fun_ext (half-map_at low k f)

  pub merge-map :
      (d low : ℕ) (f : ℕ → A) → (λ x. h (merge m M d low f x)) ≡ merge m' M' d low (λ x. h (f x))
  unfolding merge
  merge-map zero low f = refl
  merge-map (suc d) low f =
      merge-map d (low + 2 ^ d) _
      ∙ ap (λ g. merge m' M' d (low + 2 ^ d) g) (merge-map d low _)
      ∙ ap (λ g. merge m' M' d (low + 2 ^ d) (merge m' M' d low g)) (half-map low (2 ^ d) f)

module _ {A B : Type 0} (h : A → B) (m M : A → A → A) (m' M' : B → B → B)
    (hm : (a b : A) → h (m a b) ≡ m' (h a) (h b))
    (hM : (a b : A) → h (M a b) ≡ M' (h a) (h b)) where
  pub sort-map :
      (d low : ℕ) (ascending : Bool) (f : ℕ → A)
      → (λ x. h (sort m M d low ascending f x)) ≡ sort m' M' d low ascending (λ x. h (f x))
  unfolding sort
  sort-map zero low ascending f = refl
  sort-map (suc d) low true f =
      merge-map h m M m' M' hm hM (suc d) low _
      ∙ ap (λ g. merge m' M' (suc d) low g) (sort-map d (low + 2 ^ d) false _)
      ∙ ap (λ g. merge m' M' (suc d) low (sort m' M' d (low + 2 ^ d) false g))
          (sort-map d low true f)
  sort-map (suc d) low false f =
      merge-map h M m M' m' hM hm (suc d) low _
      ∙ ap (λ g. merge M' m' (suc d) low g) (sort-map d (low + 2 ^ d) false _)
      ∙ ap (λ g. merge M' m' (suc d) low (sort m' M' d (low + 2 ^ d) false g))
          (sort-map d low true f)

-- ===== src/Sort/Elements.antt =====
-- Vectors of shared elements against vectors in the clear, and one exchange in the clear.
use psa_for_multiparty.Common.{
  ℕ, zero, suc, ◌<◌, ◌≡◌, refl, sym, ap, ◌∙◌, Bool, true, false, some, List, [], ◌∷◌, ◌++◌, map,
  length, get_elem?, set, take, replicate, ltb, if◌then◌else◌, length-set, Bool-cases, inl, inr,
  arith,
}
use mathlib.Core.Option.{some_inj}
use psa_for_multiparty.Bitonic.{SortElement, same_bool, default_less, compare_and_swap}
use psa_for_multiparty.Bitonic.Network.{
  IsRearranged, total, total-set, get_elem?-set, index_in_range,
}
use psa_for_multiparty.Sort.{SharedSortElement}
use psa_for_multiparty.Sort.Swap.{Stands}

abbrev pub Clear : Type 0
Clear = SortElement Bool

-- Two vectors, element by element.
abbrev pub StandsAll : ℕ → ℕ → List SharedSortElement → List Clear → Type 0
StandsAll n w [] [] = Unit {0}
StandsAll n w [] (e ∷ es) = ⊥
StandsAll n w (x ∷ xs) [] = ⊥
StandsAll n w (x ∷ xs) (e ∷ es) = Stands n w x e × StandsAll n w xs es

module _ (n w : ℕ) where
  pub StandsAll-length :
      (xs : List SharedSortElement) (es : List Clear) → StandsAll n w xs es → length es ≡ length xs
  StandsAll-length [] [] h = refl
  StandsAll-length [] (e ∷ es) h = absurd h
  StandsAll-length (x ∷ xs) [] h = absurd h
  StandsAll-length (x ∷ xs) (e ∷ es) h = ap suc (StandsAll-length xs es h.1)

  pub StandsAll-get :
      (xs : List SharedSortElement) (es : List Clear) (i : ℕ)
      → StandsAll n w xs es
      → i < length xs
      → (x : SharedSortElement) × (e : Clear) × (get_elem? xs i ≡ some x)
        × (get_elem? es i ≡ some e)
        × Stands n w x e
  StandsAll-get [] es i h lt = absurd (omega arith)
  StandsAll-get (x ∷ xs) [] i h lt = absurd h
  StandsAll-get (x ∷ xs) (e ∷ es) zero h lt = (x, e, refl, refl, h.0)
  StandsAll-get (x ∷ xs) (e ∷ es) (suc i) h lt = StandsAll-get xs es i h.1 (omega arith)

  pub StandsAll-set :
      (xs : List SharedSortElement) (es : List Clear) (i : ℕ) {x : SharedSortElement} {e : Clear}
      → StandsAll n w xs es
      → Stands n w x e
      → StandsAll n w (set xs i x) (set es i e)
  StandsAll-set [] [] i h k = tt
  StandsAll-set [] (e ∷ es) i h k = absurd h
  StandsAll-set (x ∷ xs) [] i h k = absurd h
  StandsAll-set (x ∷ xs) (e ∷ es) zero h k = (k, h.1)
  StandsAll-set (x ∷ xs) (e ∷ es) (suc i) h k = (h.0, StandsAll-set xs es i h.1 k)

  pub StandsAll-append :
      (xs ys : List SharedSortElement) (ds es : List Clear)
      → StandsAll n w xs ds
      → StandsAll n w ys es
      → StandsAll n w (xs ++ ys) (ds ++ es)
  StandsAll-append [] ys [] es h k = k
  StandsAll-append [] ys (d ∷ ds) es h k = absurd h
  StandsAll-append (x ∷ xs) ys [] es h k = absurd h
  StandsAll-append (x ∷ xs) ys (d ∷ ds) es h k = (h.0, StandsAll-append xs ys ds es h.1 k)

  pub StandsAll-replicate :
      (k : ℕ) {x : SharedSortElement} {e : Clear}
      → Stands n w x e
      → StandsAll n w (replicate k x) (replicate k e)
  StandsAll-replicate zero h = tt
  StandsAll-replicate (suc k) h = (h, StandsAll-replicate k h)

  pub StandsAll-take :
      (k : ℕ) (xs : List SharedSortElement) (es : List Clear)
      → StandsAll n w xs es
      → StandsAll n w (take k xs) (take k es)
  StandsAll-take zero xs es h = tt
  StandsAll-take (suc k) [] [] h = tt
  StandsAll-take (suc k) [] (e ∷ es) h = absurd h
  StandsAll-take (suc k) (x ∷ xs) [] h = absurd h
  StandsAll-take (suc k) (x ∷ xs) (e ∷ es) h = (h.0, StandsAll-take k xs es h.1)

module _ {ℓ} {A : Type ℓ} where
  map-set {κ} :
      {B : Type κ} (f : A → B) (xs : List A) (i : ℕ) (v : A)
      → map f (set xs i v) ≡ set (map f xs) i (f v)
  map-set f [] i v = refl
  map-set f (x ∷ xs) zero v = refl
  map-set f (x ∷ xs) (suc i) v = ap (λ t. f x ∷ t) (map-set f xs i v)

  get_elem?-map {κ} :
      {B : Type κ} (f : A → B) (xs : List A) (i : ℕ) (a : A)
      → get_elem? xs i ≡ some a
      → get_elem? (map f xs) i ≡ some (f a)
  get_elem?-map f [] i a e = absurd (ground (arith, e))
  get_elem?-map f (x ∷ xs) zero a e = ap (λ t. some (f t)) (some_inj.0 e)
  get_elem?-map f (x ∷ xs) (suc i) a e = get_elem?-map f xs i a e

  set_same : (xs : List A) (i : ℕ) (a : A) → get_elem? xs i ≡ some a → set xs i a ≡ xs
  set_same [] i a e = refl
  set_same (x ∷ xs) zero a e = ap (λ t. t ∷ xs) (sym (some_inj.0 e))
  set_same (x ∷ xs) (suc i) a e = ap (λ t. x ∷ t) (set_same xs i a e)

abbrev pub keys : List Clear → List ℕ
keys es = map (λ e. e.key) es

-- Does the shared code exchange two keys? On equal keys it does not, in either direction.
abbrev pub swaps : Bool → ℕ → ℕ → Bool
swaps true a b = ltb b a
swaps false a b = ltb a b

abbrev pub exchanged : Bool → List Clear → ℕ → ℕ → Clear → Clear → List Clear
exchanged c es i j d e = set (set es i (if c then e else d)) j (if c then d else e)

keys-set :
    (es : List Clear) (i j : ℕ) (d e : Clear)
    → keys (set (set es i d) j e) ≡ set (set (keys es) i d.key) j e.key
keys-set es i j d e =
    map-set (λ t. t.key) (set es i d) j e ∙ ap (λ l. set l j e.key) (map-set (λ t. t.key) es i d)

key_if : (c : Bool) (d e : Clear) → (if c then d else e).key ≡ (if c then d.key else e.key)
key_if true d e = refl
key_if false d e = refl

keys-exchanged :
    (c : Bool) (es : List Clear) (i j : ℕ) (d e : Clear)
    → keys (exchanged c es i j d e)
      ≡ set (set (keys es) i (if c then e.key else d.key)) j (if c then d.key else e.key)
keys-exchanged c es i j d e =
    keys-set es i j (if c then e else d) (if c then d else e) ∙ rw (key_if c e d, key_if c d e)

-- An exchange rearranges the vector.
pub exchanged-IsRearranged :
    (c : Bool) (es : List Clear) (i j : ℕ) (d e : Clear)
    → get_elem? es i ≡ some d
    → get_elem? es j ≡ some e
    → i < j
    → IsRearranged default_less es (exchanged c es i j d e)
exchanged-IsRearranged c es i j d e hd he lt = (
  length-set (set es i (if c then e else d)) j (if c then d else e)
      ∙ length-set es i (if c then e else d),
  λ f. sums f c,
)
  where
    sums : (f : Clear → ℕ) (c : Bool) → total f (exchanged c es i j d e) ≡ total f es
    sums f true = omega (
      arith,
      total-set f es i d e hd,
      total-set f (set es i e) j e d (get_elem?-set es i j e lt ∙ he),
    )
    sums f false = omega (
      arith,
      total-set f es i d d hd,
      total-set f (set es i d) j e e (get_elem?-set es i j d lt ∙ he),
    )

plain_true :
    (ascending : Bool) (a b : ℕ)
    → same_bool (ltb b a) ascending ≡ true
    → ((if swaps ascending a b then b else a) ≡ b) × ((if swaps ascending a b then a else b) ≡ a)
plain_true true a b h = (ground (arith, h), ground (arith, h))
plain_true false a b h = (ground (arith, h), ground (arith, h))

plain_false :
    (ascending : Bool) (a b : ℕ)
    → same_bool (ltb b a) ascending ≡ false
    → ((if swaps ascending a b then b else a) ≡ a) × ((if swaps ascending a b then a else b) ≡ b)
plain_false true a b h = (ground (arith, h), ground (arith, h))
plain_false false a b h = (ground (arith, h), ground (arith, h))

-- On the keys, the exchange is the compare-and-swap of the sort in the clear.
pub exchanged-compare_and_swap :
    (ascending : Bool) (zs es : List Clear) (i j : ℕ) (d e : Clear)
    → keys es ≡ keys zs
    → get_elem? es i ≡ some d
    → get_elem? es j ≡ some e
    → i < j
    → j < length zs
    → (ts : List Clear) × (compare_and_swap default_less zs i j ascending ≡ some ts)
      × (keys (exchanged (swaps ascending d.key e.key) es i j d e) ≡ keys ts)
unfolding compare_and_swap
exchanged-compare_and_swap ascending zs es i j d e same hd he lt inside =
    let (a, ea) = index_in_range zs i (omega arith) in
    let (b, eb) = index_in_range zs j inside in
    let kd = get_elem?-map (λ (t : Clear). t.key) es i d hd in
    let ke = get_elem?-map (λ (t : Clear). t.key) es j e he in
    let a_key : a.key ≡ d.key = some_inj.0 (
      sym (get_elem?-map (λ (t : Clear). t.key) zs i a ea)
      ∙ ap (λ l. get_elem? l i) (sym same)
      ∙ kd) in
    let b_key : b.key ≡ e.key = some_inj.0 (
      sym (get_elem?-map (λ (t : Clear). t.key) zs j b eb)
      ∙ ap (λ l. get_elem? l j) (sym same)
      ∙ ke) in
    elim (Bool-cases (same_bool (ltb b.key a.key) ascending)) [
      | inl h ↦
          let (first, second) = plain_true ascending d.key e.key (rw (b_key, a_key) at h) in
          (
            set (set zs i b) j a,
            rw (ea, eb, h) refl,
            keys-exchanged (swaps ascending d.key e.key) es i j d e
                ∙ rw (first, second) (rw (same, ← b_key, ← a_key) (sym (keys-set zs i j b a))),
          )
      | inr h ↦
          let (first, second) = plain_false ascending d.key e.key (rw (b_key, a_key) at h) in
          (
            zs,
            rw (ea, eb, h) refl,
            keys-exchanged (swaps ascending d.key e.key) es i j d e
                ∙ rw (first, second)
                    (ap (λ l. set l j e.key) (set_same (keys es) i d.key kd)
                      ∙ set_same (keys es) j e.key ke
                      ∙ same),
          )
    ]

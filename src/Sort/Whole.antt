-- ===== src/Sort/Whole.antt =====
-- The sort of any number of shared elements, fewer than two included.
use psa_for_multiparty.Common.{
  length-append, length-take, replicate, ◌-◌, ℕ, ◌≤◌, ◌<◌, ◌≡◌, refl, true, List, [], ◌∷◌, length,
  take, leb, All, arith, Bool-cases, inl, inr,
}
use psa_for_multiparty.Bag.{Bag}
use psa_for_multiparty.Bag.Cost.{Outcome, IsGoodBag, Outcome-mono, Outcome-pure}
use psa_for_multiparty.Bitonic.{default_less, next_power_of_two}
use psa_for_multiparty.Bitonic.Network.{IsRearranged}
use psa_for_multiparty.Bitonic.Increasing.{Increasing, Increasing-take}
use psa_for_multiparty.Bitonic.Ordered.{HasRealKey}
use psa_for_multiparty.Sort.{SharedSortElement, mpc_bitonic_sort, mpc_bitonic_sort_triple_cost}
use psa_for_multiparty.Sort.Elements.{Clear, StandsAll}
use psa_for_multiparty.Sort.Total.{
  clear_sentinel, Sorted, Sorted-IsRearranged, mpc_bitonic_sort_lem,
}

-- Shared elements that stand for elements in ascending order; these are the given ones when the keys
-- of those are below the sentinel's.
pub record SortedElements (n w : ℕ) (es : List Clear) (ys : List SharedSortElement) : Type 0 where
  pub clear : List Clear
  pub stands : StandsAll n w ys clear
  pub same_length : length clear ≡ length es
  pub increasing : Increasing clear
  pub rearranged : All HasRealKey es → IsRearranged default_less es clear

few :
    (n w : ℕ) (xs : List SharedSortElement) (es : List Clear)
    → leb (length xs) 1 ≡ true
    → StandsAll n w xs es
    → SortedElements n w es xs
few n w [] [] short h = record {
  clear = [];
  stands = tt;
  same_length = refl;
  increasing = tt;
  rearranged = λ _. (refl, λ f. refl);
}
few n w [] (e ∷ es) short h = absurd h
few n w (x ∷ xs) [] short h = absurd h
few n w (x ∷ []) (e ∷ []) short h = record {
  clear = e ∷ [];
  stands = h;
  same_length = refl;
  increasing = (tt, tt);
  rearranged = λ _. (refl, λ f. refl);
}
few n w (x ∷ []) (e ∷ d ∷ es) short h = absurd h.1
few n w (x ∷ y ∷ xs) (e ∷ es) short h = absurd (ground (arith, short))

long_enough :
    {n w : ℕ} (es : List Clear) {ys : List SharedSortElement}
    → (r : Sorted n w es ys) → length es ≤ length r.clear
long_enough {w = w} es r = omega (
  arith,
  r.moved.0,
  length-append es (replicate (next_power_of_two (length es) - length es) (clear_sentinel w)),
)

module _ {n : ℕ} (pos : 0 < n) (w : ℕ) {bag : Bag} (good : IsGoodBag n bag) where
  pub mpc_bitonic_sort-any :
      (xs : List SharedSortElement) (es : List Clear) {i : ℕ}
      → i ≤ length bag
      → StandsAll n w xs es
      → Outcome bag i
          (mpc_bitonic_sort_triple_cost (length xs) w)
          (SortedElements n w es)
          (mpc_bitonic_sort xs)
  unfolding mpc_bitonic_sort mpc_bitonic_sort_triple_cost
  mpc_bitonic_sort-any xs es fits h = elim (Bool-cases (leb (length xs) 1)) [
    | inl short ↦ rw (short, mpc_bitonic_sort) (Outcome-pure xs fits (few n w xs es short h))
    | inr many ↦
        Outcome-mono
          (λ ys r. record {
            clear = take (length es) r.clear;
            stands = r.stands;
            same_length = length-take (length es) r.clear (long_enough es r);
            increasing = Increasing-take (length es) r.clear r.increasing;
            rearranged = Sorted-IsRearranged n w es ys r;
          })
          (mpc_bitonic_sort_lem pos w good xs es fits many h)
  ]

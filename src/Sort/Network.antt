-- ===== src/Sort/Network.antt =====
-- The network on shared elements against the network in the clear: the same keys, the same elements,
-- and an exact number of triples.
use psa_for_multiparty.Common.{
  ℕ, zero, suc, ◌+◌, ◌*◌, ◌/◌, ◌^◌, ◌≤◌, ◌<◌, ◌≡◌, refl, subst, Bool, true, false, Option, none,
  some, List, length, leb, choose_false, arith,
}
use psa_for_multiparty.Common.Fail
use native.Mathlib.Nat.{pow-suc}
use psa_for_multiparty.Bag.{Bag, ◌>>=◌, pure}
use psa_for_multiparty.Bag.Cost.{Outcome, IsGoodBag, Outcome-cost, Outcome-mono, Outcome-pure}
use psa_for_multiparty.Bitonic.{
  SortState, default_less, compare_and_swap, compare_pairs, bitonic_merge, bitonic_sort_helper,
}
use psa_for_multiparty.Bitonic.Network.{
  merge_count, sort_count, half, positive_power, not_small, merge_step, sort_step,
}
use psa_for_multiparty.Sort.{
  SharedSortElement, mpc_compare_pairs, mpc_bitonic_merge, mpc_bitonic_sort_helper,
}
use psa_for_multiparty.Sort.Elements.{Clear, StandsAll, StandsAll-length, keys}
use psa_for_multiparty.Sort.Step.{per_swap, After, After-pure, step_lem, sequel}

abbrev pub less : Clear → Clear → Bool
less = default_less

bind_some :
    {A B C : Type 0} (o : Option A) (f : A → B) (g : B → Option C)
    → Fail.◌>>=◌ (Fail.◌>>=◌ o λ a. some (f a)) g ≡ Fail.◌>>=◌ o λ a. g (f a)
bind_some none f g = refl
bind_some (some a) f g = refl

After-along :
    {n w : ℕ} {o o' : Option (SortState Bool)} {es : List Clear} (ys : List SharedSortElement)
    → o ≡ o'
    → After n w o es ys
    → After n w o' es ys
After-along {n} {w} {es = es} ys e h = subst (λ t. After n w t es ys) e h

mpc_merge_step :
    (fuel low cnt : ℕ) (ascending : Bool) (xs : List SharedSortElement)
    → leb cnt 1 ≡ false
    → mpc_bitonic_merge (suc fuel) low cnt ascending xs ≡ (
        mpc_compare_pairs (cnt / 2) low (cnt / 2) ascending xs >>= (λ ys.
          mpc_bitonic_merge fuel low (cnt / 2) ascending ys
          >>= (λ zs. mpc_bitonic_merge fuel (low + cnt / 2) (cnt / 2) ascending zs)))
unfolding mpc_bitonic_merge
mpc_merge_step fuel low cnt ascending xs h = choose_false (leb cnt 1) (pure xs) _ h

mpc_sort_step :
    (fuel low cnt : ℕ) (ascending : Bool) (xs : List SharedSortElement)
    → leb cnt 1 ≡ false
    → mpc_bitonic_sort_helper (suc fuel) low cnt ascending xs ≡ (
        mpc_bitonic_sort_helper fuel low (cnt / 2) true xs >>= (λ ys.
          mpc_bitonic_sort_helper fuel (low + cnt / 2) (cnt / 2) false ys
          >>= (λ zs. mpc_bitonic_merge (suc fuel) low cnt ascending zs)))
unfolding mpc_bitonic_sort_helper
mpc_sort_step fuel low cnt ascending xs h = choose_false (leb cnt 1) (pure xs) _ h

-- The sort in the clear and the shared one start from vectors with the same keys.
pub record Linked (n w : ℕ) (xs : List SharedSortElement) (es : List Clear) (s : SortState Bool)
    (size : ℕ) : Type 0 where
  pub stands : StandsAll n w xs es
  pub same : keys es ≡ keys s.0
  pub fits : size ≤ length es

module _ {n : ℕ} (pos : 0 < n) (w : ℕ) {bag : Bag} (good : IsGoodBag n bag) where
  compare_pairs_sim :
      (count i k : ℕ) (ascending : Bool) (xs : List SharedSortElement) (es : List Clear)
      (s : SortState Bool) {p : ℕ}
      → p ≤ length bag
      → 1 ≤ k
      → Linked n w xs es s (i + k + count)
      → Outcome bag p
          (count * per_swap w)
          (After n w (compare_pairs default_less count i k ascending s) es)
          (mpc_compare_pairs count i k ascending xs)
  unfolding compare_pairs mpc_compare_pairs
  compare_pairs_sim zero i k ascending xs es s fits le h =
      Outcome-cost {c = 0} (omega arith) (Outcome-pure xs fits (After-pure es s h.stands h.same))
  compare_pairs_sim (suc count) i k ascending xs es s fits le h =
      Outcome-cost {c = per_swap w + count * per_swap w} (omega arith) (
        Outcome-mono
          (λ ys after.
            After-along ys (bind_some (compare_and_swap default_less s.0 i (i + k) ascending) _ _)
              after)
          (sequel pos w good (compare_pairs default_less count (i + 1) k ascending)
            (step_lem pos w good xs es s.0 (s.1 + 1) i (i + k) ascending fits h.stands h.same
              (omega (arith, le)) (omega (arith, le, h.fits, StandsAll-length n w xs es h.stands)))
            λ ys ds t fits1 st same len.
              compare_pairs_sim count (i + 1) k ascending ys ds t fits1 le
                (record { stands = st; same = same; fits = omega (arith, h.fits, len) })))

  merge_sim :
      (k fuel low : ℕ) (ascending : Bool) (xs : List SharedSortElement) (es : List Clear)
      (s : SortState Bool) {p : ℕ}
      → p ≤ length bag
      → k < fuel
      → Linked n w xs es s (low + 2 ^ k)
      → Outcome bag p
          (merge_count k * per_swap w)
          (After n w (bitonic_merge default_less fuel low (2 ^ k) ascending s) es)
          (mpc_bitonic_merge fuel low (2 ^ k) ascending xs)
  unfolding bitonic_merge mpc_bitonic_merge
  merge_sim k zero low ascending xs es s fits lt h = absurd (omega arith)
  merge_sim zero (suc fuel) low ascending xs es s fits lt h =
      Outcome-cost {c = 0} (omega arith) (Outcome-pure xs fits (After-pure es s h.stands h.same))
  merge_sim (suc k) (suc fuel) low ascending xs es s fits lt h =
      rw
        (
          merge_step default_less fuel low (2 ^ suc k) ascending s (not_small less k),
          mpc_merge_step fuel low (2 ^ suc k) ascending xs (not_small less k),
          half less k,
        )
        (Outcome-cost
          {c = 2 ^ k * per_swap w + (merge_count k * per_swap w + merge_count k * per_swap w)}
          (omega arith)
          (sequel pos w good _
            (compare_pairs_sim (2 ^ k) low (2 ^ k) ascending xs es s fits (positive_power less k)
              (record {
                stands = h.stands;
                same = h.same;
                fits = omega (arith, h.fits, pow-suc 2 k);
              }))
            λ ys ds t fits1 st1 same1 len1.
              sequel pos w good _
                (merge_sim k fuel low ascending ys ds t fits1 (omega arith) (record {
                  stands = st1;
                  same = same1;
                  fits = omega (arith, h.fits, pow-suc 2 k, len1);
                }))
                λ zs bs u fits2 st2 same2 len2.
                  merge_sim k fuel (low + 2 ^ k) ascending zs bs u fits2 (omega arith) (record {
                    stands = st2;
                    same = same2;
                    fits = omega (arith, h.fits, pow-suc 2 k, len1, len2);
                  })))

  -- For parties that are at least one, a bag of triples for them, every k, fuel above k, and shared
  -- elements, with payloads of `w` bits, that stand for a vector in the clear whose keys are those of
  -- a state of the sort in the clear: the network on a part of 2^k elements within the vector, started
  -- inside the bag, either consumes exactly the triples of its compare-and-swaps and returns elements
  -- that stand for a rearrangement of the vector, whose keys are those that the sort in the clear
  -- computes from the state; or it finds fewer triples left and throws.
  pub mpc_bitonic_sort_helper_lem :
      (k fuel low : ℕ) (ascending : Bool) (xs : List SharedSortElement) (es : List Clear)
      (s : SortState Bool) {p : ℕ}
      → p ≤ length bag
      → k < fuel
      → Linked n w xs es s (low + 2 ^ k)
      → Outcome bag p
          (sort_count k * per_swap w)
          (After n w (bitonic_sort_helper default_less fuel low (2 ^ k) ascending s) es)
          (mpc_bitonic_sort_helper fuel low (2 ^ k) ascending xs)
  unfolding bitonic_sort_helper mpc_bitonic_sort_helper
  mpc_bitonic_sort_helper_lem k zero low ascending xs es s fits lt h = absurd (omega arith)
  mpc_bitonic_sort_helper_lem zero (suc fuel) low ascending xs es s fits lt h =
      Outcome-cost {c = 0} (omega arith) (Outcome-pure xs fits (After-pure es s h.stands h.same))
  mpc_bitonic_sort_helper_lem (suc k) (suc fuel) low ascending xs es s fits lt h =
      rw
        (
          sort_step default_less fuel low (2 ^ suc k) ascending s (not_small less k),
          mpc_sort_step fuel low (2 ^ suc k) ascending xs (not_small less k),
          half less k,
        )
        (Outcome-cost
          {c = sort_count k * per_swap w
            + (sort_count k * per_swap w + merge_count (suc k) * per_swap w)}
          (omega arith)
          (sequel pos w good _
            (mpc_bitonic_sort_helper_lem k fuel low true xs es s fits (omega arith) (record {
              stands = h.stands;
              same = h.same;
              fits = omega (arith, h.fits, pow-suc 2 k);
            }))
            λ ys ds t fits1 st1 same1 len1.
              sequel pos w good _
                (mpc_bitonic_sort_helper_lem k fuel (low + 2 ^ k) false ys ds t fits1 (omega arith)
                  (record {
                    stands = st1;
                    same = same1;
                    fits = omega (arith, h.fits, pow-suc 2 k, len1);
                  }))
                λ zs bs u fits2 st2 same2 len2.
                  merge_sim (suc k) (suc fuel) low ascending zs bs u fits2 lt (record {
                    stands = st2;
                    same = same2;
                    fits = omega (arith, h.fits, len1, len2);
                  })))

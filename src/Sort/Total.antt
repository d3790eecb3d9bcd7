-- ===== src/Sort/Total.antt =====
-- The whole sort of shared elements against the sort in the clear.
use psa_for_multiparty.Common.{
  All, ℕ, zero, suc, ◌+◌, ◌-◌, ◌*◌, ◌^◌, ◌≤◌, ◌<◌, ◌≡◌, refl, sym, ap, ◌∙◌, Bool, true, false, some,
  List, [], ◌∷◌, ◌++◌, map, length, take, replicate, leb, choose_false, length-append,
  length-replicate, arith,
}
use psa_for_multiparty.Common.Fail
use psa_for_multiparty.Share.{SharedBit, zero_bit}
use psa_for_multiparty.Share.Bit.{Shares, zero_bit_lem, one_bit_lem}
use psa_for_multiparty.Bag.{Bag, M, ◌>>=◌, pure}
use psa_for_multiparty.Bag.Cost.{Outcome, IsGoodBag, Outcome-cost, Outcome-pure, Outcome-bind}
use psa_for_multiparty.Compare.Word.{SharesAll, SharesAll-length, Holds-parties}
use psa_for_multiparty.Bitonic.{
  is_sorted_ascending, SortState, payload_width, oblivious_bitonic_sort_with_comparator,
  default_less, next_power_of_two, bitonic_sort_helper, oblivious_bitonic_sort,
}
use psa_for_multiparty.Bitonic.Network.{IsRearranged, sort_count}
use psa_for_multiparty.Bitonic.Increasing.{
  Increasing, Increasing-keys, Increasing-take, Increasing-is_sorted_ascending,
}
use psa_for_multiparty.Bitonic.Ordered.{HasRealKey, run_Increasing, first-IsRearranged}
use psa_for_multiparty.Bitonic.Total.{lt-power, next_power_of_two_lem}
use psa_for_multiparty.Bitonic.Count.{bitonic_compare_swap_count-power}
use psa_for_multiparty.Sort.{
  SharedSortElement, sentinel, next_pow2, pad_elements, mpc_bitonic_sort, mpc_bitonic_sort_helper,
  mpc_bitonic_sort_triple_cost,
}
use psa_for_multiparty.Sort.Swap.{Stands}
use psa_for_multiparty.Sort.Elements.{
  Clear, StandsAll, StandsAll-length, StandsAll-append, StandsAll-replicate, StandsAll-take, keys,
}
use psa_for_multiparty.Sort.Step.{per_swap}
use psa_for_multiparty.Sort.Network.{less, mpc_bitonic_sort_helper_lem}

-- The sentinel in the clear.
abbrev pub clear_sentinel : ℕ → Clear
clear_sentinel w = record { key = 2 ^ 64 - 1; payload = replicate w false }

-- What the sort returns: elements that stand for the first part of a rearrangement of the vector and
-- its sentinels, with the keys that the sort in the clear returns.
pub record Sorted (n w : ℕ) (es : List Clear) (ys : List SharedSortElement) : Type 0 where
  pub clear : List Clear
  pub plain : List Clear
  pub stands : StandsAll n w ys (take (length es) clear)
  pub moved :
      IsRearranged default_less
        (es ++ replicate (next_power_of_two (length es) - length es) (clear_sentinel w))
        clear
  pub sorted : oblivious_bitonic_sort false es ≡ some plain
  pub same_keys : keys (take (length es) clear) ≡ keys plain
  pub increasing : Increasing clear

SharesAll-replicate :
    {n : ℕ} (k : ℕ) {x : SharedBit} {b : Bool}
    → Shares n x b
    → SharesAll n (replicate k x) (replicate k b)
SharesAll-replicate zero h = tt
SharesAll-replicate (suc k) h = (h, SharesAll-replicate k h)

map-take : {A B : Type 0} (f : A → B) (k : ℕ) (xs : List A) → map f (take k xs) ≡ take k (map f xs)
map-take f zero xs = refl
map-take f (suc k) [] = refl
map-take f (suc k) (x ∷ xs) = ap (λ t. f x ∷ t) (map-take f k xs)

sentinel-Stands : (n w : ℕ) → 0 < n → Stands n w (sentinel n w) (clear_sentinel w)
unfolding sentinel
sentinel-Stands n w pos = record {
  key = record {
    bools = replicate 64 true;
    shared = SharesAll-replicate 64 (one_bit_lem pos);
    width = refl;
    value = refl;
  };
  payload = SharesAll-replicate w zero_bit_lem;
  width = length-replicate w (zero_bit n);
}

pad_elements-StandsAll :
    (n w : ℕ) (xs : List SharedSortElement) (es : List Clear) (padded : ℕ)
    → 0 < n
    → 0 < length xs
    → StandsAll n w xs es
    → StandsAll n w
        (pad_elements xs padded)
        (es ++ replicate (padded - length xs) (clear_sentinel w))
pad_elements-StandsAll n w [] es padded pos many h = absurd (omega arith)
pad_elements-StandsAll n w (x ∷ xs) [] padded pos many h = absurd h
pad_elements-StandsAll n w (x ∷ xs) (e ∷ es) padded pos many h =
    rw (Holds-parties x.key h.0.key, h.0.width)
      (StandsAll-append n w (x ∷ xs) _ (e ∷ es) _ h
        (StandsAll-replicate n w _ (sentinel-Stands n w pos)))

-- What stands after the test of the length.
abbrev sorting : List SharedSortElement → M (List SharedSortElement)
sorting xs =
    mpc_bitonic_sort_helper (next_pow2 (length xs)) 0 (next_pow2 (length xs)) true
      (pad_elements xs (next_pow2 (length xs)))
    >>= (λ ys. pure (take (length xs) ys))

-- The width of the payloads is that of the first.
width-eq :
    (n w : ℕ) (xs : List SharedSortElement) (es : List Clear)
    → 0 < length xs
    → StandsAll n w xs es
    → payload_width less false es ≡ w
width-eq n w [] es many h = absurd (omega arith)
width-eq n w (x ∷ xs) [] many h = absurd h
width-eq n w (x ∷ xs) (e ∷ es) many h =
    SharesAll-length n x.payload e.payload h.0.payload ∙ h.0.width

-- The sort in the clear, from a run of its network.
clear_sort :
    (es : List Clear) (w k : ℕ) (t : SortState Bool)
    → leb (length es) 1 ≡ false
    → next_power_of_two (length es) ≡ 2 ^ k
    → payload_width less false es ≡ w
    → bitonic_sort_helper less
        (2 ^ k)
        0
        (2 ^ k)
        true
        (es ++ replicate (2 ^ k - length es) (clear_sentinel w), 0)
      ≡ some t
    → oblivious_bitonic_sort false es ≡ some (take (length es) t.0)
unfolding oblivious_bitonic_sort oblivious_bitonic_sort_with_comparator
clear_sort es w k t many power width run =
    let padded = next_power_of_two (length es) in
    let same : bitonic_sort_helper less padded 0 padded true
          (es ++ replicate (padded - length es) (clear_sentinel (payload_width less false es)), 0)
        ≡ some t =
      rw (power, width) run in
    choose_false (leb (length es) 1) (some es) _ many
    ∙ ap (λ o. Fail.◌>>=◌ o λ (s : SortState Bool). some (take (length es) s.0)) same

module _ {n : ℕ} (pos : 0 < n) (w : ℕ) {bag : Bag} (good : IsGoodBag n bag) where
  -- For at least one party, a bag of triples for the parties, and at least two shared elements with
  -- payloads of `w` bits: the sort started inside the bag either consumes exactly
  -- `mpcBitonicSortTripleCost` triples and returns elements that stand for the first part, cut at the
  -- length of the vector, of a rearrangement of the elements and the sentinels, whose keys increase and are
  -- those that `obliviousBitonicSort` returns for the elements in the clear; or it finds fewer triples
  -- left and throws.
  pub mpc_bitonic_sort_lem :
      (xs : List SharedSortElement) (es : List Clear) {p : ℕ}
      → p ≤ length bag
      → leb (length xs) 1 ≡ false
      → StandsAll n w xs es
      → Outcome bag p
          (mpc_bitonic_sort_triple_cost (length xs) w)
          (Sorted n w es)
          (mpc_bitonic_sort xs)
  unfolding mpc_bitonic_sort mpc_bitonic_sort_triple_cost
  mpc_bitonic_sort_lem xs es fits many h =
      let len = StandsAll-length n w xs es h in
      let (k, power, le) = next_power_of_two_lem (length xs) many in
      let padded = es ++ replicate (2 ^ k - length xs) (clear_sentinel w) in
      let nonempty : 0 < length xs = ground (arith, many) in
      let exact : length padded ≡ 2 ^ k = omega (
        arith,
        length-append es (replicate (2 ^ k - length xs) (clear_sentinel w)),
        length-replicate (2 ^ k - length xs) (clear_sentinel w),
        len,
        le,
      ) in
      let sim =
        mpc_bitonic_sort_helper_lem pos w good k (2 ^ k) 0 true (pad_elements xs (2 ^ k)) padded
          (padded, 0) fits (lt-power k)
          (record {
            stands = pad_elements-StandsAll n w xs es (2 ^ k) pos nonempty h;
            same = refl;
            fits = omega (arith, exact);
          }) in
      let cost : sort_count k * per_swap w + 0 ≡ mpc_bitonic_sort_triple_cost (length xs) w =
        rw (many, power, bitonic_compare_swap_count-power k (ground (arith, many, le)))
          (omega arith) in
      rw (choose_false (leb (length xs) 1) (pure xs) (sorting xs) many) (
        Outcome-cost cost (
          rw power (
            Outcome-bind sim λ ys fits' a. Outcome-pure (take (length xs) ys) fits' (record {
              clear = a.clear;
              plain = take (length es) a.state.0;
              stands = rw len (StandsAll-take n w (length xs) ys a.clear a.stands);
              moved = rw (len, power) a.moved;
              sorted =
                  clear_sort es w k a.state (rw len many) (rw len power)
                    (width-eq n w xs es nonempty h) (rw len a.result);
              same_keys =
                  map-take (λ (e : Clear). e.key) (length es) a.clear
                  ∙ ap (λ l. take (length es) l) a.same_keys
                  ∙ sym (map-take (λ (e : Clear). e.key) (length es) a.state.0);
              increasing =
                  Increasing-keys a.clear a.state.0 a.same_keys
                    (run_Increasing k (2 ^ k) padded a.state (lt-power k) exact a.result);
            }))))

-- What the shared sort returns stands for elements in ascending order; when the keys are below the
-- sentinel's, for the elements themselves rearranged.
pub Sorted-is_sorted_ascending :
    (n w : ℕ) (es : List Clear) (ys : List SharedSortElement) (r : Sorted n w es ys)
    → is_sorted_ascending (take (length es) r.clear) ≡ true
Sorted-is_sorted_ascending n w es ys r =
    Increasing-is_sorted_ascending _ (Increasing-take (length es) r.clear r.increasing)

pub Sorted-IsRearranged :
    (n w : ℕ) (es : List Clear) (ys : List SharedSortElement) (r : Sorted n w es ys)
    → All HasRealKey es
    → IsRearranged default_less es (take (length es) r.clear)
Sorted-IsRearranged n w es ys r h =
    first-IsRearranged es (next_power_of_two (length es) - length es) (clear_sentinel w) r.clear h
      refl r.moved r.increasing

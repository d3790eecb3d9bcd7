-- ===== src/Sort/Step.antt =====
-- One compare-and-swap of shared elements against the one in the clear, and runs in a row.
use psa_for_multiparty.Common.{
  ℕ, ◌+◌, ◌≤◌, ◌<◌, ◌≡◌, refl, sym, ap, ◌∙◌, Bool, true, false, Option, some, List, length,
  length-map, arith,
}
use psa_for_multiparty.Common.Fail
use psa_for_multiparty.Share.Bit.{Shares}
use psa_for_multiparty.Bag.{Bag, M, ◌>>=◌}
use psa_for_multiparty.Bag.Cost.{
  Outcome, IsGoodBag, Outcome-cost, Outcome-mono, Outcome-pure, Outcome-bind, Outcome-lift,
}
use psa_for_multiparty.Compare.{secure_less_than_triple_cost}
use psa_for_multiparty.Compare.Less.{secure_less_than_lem}
use psa_for_multiparty.Bitonic.{SortState, default_less, compare_and_swap}
use psa_for_multiparty.Bitonic.Network.{IsRearranged}
use psa_for_multiparty.Sort.{
  SharedSortElement, swap_selector, mpc_compare_and_swap, conditional_swap_triple_cost,
}
use psa_for_multiparty.Sort.Swap.{Stands, conditional_swap_lem}
use psa_for_multiparty.Sort.Elements.{
  Clear, StandsAll, StandsAll-length, StandsAll-get, StandsAll-set, keys, swaps, exchanged,
  exchanged-IsRearranged, exchanged-compare_and_swap,
}

-- The triples of one compare-and-swap.
abbrev pub per_swap : ℕ → ℕ
per_swap w = secure_less_than_triple_cost + conditional_swap_triple_cost w

-- What the vector `ys` is after a run of the sort in the clear, `o`: it stands for a rearrangement of
-- `es` whose keys are those of that run.
pub record After (n w : ℕ) (o : Option (SortState Bool)) (es : List Clear)
    (ys : List SharedSortElement) : Type 0 where
  pub state : SortState Bool
  pub result : o ≡ some state
  pub clear : List Clear
  pub stands : StandsAll n w ys clear
  pub same_keys : keys clear ≡ keys state.0
  pub moved : IsRearranged default_less es clear

pub same-length : (es zs : List Clear) → keys es ≡ keys zs → length zs ≡ length es
same-length es zs h =
    sym (length-map zs (λ e. e.key)) ∙ sym (ap length h) ∙ length-map es (λ e. e.key)

module _ {n w : ℕ} where
  pub After-pure :
      (es : List Clear) (s : SortState Bool) {ys : List SharedSortElement}
      → StandsAll n w ys es
      → keys es ≡ keys s.0
      → After n w (some s) es ys
  After-pure es s h k = record {
    state = s;
    result = refl;
    clear = es;
    stands = h;
    same_keys = k;
    moved = (refl, λ f. refl);
  }

  After-bind :
      (o : Option (SortState Bool)) (g : SortState Bool → Option (SortState Bool)) {es : List Clear}
      {ys zs : List SharedSortElement} (h : After n w o es ys)
      → After n w (g h.state) h.clear zs
      → After n w (Fail.◌>>=◌ o g) es zs
  After-bind o g h k = record {
    state = k.state;
    result = rw (h.result, Fail.◌>>=◌) k.result;
    clear = k.clear;
    stands = k.stands;
    same_keys = k.same_keys;
    moved = (k.moved.0 ∙ h.moved.0, λ f. k.moved.1 f ∙ h.moved.1 f);
  }

module _ {n : ℕ} (pos : 0 < n) (w : ℕ) {bag : Bag} (good : IsGoodBag n bag) where
  swap_selector_lem :
      (ascending : Bool) {i : ℕ} {a b : SharedSortElement} {d e : Clear}
      → i ≤ length bag
      → Stands n w a d
      → Stands n w b e
      → Outcome bag i secure_less_than_triple_cost
          (λ r. Shares n r (swaps ascending d.key e.key))
          (swap_selector ascending a b)
  swap_selector_lem true fits ha hb = secure_less_than_lem pos good fits hb.key ha.key
  swap_selector_lem false fits ha hb = secure_less_than_lem pos good fits ha.key hb.key

  -- One compare-and-swap.
  pub step_lem :
      (xs : List SharedSortElement) (es zs : List Clear) (count i j : ℕ) (ascending : Bool) {p : ℕ}
      → p ≤ length bag
      → StandsAll n w xs es
      → keys es ≡ keys zs
      → i < j
      → j < length xs
      → Outcome bag p
          (per_swap w)
          (After n w
            (Fail.◌>>=◌ (compare_and_swap default_less zs i j ascending) λ ts. some (ts, count))
            es)
          (mpc_compare_and_swap xs i j ascending)
  unfolding mpc_compare_and_swap
  step_lem xs es zs count i j ascending fits h same lt inside =
      let (a, d, ea, ed, hd) = StandsAll-get n w xs es i h (omega arith) in
      let (b, e, eb, ee, he) = StandsAll-get n w xs es j h inside in
      let c = swaps ascending d.key e.key in
      let (ts, run, ts_keys) =
        exchanged-compare_and_swap ascending zs es i j d e same ed ee lt
          (omega (arith, inside, StandsAll-length n w xs es h, same-length es zs same)) in
      Outcome-lift _ ea (
        Outcome-lift _ eb (
          Outcome-cost {c = secure_less_than_triple_cost + (conditional_swap_triple_cost w + 0)}
            (omega arith)
            (Outcome-bind (swap_selector_lem ascending fits hd he) λ sel fits1 hs.
              Outcome-bind (conditional_swap_lem pos good fits1 hd he hs) λ r fits2 hr.
                Outcome-pure _ fits2 (record {
                  state = (ts, count);
                  result = rw (run, Fail.◌>>=◌) refl;
                  clear = exchanged c es i j d e;
                  stands = StandsAll-set n w _ _ j (StandsAll-set n w xs es i h hr.0) hr.1;
                  same_keys = ts_keys;
                  moved = exchanged-IsRearranged c es i j d e ed ee lt;
                }))))

  -- Two runs in a row.
  pub sequel :
      {c d p : ℕ} {o : Option (SortState Bool)} (g : SortState Bool → Option (SortState Bool))
      {es : List Clear} {m : M (List SharedSortElement)}
      {f : List SharedSortElement → M (List SharedSortElement)}
      → Outcome bag p c (After n w o es) m
      → ((ys : List SharedSortElement) (ds : List Clear) (t : SortState Bool)
          → p + c ≤ length bag
          → StandsAll n w ys ds
          → keys ds ≡ keys t.0
          → length ds ≡ length es
          → Outcome bag (p + c) d (After n w (g t) ds) (f ys))
      → Outcome bag p (c + d) (After n w (Fail.◌>>=◌ o g) es) (m >>= f)
  sequel {o = o} g first next = Outcome-bind first λ ys fits h.
      Outcome-mono (λ zs k. After-bind o g h k)
        (next ys h.clear h.state fits h.stands h.same_keys h.moved.0)

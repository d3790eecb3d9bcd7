-- ===== src/Join/Shared/Windows.antt =====
-- The ends of the windows and the chain of ANDs: their triples and their bits.
use psa_for_multiparty.Common.{
  ℕ, ◌+◌, ◌-◌, ◌*◌, ◌/◌, ◌^◌, ◌≤◌, ◌<◌, ◌≡◌, Bool, true, false, not, ◌&&◌, List, [], ◌∷◌, length,
  leb, ◌==◌, if◌then◌else◌, arith,
}
use psa_for_multiparty.Share.{SharedBit, one_bit}
use psa_for_multiparty.Share.Bit.{Shares, one_bit_lem}
use psa_for_multiparty.Bag.{Bag, not_shared}
use psa_for_multiparty.Bag.Cost.{
  Outcome, IsGoodBag, Outcome-cost, Outcome-pure, Outcome-bind, Outcome-lift, and_next_lem,
  not_shared_lem,
}
use psa_for_multiparty.Compare.{secure_equal_triple_cost}
use psa_for_multiparty.Compare.Equal.{secure_equal_lem}
use psa_for_multiparty.Compare.Word.{SharesAll, Holds-parties}
use psa_for_multiparty.Sort.{SharedSortElement}
use psa_for_multiparty.Sort.Swap.{Stands}
use psa_for_multiparty.Sort.Elements.{Clear, StandsAll}
use psa_for_multiparty.Join.Shared.{
  and_chain, secure_and_chain, window_ends_loop, mpc_window_ends, mpc_window_ends_triple_cost,
}
use psa_for_multiparty.Join.Shared.Words.{extract_id_from_composite_lem}

abbrev pub all_of : Bool → List Bool → Bool
all_of acc [] = acc
all_of acc (p ∷ ps) = all_of (acc && p) ps

-- Position by position: is the id of the next element another one, or is there none?
abbrev pub last_of_window : ℕ → List Clear → List Bool
last_of_window b [] = []
last_of_window b (e ∷ []) = true ∷ []
last_of_window b (e ∷ d ∷ es) = not (e.key / 2 ^ b == d.key / 2 ^ b) ∷ last_of_window b (d ∷ es)

module _ {n : ℕ} (pos : 0 < n) {bag : Bag} (good : IsGoodBag n bag) where
  and_chain_lem :
      (acc : SharedBit) (bits : List SharedBit) (p : Bool) (ps : List Bool) {i : ℕ}
      → i ≤ length bag
      → Shares n acc p
      → SharesAll n bits ps
      → Outcome bag i (length bits) (λ r. Shares n r (all_of p ps)) (and_chain acc bits)
  unfolding and_chain
  and_chain_lem acc [] p [] fits h all = Outcome-pure acc fits h
  and_chain_lem acc [] p (q ∷ qs) fits h all = absurd all
  and_chain_lem acc (b ∷ bs) p [] fits h all = absurd all
  and_chain_lem acc (b ∷ bs) p (q ∷ qs) fits h (first, all) = Outcome-cost (one_more bs) (
      Outcome-bind (and_next_lem pos good fits h first)
        λ next fits' h'. and_chain_lem next bs (p && q) qs fits' h' all)
    where
      one_more : (xs : List SharedBit) → 1 + length xs ≡ length (b ∷ xs)
      one_more xs = omega arith

  -- The chain over the shared bits of at least one party.
  pub secure_and_chain_lem :
      (b : SharedBit) (bits : List SharedBit) (p : Bool) (ps : List Bool) {i : ℕ}
      → i ≤ length bag
      → Shares n b p
      → SharesAll n bits ps
      → Outcome bag i (length bits) (λ r. Shares n r (all_of p ps)) (secure_and_chain (b ∷ bits))
  unfolding secure_and_chain
  secure_and_chain_lem b bits p ps fits h all = and_chain_lem b bits p ps fits h all

  module _ (w b : ℕ) (small : b ≤ 64) where
    window_ends_loop_lem :
        (x : SharedSortElement) (xs : List SharedSortElement) (e : Clear) (es : List Clear) {i : ℕ}
        → i ≤ length bag
        → Stands n w x e
        → StandsAll n w xs es
        → Outcome bag i
            (length xs * secure_equal_triple_cost)
            (λ r. SharesAll n r (last_of_window b (e ∷ es)))
            (window_ends_loop n b x xs)
    unfolding window_ends_loop
    window_ends_loop_lem x [] e [] fits h all =
        Outcome-cost (omega arith) (Outcome-pure (one_bit n ∷ []) fits (one_bit_lem pos, tt))
    window_ends_loop_lem x [] e (d ∷ es) fits h all = absurd all
    window_ends_loop_lem x (y ∷ ys) e [] fits h all = absurd all
    window_ends_loop_lem x (y ∷ ys) e (d ∷ es) fits h (first, all) =
        let (id_x, ex, hx) = extract_id_from_composite_lem x.key b small h.key in
        let (id_y, ey, hy) = extract_id_from_composite_lem y.key b small first.key in
        Outcome-lift _ ex (
          Outcome-lift _ ey (
            Outcome-cost (steps ys) (
              Outcome-bind (secure_equal_lem pos good fits hx hy) λ eq fits' h'.
                Outcome-bind (window_ends_loop_lem y ys d es fits' first all) λ ends fits'' h''.
                  Outcome-pure (not_shared eq ∷ ends) fits'' (not_shared_lem pos h', h''))))
      where
        steps :
            (l : List SharedSortElement)
            → secure_equal_triple_cost + (length l * secure_equal_triple_cost + 0)
              ≡ length (y ∷ l) * secure_equal_triple_cost
        steps l = omega arith

    -- For at least one party, a bag of triples for the parties, and elements whose composite keys
    -- have `b` low bits for the party: the detection of the windows consumes exactly
    -- `mpcWindowEndsTripleCost` triples or throws for want of them; its bits say, position by
    -- position, whether the element is the last one or the id of the next one differs.
    pub mpc_window_ends_lem :
        (xs : List SharedSortElement) (es : List Clear) {i : ℕ}
        → i ≤ length bag
        → StandsAll n w xs es
        → Outcome bag i
            (mpc_window_ends_triple_cost (length xs))
            (λ r. SharesAll n r (last_of_window b es))
            (mpc_window_ends xs b)
    unfolding mpc_window_ends mpc_window_ends_triple_cost secure_equal_triple_cost
    mpc_window_ends_lem [] [] fits h = Outcome-pure [] fits tt
    mpc_window_ends_lem [] (e ∷ es) fits h = absurd h
    mpc_window_ends_lem (x ∷ xs) [] fits h = absurd h
    mpc_window_ends_lem (x ∷ xs) (e ∷ es) fits (first, all) =
        Outcome-cost (cost xs)
          (rw (Holds-parties x.key first.key) (window_ends_loop_lem x xs e es fits first all))
      where
        cost :
            (l : List SharedSortElement)
            → length l * secure_equal_triple_cost ≡ (
                if leb (length (x ∷ l)) 1
                then 0
                else (length (x ∷ l) - 1) * secure_equal_triple_cost)
        cost [] = omega arith
        cost (y ∷ l) =
            let many : leb (length (x ∷ y ∷ l)) 1 ≡ false = ground arith in rw many (omega arith)

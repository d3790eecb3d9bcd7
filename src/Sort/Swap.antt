-- ===== src/Sort/Swap.antt =====
-- The conditional swap of two shared elements: what it does, and the triples that it consumes.
use psa_for_multiparty.Common.{
  ℕ, zero, suc, ◌+◌, ◌≤◌, ◌<◌, ◌≡◌, refl, ap, ◌∙◌, Bool, true, false, ◌&&◌, List, [], ◌∷◌, length,
  if◌then◌else◌, arith,
}
use psa_for_multiparty.Common.Bits.{xor}
use psa_for_multiparty.Share.{SharedBit}
use psa_for_multiparty.Share.Bit.{Shares, xor_shared_lem}
use psa_for_multiparty.Bag.{Bag}
use psa_for_multiparty.Bag.Cost.{
  Outcome, IsGoodBag, Outcome-cost, Outcome-pure, Outcome-bind, Outcome-lift, Outcome-require,
  and_next_lem,
}
use psa_for_multiparty.Compare.Word.{SharesAll, Holds, Holds-parties}
use psa_for_multiparty.Bitonic.{SortElement}
use psa_for_multiparty.Sort.{
  SharedSortElement, swap_one_bit, swap_bits, conditional_swap, conditional_swap_triple_cost,
}

-- A shared element stands for one in the clear, with a payload of `w` bits.
pub record Stands (n w : ℕ) (x : SharedSortElement) (e : SortElement Bool) : Type 0 where
  pub key : Holds n x.key e.key
  pub payload : SharesAll n x.payload e.payload
  pub width : length x.payload ≡ w

swap_left : (c p q : Bool) → xor p (c && xor p q) ≡ (if c then q else p)
swap_left c p q = ground arith

swap_right : (c p q : Bool) → xor q (c && xor p q) ≡ (if c then p else q)
swap_right c p q = ground arith

SharesAll-choice :
    {n : ℕ} {x : SharedBit} (xs : List SharedBit) (c p q : Bool) (ps qs : List Bool)
    → Shares n x (if c then p else q)
    → SharesAll n xs (if c then ps else qs)
    → SharesAll n (x ∷ xs) (if c then p ∷ ps else q ∷ qs)
SharesAll-choice xs true p q ps qs h k = (h, k)
SharesAll-choice xs false p q ps qs h k = (h, k)

Stands-choice :
    {n w : ℕ} {a b : SharedSortElement} {d e : SortElement Bool} {ks xs : List SharedBit} (c : Bool)
    (ha : Stands n w a d) (hb : Stands n w b e)
    → SharesAll n ks (if c then ha.key.bools else hb.key.bools)
    → length ks ≡ 64
    → SharesAll n xs (if c then d.payload else e.payload)
    → length xs ≡ w
    → Stands n w (record { key = record { bits = ks }; payload = xs }) (if c then d else e)
Stands-choice true ha hb hk wk hx wx = record {
  key = record { bools = ha.key.bools; shared = hk; width = wk; value = ha.key.value };
  payload = hx;
  width = wx;
}
Stands-choice false ha hb hk wk hx wx = record {
  key = record { bools = hb.key.bools; shared = hk; width = wk; value = hb.key.value };
  payload = hx;
  width = wx;
}

nil_choice : (n : ℕ) (c : Bool) → SharesAll n [] (if c then [] else [])
nil_choice n true = tt
nil_choice n false = tt

module _ {n : ℕ} (pos : 0 < n) {bag : Bag} (good : IsGoodBag n bag) where
  swap_one_bit_lem :
      {i : ℕ} {sel a b : SharedBit} {c p q : Bool}
      → i ≤ length bag
      → Shares n sel c
      → Shares n a p
      → Shares n b q
      → Outcome bag i 1
          (λ r. Shares n r.0 (if c then q else p) × Shares n r.1 (if c then p else q))
          (swap_one_bit sel a b)
  unfolding swap_one_bit
  swap_one_bit_lem {c = c} {p = p} {q = q} fits hc ha hb =
      let (diff, e0, h0) = xor_shared_lem ha hb in
      Outcome-lift _ e0 (
        Outcome-bind {d = 0} (and_next_lem pos good fits hc h0) λ masked fits1 h1.
          let (x, e1, hx) = xor_shared_lem ha h1 in
          let (y, e2, hy) = xor_shared_lem hb h1 in
          Outcome-lift _ e1 (
            Outcome-lift _ e2 (
              Outcome-pure (x, y) fits1 (rw (swap_left c p q) at hx, rw (swap_right c p q) at hy))))

  swap_bits_lem :
      (k : ℕ) (xs ys : List SharedBit) (ps qs : List Bool) {i : ℕ} {sel : SharedBit} {c : Bool}
      → i ≤ length bag
      → Shares n sel c
      → SharesAll n xs ps
      → SharesAll n ys qs
      → length xs ≡ k
      → length ys ≡ k
      → Outcome bag i k
          (λ r.
            SharesAll n r.0 (if c then qs else ps)
            × SharesAll n r.1 (if c then ps else qs)
            × (length r.0 ≡ k)
            × (length r.1 ≡ k))
          (swap_bits k sel xs ys)
  unfolding swap_bits
  swap_bits_lem zero [] [] [] [] {c = c} fits hc hx hy lx ly =
      Outcome-pure ([], []) fits (nil_choice n c, nil_choice n c, refl, refl)
  swap_bits_lem (suc k) (x ∷ xs) (y ∷ ys) (p ∷ ps) (q ∷ qs) {c = c} fits hc hx hy lx ly =
      Outcome-cost {c = 1 + (k + 0)} (omega arith) (
        Outcome-bind (swap_one_bit_lem fits hc hx.0 hy.0) λ r fits1 h1.
          Outcome-bind
            (swap_bits_lem k xs ys ps qs fits1 hc hx.1 hy.1 (omega (arith, lx)) (omega (arith, ly)))
            λ rest fits2 h2.
              Outcome-pure (r.0 ∷ rest.0, r.1 ∷ rest.1) fits2
                (
                  SharesAll-choice rest.0 c q p qs ps h1.0 h2.0,
                  SharesAll-choice rest.1 c p q ps qs h1.1 h2.1,
                  ap suc h2.2,
                  ap suc h2.3,
                ))
  swap_bits_lem zero [] [] [] (q ∷ qs) fits hc hx hy lx ly = absurd hy
  swap_bits_lem zero [] [] (p ∷ ps) qs fits hc hx hy lx ly = absurd hx
  swap_bits_lem zero [] (y ∷ ys) ps qs fits hc hx hy lx ly = absurd (omega (arith, ly))
  swap_bits_lem zero (x ∷ xs) ys ps qs fits hc hx hy lx ly = absurd (omega (arith, lx))
  swap_bits_lem (suc k) [] ys ps qs fits hc hx hy lx ly = absurd (omega (arith, lx))
  swap_bits_lem (suc k) (x ∷ xs) [] ps qs fits hc hx hy lx ly = absurd (omega (arith, ly))
  swap_bits_lem (suc k) (x ∷ xs) (y ∷ ys) [] qs fits hc hx hy lx ly = absurd hx
  swap_bits_lem (suc k) (x ∷ xs) (y ∷ ys) (p ∷ ps) [] fits hc hx hy lx ly = absurd hy

  -- For two elements shared among the same parties (at least one) with payloads of one width, a
  -- selector shared among them and a bag of triples for them, the swap started inside the bag either
  -- consumes exactly `conditionalSwapTripleCost` triples and returns elements that stand for the two
  -- in exchanged order when the selector is 1, and in the same order when it is 0; or it finds fewer
  -- triples left and throws.
  pub conditional_swap_lem :
      {w i : ℕ} {sel : SharedBit} {c : Bool} {a b : SharedSortElement} {d e : SortElement Bool}
      → i ≤ length bag
      → Stands n w a d
      → Stands n w b e
      → Shares n sel c
      → Outcome bag i
          (conditional_swap_triple_cost w)
          (λ r. Stands n w r.0 (if c then e else d) × Stands n w r.1 (if c then d else e))
          (conditional_swap a b sel)
  unfolding conditional_swap conditional_swap_triple_cost
  conditional_swap_lem {w} {c = c} {a} {b} {d} {e} fits ha hb hc =
      Outcome-require _ _ (ground (arith, ha.width, hb.width)) (
        Outcome-require _ _
          (ground (arith, Holds-parties a.key ha.key, Holds-parties b.key hb.key, hc.count))
          (Outcome-cost {c = 64 + (length a.payload + 0)} (omega (arith, ha.width)) (
            Outcome-bind
              (swap_bits_lem 64 a.key.bits b.key.bits ha.key.bools hb.key.bools fits hc
                ha.key.shared hb.key.shared ha.key.width hb.key.width)
              λ keys fits1 hk.
                Outcome-bind
                  (swap_bits_lem (length a.payload) a.payload b.payload d.payload e.payload fits1 hc
                    ha.payload hb.payload refl (omega (arith, ha.width, hb.width)))
                  λ ps fits2 hp. Outcome-pure _ fits2 (
                    Stands-choice c hb ha hk.0 hk.2 hp.0 (hp.2 ∙ ha.width),
                    Stands-choice c ha hb hk.1 hk.3 hp.1 (hp.3 ∙ ha.width),
                  ))))

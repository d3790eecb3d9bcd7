-- ===== src/Bag/Cost.antt =====
-- What an operation on the bag does: with `c` triples left it consumes exactly these and returns,
-- and with fewer it throws.
use psa_for_multiparty.Common.{
  ℕ, ◌+◌, ◌≤◌, ◌<◌, ◌≡◌, subst, Bool, true, false, not, ◌&&◌, Option, none, some, length, All,
  get_elem?-All, arith, dec_lt,
}
use psa_for_multiparty.Common.Fail.{require}
use native.Mathlib.Nat.{add_assoc, add-zero}
use psa_for_multiparty.Share.{SharedBit}
use psa_for_multiparty.Share.Bit.{Shares, xor_const_lem}
use psa_for_multiparty.Beaver.And.{IsBitTriple, secure_and_lem}
use psa_for_multiparty.Bag.{Bag, M, ◌>>=◌, ◌>>◌, pure, lift, and_next, not_shared}

-- The outcome of the operation `m`, which costs `c` triples, when it is started at index `i`; `P`
-- holds of what it returns.
pub data Outcome {A : Type 0} (bag : Bag) (i c : ℕ) (P : A → Type 0) (m : M A) : Type 0 where
  done : (a : A) → i + c ≤ length bag → m bag i ≡ some (a, i + c) → P a → Outcome bag i c P m
  short : length bag < i + c → m bag i ≡ none → Outcome bag i c P m

-- A check that passes is no step.
pub Outcome-require :
    {B : Type 0} {bag : Bag} {i d : ℕ} {Q : B → Type 0} (b : Bool) (k : M B)
    → b ≡ true
    → Outcome bag i d Q k
    → Outcome bag i d Q (lift (require b) >> k)
Outcome-require b k e (done r fits e' h) = done r fits (rw (e, require, lift) e') h
Outcome-require b k e (short lt e') = short lt (rw (e, require, lift) e')

-- Every triple of the bag is one for `n` parties.
abbrev pub IsGoodBag : ℕ → Bag → Type 0
IsGoodBag n bag = All (IsBitTriple n) bag

module _ {A : Type 0} {bag : Bag} {i : ℕ} where
  pub Outcome-cost :
      {c d : ℕ} {P : A → Type 0} {m : M A} → c ≡ d → Outcome bag i c P m → Outcome bag i d P m
  Outcome-cost {P = P} {m = m} e o = subst (λ k. Outcome bag i k P m) e o

  pub Outcome-mono :
      {c : ℕ} {P Q : A → Type 0} {m : M A}
      → ((a : A) → P a → Q a)
      → Outcome bag i c P m
      → Outcome bag i c Q m
  Outcome-mono f (done a fits e h) = done a fits e (f a h)
  Outcome-mono f (short lt e) = short lt e

  pub Outcome-pure : {P : A → Type 0} (a : A) → i ≤ length bag → P a → Outcome bag i 0 P (pure a)
  Outcome-pure a fits h = done a (omega arith) (rw add-zero) h

  -- a last step that reads no triple
  pub Outcome-end :
      {P : A → Type 0} {o : Option A} {a : A}
      → o ≡ some a
      → i ≤ length bag
      → P a
      → Outcome bag i 0 P (lift o)
  Outcome-end {a = a} e fits h = done a (omega arith) (rw (e, lift, add-zero)) h

  pub Outcome-bind :
      {B : Type 0} {c d : ℕ} {P : A → Type 0} {Q : B → Type 0} {m : M A} {f : A → M B}
      → Outcome bag i c P m
      → ((a : A) → i + c ≤ length bag → P a → Outcome bag (i + c) d Q (f a))
      → Outcome bag i (c + d) Q (m >>= f)
  Outcome-bind (short lt e) next = short (omega arith) (rw (e, ◌>>=◌))
  Outcome-bind {B = B} {c = c} {d = d} {Q = Q} {m = m} {f = f} (done a fits e h) next =
      go (next a fits h)
    where
      go : Outcome bag (i + c) d Q (f a) → Outcome bag i (c + d) Q (m >>= f)
      go (done b fits' e' h') = done b (omega arith) (rw (e, ◌>>=◌) (rw add_assoc at e')) h'
      go (short lt e') = short (omega arith) (rw (e, ◌>>=◌) e')

  pub Outcome-lift :
      {B : Type 0} {d : ℕ} {Q : B → Type 0} {o : Option A} {a : A} (f : A → M B)
      → o ≡ some a
      → Outcome bag i d Q (f a)
      → Outcome bag i d Q (lift o >>= f)
  Outcome-lift f e (done b fits e' h) = done b fits (rw (e, lift) e') h
  Outcome-lift f e (short lt e') = short lt (rw (e, lift) e')

module _ {n : ℕ} (pos : 0 < n) {bag : Bag} (good : IsGoodBag n bag) where
  -- The secure AND that takes the next triple.
  pub and_next_lem :
      {i : ℕ} {a b : SharedBit} {p q : Bool}
      → i ≤ length bag
      → Shares n a p
      → Shares n b q
      → Outcome bag i 1 (λ r. Shares n r (p && q)) (and_next a b)
  unfolding and_next
  and_next_lem {i} {a} {b} {p} {q} fits ha hb = elim (dec_lt i (length bag)) [
    | no out ↦ short (omega arith) (ground arith)
    | yes lt ↦
        let (t, t_eq, t_ok) = get_elem?-All (IsBitTriple n) bag i good lt in
        let (r, r_eq, r_h) = secure_and_lem pos ha hb t_ok in
        done r (omega arith) (ground (arith, t_eq, r_eq)) r_h
  ]

pub not_shared_lem :
    {n : ℕ} {a : SharedBit} {p : Bool} → 0 < n → Shares n a p → Shares n (not_shared a) (not p)
unfolding not_shared
not_shared_lem {p = true} pos h = xor_const_lem true pos h
not_shared_lem {p = false} pos h = xor_const_lem true pos h

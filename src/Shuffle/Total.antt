-- ===== src/Shuffle/Total.antt =====
-- A round with what the dealer dealt: the opened table is rearranged.
use psa_for_multiparty.Common.{
  ℕ, zero, suc, ◌+◌, ◌≤◌, ◌≡◌, refl, sym, ap, ◌∙◌, subst, true, Option, some, none, List, [], ◌∷◌,
  map, length, get_elem?, arith,
}
use psa_for_multiparty.Common.Fail.{>>=-eq-some}
use mathlib.Core.Option.{some_inj}
use psa_for_multiparty.Mac.{pos, BlockOps, permute}
use psa_for_multiparty.Mac.Laws.{IsRing}
use psa_for_multiparty.Bitonic.Network.{total}
use psa_for_multiparty.Shuffle.{
  RowVec, CgpCorrelationA, CgpCorrelationB, CascadeStateCgp, MaliciousMode, malicious, semi_honest,
  indices_from, cgp_dealer_generate, malicious_check, cgp_cascade_round, cgp_final_reveal,
  cgp_run_in_memory,
}
use psa_for_multiparty.Shuffle.Rows.{IsShape, xor_table, xor_table-IsShape}
use psa_for_multiparty.Shuffle.Dealer.{IsOrder, IsFitting, cgp_dealer_generate_lem}
use psa_for_multiparty.Shuffle.Round.{stepped, state_of, round_result, run_result, opened}
use psa_for_multiparty.Shuffle.Malicious.{malicious_check_lem}

module _ {A : Type 0} (f : A → ℕ) where
  -- the weight of the element at an index
  abbrev weight_of : Option A → ℕ
  weight_of none = 0
  weight_of (some x) = f x

  abbrev weight_at : List A → ℕ → ℕ
  weight_at xs i = weight_of (get_elem? xs i)

  total-permute :
      (xs : List A) (perm : List ℕ) {ys : List A}
      → permute xs (map pos perm) ≡ some ys
      → total f ys ≡ total (weight_at xs) perm
  unfolding permute
  total-permute xs [] h = sym (ap (total f) (some_inj.0 h))
  total-permute xs (i ∷ perm) h =
      let (x, x_eq, h1) = >>=-eq-some (get_elem? xs i) _ h in
      let (us, us_eq, h2) = >>=-eq-some (permute xs (map pos perm)) _ h1 in
      let rest = total-permute xs perm us_eq in
      sym (ap (total f) (some_inj.0 h2)) ∙ rw (x_eq, rest) refl

  later_indices :
      (x : A) (xs : List A) (i n : ℕ)
      → total (weight_at (x ∷ xs)) (indices_from (suc i) n)
        ≡ total (weight_at xs) (indices_from i n)
  later_indices x xs i zero = refl
  later_indices x xs i (suc n) =
      ap (λ t. weight_at xs i + t)
        (ap (λ k. total (weight_at (x ∷ xs)) (indices_from k n)) (next_index i)
          ∙ later_indices x xs (i + 1) n)
    where
      next_index : (i : ℕ) → suc i + 1 ≡ suc (i + 1)
      next_index i = omega arith

  total-indices : (xs : List A) → total (weight_at xs) (indices_from 0 (length xs)) ≡ total f xs
  total-indices [] = refl
  total-indices (x ∷ xs) =
      ap (λ t. f x + t)
        (ap (λ k. total (weight_at (x ∷ xs)) (indices_from k (length xs))) one
          ∙ later_indices x xs 0 (length xs)
          ∙ total-indices xs)
    where
      one : ◌≡◌ {A = ℕ} (0 + 1) (suc 0)
      one = refl

  permute-total :
      (n : ℕ) (xs : List A) (perm : List ℕ) {ys : List A}
      → length xs ≡ n
      → IsOrder n perm
      → permute xs (map pos perm) ≡ some ys
      → total f ys ≡ total f xs
  permute-total n xs perm size order h =
      total-permute xs perm h
      ∙ order.each_once (weight_at xs)
      ∙ ap (λ k. total (weight_at xs) (indices_from 0 k)) (sym size)
      ∙ total-indices xs

-- A round that passes, with what the shares open to before it and after it: the same rows, in the
-- order of the permutation, with the in-memory run's shares.
pub record Shuffled (ops : BlockOps) (x y : RowVec ops.Block) (ca : CgpCorrelationA ops.Block)
    (cb : CgpCorrelationB ops.Block) (mode : MaliciousMode) : Type 0 where
  pub out : CascadeStateCgp ops.Block
  pub before : RowVec ops.Block
  pub after : RowVec ops.Block
  pub passes :
      cgp_cascade_round ops (record { sp_share = x; peer_share = y }) ca cb mode ≡ some (true, out)
  pub in_memory : cgp_run_in_memory ops x y ca cb ≡ some (out.sp_share, out.peer_share)
  pub before_eq : cgp_final_reveal ops (record { sp_share = x; peer_share = y }) ≡ some before
  pub after_eq : cgp_final_reveal ops out ≡ some after
  pub permuted : permute before cb.pi ≡ some after
  pub same_rows : (f : List ops.Block → ℕ) → total f after ≡ total f before

module _ (ops : BlockOps) (laws : IsRing ops) (n w : ℕ) (some_row : 1 ≤ n) where
  open ops use {Block, State}

  checked :
      (mode : MaliciousMode) (ca : CgpCorrelationA Block) (cb : CgpCorrelationB Block)
      (fits : IsFitting n w ca cb) (pa : RowVec Block)
      → permute ca.a cb.pi ≡ some pa
      → IsShape n w pa
      → ca.alpha ≡ xor_table ops pa cb.b
      → malicious_check ops mode ca cb ≡ some true
  unfolding malicious_check
  checked semi_honest ca cb fits pa picked shape holds = refl
  checked malicious ca cb fits pa picked shape holds =
      let (passed, result, iff) =
        malicious_check_lem ops laws n w some_row ca cb fits pa picked shape in
      result ∙ ap some (iff.1 holds)

  -- For a table of at least one row of at least one block whose two shares have its shape, every state
  -- of the generator and both modes: the dealer succeeds, and the round with what it dealt passes; the
  -- shares then open to the rows that they opened to before, in the order of the dealt permutation,
  -- which is a rearrangement of them, and the two parties run in memory have the shares of the round.
  pub cgp_cascade_round-dealt :
      (next_u32 : State → ℕ × State) (g : State) (mode : MaliciousMode) (x y : RowVec Block)
      → 1 ≤ w
      → IsShape n w x
      → IsShape n w y
      → (ca : CgpCorrelationA Block) × (cb : CgpCorrelationB Block) × (g' : State)
        × (cgp_dealer_generate ops next_u32 n w g ≡ some (ca, cb, g'))
        × Shuffled ops x y ca cb mode
  cgp_cascade_round-dealt next_u32 g mode x y some_block hx hy =
      let (ca, cb, g', dealt, fits, (pa, pa_eq, holds), (perm, pi_eq, order)) =
        cgp_dealer_generate_lem ops next_u32 n w g some_block in
      let s = stepped ops n w some_row ca cb fits x y hx hy in
      let same : pa ≡ s.pa = some_inj.0 (sym pa_eq ∙ s.pa_eq) in
      let correlated : ca.alpha ≡ xor_table ops s.pa cb.b =
        holds ∙ ap (λ t. xor_table ops t cb.b) same in
      let (before_eq, after_eq) = opened ops n w some_row ca cb fits laws x y hx hy s correlated in
      (
        ca,
        cb,
        g',
        dealt,
        record {
          out = state_of ops n w some_row ca cb fits x y s;
          before = xor_table ops x y;
          after = xor_table ops s.px s.py;
          passes =
              round_result ops n w some_row ca cb fits x y mode true hx hy s
                (checked mode ca cb fits s.pa s.pa_eq s.pa_shape correlated);
          in_memory = run_result ops n w some_row ca cb fits x y s;
          before_eq = before_eq;
          after_eq = after_eq;
          permuted = s.both_eq;
          same_rows = λ f.
              permute-total f n (xor_table ops x y) perm (xor_table-IsShape ops n w x y hx hy).0
                order
                (subst (λ p. permute (xor_table ops x y) p ≡ some (xor_table ops s.px s.py)) pi_eq
                  s.both_eq);
        },
      )

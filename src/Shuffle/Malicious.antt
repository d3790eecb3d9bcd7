-- ===== src/Shuffle/Malicious.antt =====
-- The check of the malicious mode accepts exactly the correlations.
use psa_for_multiparty.Common.{
  ℕ, ◌≤◌, ◌≡◌, ◌↔◌, refl, sym, ap, ◌∙◌, Bool, true, false, some, List, [], ◌∷◌, length,
  if◌then◌else◌, All, arith,
}
use mathlib.Core.Path.{ap₂}
use mathlib.Core.Option.{some_inj}
use psa_for_multiparty.Mac.{BlockOps, zip_blocks, permute}
use psa_for_multiparty.Mac.Laws.{IsRing}
use psa_for_multiparty.Shuffle.{
  RowVec, CgpCorrelationA, CgpCorrelationB, CascadeStateCgp, malicious, apply_pi_rows, check_row,
  check_rows, failed_round, malicious_check, cgp_cascade_round,
}
use psa_for_multiparty.Shuffle.Rows.{IsShape, same_size, xor_table}
use psa_for_multiparty.Shuffle.Dealer.{IsFitting, IsCorrelated}
use psa_for_multiparty.Shuffle.Round.{stepped, state_of, round_result}

cons_head : {A : Type 0} {u v : A} {us vs : List A} → u ∷ us ≡ v ∷ vs → u ≡ v
cons_head e = cc

cons_tail : {A : Type 0} {u v : A} {us vs : List A} → u ∷ us ≡ v ∷ vs → us ≡ vs
cons_tail e = cc

if_both : (p q : Bool) → (if p then q else false) ≡ true → (p ≡ true) × (q ≡ true)
if_both true q h = (refl, h)
if_both false q h = absurd (ground (arith, h))

module _ (ops : BlockOps) where
  open ops use {Block, xor_block}

  module _ (laws : IsRing ops) where
    open laws use {same_iff}

    check_row_iff :
        (ps bs as' : List Block)
        → length bs ≡ length ps
        → length as' ≡ length ps
        → (check_row ops ps bs as' ≡ true) ↔ (as' ≡ zip_blocks xor_block ps bs)
    unfolding check_row
    check_row_iff [] [] [] h k = (λ _. refl, λ _. refl)
    check_row_iff [] (b ∷ bs) as' h k = absurd (omega arith)
    check_row_iff [] [] (a ∷ as') h k = absurd (omega arith)
    check_row_iff (p ∷ ps) [] as' h k = absurd (omega arith)
    check_row_iff (p ∷ ps) (b ∷ bs) [] h k = absurd (omega arith)
    check_row_iff (p ∷ ps) (b ∷ bs) (a ∷ as') h k =
        let rest = check_row_iff ps bs as' (omega arith) (omega arith) in
        (
          λ v.
              let (first, others) = if_both _ _ v in
              ap₂ (λ z zs. z ∷ zs) (sym ((same_iff _ _).0 first)) (rest.0 others),
          λ e. rw ((same_iff (xor_block p b) a).1 (sym (cons_head e))) (rest.1 (cons_tail e)),
        )

    check_rows_iff :
        (w : ℕ) (ps bs as' : RowVec Block)
        → length bs ≡ length ps
        → length as' ≡ length ps
        → All (λ r. length r ≡ w) ps
        → All (λ r. length r ≡ w) bs
        → All (λ r. length r ≡ w) as'
        → (check_rows ops ps bs as' ≡ true) ↔ (as' ≡ xor_table ops ps bs)
    unfolding check_rows
    check_rows_iff w [] [] [] h k wp wb wa = (λ _. refl, λ _. refl)
    check_rows_iff w [] (b ∷ bs) as' h k wp wb wa = absurd (omega arith)
    check_rows_iff w [] [] (a ∷ as') h k wp wb wa = absurd (omega arith)
    check_rows_iff w (p ∷ ps) [] as' h k wp wb wa = absurd (omega arith)
    check_rows_iff w (p ∷ ps) (b ∷ bs) [] h k wp wb wa = absurd (omega arith)
    check_rows_iff w (p ∷ ps) (b ∷ bs) (a ∷ as') h k (p_n, wp) (b_n, wb) (a_n, wa) =
        let row = check_row_iff p b a (b_n ∙ sym p_n) (a_n ∙ sym p_n) in
        let rest = check_rows_iff w ps bs as' (omega arith) (omega arith) wp wb wa in
        (
          λ v.
              let (first, others) = if_both _ _ v in
              ap₂ (λ z zs. z ∷ zs) (row.0 first) (rest.0 others),
          λ e. rw (row.1 (cons_head e)) (rest.1 (cons_tail e)),
        )

    module _ (n w : ℕ) (some_row : 1 ≤ n) (ca : CgpCorrelationA Block) (cb : CgpCorrelationB Block)
        (fits : IsFitting n w ca cb) where
      pub malicious_check_lem :
          (pa : RowVec Block)
          → permute ca.a cb.pi ≡ some pa
          → IsShape n w pa
          → (passed : Bool) × (malicious_check ops malicious ca cb ≡ some passed)
            × ((passed ≡ true) ↔ (ca.alpha ≡ xor_table ops pa cb.b))
      unfolding malicious_check apply_pi_rows
      malicious_check_lem pa pa_eq shape = (
        check_rows ops pa cb.b ca.alpha,
        rw (same_size (fits.a.0 ∙ sym fits.size), pa_eq) refl,
        check_rows_iff w pa cb.b ca.alpha (fits.b.0 ∙ sym shape.0) (fits.alpha.0 ∙ sym shape.0)
            shape.1 fits.b.1 fits.alpha.1,
      )

      -- For a table of at least one row whose shares, and what the dealer dealt, have its shape: the
      -- round in the malicious mode does not throw; it passes exactly when A's output share is the
      -- permuted mask under B's, and a round that does not pass leaves the empty state.
      pub cgp_cascade_round-malicious :
          (x y : RowVec Block)
          → IsShape n w x
          → IsShape n w y
          → (passed : Bool) × (out : CascadeStateCgp Block) × (cgp_cascade_round ops
                (record { sp_share = x; peer_share = y })
                ca
                cb
                malicious
              ≡ some (passed, out))
            × ((passed ≡ true) ↔ IsCorrelated ops ca cb)
            × (passed ≡ false → out ≡ record { sp_share = []; peer_share = [] })
      cgp_cascade_round-malicious x y hx hy =
          let s = stepped ops n w some_row ca cb fits x y hx hy in
          let (passed, checked, iff) = malicious_check_lem s.pa s.pa_eq s.pa_shape in
          let ran = round_result ops n w some_row ca cb fits x y malicious passed hx hy s checked in
          let exact : (passed ≡ true) ↔ IsCorrelated ops ca cb = (
            λ p. (s.pa, s.pa_eq, iff.0 p),
            λ c. iff.1 (c.2 ∙ ap (λ t. xor_table ops t cb.b) (some_inj.0 (sym c.1 ∙ s.pa_eq))),
          ) in
          outcome passed (state_of ops n w some_row ca cb fits x y s) ran exact
        where
          outcome :
              (passed : Bool) (after : CascadeStateCgp Block)
              → cgp_cascade_round ops (record { sp_share = x; peer_share = y }) ca cb malicious
                ≡ some (if passed then (true, after) else failed_round ops)
              → (passed ≡ true) ↔ IsCorrelated ops ca cb
              → (passed' : Bool) × (out : CascadeStateCgp Block) × (cgp_cascade_round ops
                    (record { sp_share = x; peer_share = y })
                    ca
                    cb
                    malicious
                  ≡ some (passed', out))
                × ((passed' ≡ true) ↔ IsCorrelated ops ca cb)
                × (passed' ≡ false → out ≡ record { sp_share = []; peer_share = [] })
          outcome true after ran exact = (true, after, ran, exact, λ e. cc)
          outcome false after ran exact = (false, _, ran, exact, λ e. refl)

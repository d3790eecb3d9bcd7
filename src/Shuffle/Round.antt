-- ===== src/Shuffle/Round.antt =====
-- One round of the shuffle: what it opens to, and what the check of the malicious mode rejects.
use psa_for_multiparty.Common.{
  ℕ, ◌≤◌, ◌≡◌, refl, sym, ap, ◌∙◌, subst, Bool, true, false, some, [], ◌∷◌, length, ◌==◌,
  if◌then◌else◌, All, choose_false, arith,
}
use psa_for_multiparty.Mac.{BlockOps, zip_blocks, permute}
use psa_for_multiparty.Mac.Laws.{IsRing}
use psa_for_multiparty.Shuffle.{
  RowVec, CgpCorrelationA, CgpCorrelationB, CascadeStateCgp, MaliciousMode, first_width,
  require_width, apply_pi_rows, cgp_online_a, cgp_online_b, failed_round, malicious_check,
  cgp_cascade_round, cgp_final_reveal, cgp_run_in_memory,
}
use psa_for_multiparty.Shuffle.Rows.{
  IsShape, same_size, require_width_lem, permute-zip_blocks, permute_lem, xor_table,
  xor_table-IsShape, xor_rows_lem, unmask,
}
use psa_for_multiparty.Shuffle.Dealer.{IsFitting}

first_width-eq :
    {Block : Type 0} (n w : ℕ) (rows : RowVec Block)
    → 1 ≤ n
    → IsShape n w rows
    → first_width rows ≡ w
first_width-eq n w [] some_row h = absurd (omega arith)
first_width-eq n w (r ∷ rows) some_row h = h.1.0

nonempty : (n m : ℕ) → 1 ≤ m → n ≡ m → (n == 0) ≡ false
nonempty n m h e = ground (arith, h, e)

module _ (ops : BlockOps) (n w : ℕ) (some_row : 1 ≤ n) where
  open ops use {Block, xor_block}

  widths :
      (x rows : RowVec Block)
      → IsShape n w x
      → IsShape n w rows
      → require_width rows (first_width x) ≡ some tt
  widths x rows hx h =
      subst (λ t. require_width rows t ≡ some tt) (sym (first_width-eq n w x some_row hx))
        (require_width_lem w rows h.1)

  module _ (ca : CgpCorrelationA Block) (cb : CgpCorrelationB Block)
      (fits : IsFitting n w ca cb) where
    cgp_online_a_lem :
        (x : RowVec Block)
        → IsShape n w x
        → cgp_online_a ops x ca ≡ some (xor_table ops x ca.a, ca.alpha)
    unfolding cgp_online_a
    cgp_online_a_lem x h =
        rw
          (
            same_size (fits.a.0 ∙ sym h.0),
            same_size (fits.alpha.0 ∙ sym h.0),
            choose_false (length x == 0) _ _ (nonempty (length x) n some_row h.0),
            widths x x h h,
            widths x ca.a h fits.a,
            widths x ca.alpha h fits.alpha,
            xor_rows_lem ops n w x ca.a h fits.a,
          )
          refl

    cgp_online_b_lem :
        (y m z : RowVec Block)
        → IsShape n w y
        → IsShape n w m
        → IsShape n w z
        → permute (xor_table ops m y) cb.pi ≡ some z
        → cgp_online_b ops y cb m ≡ some (xor_table ops z cb.b)
    unfolding cgp_online_b apply_pi_rows
    cgp_online_b_lem y m z hy hm hz picked =
        rw
          (
            same_size (fits.size ∙ sym hy.0),
            same_size (fits.b.0 ∙ sym hy.0),
            same_size (hm.0 ∙ sym hy.0),
            choose_false (length y == 0) _ _ (nonempty (length y) n some_row hy.0),
            widths y y hy hy,
            widths y cb.b hy fits.b,
            widths y m hy hm,
            xor_rows_lem ops n w m y hm hy,
            same_size ((xor_table-IsShape ops n w m y hm hy).0 ∙ sym fits.size),
            picked,
            xor_rows_lem ops n w z cb.b hz fits.b,
          )
          refl

    -- Both steps of a round: A's output share, and B's.
    pub record Stepped (x y : RowVec Block) : Type 0 where
      pub px : RowVec Block
      pub py : RowVec Block
      pub pa : RowVec Block
      pub px_shape : IsShape n w px
      pub py_shape : IsShape n w py
      pub pa_shape : IsShape n w pa
      pub pa_eq : permute ca.a cb.pi ≡ some pa
      pub both_eq : permute (xor_table ops x y) cb.pi ≡ some (xor_table ops px py)
      a_eq : cgp_online_a ops x ca ≡ some (xor_table ops x ca.a, ca.alpha)
      b_eq :
          cgp_online_b ops y cb (xor_table ops x ca.a)
          ≡ some (xor_table ops (xor_table ops (xor_table ops px pa) py) cb.b)

    pub stepped : (x y : RowVec Block) → IsShape n w x → IsShape n w y → Stepped x y
    stepped x y hx hy =
        let wide : RowVec Block → Type 0 = λ rows. All (λ r. length r ≡ w) rows in
        let (px, px_eq, px_n, px_w) =
          permute_lem (λ r. length r ≡ w) n x cb.pi hx.0 fits.indices hx.1 in
        let (py, py_eq, py_n, py_w) =
          permute_lem (λ r. length r ≡ w) n y cb.pi hy.0 fits.indices hy.1 in
        let (pa, pa_eq, pa_n, pa_w) =
          permute_lem (λ r. length r ≡ w) n ca.a cb.pi fits.a.0 fits.indices fits.a.1 in
        let px_shape : IsShape n w px = (px_n ∙ fits.size, px_w) in
        let py_shape : IsShape n w py = (py_n ∙ fits.size, py_w) in
        let pa_shape : IsShape n w pa = (pa_n ∙ fits.size, pa_w) in
        let masked = xor_table-IsShape ops n w px pa px_shape pa_shape in
        record {
          px = px;
          py = py;
          pa = pa;
          px_shape = px_shape;
          py_shape = py_shape;
          pa_shape = pa_shape;
          pa_eq = pa_eq;
          both_eq = permute-zip_blocks (zip_blocks xor_block) x y cb.pi px_eq py_eq;
          a_eq = cgp_online_a_lem x hx;
          b_eq =
              cgp_online_b_lem y (xor_table ops x ca.a) (xor_table ops (xor_table ops px pa) py) hy
                (xor_table-IsShape ops n w x ca.a hx fits.a)
                (xor_table-IsShape ops n w (xor_table ops px pa) py masked py_shape)
                (permute-zip_blocks (zip_blocks xor_block) (xor_table ops x ca.a) y cb.pi
                  (permute-zip_blocks (zip_blocks xor_block) x ca.a cb.pi px_eq pa_eq) py_eq);
        }

    abbrev pub state_of : (x y : RowVec Block) → Stepped x y → CascadeStateCgp Block
    state_of x y s = record {
      sp_share = ca.alpha;
      peer_share = xor_table ops (xor_table ops (xor_table ops s.px s.pa) s.py) cb.b;
    }

    -- A round is its two steps and the check.
    pub round_result :
        (x y : RowVec Block) (mode : MaliciousMode) (passed : Bool)
        → IsShape n w x
        → IsShape n w y
        → (s : Stepped x y) → malicious_check ops mode ca cb ≡ some passed
        → cgp_cascade_round ops (record { sp_share = x; peer_share = y }) ca cb mode
          ≡ some (if passed then (true, state_of x y s) else failed_round ops)
    unfolding cgp_cascade_round
    round_result x y mode passed hx hy s checked =
        rw
          (
            same_size (hy.0 ∙ sym hx.0),
            same_size (fits.a.0 ∙ sym hx.0),
            same_size (fits.alpha.0 ∙ sym hx.0),
            same_size (fits.size ∙ sym hx.0),
            same_size (fits.b.0 ∙ sym hx.0),
            s.a_eq,
            s.b_eq,
            checked,
          )
          refl

    -- Both parties in one process have the shares of the round's state.
    pub run_result :
        (x y : RowVec Block) (s : Stepped x y)
        → cgp_run_in_memory ops x y ca cb
          ≡ some ((state_of x y s).sp_share, (state_of x y s).peer_share)
    unfolding cgp_run_in_memory
    run_result x y s = rw (s.a_eq, s.b_eq) refl

    -- What the state opens to, before the round and after it.
    pub opened :
        IsRing ops
        → (x y : RowVec Block) (hx : IsShape n w x) (hy : IsShape n w y) (s : Stepped x y)
        → ca.alpha ≡ xor_table ops s.pa cb.b
        → (cgp_final_reveal ops (record { sp_share = x; peer_share = y })
            ≡ some (xor_table ops x y))
          × (cgp_final_reveal ops (state_of x y s) ≡ some (xor_table ops s.px s.py))
    unfolding cgp_final_reveal
    opened laws x y hx hy s correlated = (
      xor_rows_lem ops n w x y hx hy,
      xor_rows_lem ops n w ca.alpha _ fits.alpha (
            xor_table-IsShape ops n w _ cb.b
              (xor_table-IsShape ops n w (xor_table ops s.px s.pa) s.py
                (xor_table-IsShape ops n w s.px s.pa s.px_shape s.pa_shape) s.py_shape)
              fits.b)
          ∙ ap some (
              ap
                (λ t.
                  xor_table ops t
                    (xor_table ops (xor_table ops (xor_table ops s.px s.pa) s.py) cb.b))
                correlated
              ∙ unmask ops laws n w s.pa cb.b s.px s.py s.pa_shape fits.b s.px_shape s.py_shape),
    )

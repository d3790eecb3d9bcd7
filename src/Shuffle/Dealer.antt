-- ===== src/Shuffle/Dealer.antt =====
-- What the dealer of the shuffle deals: masks of one shape, a permutation of the rows, and A's output
-- share.
use psa_for_multiparty.Common.{
  ℕ, zero, suc, ◌+◌, ◌-◌, ◌%◌, ◌≤◌, ◌<◌, ◌≡◌, refl, sym, ap, ◌∙◌, true, not, some, List, [], ◌∷◌,
  map, length, get_elem?, get_elem?-All, set, length-set, set-All, length-map, ◌==◌, All, arith,
}
use psa_for_multiparty.Mac.{pos, BlockOps, permute}
use psa_for_multiparty.Bitonic.Network.{total, total-set}
use psa_for_multiparty.Shuffle.{
  RowVec, CgpCorrelationA, CgpCorrelationB, indices_from, swap_indices, shuffle_indices, draw_row,
  draw_rows, apply_pi_rows, cgp_dealer_generate,
}
use psa_for_multiparty.Shuffle.Rows.{
  IsShape, IsIndex, same_size, permute_lem, xor_table, xor_table-IsShape,
}

length-indices_from : (i n : ℕ) → length (indices_from i n) ≡ n
length-indices_from i zero = refl
length-indices_from i (suc n) = ap suc (length-indices_from (i + 1) n)

indices_from-All : (i n m : ℕ) → i + n ≤ m → All (λ k. k < m) (indices_from i n)
indices_from-All i zero m h = tt
indices_from-All i (suc n) m h = (omega arith, indices_from-All (i + 1) n m (omega arith))

-- the indices of `n` rows, each once, in any order
pub record IsOrder (n : ℕ) (perm : List ℕ) : Type 0 where
  pub size : length perm ≡ n
  pub bound : All (λ k. k < n) perm
  pub each_once : (f : ℕ → ℕ) → total f perm ≡ total f (indices_from 0 n)

indices_from-IsOrder : (n : ℕ) → IsOrder n (indices_from 0 n)
indices_from-IsOrder n = record {
  size = length-indices_from 0 n;
  bound = indices_from-All 0 n n (omega arith);
  each_once = λ f. refl;
}

set_get : (xs : List ℕ) (i j y : ℕ) → get_elem? xs j ≡ some y → get_elem? (set xs i y) j ≡ some y
set_get [] i j y h = h
set_get (x ∷ xs) zero zero y h = refl
set_get (x ∷ xs) zero (suc j) y h = h
set_get (x ∷ xs) (suc i) zero y h = h
set_get (x ∷ xs) (suc i) (suc j) y h = set_get xs i j y h

swap_indices-IsOrder :
    (n i j : ℕ) (perm : List ℕ)
    → IsOrder n perm
    → i < n
    → j < n
    → (perm' : List ℕ) × (swap_indices perm i j ≡ some perm') × IsOrder n perm'
swap_indices-IsOrder n i j perm h hi hj =
    let (x, ex, px) = get_elem?-All (λ k. k < n) perm i h.bound (omega (arith, h.size, hi)) in
    let (y, ey, py) = get_elem?-All (λ k. k < n) perm j h.bound (omega (arith, h.size, hj)) in
    (
      set (set perm i y) j x,
      rw (ex, ey) refl,
      record {
        size = length-set (set perm i y) j x ∙ length-set perm i y ∙ h.size;
        bound =
            set-All (λ k. k < n) (set perm i y) j x (set-All (λ k. k < n) perm i y h.bound py) px;
        each_once = λ f. omega (
          arith,
          total-set f perm i x y ex,
          total-set f (set perm i y) j y x (set_get perm i j y ey),
          h.each_once f,
        );
      },
    )

-- What fits a shuffle of `n` rows of `w` blocks.
pub record IsFitting {Block : Type 0} (n w : ℕ) (ca : CgpCorrelationA Block)
    (cb : CgpCorrelationB Block) : Type 0 where
  pub a : IsShape n w ca.a
  pub alpha : IsShape n w ca.alpha
  pub b : IsShape n w cb.b
  pub size : length cb.pi ≡ n
  pub indices : All (IsIndex n) cb.pi

indices-pos : (n : ℕ) (perm : List ℕ) → All (λ k. k < n) perm → All (IsIndex n) (map pos perm)
indices-pos n [] h = tt
indices-pos n (k ∷ perm) h = (h.0, indices-pos n perm h.1)

module _ (ops : BlockOps) where
  open ops use {Block, xor_block, State, next_block}

  -- A's output share is the permuted mask under B's.
  abbrev pub IsCorrelated : CgpCorrelationA Block → CgpCorrelationB Block → Type 0
  IsCorrelated ca cb =
      (pi_a : RowVec Block) × (permute ca.a cb.pi ≡ some pi_a)
      × (ca.alpha ≡ xor_table ops pi_a cb.b)

  draw_row-width :
      (w : ℕ) (g : State) → (length (draw_row ops w g).0 ≡ w) × (length (draw_row ops w g).1 ≡ w)
  unfolding draw_row
  draw_row-width zero g = (refl, refl)
  draw_row-width (suc w) g =
      let (h, k) = draw_row-width w (next_block (next_block g).1).1 in (ap suc h, ap suc k)

  draw_rows-IsShape :
      (n w : ℕ) (g : State)
      → IsShape n w (draw_rows ops n w g).0 × IsShape n w (draw_rows ops n w g).1
  unfolding draw_rows
  draw_rows-IsShape zero w g = ((refl, tt), (refl, tt))
  draw_rows-IsShape (suc n) w g =
      let (h, k) = draw_row-width w g in
      let ((an, aw), (bn, bw)) = draw_rows-IsShape n w (draw_row ops w g).2 in
      ((ap suc an, (h, aw)), (ap suc bn, (k, bw)))

  module _ (next_u32 : State → ℕ × State) where
    shuffle_indices-IsOrder :
        (n k : ℕ) (perm : List ℕ) (g : State)
        → IsOrder n perm
        → k < n
        → (perm' : List ℕ) × (g' : State) × (shuffle_indices ops next_u32 k perm g
            ≡ some (perm', g'))
          × IsOrder n perm'
    unfolding shuffle_indices
    shuffle_indices-IsOrder n zero perm g h lt = (perm, g, refl, h)
    shuffle_indices-IsOrder n (suc k) perm g h lt =
        let drawn = next_u32 g in
        let (perm1, e1, h1) =
          swap_indices-IsOrder n (suc k) (drawn.0 % (suc k + 1)) perm h lt (omega arith) in
        let (perm2, g2, e2, h2) = shuffle_indices-IsOrder n k perm1 drawn.1 h1 (omega arith) in
        (perm2, g2, rw (e1, e2) refl, h2)

    shuffled-IsOrder :
        (n : ℕ) (g : State)
        → (perm : List ℕ) × (g' : State) × (shuffle_indices ops next_u32
              (n - 1)
              (indices_from 0 n)
              g
            ≡ some (perm, g'))
          × IsOrder n perm
    unfolding shuffle_indices
    shuffled-IsOrder zero g = ([], g, refl, indices_from-IsOrder 0)
    shuffled-IsOrder (suc n) g =
        shuffle_indices-IsOrder (suc n) (suc n - 1) (indices_from 0 (suc n)) g
          (indices_from-IsOrder (suc n)) (omega arith)

    -- For rows of at least one block and every state of the generator, the dealer succeeds; what it
    -- deals fits the table, its permutation has every index once, and A's output share is the permuted
    -- mask under B's.
    pub cgp_dealer_generate_lem :
        (n w : ℕ) (g : State)
        → 1 ≤ w
        → (ca : CgpCorrelationA Block) × (cb : CgpCorrelationB Block) × (g' : State)
          × (cgp_dealer_generate ops next_u32 n w g ≡ some (ca, cb, g'))
          × IsFitting n w ca cb
          × IsCorrelated ca cb
          × ((perm : List ℕ) × (cb.pi ≡ map pos perm) × IsOrder n perm)
    unfolding cgp_dealer_generate apply_pi_rows
    cgp_dealer_generate_lem n w g pos_w =
        let drawn = draw_rows ops n w g in
        let (a_shape, b_shape) = draw_rows-IsShape n w g in
        let (perm, g', perm_eq, order) = shuffled-IsOrder n drawn.2 in
        let indices = indices-pos n perm order.bound in
        let size : length (map pos perm) ≡ n = length-map perm pos ∙ order.size in
        let (pi_a, pi_eq, pi_n, pi_w) =
          permute_lem (λ r. length r ≡ w) n drawn.0 (map pos perm) a_shape.0 indices a_shape.1 in
        let some_width : not (w == 0) ≡ true = ground (arith, pos_w) in
        (
          record { a = drawn.0; alpha = xor_table ops pi_a drawn.1 },
          record { pi = map pos perm; b = drawn.1 },
          g',
          rw (some_width, perm_eq, same_size (a_shape.0 ∙ sym size), pi_eq) refl,
          record {
            a = a_shape;
            alpha = xor_table-IsShape ops n w pi_a drawn.1 (pi_n ∙ size, pi_w) b_shape;
            b = b_shape;
            size = size;
            indices = indices;
          },
          (pi_a, pi_eq, refl),
          (perm, refl, order),
        )

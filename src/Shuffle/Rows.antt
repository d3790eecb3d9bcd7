-- ===== src/Shuffle/Rows.antt =====
-- Tables of rows of one width: their XOR and their permutation.
use psa_for_multiparty.Common.{
  ℕ, zero, suc, ◌<◌, ◌≡◌, refl, sym, ap, ◌∙◌, subst, true, some, List, [], ◌∷◌, length, get_elem?,
  get_elem?-All, ◌==◌, ==_iff, All, arith,
}
use psa_for_multiparty.Common.Fail.{>>=-eq-some}
use mathlib.Core.Option.{some_inj}
use mathlib.Core.Path.{ap₂}
use psa_for_multiparty.Mac.{ℤ, pos, negsuc, BlockOps, zip_blocks, permute}
use psa_for_multiparty.Mac.Laws.{IsRing}
use psa_for_multiparty.Mac.Random.{xor_cancel}
use psa_for_multiparty.Shuffle.{RowVec, require_width, xor_each, xor_rows}

-- `n` rows of `w` blocks
abbrev pub IsShape : {Block : Type 0} → ℕ → ℕ → RowVec Block → Type 0
IsShape n w rows = (length rows ≡ n) × All (λ r. length r ≡ w) rows

-- an index of a table of `n` rows
abbrev pub IsIndex : ℕ → ℤ → Type 0
IsIndex n (pos k) = k < n
IsIndex n (negsuc k) = ⊥

pub same_size : {a b : ℕ} → a ≡ b → (a == b) ≡ true
same_size {a} {b} h = (==_iff a b).1 h

pub require_width_lem :
    {Block : Type 0} (w : ℕ) (rows : RowVec Block)
    → All (λ r. length r ≡ w) rows
    → require_width rows w ≡ some tt
unfolding require_width
require_width_lem w [] h = refl
require_width_lem w (r ∷ rows) (e, h) = rw (same_size e) (require_width_lem w rows h)

module _ {A : Type 0} (f : A → A → A) where
  pub length-zip_blocks :
      (xs ys : List A) → length xs ≡ length ys → length (zip_blocks f xs ys) ≡ length xs
  length-zip_blocks [] ys h = refl
  length-zip_blocks (x ∷ xs) [] h = absurd (omega arith)
  length-zip_blocks (x ∷ xs) (y ∷ ys) h = ap suc (length-zip_blocks xs ys (omega arith))

  zip_blocks-get :
      (xs ys : List A) (i : ℕ) {x y : A}
      → get_elem? xs i ≡ some x
      → get_elem? ys i ≡ some y
      → get_elem? (zip_blocks f xs ys) i ≡ some (f x y)
  zip_blocks-get [] ys i h k = absurd (ground (arith, h))
  zip_blocks-get (x ∷ xs) [] i h k = absurd (ground (arith, k))
  zip_blocks-get (x ∷ xs) (y ∷ ys) zero h k = cc
  zip_blocks-get (x ∷ xs) (y ∷ ys) (suc i) h k = zip_blocks-get xs ys i h k

  -- Permuting commutes with a operation row by row.
  pub permute-zip_blocks :
      (xs ys : List A) (pi : List ℤ) {us vs : List A}
      → permute xs pi ≡ some us
      → permute ys pi ≡ some vs
      → permute (zip_blocks f xs ys) pi ≡ some (zip_blocks f us vs)
  unfolding permute
  permute-zip_blocks xs ys [] h k =
      ap₂ (λ u v. some (zip_blocks f u v)) (some_inj.0 h) (some_inj.0 k)
  permute-zip_blocks xs ys (negsuc i ∷ pi) h k = absurd (ground (arith, h))
  permute-zip_blocks xs ys (pos i ∷ pi) h k =
      let (x, x_eq, h1) = >>=-eq-some (get_elem? xs i) _ h in
      let (us, us_eq, h2) = >>=-eq-some (permute xs pi) _ h1 in
      let (y, y_eq, k1) = >>=-eq-some (get_elem? ys i) _ k in
      let (vs, vs_eq, k2) = >>=-eq-some (permute ys pi) _ k1 in
      rw (zip_blocks-get xs ys i x_eq y_eq, permute-zip_blocks xs ys pi us_eq vs_eq)
        (ap₂ (λ u v. some (zip_blocks f u v)) (some_inj.0 h2) (some_inj.0 k2))

  pub zip_blocks_comm :
      ((a b : A) → f a b ≡ f b a) → (xs ys : List A) → zip_blocks f xs ys ≡ zip_blocks f ys xs
  zip_blocks_comm comm [] [] = refl
  zip_blocks_comm comm [] (y ∷ ys) = refl
  zip_blocks_comm comm (x ∷ xs) [] = refl
  zip_blocks_comm comm (x ∷ xs) (y ∷ ys) = rw (comm x y, zip_blocks_comm comm xs ys) refl

  pub zip_blocks_assoc :
      ((a b c : A) → f (f a b) c ≡ f a (f b c))
      → (xs ys zs : List A)
      → zip_blocks f (zip_blocks f xs ys) zs ≡ zip_blocks f xs (zip_blocks f ys zs)
  zip_blocks_assoc assoc [] ys zs = refl
  zip_blocks_assoc assoc (x ∷ xs) [] zs = refl
  zip_blocks_assoc assoc (x ∷ xs) (y ∷ ys) [] = refl
  zip_blocks_assoc assoc (x ∷ xs) (y ∷ ys) (z ∷ zs) =
      rw (assoc x y z, zip_blocks_assoc assoc xs ys zs) refl

-- A permutation of a table by indices of it, and what it keeps.
pub permute_lem :
    {A : Type 0} (P : A → Type 0) (n : ℕ) (xs : List A) (pi : List ℤ)
    → length xs ≡ n
    → All (IsIndex n) pi
    → All P xs
    → (us : List A) × (permute xs pi ≡ some us) × (length us ≡ length pi) × All P us
unfolding permute
permute_lem P n xs [] size ok h = ([], refl, refl, tt)
permute_lem P n xs (negsuc i ∷ pi) size ok h = absurd ok.0
permute_lem P n xs (pos i ∷ pi) size ok h =
    let (x, x_eq, x_ok) = get_elem?-All P xs i h (subst (λ t. i < t) (sym size) ok.0) in
    let (us, us_eq, us_n, us_ok) = permute_lem P n xs pi size ok.1 h in
    (x ∷ us, rw (x_eq, us_eq) refl, ap suc us_n, (x_ok, us_ok))

module _ (ops : BlockOps) where
  open ops use {Block, xor_block}

  abbrev pub xor_table : RowVec Block → RowVec Block → RowVec Block
  xor_table xs ys = zip_blocks (zip_blocks xor_block) xs ys

  pub xor_table-IsShape :
      (n w : ℕ) (xs ys : RowVec Block)
      → IsShape n w xs
      → IsShape n w ys
      → IsShape n w (xor_table xs ys)
  xor_table-IsShape n w xs ys (hx, ax) (hy, ay) =
      (length-zip_blocks (zip_blocks xor_block) xs ys (hx ∙ sym hy) ∙ hx, widths xs ys ax ay)
    where
      widths :
          (us vs : RowVec Block)
          → All (λ r. length r ≡ w) us
          → All (λ r. length r ≡ w) vs
          → All (λ r. length r ≡ w) (xor_table us vs)
      widths [] vs h k = tt
      widths (u ∷ us) [] h k = tt
      widths (u ∷ us) (v ∷ vs) (h, hs) (k, ks) =
          (length-zip_blocks xor_block u v (h ∙ sym k) ∙ h, widths us vs hs ks)

  xor_each_lem :
      (w : ℕ) (xs ys : RowVec Block)
      → All (λ r. length r ≡ w) xs
      → All (λ r. length r ≡ w) ys
      → xor_each ops xs ys ≡ some (xor_table xs ys)
  unfolding xor_each
  xor_each_lem w [] ys h k = refl
  xor_each_lem w (x ∷ xs) [] h k = refl
  xor_each_lem w (x ∷ xs) (y ∷ ys) (h, hs) (k, ks) =
      rw (same_size (h ∙ sym k), xor_each_lem w xs ys hs ks) refl

  pub xor_rows_lem :
      (n w : ℕ) (xs ys : RowVec Block)
      → IsShape n w xs
      → IsShape n w ys
      → xor_rows ops xs ys ≡ some (xor_table xs ys)
  unfolding xor_rows
  xor_rows_lem n w xs ys (hx, ax) (hy, ay) =
      rw (same_size (hx ∙ sym hy)) (xor_each_lem w xs ys ax ay)

  module _ (laws : IsRing ops) where
    open laws use {xor_comm, xor_assoc}

    pub xor_table_comm : (xs ys : RowVec Block) → xor_table xs ys ≡ xor_table ys xs
    xor_table_comm = zip_blocks_comm (zip_blocks xor_block) (zip_blocks_comm xor_block xor_comm)

    pub xor_table_assoc :
        (xs ys zs : RowVec Block) → xor_table (xor_table xs ys) zs ≡ xor_table xs (xor_table ys zs)
    xor_table_assoc = zip_blocks_assoc (zip_blocks xor_block) (zip_blocks_assoc xor_block xor_assoc)

    row_cancel :
        (as' bs : List Block)
        → length as' ≡ length bs
        → zip_blocks xor_block as' (zip_blocks xor_block as' bs) ≡ bs
    row_cancel [] [] h = refl
    row_cancel [] (b ∷ bs) h = absurd (omega arith)
    row_cancel (a ∷ as') [] h = absurd (omega arith)
    row_cancel (a ∷ as') (b ∷ bs) h =
        rw (xor_cancel ops laws a b, row_cancel as' bs (omega arith)) refl

    -- The same table twice cancels.
    pub xor_table_cancel :
        (n w : ℕ) (xs ys : RowVec Block)
        → IsShape n w xs
        → IsShape n w ys
        → xor_table xs (xor_table xs ys) ≡ ys
    xor_table_cancel n w xs ys (hx, ax) (hy, ay) = rows xs ys (hx ∙ sym hy) ax ay
      where
        rows :
            (us vs : RowVec Block)
            → length us ≡ length vs
            → All (λ r. length r ≡ w) us
            → All (λ r. length r ≡ w) vs
            → xor_table us (xor_table us vs) ≡ vs
        rows [] [] e h k = refl
        rows [] (v ∷ vs) e h k = absurd (omega arith)
        rows (u ∷ us) [] e h k = absurd (omega arith)
        rows (u ∷ us) (v ∷ vs) e (h, hs) (k, ks) =
            rw (row_cancel u v (h ∙ sym k), rows us vs (omega arith) hs ks) refl

    -- What remains of the masks when both shares are opened.
    pub unmask :
        (n w : ℕ) (a b x y : RowVec Block)
        → IsShape n w a
        → IsShape n w b
        → IsShape n w x
        → IsShape n w y
        → xor_table (xor_table a b) (xor_table (xor_table (xor_table x a) y) b) ≡ xor_table x y
    unmask n w a b x y ha hb hx hy =
        let inner = xor_table (xor_table x a) y in
        let moved : inner ≡ xor_table a (xor_table x y) =
          ap (λ t. xor_table t y) (xor_table_comm x a) ∙ xor_table_assoc a x y in
        xor_table_assoc a b (xor_table inner b)
        ∙ ap (λ t. xor_table a (xor_table b t)) (xor_table_comm inner b)
        ∙ ap (xor_table a) (
            xor_table_cancel n w b inner hb
              (xor_table-IsShape n w (xor_table x a) y (xor_table-IsShape n w x a hx ha) hy))
        ∙ ap (xor_table a) moved
        ∙ xor_table_cancel n w a (xor_table x y) ha (xor_table-IsShape n w x y hx hy)

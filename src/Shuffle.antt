-- ===== src/Shuffle.antt =====
-- volePSI/MpCgpShuffle.h and volePSI/MpCgpShuffle.cpp: the shuffle of a table of shared rows by a
-- permutation that one party holds, with a correlation from a dealer. A block of cryptoTools and its
-- generator are the parameter of Mac; `next_u32` is `get<uint32_t>()` of the same generator. `none` is
-- an exception. The indices of a permutation of `n` rows are below 2^31, and the width
-- of a row is below 2^32.
pub mod Rows
pub mod Dealer
pub mod Round
pub mod Malicious
pub mod Total
use psa_for_multiparty.Common.{
  ℕ, zero, suc, ◌+◌, ◌-◌, ◌%◌, Bool, true, false, not, ◌&&◌, ◌||◌, Option, none, some, List, [],
  ◌∷◌, map, length, get_elem?, set, ◌==◌, if◌then◌else◌,
}
use psa_for_multiparty.Common.Fail.{◌>>=◌, ◌>>◌, require}
use psa_for_multiparty.Mac.{ℤ, pos, BlockOps, zip_blocks, permute}

abbrev pub RowVec : Type 0 → Type 0
RowVec Block = List (List Block)

pub record CgpCorrelationA (Block : Type 0) : Type 0 where
  pub a : RowVec Block
  pub alpha : RowVec Block

pub record CgpCorrelationB (Block : Type 0) : Type 0 where
  pub pi : List ℤ
  pub b : RowVec Block

pub record CascadeStateCgp (Block : Type 0) : Type 0 where
  pub sp_share : RowVec Block
  pub peer_share : RowVec Block

pub data MaliciousMode : Type 0 where
  semi_honest malicious : MaliciousMode

unfoldable pub apply_pi_rows : {A : Type 0} → List A → List ℤ → Option (List A)
apply_pi_rows xs pi = do require (length xs == length pi); permute xs pi

-- `for (auto& row : rv) if (row.size() != W) throw`
unfoldable pub require_width : {Block : Type 0} → RowVec Block → ℕ → Option (Unit {0})
require_width [] w = some tt
require_width (r ∷ rows) w = do require (length r == w); require_width rows w

abbrev pub first_width : {Block : Type 0} → RowVec Block → ℕ
first_width [] = 0
first_width (r ∷ rows) = length r

-- `std::iota`
abbrev pub indices_from : ℕ → ℕ → List ℕ
indices_from from zero = []
indices_from from (suc count) = from ∷ indices_from (from + 1) count

-- `std::swap(pi[i], pi[j])`
abbrev pub swap_indices : List ℕ → ℕ → ℕ → Option (List ℕ)
swap_indices perm i j = do x ← get_elem? perm i; y ← get_elem? perm j; some (set (set perm i y) j x)

module _ (ops : BlockOps) where
  open ops use {Block, xor_block, same_block, State, next_block}

  unfoldable pub xor_row : List Block → List Block → Option (List Block)
  xor_row a b = do require (length a == length b); some (zip_blocks xor_block a b)

  unfoldable pub xor_each : RowVec Block → RowVec Block → Option (RowVec Block)
  unfolding xor_row
  xor_each (a ∷ as') (b ∷ bs) = do r ← xor_row a b; rest ← xor_each as' bs; some (r ∷ rest)
  xor_each _ _ = some []

  unfoldable pub xor_rows : RowVec Block → RowVec Block → Option (RowVec Block)
  unfolding xor_each
  xor_rows a b = do require (length a == length b); xor_each a b

  -- a row of `a` and a row of `b`, drawn in turn
  unfoldable pub draw_row : ℕ → State → List Block × List Block × State
  draw_row zero g = ([], [], g)
  draw_row (suc w) g =
      let (x, g1) = next_block g in
      let (y, g2) = next_block g1 in let (xs, ys, g3) = draw_row w g2 in (x ∷ xs, y ∷ ys, g3)

  unfoldable pub draw_rows : ℕ → ℕ → State → RowVec Block × RowVec Block × State
  unfolding draw_row
  draw_rows zero w g = ([], [], g)
  draw_rows (suc n) w g =
      let (x, y, g1) = draw_row w g in let (xs, ys, g2) = draw_rows n w g1 in (x ∷ xs, y ∷ ys, g2)

  module _ (next_u32 : State → ℕ × State) where
    -- `for (uint32_t i = n; i > 1; --i)`, with `i - 1` rounds left
    unfoldable pub shuffle_indices : ℕ → List ℕ → State → Option (List ℕ × State)
    shuffle_indices zero perm g = some (perm, g)
    shuffle_indices (suc k) perm g = do
      let drawn = next_u32 g
      perm' ← swap_indices perm (suc k) (drawn.0 % (suc k + 1))
      shuffle_indices k perm' drawn.1

    unfoldable pub cgp_dealer_generate :
        ℕ → ℕ → State → Option (CgpCorrelationA Block × CgpCorrelationB Block × State)
    unfolding draw_rows shuffle_indices apply_pi_rows
    cgp_dealer_generate n w g = do
      require (not (w == 0))
      let drawn = draw_rows n w g
      shuffled ← shuffle_indices (n - 1) (indices_from 0 n) drawn.2
      pi_a ← apply_pi_rows drawn.0 (map pos shuffled.0)
      some (
        record { a = drawn.0; alpha = zip_blocks (zip_blocks xor_block) pi_a drawn.1 },
        record { pi = map pos shuffled.0; b = drawn.1 },
        shuffled.1,
      )

  -- the message to B and A's share
  unfoldable pub cgp_online_a :
      RowVec Block → CgpCorrelationA Block → Option (RowVec Block × RowVec Block)
  unfolding xor_rows require_width
  cgp_online_a x c = do
    require (length c.a == length x && length c.alpha == length x)
    elim (length x == 0) [
      | true ↦ some ([], [])
      | false ↦
          require_width x (first_width x)
          >> (require_width c.a (first_width x)
              >> (require_width c.alpha (first_width x)
                  >> (xor_rows x c.a >>= (λ m. some (m, c.alpha)))))
    ]

  unfoldable pub cgp_online_b :
      RowVec Block → CgpCorrelationB Block → RowVec Block → Option (RowVec Block)
  unfolding xor_rows require_width apply_pi_rows
  cgp_online_b x c m = do
    require (length c.pi == length x && length c.b == length x)
    require (length m == length x)
    elim (length x == 0) [
      | true ↦ some []
      | false ↦
          require_width x (first_width x)
          >> (require_width c.b (first_width x)
              >> (require_width m (first_width x)
                  >> (xor_rows m x
                      >>= (λ mb. apply_pi_rows mb c.pi >>= (λ pi_mb. xor_rows pi_mb c.b)))))
    ]

  -- A's share and B's share
  unfoldable pub cgp_run_in_memory :
      RowVec Block
      → RowVec Block
      → CgpCorrelationA Block
      → CgpCorrelationB Block
      → Option (RowVec Block × RowVec Block)
  unfolding cgp_online_a cgp_online_b
  cgp_run_in_memory x_a x_b corr_a corr_b = do
    r ← cgp_online_a x_a corr_a
    y_b ← cgp_online_b x_b corr_b r.0
    some (r.1, y_b)

  -- `(pi_a[i][j] ^ b[i][j]) == alpha[i][j]` along a row
  unfoldable pub check_row : List Block → List Block → List Block → Bool
  check_row (p ∷ ps) (b ∷ bs) (a ∷ as') =
      let rest = check_row ps bs as' in if same_block (xor_block p b) a then rest else false
  check_row _ _ _ = true

  unfoldable pub check_rows : RowVec Block → RowVec Block → RowVec Block → Bool
  unfolding check_row
  check_rows (p ∷ ps) (b ∷ bs) (a ∷ as') =
      let rest = check_rows ps bs as' in if check_row p b a then rest else false
  check_rows _ _ _ = true

  abbrev pub failed_round : Bool × CascadeStateCgp Block
  failed_round = (false, record { sp_share = []; peer_share = [] })

  -- the check of `MaliciousMode::Malicious`
  unfoldable pub malicious_check :
      MaliciousMode → CgpCorrelationA Block → CgpCorrelationB Block → Option Bool
  unfolding apply_pi_rows check_rows
  malicious_check semi_honest corr_a corr_b = some true
  malicious_check malicious corr_a corr_b = do
    pi_a ← apply_pi_rows corr_a.a corr_b.pi
    some (check_rows pi_a corr_b.b corr_a.alpha)

  -- Whether the round passes, and the state after it, which is empty when it does not.
  unfoldable pub cgp_cascade_round :
      CascadeStateCgp Block
      → CgpCorrelationA Block
      → CgpCorrelationB Block
      → MaliciousMode
      → Option (Bool × CascadeStateCgp Block)
  cgp_cascade_round incoming corr_a corr_b mode =
      let n = length incoming.sp_share in
      if not (length incoming.peer_share == n)
      then some failed_round
      else if not (length corr_a.a == n && length corr_a.alpha == n)
      then some failed_round
      else if not (length corr_b.pi == n && length corr_b.b == n)
      then some failed_round
      else do
        r ← cgp_online_a incoming.sp_share corr_a
        peer ← cgp_online_b incoming.peer_share corr_b r.0
        passed ← malicious_check mode corr_a corr_b
        some (if passed then (true, record { sp_share = r.1; peer_share = peer }) else failed_round)

  unfoldable pub cgp_final_reveal : CascadeStateCgp Block → Option (RowVec Block)
  unfolding xor_rows
  cgp_final_reveal state = xor_rows state.sp_share state.peer_share

-- ===== src/Mac.antt =====
-- volePSI/MpMac.h and volePSI/MpMac.cpp: shares of a vector of blocks with a tag per block, under a
-- MAC key `alpha`. A block of cryptoTools, with its `^` and its product in GF(2^128), is a parameter;
-- `none` is an exception. The vectors of data and of tags are read up to the size of both.
pub mod Laws
pub mod Verify
pub mod Batched
pub mod Random
use psa_for_multiparty.Common.{
  ℕ, suc, Bool, true, false, ◌&&◌, Option, none, some, List, [], ◌∷◌, map, length, get_elem?, ◌==◌,
  if◌then◌else◌,
}
use psa_for_multiparty.Common.Fail.{◌>>=◌, ◌>>◌, require}

-- `int`
pub data ℤ : Type 0 where
  pos : ℕ → ℤ
  negsuc : ℕ → ℤ

-- `oc::block`, with the operations that the code calls, and `oc::PRNG` asked for blocks
pub record BlockOps : Type 1 where
  pub Block : Type 0
  pub zero_block : Block
  pub xor_block : Block → Block → Block
  pub gf128_mul : Block → Block → Block
  pub same_block : Block → Block → Bool
  pub State : Type 0
  pub next_block : State → Block × State

pub record AuthShare (Block : Type 0) : Type 0 where
  pub data_blocks : List Block
  pub tag : List Block

-- `old[dest[i]]` for each `i`
unfoldable pub permute : {A : Type 0} → List A → List ℤ → Option (List A)
permute xs [] = some []
permute xs (pos src ∷ dest) = do x ← get_elem? xs src; rest ← permute xs dest; some (x ∷ rest)
permute xs (negsuc src ∷ dest) = none

-- `out[i] = f(a[i], b[i])` for each i
abbrev pub zip_blocks : {A : Type 0} → (A → A → A) → List A → List A → List A
zip_blocks f (x ∷ xs) (y ∷ ys) = f x y ∷ zip_blocks f xs ys
zip_blocks f _ _ = []

module _ (ops : BlockOps) where
  open ops use {Block, zero_block, xor_block, gf128_mul, same_block, State, next_block}

  abbrev pub size : AuthShare Block → ℕ
  size a = length a.data_blocks

  unfoldable pub xor_auth : AuthShare Block → AuthShare Block → Option (AuthShare Block)
  xor_auth a b = do
    require (size a == size b)
    some (record {
      data_blocks = zip_blocks xor_block a.data_blocks b.data_blocks;
      tag = zip_blocks xor_block a.tag b.tag;
    })

  unfoldable pub xor_const_auth : AuthShare Block → List Block → Block → Option (AuthShare Block)
  xor_const_auth a c alpha = do
    require (size a == length c)
    some (record {
      data_blocks = zip_blocks xor_block a.data_blocks c;
      tag = zip_blocks (λ t b. xor_block t (gf128_mul alpha b)) a.tag c;
    })

  unfoldable pub permute_auth : AuthShare Block → List ℤ → Option (AuthShare Block)
  unfolding permute
  permute_auth a dest = do
    require (size a == length dest)
    data_blocks ← permute a.data_blocks dest
    tag ← permute a.tag dest
    some (record { data_blocks = data_blocks; tag = tag })

  unfoldable pub tag_vector : Block → List Block → List Block
  tag_vector alpha plain = map (gf128_mul alpha) plain

  -- The two shares, and the generator after them.
  unfoldable pub random_auth_share :
      List Block → Block → State → AuthShare Block × AuthShare Block × State
  random_auth_share [] alpha g =
      (record { data_blocks = []; tag = [] }, record { data_blocks = []; tag = [] }, g)
  random_auth_share (x ∷ plain) alpha g =
      let (d, g1) = next_block g in
      let (t, g2) = next_block g1 in
      let (s1, s2, g3) = random_auth_share plain alpha g2 in
      (
        record { data_blocks = d ∷ s1.data_blocks; tag = t ∷ s1.tag },
        record {
          data_blocks = xor_block d x ∷ s2.data_blocks;
          tag = xor_block t (gf128_mul alpha x) ∷ s2.tag;
        },
        g3,
      )

  -- the loop of `verifyAuthShares`
  unfoldable pub check_tags : Block → List Block → List Block → List Block → List Block → Bool
  check_tags alpha (d1 ∷ ds1) (t1 ∷ ts1) (d2 ∷ ds2) (t2 ∷ ts2) =
      if same_block (xor_block t1 t2) (gf128_mul alpha (xor_block d1 d2))
      then check_tags alpha ds1 ts1 ds2 ts2
      else false
  check_tags alpha _ _ _ _ = true

  unfoldable pub verify_auth_shares : AuthShare Block → AuthShare Block → Block → Bool
  unfolding check_tags
  verify_auth_shares a1 a2 alpha =
      if size a1 == size a2
      then check_tags alpha a1.data_blocks a1.tag a2.data_blocks a2.tag
      else false

  -- `<challenge, x ^ y>`, from an accumulator on
  unfoldable pub dot : Block → List Block → List Block → List Block → Block
  dot acc (c ∷ cs) (x ∷ xs) (y ∷ ys) = dot (xor_block acc (gf128_mul c (xor_block x y))) cs xs ys
  dot acc _ _ _ = acc

  unfoldable pub verify_auth_shares_batched :
      AuthShare Block → AuthShare Block → Block → List Block → Bool
  unfolding dot
  verify_auth_shares_batched a1 a2 alpha challenge =
      if size a1 == size a2
      then (if size a1 == length challenge
          then same_block (dot zero_block challenge a1.tag a2.tag)
              (gf128_mul alpha (dot zero_block challenge a1.data_blocks a2.data_blocks))
          else false)
      else false

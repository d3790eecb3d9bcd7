-- ===== src/Compare/Word.antt =====
-- What a bitwise shared word stands for, and the sharing of a word.
use psa_for_multiparty.Common.{
  ℕ, zero, suc, ◌+◌, ◌*◌, ◌^◌, ◌≤◌, ◌<◌, ◌≡◌, refl, sym, ◌∙◌, ap, Bool, true, false, some, List, [],
  ◌∷◌, length, get_elem?, drop, drop_all, subst, arith, bit_and, All,
}
use psa_for_multiparty.Common.Bits.{bit, bit-lt-two, bit_or_field}
use native.Mathlib.Nat.{pow-suc}
use native.Mathlib.Numerals.{towards_suc}
use psa_for_multiparty.Share.{u64, SharedBit, bit_parties, zero_bit}
use psa_for_multiparty.Share.Bit.{Shares, Shares-exists, zero_bit_lem}
use psa_for_multiparty.Compare.{SharedU64Bin, bin_parties, reconstruct_from, reconstruct_bin}

-- The shared bits of the first list are those of the second.
abbrev pub SharesAll : ℕ → List SharedBit → List Bool → Type 0
SharesAll n [] [] = Unit {0}
SharesAll n [] (p ∷ ps) = ⊥
SharesAll n (a ∷ as') [] = ⊥
SharesAll n (a ∷ as') (p ∷ ps) = Shares n a p × SharesAll n as' ps

-- the number whose bits these are, lowest first
abbrev pub value_of : List Bool → ℕ
value_of [] = 0
value_of (p ∷ ps) = bit p + 2 * value_of ps

-- The word `x` is shared among `n` parties and its value is `v`.
pub record Holds (n : ℕ) (x : SharedU64Bin) (v : ℕ) : Type 0 where
  pub bools : List Bool
  pub shared : SharesAll n x.bits bools
  pub width : length x.bits ≡ 64
  pub value : value_of bools ≡ v

pub SharesAll-length :
    (n : ℕ) (xs : List SharedBit) (ps : List Bool) → SharesAll n xs ps → length ps ≡ length xs
SharesAll-length n [] [] h = refl
SharesAll-length n [] (p ∷ ps) h = absurd h
SharesAll-length n (x ∷ xs) [] h = absurd h
SharesAll-length n (x ∷ xs) (p ∷ ps) h = ap suc (SharesAll-length n xs ps h.1)

-- Reading a bit in range.
pub SharesAll-get :
    (n : ℕ) (xs : List SharedBit) (ps : List Bool) (k : ℕ)
    → SharesAll n xs ps
    → k < length xs
    → (a : SharedBit) × (p : Bool) × (get_elem? xs k ≡ some a)
      × Shares n a p
      × (value_of (drop k ps) ≡ bit p + 2 * value_of (drop (suc k) ps))
SharesAll-get n [] ps k h lt = absurd (omega arith)
SharesAll-get n (x ∷ xs) [] k h lt = absurd h
SharesAll-get n (x ∷ xs) (p ∷ ps) zero h lt = (x, p, refl, h.0, refl)
SharesAll-get n (x ∷ xs) (p ∷ ps) (suc k) h lt = SharesAll-get n xs ps k h.1 (omega arith)

pub pow-add-one : (i : ℕ) → 2 ^ (i + 1) ≡ 2 * 2 ^ i
pow-add-one i = simp towards_suc (omega (arith, pow-suc 2 i))

bit-mul-le : (p : Bool) (k : ℕ) → bit p * k ≤ k
bit-mul-le true k = omega arith
bit-mul-le false k = omega arith

bit_and-bit_one : (p : Bool) → bit_and (bit p) 1 ≡ bit p
bit_and-bit_one true = refl
bit_and-bit_one false = refl

reconstruct_from_lem :
    (n i v : ℕ) (xs : List SharedBit) (ps : List Bool)
    → SharesAll n xs ps
    → v < 2 ^ i
    → reconstruct_from i v xs ≡ v + 2 ^ i * value_of ps
unfolding reconstruct_from
reconstruct_from_lem n i v [] [] h lt = omega arith
reconstruct_from_lem n i v [] (p ∷ ps) h lt = absurd h
reconstruct_from_lem n i v (x ∷ xs) [] h lt = absurd h
reconstruct_from_lem n i v (x ∷ xs) (p ∷ ps) h lt =
    rw (h.0.value, bit_and-bit_one, bit_or_field i v (bit p) lt)
      (omega (
        arith,
        reconstruct_from_lem n (i + 1) (v + bit p * 2 ^ i) xs ps h.1
            (omega (arith, pow-add-one i, bit-mul-le p (2 ^ i))),
        ap (λ (t : ℕ). t * value_of ps) (pow-add-one i),
      ))

-- `Holds` is about the reconstruction.
pub Holds-reconstruct : {n : ℕ} (x : SharedU64Bin) {v : ℕ} → Holds n x v → reconstruct_bin x ≡ v
unfolding reconstruct_bin
Holds-reconstruct {n} x h =
    omega (arith, reconstruct_from_lem n 0 0 x.bits h.bools h.shared (omega arith), h.value)

SharesAll-exists :
    (n : ℕ) (xs : List SharedBit)
    → All (λ x. bit_parties x ≡ n) xs
    → (ps : List Bool) × SharesAll n xs ps
SharesAll-exists n [] h = ([], tt)
SharesAll-exists n (x ∷ xs) h =
    let (p, first) = Shares-exists x in
    let (ps, rest) = SharesAll-exists n xs h.1 in (p ∷ ps, (rw h.0 at first, rest))

-- A word of 64 bits, each shared among `n` parties.
pub record IsWord (n : ℕ) (x : SharedU64Bin) : Type 0 where
  pub width : length x.bits ≡ 64
  pub counts : All (λ b. bit_parties b ≡ n) x.bits

pub IsWord-Holds : {n : ℕ} {x : SharedU64Bin} → IsWord n x → Holds n x (reconstruct_bin x)
unfolding reconstruct_bin
IsWord-Holds {n} {x} w =
    let (ps, all) = SharesAll-exists n x.bits w.counts in
    record {
      bools = ps;
      shared = all;
      width = w.width;
      value = omega (arith, reconstruct_from_lem n 0 0 x.bits ps all (omega arith));
    }

pub Holds-parties : {n : ℕ} (x : SharedU64Bin) {v : ℕ} → Holds n x v → bin_parties x ≡ n
Holds-parties {n} x h = go x.bits h.bools h.shared h.width
  where
    go :
        (xs : List SharedBit) (ps : List Bool)
        → SharesAll n xs ps
        → length xs ≡ 64
        → bin_parties (record { bits = xs }) ≡ n
    go [] ps s w = absurd (omega arith)
    go (x ∷ xs) [] s w = absurd s
    go (x ∷ xs) (p ∷ ps) s w = s.0.count

pub value_of-lt : (ps : List Bool) → value_of ps < 2 ^ length ps
value_of-lt [] = omega arith
value_of-lt (p ∷ ps) = omega (arith, value_of-lt ps, bit-lt-two p, pow-suc 2 (length ps))

pub Holds-lt : {n : ℕ} (x : SharedU64Bin) {v : ℕ} → Holds n x v → v < u64
Holds-lt {n} x h =
    rw (← h.value)
      (rw (SharesAll-length n x.bits h.bools h.shared ∙ h.width) at (value_of-lt h.bools))

-- Nothing is left above the 64 bits.
pub Holds-drop : {n : ℕ} (x : SharedU64Bin) {v : ℕ} (h : Holds n x v) → drop 64 h.bools ≡ []
Holds-drop {n} x h =
    drop_all 64 h.bools (omega (arith, SharesAll-length n x.bits h.bools h.shared, h.width))

pub zero_bit_parties :
    {n : ℕ} (x : SharedU64Bin) {v : ℕ} → Holds n x v → Shares n (zero_bit (bin_parties x)) false
zero_bit_parties {n} x h =
    subst (λ k. Shares n (zero_bit k) false) (sym (Holds-parties x h)) zero_bit_lem

-- A row of 64 shared bits stays below 2^64.
pub SharesAll-lt :
    (n : ℕ) (xs : List SharedBit) (ps : List Bool)
    → SharesAll n xs ps
    → length xs ≡ 64
    → value_of ps < u64
SharesAll-lt n xs ps h w = rw (SharesAll-length n xs ps h ∙ w) at (value_of-lt ps)

SharesAll-counts :
    (n : ℕ) (xs : List SharedBit) (ps : List Bool)
    → SharesAll n xs ps
    → All (λ b. bit_parties b ≡ n) xs
SharesAll-counts n [] ps h = tt
SharesAll-counts n (x ∷ xs) [] h = absurd h
SharesAll-counts n (x ∷ xs) (p ∷ ps) h = (h.0.count, SharesAll-counts n xs ps h.1)

pub Holds-IsWord : {n : ℕ} {x : SharedU64Bin} {v : ℕ} → Holds n x v → IsWord n x
Holds-IsWord {n} {x} h = record {
  width = h.width;
  counts = SharesAll-counts n x.bits h.bools h.shared;
}

-- `x` is a word among `n` parties that reconstructs to `v`.
pub record IsWordOf (n : ℕ) (x : SharedU64Bin) (v : ℕ) : Type 0 where
  pub word : IsWord n x
  pub value : reconstruct_bin x ≡ v

pub Holds-IsWordOf : {n : ℕ} {x : SharedU64Bin} {v : ℕ} → Holds n x v → IsWordOf n x v
Holds-IsWordOf {n} {x} h = record { word = Holds-IsWord h; value = Holds-reconstruct x h }

-- ===== src/Join/Shared/Words.antt =====
-- Rows of shared bits cut and put together: the composite key and the id in it.
use psa_for_multiparty.Common.{
  ℕ, zero, suc, ◌+◌, ◌-◌, ◌*◌, ◌/◌, ◌%◌, ◌^◌, ◌≤◌, ◌<◌, ◌≡◌, refl, sym, ap, ◌∙◌, Bool, true, false,
  not, some, List, [], ◌∷◌, ◌++◌, length, get_elem?, take, drop, replicate, leb, ◌==◌,
  length-append, length-replicate, length-take, take_all, arith, Bool-cases, inl, inr,
}
use psa_for_multiparty.Common.Bits.{bit}
use native.Mathlib.Nat.{
  add-mul-mod_self_left, mod-eq_of_lt, mod-lt, div-add-mod, div-div-eq-div-mul, pow-suc,
  add-mul-div_left, div-eq_of_lt,
}
use psa_for_multiparty.Share.{SharedBit, zero_bit}
use psa_for_multiparty.Share.Bit.{Shares, zero_bit_lem, one_bit_lem}
use psa_for_multiparty.Compare.{SharedU64Bin, bin_parties}
use psa_for_multiparty.Compare.Word.{
  SharesAll, SharesAll-length, value_of, value_of-lt, pow-add-one, Holds, Holds-parties,
}
use psa_for_multiparty.Join.Shared.{
  first_bits, public_bit, public_bits, make_composite_key, extract_id_from_composite,
}

module _ (n : ℕ) where
  pub SharesAll-append :
      (xs ys : List SharedBit) (ps qs : List Bool)
      → SharesAll n xs ps
      → SharesAll n ys qs
      → SharesAll n (xs ++ ys) (ps ++ qs)
  SharesAll-append [] ys [] qs h k = k
  SharesAll-append [] ys (p ∷ ps) qs h k = absurd h
  SharesAll-append (x ∷ xs) ys [] qs h k = absurd h
  SharesAll-append (x ∷ xs) ys (p ∷ ps) qs h k = (h.0, SharesAll-append xs ys ps qs h.1 k)

  pub SharesAll-drop :
      (k : ℕ) (xs : List SharedBit) (ps : List Bool)
      → SharesAll n xs ps
      → SharesAll n (drop k xs) (drop k ps)
  SharesAll-drop zero xs ps h = h
  SharesAll-drop (suc k) [] [] h = tt
  SharesAll-drop (suc k) [] (p ∷ ps) h = absurd h
  SharesAll-drop (suc k) (x ∷ xs) [] h = absurd h
  SharesAll-drop (suc k) (x ∷ xs) (p ∷ ps) h = SharesAll-drop k xs ps h.1

  pub SharesAll-replicate :
      (k : ℕ) {x : SharedBit} {p : Bool}
      → Shares n x p
      → SharesAll n (replicate k x) (replicate k p)
  SharesAll-replicate zero h = tt
  SharesAll-replicate (suc k) h = (h, SharesAll-replicate k h)

  pub SharesAll-get_elem? :
      (k : ℕ) (xs : List SharedBit) (ps : List Bool)
      → SharesAll n xs ps
      → k < length xs
      → (a : SharedBit) × (p : Bool) × (get_elem? xs k ≡ some a)
        × (get_elem? ps k ≡ some p)
        × Shares n a p
  SharesAll-get_elem? k [] ps h lt = absurd (omega arith)
  SharesAll-get_elem? k (x ∷ xs) [] h lt = absurd h
  SharesAll-get_elem? zero (x ∷ xs) (p ∷ ps) h lt = (x, p, refl, refl, h.0)
  SharesAll-get_elem? (suc k) (x ∷ xs) (p ∷ ps) h lt = SharesAll-get_elem? k xs ps h.1 (omega arith)

  pub first_bits_lem :
      (count : ℕ) (xs : List SharedBit) (ps : List Bool)
      → SharesAll n xs ps
      → count ≤ length xs
      → (ys : List SharedBit) × (first_bits count xs ≡ some ys)
        × SharesAll n ys (take count ps)
        × (length ys ≡ count)
  unfolding first_bits
  first_bits_lem zero xs ps h le = ([], refl, tt, refl)
  first_bits_lem (suc count) [] ps h le = absurd (omega arith)
  first_bits_lem (suc count) (x ∷ xs) [] h le = absurd h
  first_bits_lem (suc count) (x ∷ xs) (p ∷ ps) h le =
      let (ys, e, shared, len) = first_bits_lem count xs ps h.1 (omega arith) in
      (x ∷ ys, rw e refl, (h.0, shared), ap suc len)

pub value_of-append :
    (ps qs : List Bool) → value_of (ps ++ qs) ≡ value_of ps + 2 ^ length ps * value_of qs
value_of-append [] qs = omega arith
value_of-append (p ∷ ps) qs =
    omega (arith, value_of-append ps qs, ap (λ (t : ℕ). t * value_of qs) (pow-suc 2 (length ps)))

pub value_of-replicate : (k : ℕ) → value_of (replicate k false) ≡ 0
value_of-replicate zero = refl
value_of-replicate (suc k) = omega (arith, value_of-replicate k)

pub length-drop {ℓ} : {A : Type ℓ} (k : ℕ) (xs : List A) → length (drop k xs) ≡ length xs - k
length-drop zero xs = omega arith
length-drop (suc k) [] = omega arith
length-drop (suc k) (x ∷ xs) = omega (arith, length-drop k xs)

take-drop : (k : ℕ) (ps : List Bool) → take k ps ++ drop k ps ≡ ps
take-drop zero ps = refl
take-drop (suc k) [] = refl
take-drop (suc k) (p ∷ ps) = ap (λ t. p ∷ t) (take-drop k ps)

power_positive : (k : ℕ) → 0 < 2 ^ k
power_positive zero = omega arith
power_positive (suc k) = omega (arith, pow-suc 2 k, power_positive k)

-- The value cut at a bit: `k` bits below it, the others above.
pub value_of-split :
    (k : ℕ) (ps : List Bool)
    → k ≤ length ps
    → (value_of (take k ps) < 2 ^ k)
      × (value_of ps ≡ value_of (take k ps) + 2 ^ k * value_of (drop k ps))
value_of-split k ps le =
    let len = length-take k ps le in
    (
      rw len at (value_of-lt (take k ps)),
      sym (ap value_of (take-drop k ps))
          ∙ value_of-append (take k ps) (drop k ps)
          ∙ ap (λ t. value_of (take k ps) + 2 ^ t * value_of (drop k ps)) len,
    )

pub value_of-drop :
    (k : ℕ) (ps : List Bool) → k ≤ length ps → value_of (drop k ps) ≡ value_of ps / 2 ^ k
value_of-drop k ps le =
    let (lt, split) = value_of-split k ps le in
    sym (
      ap (λ t. t / 2 ^ k) split
      ∙ add-mul-div_left (value_of (take k ps)) (value_of (drop k ps)) (power_positive k)
      ∙ ap (λ t. t + value_of (drop k ps)) (div-eq_of_lt lt)
      ∙ omega arith)

-- The id that is read out of a shared composite key.
pub extract_id_from_composite_lem :
    {n : ℕ} (x : SharedU64Bin) {v : ℕ} (b : ℕ)
    → b ≤ 64
    → Holds n x v
    → (y : SharedU64Bin) × (extract_id_from_composite x b ≡ some y) × Holds n y (v / 2 ^ b)
unfolding extract_id_from_composite
extract_id_from_composite_lem {n} x {v} b le h =
    let len : length h.bools ≡ 64 = SharesAll-length n x.bits h.bools h.shared ∙ h.width in
    let upper = length-drop b x.bits in
    let upper' = length-drop b h.bools in
    let (ys, e, shared, size) =
      first_bits_lem n (64 - b) (drop b x.bits) (drop b h.bools)
        (SharesAll-drop n b x.bits h.bools h.shared) (omega (arith, upper, h.width)) in
    let whole : take (64 - b) (drop b h.bools) ≡ drop b h.bools =
      take_all (64 - b) (drop b h.bools) (omega (arith, upper', len)) in
    (
      record { bits = ys ++ replicate (64 - (64 - b)) (zero_bit (bin_parties x)) },
      rw e refl,
      record {
        bools = take (64 - b) (drop b h.bools) ++ replicate (64 - (64 - b)) false;
        shared = rw (Holds-parties x h) (
            SharesAll-append n ys _ (take (64 - b) (drop b h.bools)) _ shared
              (SharesAll-replicate n (64 - (64 - b)) zero_bit_lem));
        width = omega (
          arith,
          length-append ys (replicate (64 - (64 - b)) (zero_bit (bin_parties x))),
          length-replicate (64 - (64 - b)) (zero_bit (bin_parties x)),
          size,
        );
        value =
            value_of-append (take (64 - b) (drop b h.bools)) (replicate (64 - (64 - b)) false)
            ∙ rw
                (
                  value_of-replicate (64 - (64 - b)),
                  whole,
                  value_of-drop b h.bools (omega (arith, len)),
                  h.value,
                )
                (omega arith);
      },
    )

-- The sort key of a tuple: the party in the low bits, the id above them.
abbrev pub composite : ℕ → ℕ → ℕ → ℕ
composite b party_idx v = party_idx % 2 ^ b + 2 ^ b * (v % 2 ^ (64 - b))

public_bit_lem : {n : ℕ} (d : ℕ) → 0 < n → Shares n (public_bit n d) (not (d == 0))
public_bit_lem d pos = elim (Bool-cases (d == 0)) [
  | inl e ↦ rw e zero_bit_lem
  | inr e ↦ rw e (one_bit_lem pos)
]

abbrev public_bools : ℕ → ℕ → ℕ → List Bool
public_bools party_idx i zero = []
public_bools party_idx i (suc count) =
    not (party_idx / 2 ^ i % 2 == 0) ∷ public_bools party_idx (i + 1) count

public_bits_lem :
    {n : ℕ} (party_idx i count : ℕ)
    → 0 < n
    → SharesAll n (public_bits n party_idx i count) (public_bools party_idx i count)
public_bits_lem party_idx i zero pos = tt
public_bits_lem party_idx i (suc count) pos =
    (public_bit_lem (party_idx / 2 ^ i % 2) pos, public_bits_lem party_idx (i + 1) count pos)

length-public_bools : (party_idx i count : ℕ) → length (public_bools party_idx i count) ≡ count
length-public_bools party_idx i zero = refl
length-public_bools party_idx i (suc count) = ap suc (length-public_bools party_idx (i + 1) count)

-- The lowest bit and the bits above it.
mod-power : (x c : ℕ) → x % 2 + 2 * (x / 2 % 2 ^ c) ≡ x % 2 ^ suc c
mod-power x c =
    let r = x / 2 % 2 ^ c in
    let q = x / 2 / 2 ^ c in
    let parts : x ≡ x % 2 + 2 * r + 2 ^ suc c * q =
      omega (arith, div-add-mod (x / 2) (2 ^ c), ap (λ (t : ℕ). t * q) (pow-suc 2 c)) in
    let small : x % 2 + 2 * r < 2 ^ suc c =
      omega (arith, mod-lt (x / 2) (power_positive c), pow-suc 2 c) in
    sym (
      ap (λ t. t % 2 ^ suc c) parts
      ∙ add-mul-mod_self_left (x % 2 + 2 * r) (2 ^ suc c) q
      ∙ mod-eq_of_lt small)

pub bit_test : (x : ℕ) → bit (not (x % 2 == 0)) ≡ x % 2
bit_test x = ground arith

length-public_bits : (n party_idx i count : ℕ) → length (public_bits n party_idx i count) ≡ count
length-public_bits n party_idx i zero = refl
length-public_bits n party_idx i (suc count) = ap suc (length-public_bits n party_idx (i + 1) count)

value_of-public_bools :
    (party_idx i count : ℕ)
    → value_of (public_bools party_idx i count) ≡ party_idx / 2 ^ i % 2 ^ count
value_of-public_bools party_idx i zero = omega arith
value_of-public_bools party_idx i (suc count) =
    let x = party_idx / 2 ^ i in
    let next : party_idx / 2 ^ (i + 1) ≡ x / 2 =
      ap (λ t. party_idx / t) (pow-add-one i ∙ omega arith)
      ∙ sym (div-div-eq-div-mul party_idx (2 ^ i) 2) in
    ap (λ t. bit (not (x % 2 == 0)) + 2 * t)
      (value_of-public_bools party_idx (i + 1) count ∙ ap (λ t. t % 2 ^ count) next)
    ∙ ap (λ t. t + 2 * (x / 2 % 2 ^ count)) (bit_test x)
    ∙ mod-power x count

-- The composite key of a shared id.
pub make_composite_key_lem :
    {n : ℕ} (x : SharedU64Bin) {v : ℕ} (b party_idx : ℕ)
    → 0 < n
    → b ≤ 32
    → Holds n x v
    → (y : SharedU64Bin) × (make_composite_key x b party_idx ≡ some y)
      × Holds n y (composite b party_idx v)
unfolding make_composite_key
make_composite_key_lem {n} x {v} b party_idx pos le h =
    let len : length h.bools ≡ 64 = SharesAll-length n x.bits h.bools h.shared ∙ h.width in
    let (ys, e, shared, size) =
      first_bits_lem n (64 - b) x.bits h.bools h.shared (omega (arith, h.width)) in
    let low = public_bools party_idx 0 b in
    let (lt, split) = value_of-split (64 - b) h.bools (omega (arith, len)) in
    let high : value_of (take (64 - b) h.bools) ≡ v % 2 ^ (64 - b) = sym (
      ap (λ t. t % 2 ^ (64 - b)) (sym h.value ∙ split)
      ∙ add-mul-mod_self_left _ (2 ^ (64 - b)) (value_of (drop (64 - b) h.bools))
      ∙ mod-eq_of_lt lt) in
    let allowed : leb b 32 ≡ true = ground (arith, le) in
    (
      record { bits = public_bits (bin_parties x) party_idx 0 b ++ ys },
      rw (allowed, e) refl,
      record {
        bools = low ++ take (64 - b) h.bools;
        shared =
            rw (Holds-parties x h)
              (SharesAll-append n _ ys low _ (public_bits_lem party_idx 0 b pos) shared);
        width =
            length-append (public_bits (bin_parties x) party_idx 0 b) ys
            ∙ omega (arith, length-public_bits (bin_parties x) party_idx 0 b, size);
        value =
            value_of-append low (take (64 - b) h.bools)
            ∙ rw (length-public_bools party_idx 0 b, value_of-public_bools party_idx 0 b, high)
                (ap (λ t. t % 2 ^ b + 2 ^ b * (v % 2 ^ (64 - b))) (omega arith));
      },
    )

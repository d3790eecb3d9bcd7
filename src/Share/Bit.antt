-- ===== src/Share/Bit.antt =====
-- What the local operations on XOR shares do to the shared bit.
use psa_for_multiparty.Common.{
  ℕ, zero, suc, ◌+◌, ◌-◌, ◌*◌, ◌%◌, ◌<◌, ◌≤◌, ◌≡◌, refl, ◌∙◌, Bool, true, false, some, List, [],
  ◌∷◌, map, length, length-replicate, replicate, arith, bit_and, bit_xor,
}
use psa_for_multiparty.Common.Bits.{bit, bit-lt-two, xor, bit_and-one, bit_and-bit, bit_xor-mod-two}
use psa_for_multiparty.Random.{Prng}
use psa_for_multiparty.Share.{
  zip_with, update_first, SharedBit, bit_parties, xor_from, reconstruct_bit, zero_bit, one_bit,
  xor_shared, xor_const, draw_bit, share_bit,
}
use psa_for_multiparty.Share.Arith.{total, length-zip_with, length-update_first}

xor_from-total : (out : ℕ) (xs : List ℕ) → xor_from out xs % 2 ≡ (out + total xs) % 2
unfolding xor_from
xor_from-total out [] = omega arith
xor_from-total out (x ∷ xs) =
    omega (arith, xor_from-total (bit_xor out x) xs, bit_xor-mod-two out x)

-- A shared bit is the parity of its shares.
pub reconstruct_bit-total : (a : SharedBit) → reconstruct_bit a ≡ total a.shares % 2
unfolding reconstruct_bit
reconstruct_bit-total a =
    omega (arith, bit_and-one (xor_from 0 a.shares), xor_from-total 0 a.shares)

abbrev pub masked_xor : ℕ → ℕ → ℕ
masked_xor s t = bit_and (bit_xor s t) 1

pub masked_xor_lem : (s t : ℕ) → masked_xor s t ≡ (s + t) % 2
masked_xor_lem s t = omega (arith, bit_and-one (bit_xor s t), bit_xor-mod-two s t)

total-xor :
    (xs ys : List ℕ)
    → length xs ≡ length ys
    → total (zip_with masked_xor xs ys) % 2 ≡ (total xs + total ys) % 2
total-xor [] [] h = refl
total-xor [] (y ∷ ys) h = absurd (omega arith)
total-xor (x ∷ xs) [] h = absurd (omega arith)
total-xor (x ∷ xs) (y ∷ ys) h = omega (arith, total-xor xs ys (omega arith), masked_xor_lem x y)

total-update_first_xor :
    (xs : List ℕ) (c : ℕ)
    → 0 < length xs
    → total (update_first (λ s. masked_xor s c) xs) % 2 ≡ (total xs + c) % 2
total-update_first_xor [] c h = absurd (omega arith)
total-update_first_xor (x ∷ xs) c h = omega (arith, masked_xor_lem x c)

pub total-and_bit :
    (xs : List ℕ) (d : Bool) → total (map (λ s. bit_and s (bit d)) xs) % 2 ≡ total xs * bit d % 2
total-and_bit [] d = omega arith
total-and_bit (x ∷ xs) d = omega (arith, total-and_bit xs d, bit_and-bit x d)

total-zeros : (n : ℕ) → total (replicate n 0) ≡ 0
total-zeros zero = refl
total-zeros (suc n) = omega (arith, total-zeros n)

total-one : (n : ℕ) → 0 < n → total (update_first (λ s. 1) (replicate n 0)) ≡ 1
total-one zero h = absurd (omega arith)
total-one (suc n) h = omega (arith, total-zeros n)

-- `a` shares the bit `p` among `n` parties.
pub record Shares (n : ℕ) (a : SharedBit) (p : Bool) : Type 0 where
  pub count : bit_parties a ≡ n
  pub value : reconstruct_bit a ≡ bit p

pub bit-mod-two : (p q : Bool) → (bit p + bit q) % 2 ≡ bit (xor p q)
bit-mod-two true true = refl
bit-mod-two true false = refl
bit-mod-two false true = refl
bit-mod-two false false = refl

bit_of : ℕ → Bool
bit_of zero = false
bit_of (suc n) = true

bit-bit_of : (t : ℕ) → t < 2 → t ≡ bit (bit_of t)
unfolding bit_of
bit-bit_of zero h = refl
bit-bit_of (suc zero) h = refl
bit-bit_of (suc (suc t)) h = absurd (omega arith)

-- the bit that `value & 1` is
pub low_bit : ℕ → Bool
low_bit value = bit_of (value % 2)

pub bit-low_bit : (value : ℕ) → bit_and value 1 ≡ bit (low_bit value)
unfolding low_bit
bit-low_bit value = bit_and-one value ∙ bit-bit_of (value % 2) (omega arith)

-- Every vector of shares shares one bit.
pub Shares-exists : (a : SharedBit) → (p : Bool) × Shares (bit_parties a) a p
Shares-exists a = (
  bit_of (reconstruct_bit a),
  record {
    count = refl;
    value = bit-bit_of (reconstruct_bit a) (omega (arith, reconstruct_bit-total a));
  },
)

module _ {n : ℕ} where
  pub xor_shared_lem :
      {a b : SharedBit} {p q : Bool}
      → Shares n a p
      → Shares n b q
      → (r : SharedBit) × (xor_shared a b ≡ some r) × Shares n r (xor p q)
  unfolding xor_shared
  xor_shared_lem {a} {b} {p} {q} ha hb = (
    record { shares = zip_with masked_xor a.shares b.shares },
    ground (arith, ha.count, hb.count),
    record {
      count = omega (
        arith,
        ha.count,
        hb.count,
        length-zip_with masked_xor a.shares b.shares (omega (arith, ha.count, hb.count)),
      );
      value = omega (
        arith,
        ha.value,
        hb.value,
        reconstruct_bit-total (record { shares = zip_with masked_xor a.shares b.shares }),
        reconstruct_bit-total a,
        reconstruct_bit-total b,
        total-xor a.shares b.shares (omega (arith, ha.count, hb.count)),
        bit-mod-two p q,
      );
    },
  )

  pub xor_const_lem :
      {a : SharedBit} {p : Bool} (c : Bool)
      → 0 < n
      → Shares n a p
      → Shares n (xor_const a (bit c)) (xor p c)
  unfolding xor_const
  xor_const_lem {a} {p} c pos ha = record {
    count =
        omega
          (arith, ha.count, length-update_first (λ s. masked_xor s (bit_and (bit c) 1)) a.shares);
    value = omega (
      arith,
      ha.value,
      ha.count,
      reconstruct_bit-total
          (record { shares = update_first (λ s. masked_xor s (bit_and (bit c) 1)) a.shares }),
      reconstruct_bit-total a,
      total-update_first_xor a.shares (bit_and (bit c) 1) (omega (arith, ha.count)),
      bit_and-one (bit c),
      bit-mod-two p c,
    );
  }

  pub zero_bit_lem : Shares n (zero_bit n) false
  unfolding zero_bit
  zero_bit_lem = record {
    count = length-replicate n 0;
    value = omega (arith, total-zeros n, reconstruct_bit-total (record { shares = replicate n 0 }));
  }

  pub one_bit_lem : 0 < n → Shares n (one_bit n) true
  unfolding one_bit
  one_bit_lem pos = record {
    count =
        omega (arith, length-update_first (λ s. 1) (replicate n 0), length-replicate {A = ℕ} n 0);
    value = omega (
      arith,
      total-one n pos,
      reconstruct_bit-total (record { shares = update_first (λ s. 1) (replicate n 0) }),
    );
  }

module _ (p : Prng) where
  open p use {State}

  draw_bit_lem :
      (n accum : ℕ) (g : State)
      → let (rest, sum, g') = draw_bit p n accum g in
        (length rest ≡ n) × (sum % 2 ≡ (accum + total rest) % 2)
  unfolding draw_bit
  draw_bit_lem zero accum g = (refl, omega arith)
  draw_bit_lem (suc n) accum g =
      let r = (p.next_u8 g).0 in
      let ih = draw_bit_lem n (bit_xor accum (bit_and r 1)) (p.next_u8 g).1 in
      (omega (arith, ih.0), omega (arith, ih.1, bit_xor-mod-two accum (bit_and r 1)))

  -- Sharing a bit among at least two parties succeeds, and the shares hold the bit.
  pub share_bit_lem :
      (n : ℕ) (b : Bool) (g : State)
      → 2 ≤ n
      → (r : SharedBit) × (g' : State) × (share_bit p n (bit b) g ≡ some (r, g')) × Shares n r b
  unfolding share_bit
  share_bit_lem n b g h =
      let d = draw_bit p (n - 1) 0 g in
      let facts = draw_bit_lem (n - 1) 0 g in
      (
        record { shares = bit_xor (bit_and (bit b) 1) d.1 ∷ d.0 },
        d.2,
        ground arith,
        record {
          count = omega (arith, facts.0);
          value = omega (
            arith,
            reconstruct_bit-total (record { shares = bit_xor (bit_and (bit b) 1) d.1 ∷ d.0 }),
            facts.1,
            bit_xor-mod-two (bit_and (bit b) 1) d.1,
            bit_and-one (bit b),
            bit-lt-two b,
          );
        },
      )

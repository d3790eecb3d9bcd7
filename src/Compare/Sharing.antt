-- ===== src/Compare/Sharing.antt =====
-- The sharing of a word bit by bit.
use psa_for_multiparty.Common.{
  ℕ, zero, suc, ◌+◌, ◌*◌, ◌/◌, ◌%◌, ◌^◌, ◌≤◌, ◌<◌, ◌≡◌, refl, sym, ap, ◌∙◌, Bool, List, [], ◌∷◌,
  some, length, arith,
}
use psa_for_multiparty.Common.Bits.{bit_and-one}
use native.Mathlib.Nat.{
  pow-suc, div-div-eq-div-mul, one-le-pow, mod-lt, mod-add-div, mod-eq_of_lt, add-mul-mod_self_left,
}
use psa_for_multiparty.Random.{Prng}
use psa_for_multiparty.Share.{u64, SharedBit}
use psa_for_multiparty.Share.Bit.{low_bit, bit-low_bit, share_bit_lem}
use psa_for_multiparty.Compare.{SharedU64Bin, share_bits, share_u64_bin, reconstruct_bin}
use psa_for_multiparty.Compare.Word.{
  SharesAll, value_of, Holds, Holds-reconstruct, IsWord, Holds-IsWord, pow-add-one,
}

-- `(v >> i) >> 1` is `v >> (i + 1)`.
shift_next : (v i : ℕ) → v / 2 ^ i / 2 ≡ v / 2 ^ (i + 1)
shift_next v i =
    div-div-eq-div-mul v (2 ^ i) 2 ∙ ap (λ (t : ℕ). v / t) (omega (arith, pow-add-one i))

pow-pos : (k : ℕ) → 0 < 2 ^ k
pow-pos k = one-le-pow k 2 (omega arith)

-- the lowest digit of a word of `count + 1` bits, and the others
digit : (v count : ℕ) → v % 2 + 2 * (v / 2 % 2 ^ count) ≡ v % 2 ^ suc count
digit v count = sym (
    ap (λ (t : ℕ). t % 2 ^ suc count) split
    ∙ add-mul-mod_self_left r (2 ^ suc count) (v / 2 / 2 ^ count)
    ∙ mod-eq_of_lt (omega (arith, mod-lt (v / 2) (pow-pos count), pow-suc 2 count)))
  where
    r : ℕ
    r = v % 2 + 2 * (v / 2 % 2 ^ count)

    split : v ≡ r + 2 ^ suc count * (v / 2 / 2 ^ count)
    split = omega (
      arith,
      mod-add-div (v / 2) (2 ^ count),
      ap (λ (t : ℕ). t * (v / 2 / 2 ^ count)) (pow-suc 2 count),
    )

module _ (p : Prng) where
  share_bits_lem :
      (n value i count : ℕ) (g : p.State)
      → 2 ≤ n
      → (xs : List SharedBit) × (ps : List Bool) × (g' : p.State) × (share_bits p n value i count g
          ≡ some (xs, g'))
        × SharesAll n xs ps
        × (length xs ≡ count)
        × (value_of ps ≡ value / 2 ^ i % 2 ^ count)
  unfolding share_bits
  share_bits_lem n value i zero g h = ([], [], g, refl, tt, refl, omega arith)
  share_bits_lem n value i (suc count) g h =
      let v = value / 2 ^ i in
      let (x, g1, x_eq, x_h) = share_bit_lem p n (low_bit v) g h in
      let (xs, ps, g2, xs_eq, xs_h, xs_n, xs_v) = share_bits_lem n value (i + 1) count g1 h in
      (
        x ∷ xs,
        low_bit v ∷ ps,
        g2,
        rw (bit-low_bit v, x_eq, xs_eq),
        (x_h, xs_h),
        ap suc xs_n,
        rw (xs_v, ← shift_next value i, ← bit-low_bit v, bit_and-one v) (digit v count),
      )

  -- Sharing a 64-bit word bit by bit among at least two parties succeeds for every state of the
  -- generator, and the result is a word of 64 bits among these parties that reconstructs to it.
  pub reconstruct_bin-share_u64_bin :
      (n value : ℕ) (g : p.State)
      → 2 ≤ n
      → (x : SharedU64Bin) × (g' : p.State) × (share_u64_bin p n value g ≡ some (x, g'))
        × IsWord n x
        × (reconstruct_bin x ≡ value % u64)
  unfolding share_u64_bin
  reconstruct_bin-share_u64_bin n value g h =
      let (xs, ps, g', eq, all, width, v) = share_bits_lem n value 0 64 g h in
      let held : Holds n (record { bits = xs }) (value % u64) = record {
        bools = ps;
        shared = all;
        width = width;
        value = omega (arith, v);
      } in
      (
        record { bits = xs },
        g',
        rw eq,
        Holds-IsWord held,
        Holds-reconstruct (record { bits = xs }) held,
      )

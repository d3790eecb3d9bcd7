-- ===== src/Rank/Score/Quotient.antt =====
-- The score of one row.
use psa_for_multiparty.Common.{
  ℕ, suc, ◌-◌, ◌*◌, ◌^◌, ◌≤◌, ◌<◌, false, some, List, ltb, ◌==◌, if◌then◌else◌, ◌≡◌, refl, subst,
  ltb→lt, Bool-cases, inl, inr, ◌⊎◌, arith,
}
use native.Mathlib.Nat.{mul-le-mul_right}
use psa_for_multiparty.Bucket.Recip.{fp_ratio}
use psa_for_multiparty.Bucket.Recip.Ratio.{IsRatio, fp_ratio_lem}
use psa_for_multiparty.Rank.{SlimRow}
use psa_for_multiparty.Rank.Score.{EntityRankRow, entity_rank, find_n_valid, score_of}

-- The score of a row in a population of `n` included rows: the rank over n - 1, as close as `IsRatio`
-- says, and at most twice the unit; 0 for an excluded row and for a row of rank 0.
pub record IsScored (n : ℕ) (e : EntityRankRow) : Type 0 where
  pub ratio : (d : ℕ) → 1 ≤ e.incl → 1 ≤ d → n ≡ suc d → IsRatio e.rank d e.score_fp
  pub below_n : 1 ≤ e.incl → e.rank < n
  pub range : e.score_fp ≤ 2 * 2 ^ 40
  pub excluded : e.incl ≡ 0 → e.score_fp ≡ 0
  pub lowest : e.rank ≡ 0 → e.score_fp ≡ 0

at_most : (q d c : ℕ) → 1 ≤ d → q * d ≤ c * d → q ≤ c
at_most q d c pos h = elim (Bool-cases (ltb c q)) [
  | inr e ↦ ground (arith, e)
  | inl e ↦ let above = mul-le-mul_right d (ltb→lt c q e) in absurd (omega (arith, above, h, pos))
]

-- the ratio of a rank that is below the count of its population
ratio_lem :
    (rank nv : ℕ)
    → rank < nv
    → nv ≤ 2 ^ 63
    → (q : ℕ) × (fp_ratio rank (if ltb 1 nv then nv - 1 else 1) ≡ some q)
      × (q ≤ 2 * 2 ^ 40)
      × (rank ≡ 0 → q ≡ 0)
      × ((d : ℕ) → 1 ≤ d → nv ≡ suc d → IsRatio rank d q)
ratio_lem rank nv below_nv small =
    let d = if ltb 1 nv then nv - 1 else 1 in
    let pos : 1 ≤ d = ground (arith, below_nv) in
    let le : d ≤ 2 ^ 63 = ground (arith, small) in
    let fits : rank ≤ d = ground (arith, below_nv) in
    let (q, eq, bound) = fp_ratio_lem rank d pos le (omega (arith, fits)) in
    let twice = bound.twice in
    (
      q,
      eq,
      at_most q d (2 * 2 ^ 40) pos (omega (arith, twice, fits)),
      λ zero_rank. omega (arith, at_most q d 0 pos (omega (arith, twice, zero_rank))),
      λ c some_c same.
          let exact : d ≡ c = ground (arith, some_c, same) in
          subst (λ t. IsRatio rank t q) exact bound,
    )

pub score_of_lem :
    (table : List (ℕ × ℕ)) (r : SlimRow)
    → (r.incl ≡ 0) ⊎ (r.rank < find_n_valid r.popkey table)
    → find_n_valid r.popkey table ≤ 2 ^ 63
    → (q : ℕ) × (score_of table r ≡ some q)
      × IsScored (find_n_valid r.popkey table) (entity_rank r q)
unfolding score_of
score_of_lem table r inside small = elim (Bool-cases (r.incl == 0)) [
  | inl e ↦ rw e (
    0,
    refl,
    record {
      ratio = λ d some_incl. absurd (ground (arith, e, some_incl));
      below_n = λ some_incl. absurd (ground (arith, e, some_incl));
      range = omega arith;
      excluded = λ h. refl;
      lowest = λ h. refl;
    },
  )
  | inr e ↦
      let below_nv : r.rank < find_n_valid r.popkey table = elim inside [
        | inl zero_incl ↦ absurd (ground (arith, e, zero_incl))
        | inr lt ↦ lt
      ] in
      let present : (find_n_valid r.popkey table == 0) ≡ false = ground (arith, below_nv) in
      let (q, eq, range, lowest, ratio) =
        ratio_lem r.rank (find_n_valid r.popkey table) below_nv small in
      rw (e, present)
        (
          q,
          eq,
          record {
            ratio = λ d some_incl. ratio d;
            below_n = λ some_incl. below_nv;
            range = range;
            excluded = λ h. absurd (ground (arith, e, h));
            lowest = lowest;
          },
        )
]

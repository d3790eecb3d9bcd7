-- ===== src/Bucket/Search.antt =====
-- The binary search of `bucketIndex` finds the bucket between whose edges the ratio lies.
use psa_for_multiparty.Common.{
  ℕ, zero, suc, ◌+◌, ◌-◌, ◌*◌, ◌/◌, ◌^◌, ◌≤◌, ◌<◌, some, List, length, replicate, set, ltb, leb,
  ◌==◌, if◌then◌else◌, ltb→lt, leb→le, Bool-cases, false, ◌≡◌, refl, sym, subst, ◌⊎◌, inl, inr,
  arith,
}
use psa_for_multiparty.Bucket.{edge, search_loop, bucket_index}
use native.Mathlib.Nat.{mul-le-mul_right}

-- The edges ascend.
abbrev pub IsAscending : List ℕ → Type 0
IsAscending edges = (i j : ℕ) → i ≤ j → j < length edges → edge edges i ≤ edge edges j

-- The last edge in the interval that the ratio reaches, or the lower end.
Found : List ℕ → ℕ → ℕ → ℕ → ℕ → ℕ → Type 0
Found edges den lhs lo hi r =
    (lo ≤ r)
    × (r ≤ hi)
    × ((r ≡ lo) ⊎ (edge edges r * den ≤ lhs))
    × ((j : ℕ) → r < j → j ≤ hi → lhs < edge edges j * den)

-- With as much fuel as the interval is long, the loop ends at that edge.
search_loop_lem :
    (fuel : ℕ) (edges : List ℕ) (den lhs lo hi : ℕ)
    → IsAscending edges
    → lo ≤ hi
    → hi - lo ≤ fuel
    → hi < length edges
    → Found edges den lhs lo hi (search_loop fuel edges den lhs lo hi)
unfolding search_loop Found
search_loop_lem zero edges den lhs lo hi asc le enough inside =
    (omega arith, omega arith, inl refl, λ j a b. absurd (omega arith))
search_loop_lem (suc fuel) edges den lhs lo hi asc le enough inside =
    elim (Bool-cases (ltb lo hi)) [
      | inr e ↦ rw e (omega arith, omega arith, inl refl, λ j a b. absurd (ground (arith, e)))
      | inl e ↦
          let lt = ltb→lt lo hi e in
          let mid = (lo + hi + 1) / 2 in
          elim (Bool-cases (leb (edge edges mid * den) lhs)) [
            | inl u ↦
                let (a, b, c, d) =
                  search_loop_lem fuel edges den lhs mid hi asc (omega arith) (omega arith)
                    inside in
                rw (e, u)
                  (
                    omega arith,
                    omega arith,
                    elim c [
                      | inl eq ↦ inr (subst (λ r. edge edges r * den ≤ lhs) (sym eq) (leb→le _ _ u))
                      | inr at ↦ inr at
                    ],
                    d,
                  )
            | inr u ↦
                let (a, b, c, d) =
                  search_loop_lem fuel edges den lhs lo (mid - 1) asc (omega arith) (omega arith)
                    (omega arith) in
                rw (e, u)
                  (
                    omega arith,
                    omega arith,
                    c,
                    λ j above below. elim (Bool-cases (ltb j mid)) [
                      | inl k ↦ d j above (ground (arith, k))
                      | inr k ↦
                          let up =
                            mul-le-mul_right den (asc mid j (ground (arith, k)) (omega arith)) in
                          ground (arith, up, u)
                    ],
                  )
          ]
    ]

-- The clamp to the last bucket keeps the bounds of the edge that the loop found.
clamped :
    (edges : List ℕ) (den lhs found : ℕ)
    → IsAscending edges
    → 2 ≤ length edges
    → Found edges den lhs 0 (length edges - 1) found
    → (b : ℕ) × (b ≡ (if leb (length edges - 1) found then length edges - 1 - 1 else found))
      × (b < length edges - 1)
      × ((b ≡ 0) ⊎ (edge edges b * den ≤ lhs))
      × ((j : ℕ) → b < j → j < length edges - 1 → lhs < edge edges j * den)
unfolding Found
clamped edges den lhs found asc two (above, below, at, past) =
    elim (Bool-cases (leb (length edges - 1) found)) [
      | inl e ↦ rw e (
        length edges - 1 - 1,
        refl,
        omega arith,
        inr (elim at [
          | inl lowest ↦ absurd (ground (arith, e, lowest))
          | inr reached ↦
              let lower =
                mul-le-mul_right den
                  (asc (length edges - 1 - 1) found (omega (arith, leb→le _ _ e)) (omega arith)) in
              omega (arith, lower, reached)
        ]),
        λ j a b. absurd (omega arith),
      )
      | inr e ↦ rw e (found, refl, ground (arith, e), at, λ j a b. past j a (omega arith))
    ]

test-false : (n : ℕ) → 2 ≤ n → ltb n 2 ≡ false
test-false n h = ground arith

is_zero-false : (n : ℕ) → 1 ≤ n → (n == 0) ≡ false
is_zero-false n h = ground arith

-- For ascending edges of at least one bucket, a positive scale and denominator, a row that is included
-- and products within `__int128`: `bucket_index` returns a bucket within the buckets, with a one-hot
-- vector that marks it; the ratio reaches the lower edge of the bucket, unless it is bucket 0, and
-- reaches no later edge but the last one.
pub bucket_index_lem :
    (num den : ℕ) (edges : List ℕ) (incl scale : ℕ)
    → IsAscending edges
    → 2 ≤ length edges
    → 1 ≤ scale
    → 1 ≤ incl
    → 1 ≤ den
    → num * scale < 2 ^ 127
    → ((i : ℕ) → i < length edges → edge edges i * den < 2 ^ 127)
    → (b : ℕ) × (bucket_index num den edges incl scale
        ≡ some (record { bucket = b; one_hot = set (replicate (length edges - 1) 0) b 1 }))
      × (b < length edges - 1)
      × ((b ≡ 0) ⊎ (edge edges b * den ≤ num * scale))
      × ((j : ℕ) → b < j → j < length edges - 1 → num * scale < edge edges j * den)
unfolding bucket_index
bucket_index_lem num den edges incl scale asc two hs hi hd fits products =
    let (b, eq, inside, at, past) =
      clamped edges den (num * scale)
        (search_loop (length edges - 1) edges den (num * scale) 0 (length edges - 1)) asc two
        (search_loop_lem (length edges - 1) edges den (num * scale) 0 (length edges - 1) asc
          (omega arith) (omega arith) (omega arith)) in
    (
      b,
      rw
          (
            eq,
            test-false (length edges) two,
            is_zero-false scale hs,
            is_zero-false incl hi,
            is_zero-false den hd,
          )
          refl,
      inside,
      at,
      past,
    )

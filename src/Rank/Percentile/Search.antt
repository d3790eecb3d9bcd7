-- ===== src/Rank/Percentile/Search.antt =====
-- The search of `percentileBucket` inverts the cumulative counts of a histogram.
use psa_for_multiparty.Common.{
  ℕ, zero, suc, ◌+◌, ◌-◌, ◌/◌, ◌^◌, ◌≤◌, ◌<◌, Bool, true, false, List, [], ◌∷◌, length, ltb, leb,
  ◌==◌, if◌then◌else◌, ltb→lt, leb→le, Bool-cases, ◌≡◌, refl, sym, ap, ◌∙◌, subst, ◌⊎◌, inl, inr,
  arith,
}
use psa_for_multiparty.Share.{add64}
use psa_for_multiparty.Bucket.{edge}
use psa_for_multiparty.Rank.{Histogram, Cdf, cdf_from, make_cdf}
use psa_for_multiparty.Rank.Percentile.{search_cum, at_least_one, percentile_bucket}

-- The sum of the first counts, and of all.
abbrev pub sum_to : ℕ → List ℕ → ℕ
sum_to zero xs = 0
sum_to (suc n) [] = 0
sum_to (suc n) (x ∷ xs) = x + sum_to n xs

abbrev pub sum : List ℕ → ℕ
sum [] = 0
sum (x ∷ xs) = x + sum xs

sum_to_mono : (i j : ℕ) (xs : List ℕ) → i ≤ j → sum_to i xs ≤ sum_to j xs
sum_to_mono zero j xs le = omega arith
sum_to_mono (suc i) zero xs le = absurd (omega arith)
sum_to_mono (suc i) (suc j) [] le = omega arith
sum_to_mono (suc i) (suc j) (x ∷ xs) le = omega (arith, sum_to_mono i j xs (omega arith))

sum_to-all : (xs : List ℕ) → sum_to (length xs) xs ≡ sum xs
sum_to-all [] = refl
sum_to-all (x ∷ xs) = ap (λ t. x + t) (sum_to-all xs)

-- The cumulative counts of a histogram that do not wrap around.
pub record IsCumulative (acc : ℕ) (monotone : Bool) (xs : List ℕ) (c : Cdf) : Type 0 where
  pub size : length c.cum ≡ length xs
  pub entry : (j : ℕ) → j < length xs → edge c.cum j ≡ acc + sum_to (suc j) xs
  pub total_eq : c.total ≡ acc + sum xs
  pub monotone_eq : c.monotone ≡ monotone

cons_entry :
    (acc x : ℕ) (monotone : Bool) (xs : List ℕ) (c : Cdf)
    → IsCumulative (add64 acc x) monotone xs c
    → acc + sum (x ∷ xs) < 2 ^ 64
    → (j : ℕ) → j < length (x ∷ xs)
    → edge (add64 acc x ∷ c.cum) j ≡ acc + sum_to (suc j) (x ∷ xs)
cons_entry acc x monotone xs c rest small zero lt = omega (arith, small)
cons_entry acc x monotone xs c rest small (suc j) lt =
    omega (arith, rest.entry j (omega (arith, lt)), small)

cdf_from-IsCumulative :
    (acc : ℕ) (monotone : Bool) (xs : List ℕ)
    → acc + sum xs < 2 ^ 64
    → IsCumulative acc monotone xs (cdf_from acc monotone xs)
unfolding cdf_from
cdf_from-IsCumulative acc monotone [] small = record {
  size = refl;
  entry = λ j lt. absurd (omega arith);
  total_eq = omega arith;
  monotone_eq = refl;
}
cdf_from-IsCumulative acc monotone (x ∷ xs) small =
    let next : add64 acc x ≡ acc + x = omega arith in
    let up : ltb (add64 acc x) acc ≡ false = ground (arith, next) in
    let rest =
      cdf_from-IsCumulative (add64 acc x) (if ltb (add64 acc x) acc then false else monotone) xs
        (omega (arith, next, small)) in
    record {
      size = ap suc rest.size;
      entry = cons_entry acc x _ xs _ rest small;
      total_eq = omega (arith, rest.total_eq, next);
      monotone_eq = rest.monotone_eq ∙ ap (λ b. if b then false else monotone) up;
    }

-- No later than `hi`, the first entry that reaches the target.
Reached : List ℕ → ℕ → ℕ → ℕ → ℕ → Type 0
Reached cum target lo hi r =
    (lo ≤ r)
    × (r ≤ hi)
    × ((r ≡ hi) ⊎ (target ≤ edge cum r))
    × ((j : ℕ) → lo ≤ j → j < r → edge cum j < target)

search_cum_lem :
    (fuel : ℕ) (cum : List ℕ) (target lo hi : ℕ)
    → ((i j : ℕ) → i ≤ j → j < length cum → edge cum i ≤ edge cum j)
    → lo ≤ hi
    → hi - lo ≤ fuel
    → hi < length cum
    → Reached cum target lo hi (search_cum fuel cum target lo hi)
unfolding search_cum Reached
search_cum_lem zero cum target lo hi asc le enough inside =
    (omega arith, omega arith, inl (omega arith), λ j a b. absurd (omega arith))
search_cum_lem (suc fuel) cum target lo hi asc le enough inside = elim (Bool-cases (ltb lo hi)) [
  | inr e ↦ rw e (omega arith, le, inl (ground (arith, e, le)), λ j a b. absurd (omega arith))
  | inl e ↦
      let lt = ltb→lt lo hi e in
      let mid = (lo + hi) / 2 in
      elim (Bool-cases (leb target (edge cum mid))) [
        | inl u ↦
            let (a, b, c, d) =
              search_cum_lem fuel cum target lo mid asc (omega arith) (omega arith) (omega arith) in
            rw (e, u)
              (
                a,
                omega arith,
                inr (elim c [
                  | inl at ↦ subst (λ r. target ≤ edge cum r) (sym at) (leb→le _ _ u)
                  | inr reached ↦ reached
                ]),
                d,
              )
        | inr u ↦
            let (a, b, c, d) =
              search_cum_lem fuel cum target (mid + 1) hi asc (omega arith) (omega arith) inside in
            rw (e, u)
              (
                omega arith,
                b,
                c,
                λ j above below. elim (Bool-cases (leb (mid + 1) j)) [
                  | inl k ↦ d j (leb→le _ _ k) below
                  | inr k ↦
                      let up = asc j mid (ground (arith, k)) (omega arith) in ground (arith, up, u)
                ],
              )
      ]
]

positive-length : (xs : List ℕ) → 1 ≤ sum xs → 1 ≤ length xs
positive-length [] h = absurd (omega arith)
positive-length (x ∷ xs) h = omega arith

nonzero : (n : ℕ) → 1 ≤ n → (n == 0) ≡ false
nonzero n h = ground (arith, h)

target-le : (t n : ℕ) → t ≤ n → 1 ≤ n → at_least_one t ≤ n
target-le t n h k = ground (arith, h, k)

-- The first bucket at which the counts reach a target.
abbrev IsFirst : ℕ → List ℕ → ℕ → Type 0
IsFirst target xs r =
    (r < length xs) × (target ≤ sum_to (suc r) xs) × ((j : ℕ) → j < r → sum_to (suc j) xs < target)

search_cum-IsFirst :
    (target : ℕ) (xs : List ℕ) (c : Cdf)
    → IsCumulative 0 true xs c
    → 1 ≤ sum xs
    → target ≤ sum xs
    → IsFirst target xs (search_cum (length c.cum) c.cum target 0 (length c.cum - 1))
unfolding Reached
search_cum-IsFirst target xs c h some_row le =
    let long = positive-length xs some_row in
    let size = h.size in
    let asc : (i j : ℕ) → i ≤ j → j < length c.cum → edge c.cum i ≤ edge c.cum j = λ i j before lt.
      omega (
        arith,
        h.entry i (omega (arith, size)),
        h.entry j (omega (arith, size)),
        sum_to_mono (suc i) (suc j) xs (omega arith),
      ) in
    let (low, high, at, past) =
      search_cum_lem (length c.cum) c.cum target 0 (length c.cum - 1) asc (omega arith)
        (omega arith) (omega (arith, size, long)) in
    let r = search_cum (length c.cum) c.cum target 0 (length c.cum - 1) in
    let inside : r < length xs = omega (arith, high, size, long) in
    let here = h.entry r inside in
    (
      inside,
      elim at [
        | inl last ↦
            let whole : suc r ≡ length xs = omega (arith, last, size, long) in
            omega (arith, le, sum_to-all xs, ap (λ k. sum_to k xs) whole)
        | inr reached ↦ omega (arith, reached, here)
      ],
      λ j lt. omega (arith, past j (omega arith) lt, h.entry j (omega (arith, lt, inside))),
    )

below-at_least_one : (s t : ℕ) → s < at_least_one t → (s < t) ⊎ (s ≡ 0)
below-at_least_one s t h = elim (Bool-cases (t == 0)) [
  | inl e ↦ inr (ground (arith, e, h))
  | inr e ↦ inl (ground (arith, e, h))
]

at_least_one-le : (s t : ℕ) → at_least_one t ≤ s → (t ≤ s) × (1 ≤ s)
at_least_one-le s t h = (ground (arith, h), ground (arith, h))

-- The first bucket that is reached by a row and at which the counts reach a rank.
pub record IsPercentile (rank : ℕ) (xs : List ℕ) (r : ℕ) : Type 0 where
  pub inside : r < length xs
  pub reached : rank ≤ sum_to (suc r) xs
  pub occupied : 1 ≤ sum_to (suc r) xs
  pub earlier : (j : ℕ) → j < r → (sum_to (suc j) xs < rank) ⊎ (sum_to (suc j) xs ≡ 0)

module _ {Double : Type 0} (ceil_rank : Double → ℕ → ℕ) (q : Double) (hist : Histogram) where
  -- For a histogram that counts at least one row and fewer than 2^64, and a rounded rank that is not
  -- above the count: the cumulative counts are monotone, and `percentileBucket` returns the first
  -- bucket at which they are not 0 and reach the rank.
  pub percentile_bucket-make_cdf :
      1 ≤ sum hist.h
      → sum hist.h < 2 ^ 64
      → ceil_rank q (sum hist.h) ≤ sum hist.h
      → ((make_cdf hist).monotone ≡ true)
        × IsPercentile
            (ceil_rank q (sum hist.h))
            hist.h
            (percentile_bucket ceil_rank (make_cdf hist) q)
  unfolding percentile_bucket make_cdf
  percentile_bucket-make_cdf some_row small rounded =
      let xs = hist.h in
      let c = cdf_from 0 true xs in
      let h = cdf_from-IsCumulative 0 true xs (omega (arith, small)) in
      let whole : c.total ≡ sum xs = omega (arith, h.total_eq) in
      let target = at_least_one (ceil_rank q (sum xs)) in
      let first =
        search_cum-IsFirst target xs c h some_row
          (target-le (ceil_rank q (sum xs)) (sum xs) rounded some_row) in
      let counted = nonzero (sum xs) some_row in
      let long : (length c.cum == 0) ≡ false =
        nonzero (length c.cum) (omega (arith, h.size, positive-length xs some_row)) in
      let (inside, reached, past) = first in
      let reaches = at_least_one-le _ (ceil_rank q (sum xs)) reached in
      (
        h.monotone_eq,
        rw (whole, counted, long)
            (record {
              inside = inside;
              reached = reaches.0;
              occupied = reaches.1;
              earlier = λ j lt. below-at_least_one _ (ceil_rank q (sum xs)) (past j lt);
            }),
      )

-- ===== src/Bucket.antt =====
-- volePSI/MpsvsRatioBucket.h and volePSI/MpsvsRatioBucket.cpp: the bucket of a ratio, by binary search
-- over public edges. The products are taken in signed `__int128`: the model is of the inputs for which
-- they stay below 2^127, as they do for a denominator and a scale up to 2^63.
-- `edges[mid]` is read in range; the loop takes fuel, and `none` is an exception.
pub mod Search
pub mod Recip
use psa_for_multiparty.Common.{
  ℕ, zero, suc, ◌+◌, ◌-◌, ◌*◌, ◌/◌, Option, none, some, List, [], ◌∷◌, length, replicate, set, ltb,
  leb, ◌==◌, if◌then◌else◌,
}

pub record BucketResult : Type 0 where
  pub bucket : ℕ
  pub one_hot : List ℕ

-- `edges[i]`, 0 out of range
abbrev pub edge : List ℕ → ℕ → ℕ
edge [] i = 0
edge (e ∷ es) zero = e
edge (e ∷ es) (suc i) = edge es i

-- `while (lo < hi)`
pub search_loop : ℕ → List ℕ → ℕ → ℕ → ℕ → ℕ → ℕ
search_loop zero edges den lhs lo hi = lo
search_loop (suc fuel) edges den lhs lo hi =
    let mid = (lo + hi + 1) / 2 in
    let up = search_loop fuel edges den lhs mid hi in
    let down = search_loop fuel edges den lhs lo (mid - 1) in
    if ltb lo hi then (if leb (edge edges mid * den) lhs then up else down) else lo

unfoldable pub bucket_index : ℕ → ℕ → List ℕ → ℕ → ℕ → Option BucketResult
unfolding search_loop
bucket_index num den edges incl ratio_scale =
    if ltb (length edges) 2
    then none
    else if ratio_scale == 0
    then none
    else (let b = length edges - 1 in
        let zeros = replicate b 0 in
        let found = search_loop b edges den (num * ratio_scale) 0 b in
        let bucket = if leb b found then b - 1 else found in
        if incl == 0
        then some (record { bucket = 0; one_hot = zeros })
        else if den == 0
        then some (record { bucket = 0; one_hot = zeros })
        else some (record { bucket = bucket; one_hot = set zeros bucket 1 }))

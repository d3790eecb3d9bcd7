-- ===== src/Share/Arith.antt =====
-- What the local operations on additive shares do to the shared word.
use psa_for_multiparty.Common.{
  ℕ, zero, suc, ◌+◌, ◌-◌, ◌*◌, ◌%◌, ◌<◌, ◌≤◌, ◌≡◌, refl, ap, some, List, [], ◌∷◌, map, length,
  length-map, arith,
}
use psa_for_multiparty.Common.Modular.{mod-mul_left}
use psa_for_multiparty.Random.{Prng}
use psa_for_multiparty.Share.{
  u64, add64, sub64, mul64, zip_with, update_first, SharedU64, parties, sum_from, reconstruct,
  add_shared, sub_shared, add_const, mul_const, draw_u64, share_u64,
}

-- the sum of the shares, as an unbounded number
abbrev pub total : List ℕ → ℕ
total [] = 0
total (x ∷ xs) = x + total xs

sum_from-eq-total : (out : ℕ) (xs : List ℕ) → sum_from out xs % u64 ≡ (out + total xs) % u64
unfolding sum_from
sum_from-eq-total out [] = omega arith
sum_from-eq-total out (x ∷ xs) = omega (arith, sum_from-eq-total (add64 out x) xs)

sum_from-lt : (out : ℕ) (xs : List ℕ) → out < u64 → sum_from out xs < u64
unfolding sum_from
sum_from-lt out [] h = h
sum_from-lt out (x ∷ xs) h = sum_from-lt (add64 out x) xs (omega arith)

pub reconstruct-total : (a : SharedU64) → reconstruct a ≡ total a.shares % u64
unfolding reconstruct
reconstruct-total a =
    omega (arith, sum_from-eq-total 0 a.shares, sum_from-lt 0 a.shares (omega arith))

pub length-zip_with :
    (f : ℕ → ℕ → ℕ) (xs ys : List ℕ) → length xs ≡ length ys → length (zip_with f xs ys) ≡ length xs
length-zip_with f [] ys h = refl
length-zip_with f (x ∷ xs) [] h = absurd (omega arith)
length-zip_with f (x ∷ xs) (y ∷ ys) h = ap suc (length-zip_with f xs ys (omega arith))

pub length-update_first : (f : ℕ → ℕ) (xs : List ℕ) → length (update_first f xs) ≡ length xs
length-update_first f [] = refl
length-update_first f (x ∷ xs) = refl

total-add :
    (xs ys : List ℕ)
    → length xs ≡ length ys
    → total (zip_with add64 xs ys) % u64 ≡ (total xs + total ys) % u64
total-add [] [] h = refl
total-add [] (y ∷ ys) h = absurd (omega arith)
total-add (x ∷ xs) [] h = absurd (omega arith)
total-add (x ∷ xs) (y ∷ ys) h = omega (arith, total-add xs ys (omega arith))

total-sub :
    (xs ys : List ℕ)
    → length xs ≡ length ys
    → (total (zip_with sub64 xs ys) + total ys) % u64 ≡ total xs % u64
total-sub [] [] h = refl
total-sub [] (y ∷ ys) h = absurd (omega arith)
total-sub (x ∷ xs) [] h = absurd (omega arith)
total-sub (x ∷ xs) (y ∷ ys) h = omega (arith, total-sub xs ys (omega arith))

total-mul : (xs : List ℕ) (c : ℕ) → total (map (λ s. mul64 s c) xs) % u64 ≡ total xs * c % u64
total-mul [] c = omega arith
total-mul (x ∷ xs) c = omega (arith, total-mul xs c)

total-update_first :
    (xs : List ℕ) (c : ℕ)
    → 0 < length xs
    → total (update_first (λ s. add64 s c) xs) % u64 ≡ (total xs + c) % u64
total-update_first [] c h = absurd (omega arith)
total-update_first (x ∷ xs) c h = omega arith

-- Adding shares party by party, among as many parties, succeeds and adds the shared words modulo
-- 2^64.
pub add_shared_lem :
    (a b : SharedU64)
    → parties a ≡ parties b
    → (r : SharedU64) × (add_shared a b ≡ some r)
      × (parties r ≡ parties a)
      × (reconstruct r ≡ (reconstruct a + reconstruct b) % u64)
unfolding add_shared
add_shared_lem a b h = (
  record { shares = zip_with add64 a.shares b.shares },
  ground arith,
  length-zip_with add64 a.shares b.shares h,
  omega (
    arith,
    reconstruct-total (record { shares = zip_with add64 a.shares b.shares }),
    reconstruct-total a,
    reconstruct-total b,
    total-add a.shares b.shares h,
  ),
)

pub sub_shared_lem :
    (a b : SharedU64)
    → parties a ≡ parties b
    → (r : SharedU64) × (sub_shared a b ≡ some r)
      × (parties r ≡ parties a)
      × ((reconstruct r + reconstruct b) % u64 ≡ reconstruct a)
unfolding sub_shared
sub_shared_lem a b h = (
  record { shares = zip_with sub64 a.shares b.shares },
  ground arith,
  length-zip_with sub64 a.shares b.shares h,
  omega (
    arith,
    reconstruct-total (record { shares = zip_with sub64 a.shares b.shares }),
    reconstruct-total a,
    reconstruct-total b,
    total-sub a.shares b.shares h,
  ),
)

pub parties-add_const : (a : SharedU64) (c : ℕ) → parties (add_const a c) ≡ parties a
unfolding add_const
parties-add_const a c = length-update_first (λ s. add64 s c) a.shares

pub reconstruct-add_const :
    (a : SharedU64) (c : ℕ)
    → 0 < parties a
    → reconstruct (add_const a c) ≡ (reconstruct a + c) % u64
unfolding add_const
reconstruct-add_const a c h = omega (
  arith,
  reconstruct-total (record { shares = update_first (λ s. add64 s c) a.shares }),
  reconstruct-total a,
  total-update_first a.shares c h,
)

pub parties-mul_const : (a : SharedU64) (c : ℕ) → parties (mul_const a c) ≡ parties a
unfolding mul_const
parties-mul_const a c = length-map a.shares (λ s. mul64 s c)

pub reconstruct-mul_const :
    (a : SharedU64) (c : ℕ) → reconstruct (mul_const a c) ≡ reconstruct a * c % u64
unfolding mul_const
reconstruct-mul_const a c = rw (reconstruct-total a) (
    omega (
      arith,
      reconstruct-total (record { shares = map (λ s. mul64 s c) a.shares }),
      total-mul a.shares c,
      mod-mul_left u64 (total a.shares) c,
    ))

module _ (p : Prng) where
  open p use {State}

  draw_u64_lem :
      (n accum : ℕ) (g : State)
      → let (rest, sum, g') = draw_u64 p n accum g in
        (length rest ≡ n) × (sum % u64 ≡ (accum + total rest) % u64)
  unfolding draw_u64
  draw_u64_lem zero accum g = (refl, omega arith)
  draw_u64_lem (suc n) accum g =
      let r = (p.next_u64 g).0 in
      let ih = draw_u64_lem n (add64 accum r) (p.next_u64 g).1 in
      (omega (arith, ih.0), omega (arith, ih.1))

  -- Sharing a word among at least two parties succeeds for every state of the generator, gives each
  -- party one share, and the shares reconstruct to the word modulo 2^64.
  pub reconstruct-share_u64 :
      (n value : ℕ) (g : State)
      → 2 ≤ n
      → (r : SharedU64) × (g' : State) × (share_u64 p n value g ≡ some (r, g'))
        × (parties r ≡ n)
        × (reconstruct r ≡ value % u64)
  unfolding share_u64
  reconstruct-share_u64 n value g h =
      let d = draw_u64 p (n - 1) 0 g in
      let facts = draw_u64_lem (n - 1) 0 g in
      (
        record { shares = sub64 value d.1 ∷ d.0 },
        d.2,
        ground arith,
        omega (arith, facts.0),
        omega (arith, reconstruct-total (record { shares = sub64 value d.1 ∷ d.0 }), facts.1),
      )

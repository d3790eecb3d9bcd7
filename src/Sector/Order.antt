-- ===== src/Sector/Order.antt =====
-- The entries of the sectors stay in the order of their keys, each key once.
use psa_for_multiparty.Common.{
  ℕ, ◌≡◌, ap, ◌∙◌, true, false, List, [], ◌∷◌, All, Bool-cases, inl, inr, arith,
}
use psa_for_multiparty.Inclusion.{Metric, EntityMetricRow}
use psa_for_multiparty.Sector.{
  SectorKey, SectorRatio, key_less, key_of, at_key, fresh_ratio, add_ratio, sum_ratios,
}

-- The keys are strictly ascending.
abbrev pub IsAscendingKeys : {V : Type 0} → List (SectorKey × V) → Type 0
IsAscendingKeys [] = Unit {0}
IsAscendingKeys (e ∷ es) = All (λ d. key_less e.0 d.0 ≡ true) es × IsAscendingKeys es

key_less_trans :
    (a b c : SectorKey) → key_less a b ≡ true → key_less b c ≡ true → key_less a c ≡ true
key_less_trans a b c h k = ground (arith, h, k)

-- Keys that are not apart are equal.
pub key_less-total : (a b : SectorKey) → key_less a b ≡ false → key_less b a ≡ false → a ≡ b
key_less-total a b h k =
    let s : a.sector ≡ b.sector = ground (arith, h, k) in
    let t : a.period ≡ b.period = ground (arith, h, k) in
    ap (λ (n : ℕ). key n a.period) s ∙ ap (λ (n : ℕ). key b.sector n) t
  where
    key : ℕ → ℕ → SectorKey
    key n t = record { sector = n; period = t }

-- Putting a key at its place keeps the order.
module _ {V : Type 0} (k : SectorKey) (fresh : V) (f : V → V) where
  at_key-All :
      (x : SectorKey) (es : List (SectorKey × V))
      → key_less x k ≡ true
      → All (λ d. key_less x d.0 ≡ true) es
      → All (λ d. key_less x d.0 ≡ true) (at_key k fresh f es)
  unfolding at_key
  at_key-All x [] h all = (h, tt)
  at_key-All x (e ∷ es) h all = elim (Bool-cases (key_less k e.0)) [
    | inl l ↦ rw l (h, all)
    | inr l ↦ elim (Bool-cases (key_less e.0 k)) [
      | inl g ↦ rw (l, g) (all.0, at_key-All x es h all.1)
      | inr g ↦ rw (l, g) (all.0, all.1)
    ]
  ]

  above-All :
      (x y : SectorKey) (es : List (SectorKey × V))
      → key_less x y ≡ true
      → All (λ d. key_less y d.0 ≡ true) es
      → All (λ d. key_less x d.0 ≡ true) es
  above-All x y [] h all = tt
  above-All x y (e ∷ es) h all = (key_less_trans x y e.0 h all.0, above-All x y es h all.1)

  pub at_key-IsAscendingKeys :
      (es : List (SectorKey × V)) → IsAscendingKeys es → IsAscendingKeys (at_key k fresh f es)
  unfolding at_key
  at_key-IsAscendingKeys [] h = (tt, tt)
  at_key-IsAscendingKeys (e ∷ es) h = elim (Bool-cases (key_less k e.0)) [
    | inl l ↦ rw l ((l, above-All k e.0 es l h.0), h)
    | inr l ↦ elim (Bool-cases (key_less e.0 k)) [
      | inl g ↦ rw (l, g) (at_key-All e.0 es g h.0, at_key-IsAscendingKeys es h.1)
      | inr g ↦ rw (l, g) h
    ]
  ]

pub sum_ratios-IsAscendingKeys :
    (m : Metric) (rows : List EntityMetricRow) (agg : List (SectorKey × SectorRatio))
    → IsAscendingKeys agg
    → IsAscendingKeys (sum_ratios m agg rows)
unfolding sum_ratios
sum_ratios-IsAscendingKeys m [] agg h = h
sum_ratios-IsAscendingKeys m (r ∷ rows) agg h =
    sum_ratios-IsAscendingKeys m rows _
      (at_key-IsAscendingKeys (key_of r) (fresh_ratio (key_of r) m) (add_ratio (r.metrics m)) agg h)

-- ===== src/Inclusion/Vulnerability.antt =====
-- When the vulnerability score includes a firm: `avail_core_count` and `incl_vuln`.
use psa_for_multiparty.Common.{
  ℕ, zero, suc, ◌+◌, ◌%◌, ◌^◌, ◌≤◌, ◌<◌, All, ◌≡◌, refl, sym, subst, ◌↔◌, arith,
}
use psa_for_multiparty.Inclusion.{
  Metric, dti, dsi, demp, ipw, delq, npl, unsec_share, st_debt_share, gap, UnionRow, RangeConfig,
  strict_gating, renormalised_weights, vuln_core_metrics, sand, metric_pair, count_available,
  vuln_inclusion, entity_metrics,
}
use psa_for_multiparty.Inclusion.Included.{IsOne, IsFlagged, flags, required, metric_pair-IsConj}

avail :
    (a b c d : ℕ)
    → a < 2
    → b < 2
    → c < 2
    → d < 2
    → ((((0 + a) % 2 ^ 8 + b) % 2 ^ 8 + c) % 2 ^ 8 + d) % 2 ^ 8 ≡ a + b + c + d
avail a b c d ha hb hc hd = omega arith

by_strict : (n live : ℕ) → vuln_inclusion strict_gating n live ≡ 1 → n ≡ 4
unfolding vuln_inclusion
by_strict n live e = ground arith

by_any : (n live : ℕ) → (1 ≤ n → live ≡ 1) → vuln_inclusion renormalised_weights n live ≡ 0 → n ≡ 0
unfolding vuln_inclusion
by_any zero live h e = refl
by_any (suc n) live h e =
    absurd
      (ground (arith, h (omega arith), subst (λ l. sand l 1 ≡ 1) (sym (h (omega arith))) refl, e))

some_one :
    (a b c d live : ℕ)
    → a < 2
    → b < 2
    → c < 2
    → d < 2
    → (a ≡ 1 → live ≡ 1)
    → (b ≡ 1 → live ≡ 1)
    → (c ≡ 1 → live ≡ 1)
    → (d ≡ 1 → live ≡ 1)
    → 1 ≤ a + b + c + d
    → live ≡ 1
some_one a b c d live ha hb hc hd ka kb kc kd h = ground (arith, ha, hb, hc, hd, ka, kb, kc, kd)

-- The inclusion bits of the four core metrics, and what the policy makes of them.
vuln-strict :
    (a b c d live : ℕ)
    → a < 2
    → b < 2
    → c < 2
    → d < 2
    → live < 2
    → (a ≡ 1 → live ≡ 1)
    → (vuln_inclusion strict_gating (((((0 + a) % 2 ^ 8 + b) % 2 ^ 8 + c) % 2 ^ 8 + d) % 2 ^ 8) live
        ≡ 1)
      ↔ ((a ≡ 1) × (b ≡ 1) × (c ≡ 1) × (d ≡ 1))
unfolding vuln_inclusion
vuln-strict a b c d live ha hb hc hd hl k = (
  λ e.
      let sum =
        by_strict (a + b + c + d) live
          (subst (λ n. vuln_inclusion strict_gating n live ≡ 1) (avail a b c d ha hb hc hd) e) in
      (omega arith, omega arith, omega arith, omega arith),
  λ (ea, eb, ec, ed). rw (avail a b c d ha hb hc hd, ea, eb, ec, ed, k ea) refl,
)

vuln-renormalised :
    (a b c d live : ℕ)
    → a < 2
    → b < 2
    → c < 2
    → d < 2
    → live < 2
    → (a ≡ 1 → live ≡ 1)
    → (b ≡ 1 → live ≡ 1)
    → (c ≡ 1 → live ≡ 1)
    → (d ≡ 1 → live ≡ 1)
    → (vuln_inclusion renormalised_weights
          (((((0 + a) % 2 ^ 8 + b) % 2 ^ 8 + c) % 2 ^ 8 + d) % 2 ^ 8)
          live
        ≡ 0)
      ↔ ((a ≡ 0) × (b ≡ 0) × (c ≡ 0) × (d ≡ 0))
unfolding vuln_inclusion
vuln-renormalised a b c d live ha hb hc hd hl ka kb kc kd = (
  λ e.
      let sum =
        by_any (a + b + c + d) live (λ h. some_one a b c d live ha hb hc hd ka kb kc kd h)
          (subst (λ n. vuln_inclusion renormalised_weights n live ≡ 0) (avail a b c d ha hb hc hd)
            e) in
      (omega arith, omega arith, omega arith, omega arith),
  λ (ea, eb, ec, ed). rw (avail a b c d ha hb hc hd, ea, eb, ec, ed) refl,
)

-- An included metric belongs to a live row.
included_live :
    (rc : RangeConfig) (u : UnionRow) (m : Metric)
    → IsFlagged u
    → (metric_pair rc u m).incl ≡ 1
    → u.live ≡ 1
unfolding required flags
included_live rc u m h e =
    elim m as (λ m. All IsOne (required rc u m) → u.live ≡ 1) [
      | dti ↦ λ r. r.0
      | dsi ↦ λ r. r.0
      | demp ↦ λ r. r.0
      | ipw ↦ λ r. r.0
      | delq ↦ λ r. r.0
      | npl ↦ λ r. r.0
      | unsec_share ↦ λ r. r.0
      | st_debt_share ↦ λ r. r.0
      | gap ↦ λ r. r.0
    ]
      ((metric_pair-IsConj rc u m h).1 e)

-- For a row whose flags are bits, under strict gating: the vulnerability score includes the firm
-- exactly when all four core metrics include it.
pub entity_metrics-strict :
    (rc : RangeConfig) (u : UnionRow)
    → IsFlagged u
    → ((entity_metrics rc strict_gating u).incl_vuln ≡ 1)
      ↔ All (λ m. (metric_pair rc u m).incl ≡ 1) vuln_core_metrics
unfolding entity_metrics count_available
entity_metrics-strict rc u h =
    let (f, g) =
      vuln-strict _ _ _ _ u.live (metric_pair-IsConj rc u dti h).0 (metric_pair-IsConj rc u dsi h).0
        (metric_pair-IsConj rc u delq h).0 (metric_pair-IsConj rc u npl h).0 h.live_bit
        (included_live rc u dti h) in
    (λ e. let (a, b, c, d) = f e in (a, (b, (c, (d, tt)))), λ r. g (r.0, r.1.0, r.1.1.0, r.1.1.1.0))

-- For a row whose flags are bits, with renormalised weights: the vulnerability score leaves the
-- firm out exactly when all four core metrics leave it out.
pub entity_metrics-renormalised :
    (rc : RangeConfig) (u : UnionRow)
    → IsFlagged u
    → ((entity_metrics rc renormalised_weights u).incl_vuln ≡ 0)
      ↔ All (λ m. (metric_pair rc u m).incl ≡ 0) vuln_core_metrics
unfolding entity_metrics count_available
entity_metrics-renormalised rc u h =
    let (f, g) =
      vuln-renormalised _ _ _ _ u.live (metric_pair-IsConj rc u dti h).0
        (metric_pair-IsConj rc u dsi h).0 (metric_pair-IsConj rc u delq h).0
        (metric_pair-IsConj rc u npl h).0 h.live_bit (included_live rc u dti h)
        (included_live rc u dsi h) (included_live rc u delq h) (included_live rc u npl h) in
    (λ e. let (a, b, c, d) = f e in (a, (b, (c, (d, tt)))), λ r. g (r.0, r.1.0, r.1.1.0, r.1.1.1.0))

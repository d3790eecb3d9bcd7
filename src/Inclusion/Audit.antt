-- ===== src/Inclusion/Audit.antt =====
-- `auditInclusion` of volePSI/MpsvsInclusion.cpp, and its counts against the totals. The counters are
-- `size_t`; `memb_ok_but_incl_zero` is declared but never written.
use psa_for_multiparty.Common.{
  ℕ, ◌+◌, ◌%◌, ◌^◌, Bool, true, false, ◌&&◌, not, List, [], ◌∷◌, ◌==◌, if◌then◌else◌, ◌≡◌, refl,
  arith,
}
use psa_for_multiparty.Share.{add64}
use psa_for_multiparty.Inclusion.{Metric, EntityMetricRow, aggregate_over_all}
use psa_for_multiparty.Inclusion.Totals.{sum_included, aggregate_over_all_lem}

pub record InclusionAudit : Type 0 where
  pub incl_count_by_metric : Metric → ℕ
  pub memb_ok_but_incl_zero : Metric → ℕ
  pub vuln_incl_count : ℕ
  pub vuln_live_but_incl_zero : ℕ

abbrev count_if : Bool → ℕ → ℕ
count_if b n = if b then add64 n 1 else n

-- one row
abbrev audit_row : InclusionAudit → EntityMetricRow → InclusionAudit
audit_row a r = record {
  incl_count_by_metric = λ m. count_if (not ((r.metrics m).incl == 0)) (a.incl_count_by_metric m);
  memb_ok_but_incl_zero = a.memb_ok_but_incl_zero;
  vuln_incl_count = count_if (not (r.incl_vuln == 0)) a.vuln_incl_count;
  vuln_live_but_incl_zero =
      count_if (not (r.live == 0) && r.incl_vuln == 0) a.vuln_live_but_incl_zero;
}

-- the loop, from some counts on
audit_from : InclusionAudit → List EntityMetricRow → InclusionAudit
audit_from a [] = a
audit_from a (r ∷ rows) = audit_from (audit_row a r) rows

abbrev no_counts : InclusionAudit
no_counts = record {
  incl_count_by_metric = λ m. 0;
  memb_ok_but_incl_zero = λ m. 0;
  vuln_incl_count = 0;
  vuln_live_but_incl_zero = 0;
}

unfoldable pub audit_inclusion : List EntityMetricRow → InclusionAudit
unfolding audit_from
audit_inclusion rows = audit_from no_counts rows

counted :
    (b : Bool) (n c : ℕ) → n ≡ c % 2 ^ 64 → count_if (not b) n ≡ (c + (if b then 0 else 1)) % 2 ^ 64
counted true n c h = omega arith
counted false n c h = omega arith

audit_from_lem :
    (m : Metric) (rows : List EntityMetricRow) (a : InclusionAudit) (c : ℕ)
    → a.incl_count_by_metric m ≡ c % 2 ^ 64
    → (audit_from a rows).incl_count_by_metric m ≡ (c + sum_included (λ p. 1) m rows) % 2 ^ 64
unfolding audit_from
audit_from_lem m [] a c h = omega arith
audit_from_lem m (r ∷ rows) a c h =
    let rest =
      audit_from_lem m rows (audit_row a r) _
        (counted ((r.metrics m).incl == 0) (a.incl_count_by_metric m) c h) in
    omega (arith, rest)

-- For every table and metric, the audit counts as many included rows as the totals do.
pub audit_inclusion_lem :
    (rows : List EntityMetricRow) (m : Metric)
    → (audit_inclusion rows).incl_count_by_metric m ≡ (aggregate_over_all rows m).n_valid
unfolding audit_inclusion
audit_inclusion_lem rows m =
    let (_, _, n) = aggregate_over_all_lem rows m in
    omega (arith, n, audit_from_lem m rows no_counts 0 refl)

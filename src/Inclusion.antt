-- ===== src/Inclusion.antt =====
-- volePSI/MpsvsInclusion.h and volePSI/MpsvsInclusion.cpp, with the rows of
-- volePSI/MpsvsAlignment.h that they read: the numerator, the denominator and the inclusion bit of
-- each metric of a firm, the coverage of the vulnerability score, and the totals over all firms.
-- A `std::array` indexed by an enumeration or by a constant is a function; `uint8_t` and `uint64_t`
-- values are their numbers, and sums are taken modulo 2^8 and 2^64.
pub mod Fields
pub mod Included
pub mod Vulnerability
pub mod Totals
pub mod Audit
use psa_for_multiparty.Common.{
  ℕ, suc, ◌+◌, ◌-◌, ◌%◌, ◌^◌, List, [], ◌∷◌, map, length, leb, ◌==◌, ◌&&◌, if◌then◌else◌, bit_and,
}
use psa_for_multiparty.Inclusion.Fields
use psa_for_multiparty.Share.{add64, sub64}

pub data Metric : Type 0 where
  dti dsi demp ipw delq npl unsec_share st_debt_share gap : Metric

pub record PayloadPerSource : Type 0 where
  pub v : ℕ → ℕ
  pub valid : ℕ → ℕ
  pub g : ℕ
  pub v_g : ℕ
  pub contraction : ℕ

pub record UnionRow : Type 0 where
  pub bin : ℕ
  pub period : ℕ
  pub sector : ℕ
  pub b_mas : ℕ
  pub b_dos : ℕ
  pub b_mom : ℕ
  pub p_mas : PayloadPerSource
  pub p_dos : PayloadPerSource
  pub p_mom : PayloadPerSource
  pub canonical : ℕ
  pub live : ℕ
  pub sector_conflict : ℕ

pub record AttrRange : Type 0 where
  pub min_incl : ℕ
  pub max_incl : ℕ

pub record RangeConfig : Type 0 where
  pub income : AttrRange
  pub emp : AttrRange
  pub debt : AttrRange

-- the defaults
abbrev pub default_ranges : RangeConfig
default_ranges = record {
  income = record { min_incl = 1; max_incl = 100_000_000_000_000 };
  emp = record { min_incl = 1; max_incl = 10_000_000 };
  debt = record { min_incl = 1; max_incl = 100_000_000_000_000 };
}

pub data CoveragePolicy : Type 0 where
  strict_gating renormalised_weights : CoveragePolicy

-- `kVulnCoreMetrics`
abbrev pub vuln_core_metrics : List Metric
vuln_core_metrics = dti ∷ dsi ∷ delq ∷ npl ∷ []

pub record MetricPair : Type 0 where
  pub num : ℕ
  pub den : ℕ
  pub incl : ℕ

pub record EntityMetricRow : Type 0 where
  pub bin : ℕ
  pub period : ℕ
  pub sector : ℕ
  pub sector_conflict : ℕ
  pub live : ℕ
  pub b_mas : ℕ
  pub b_dos : ℕ
  pub b_mom : ℕ
  pub metrics : Metric → MetricPair
  pub avail_core_count : ℕ
  pub incl_vuln : ℕ

unfoldable pub in_range : ℕ → AttrRange → ℕ
in_range value r = if leb r.min_incl value && leb value r.max_incl then 1 else 0

abbrev pub sand : ℕ → ℕ → ℕ
sand a b = bit_and a b

-- The pair of each metric of a row.
unfoldable pub metric_pair : RangeConfig → UnionRow → Metric → MetricPair
metric_pair rc u dti = record {
  num = u.p_mas.v Fields.mas_debt;
  den = u.p_dos.v Fields.dos_income;
  incl =
      sand (sand (sand u.live u.b_mas) (sand u.b_dos (u.p_mas.valid Fields.mas_debt)))
        (sand (u.p_dos.valid Fields.dos_income) (in_range (u.p_dos.v Fields.dos_income) rc.income));
}
metric_pair rc u dsi = record {
  num = u.p_mas.v Fields.mas_dserv;
  den = u.p_dos.v Fields.dos_income;
  incl =
      sand (sand (sand u.live u.b_mas) (sand u.b_dos (u.p_mas.valid Fields.mas_dserv)))
        (sand (u.p_dos.valid Fields.dos_income) (in_range (u.p_dos.v Fields.dos_income) rc.income));
}
metric_pair rc u demp = record {
  num = u.p_mas.v Fields.mas_debt;
  den = u.p_mom.v Fields.mom_emp;
  incl =
      sand (sand (sand u.live u.b_mas) (sand u.b_mom (u.p_mas.valid Fields.mas_debt)))
        (sand (u.p_mom.valid Fields.mom_emp) (in_range (u.p_mom.v Fields.mom_emp) rc.emp));
}
metric_pair rc u ipw = record {
  num = u.p_dos.v Fields.dos_income;
  den = u.p_mom.v Fields.mom_emp;
  incl =
      sand (sand (sand u.live u.b_dos) (sand u.b_mom (u.p_dos.valid Fields.dos_income)))
        (sand (u.p_mom.valid Fields.mom_emp) (in_range (u.p_mom.v Fields.mom_emp) rc.emp));
}
metric_pair rc u delq = record {
  num = u.p_mas.v Fields.mas_delq;
  den = u.p_mas.v Fields.mas_debt;
  incl =
      sand (sand (sand u.live u.b_mas) (u.p_mas.valid Fields.mas_delq))
        (sand (u.p_mas.valid Fields.mas_debt) (in_range (u.p_mas.v Fields.mas_debt) rc.debt));
}
metric_pair rc u npl = record {
  num = u.p_mas.v Fields.mas_npl;
  den = u.p_mas.v Fields.mas_debt;
  incl =
      sand (sand (sand u.live u.b_mas) (u.p_mas.valid Fields.mas_npl))
        (sand (u.p_mas.valid Fields.mas_debt) (in_range (u.p_mas.v Fields.mas_debt) rc.debt));
}
metric_pair rc u unsec_share = record {
  num = u.p_mas.v Fields.mas_unsec;
  den = u.p_mas.v Fields.mas_debt;
  incl =
      sand (sand (sand u.live u.b_mas) (u.p_mas.valid Fields.mas_unsec))
        (sand (u.p_mas.valid Fields.mas_debt) (in_range (u.p_mas.v Fields.mas_debt) rc.debt));
}
metric_pair rc u st_debt_share = record {
  num = u.p_mas.v Fields.mas_stdebt;
  den = u.p_mas.v Fields.mas_debt;
  incl =
      sand (sand (sand u.live u.b_mas) (u.p_mas.valid Fields.mas_stdebt))
        (sand (u.p_mas.valid Fields.mas_debt) (in_range (u.p_mas.v Fields.mas_debt) rc.debt));
}
-- The signed difference is stored as its bit pattern.
metric_pair rc u gap = record {
  num = sub64 u.p_mas.g u.p_dos.g;
  den = 1;
  incl = sand (sand (sand u.live u.b_mas) u.b_dos) (sand u.p_mas.v_g u.p_dos.v_g);
}

-- `avail += incl` over the core metrics, in `uint8_t`
pub count_available : ℕ → (Metric → MetricPair) → List Metric → ℕ
count_available avail ms [] = avail
count_available avail ms (c ∷ cs) = count_available ((avail + (ms c).incl) % 2 ^ 8) ms cs

unfoldable pub vuln_inclusion : CoveragePolicy → ℕ → ℕ → ℕ
vuln_inclusion strict_gating avail live =
    if avail == length vuln_core_metrics then sand live 1 else 0
vuln_inclusion renormalised_weights avail live = if leb 1 avail then sand live 1 else 0

unfoldable pub entity_metrics : RangeConfig → CoveragePolicy → UnionRow → EntityMetricRow
unfolding count_available
entity_metrics rc policy u = record {
  bin = u.bin;
  period = u.period;
  sector = u.sector;
  sector_conflict = u.sector_conflict;
  live = u.live;
  b_mas = u.b_mas;
  b_dos = u.b_dos;
  b_mom = u.b_mom;
  metrics = metric_pair rc u;
  avail_core_count = count_available 0 (metric_pair rc u) vuln_core_metrics;
  incl_vuln = vuln_inclusion policy (count_available 0 (metric_pair rc u) vuln_core_metrics) u.live;
}

unfoldable pub compute_entity_metrics :
    List UnionRow → RangeConfig → CoveragePolicy → List EntityMetricRow
compute_entity_metrics rows rc policy = map (entity_metrics rc policy) rows

pub record MetricAggregate : Type 0 where
  pub sum_num : ℕ
  pub sum_den : ℕ
  pub n_valid : ℕ

abbrev pub empty_aggregate : MetricAggregate
empty_aggregate = record { sum_num = 0; sum_den = 0; n_valid = 0 }

-- `if (m.incl) { out[i].sum_num += m.num; … }`
unfoldable pub add_pair : MetricAggregate → MetricPair → MetricAggregate
add_pair a m = if m.incl == 0 then a else record {
  sum_num = add64 a.sum_num m.num;
  sum_den = add64 a.sum_den m.den;
  n_valid = add64 a.n_valid 1;
}

pub aggregate_from : Metric → MetricAggregate → List EntityMetricRow → MetricAggregate
aggregate_from m a [] = a
aggregate_from m a (r ∷ rs) = aggregate_from m (add_pair a (r.metrics m)) rs

-- one entry of `aggregateOverAll`, for the metric
unfoldable pub aggregate_over_all : List EntityMetricRow → Metric → MetricAggregate
unfolding aggregate_from
aggregate_over_all rows m = aggregate_from m empty_aggregate rows

-- ===== src/Inclusion/Fields.antt =====
-- The namespace `fields` of volePSI/MpsvsInclusion.h: the positions of the fields in a payload.
use Prim.Native.Nat.{ℕ}

abbrev pub mas_debt : ℕ
mas_debt = 0

abbrev pub mas_dserv : ℕ
mas_dserv = 1

abbrev pub mas_delq : ℕ
mas_delq = 2

abbrev pub mas_npl : ℕ
mas_npl = 3

abbrev pub mas_unsec : ℕ
mas_unsec = 4

abbrev pub mas_stdebt : ℕ
mas_stdebt = 5

abbrev pub dos_income : ℕ
dos_income = 0

abbrev pub mom_emp : ℕ
mom_emp = 0

-- ===== src/World/Policies.antt =====
-- The row-level security policies of migrations/0002_rls.sql, as tests of the running transaction.
-- They bind only where `rls` is on.
use esppdv.Base.{ℤ, Bool, not, ◌&&◌, ◌||◌, any, str_eq, eqb_ℤ}
use esppdv.World.{World}
use esppdv.World.Rows.{UserUnit, SpdRecord, BudgetRecord}

abbrev super_admin : World → Bool
super_admin w = str_eq w.setting.user_role "SUPER_ADMIN"

abbrev in_unit : ℤ → ℤ → UserUnit → Bool
in_unit user_id unit_id m = eqb_ℤ m.user_id user_id && eqb_ℤ m.unit_id unit_id

abbrev is_member : World → ℤ → Bool
is_member w unit_id = any (in_unit w.setting.current_user_id unit_id) w.tables.user_units

abbrev is_creator : World → ℤ → Bool
is_creator w created_by = eqb_ℤ created_by w.setting.current_user_id

abbrev pub spds_select : World → SpdRecord → Bool
spds_select w s = not w.rls || is_creator w s.created_by || is_member w s.unit_id || super_admin w

abbrev pub spds_insert : World → SpdRecord → Bool
spds_insert w s = not w.rls || (is_creator w s.created_by && is_member w s.unit_id) || super_admin w

abbrev pub spds_update : World → SpdRecord → Bool
spds_update w s = not w.rls || is_creator w s.created_by || super_admin w

abbrev manages_budgets : World → Bool
manages_budgets w =
    super_admin w
    || str_eq w.setting.user_role "FINANCE"
    || str_eq w.setting.user_role "BUDGET_ADMIN"

abbrev pub budgets_select : World → BudgetRecord → Bool
budgets_select w b = not w.rls || manages_budgets w || is_member w b.unit_id

abbrev pub budgets_insert : World → BudgetRecord → Bool
budgets_insert w b = not w.rls || (manages_budgets w && is_creator w b.created_by)

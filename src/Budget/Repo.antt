-- ===== src/Budget/Repo.antt =====
-- services/budget-service/internal/repo/repo.go: the table budgets.
use mathlib.Core.Option
use esppdv.Base.{
  ℤ, String, Bool, false, not, ◌&&◌, [], ◌∷◌, ◌++◌, Option, none, some, eqb_ℤ, find?, if◌then◌else◌,
}
use esppdv.Text.{Bytes}
use esppdv.Outcome.{failure, Result, ok, err}
use esppdv.Exec.{◌>>=◌, ◌>>◌}
use esppdv.World.{World, Tables}
use esppdv.World.Rows.{Time, BudgetRecord}
use esppdv.World.Sql.{M, query, exec, one_row, nextval, set_rls_context, with_tx}
use esppdv.World.Policies.{budgets_select, budgets_insert}

pub record BudgetRow : Type 0 where
  pub id : ℤ
  pub unit_id : ℤ
  pub amount_enc : Bytes
  pub source_enc : Bytes
  pub description : String
  pub created_by : ℤ
  pub created_at : Time
  pub updated_at : Time

-- A NULL is scanned into a nil slice.
abbrev nil_if_null : Option Bytes → Bytes
nil_if_null none = []
nil_if_null (some b) = b

abbrev pub row_of : BudgetRecord → BudgetRow
row_of b = record {
  id = b.id;
  unit_id = b.unit_id;
  amount_enc = nil_if_null b.amount_enc;
  source_enc = nil_if_null b.source_enc;
  description = b.description;
  created_by = b.created_by;
  created_at = b.created_at;
  updated_at = b.updated_at;
}

-- The values of a new row.
pub record Entry : Type 0 where
  pub unit_id : ℤ
  pub amount_enc : Bytes
  pub source_enc : Bytes
  pub description : String

abbrev pub new_budget : Entry → ℤ → ℤ → Time → BudgetRecord
new_budget e id user_id now = record {
  id = id;
  unit_id = e.unit_id;
  amount_enc = some e.amount_enc;
  source_enc = some e.source_enc;
  description = e.description;
  created_by = user_id;
  created_at = now;
  updated_at = now;
  deleted = false;
}

abbrev pub inserted : BudgetRecord → World → Result (BudgetRow × Tables)
inserted b w =
    if budgets_insert w b
    then ok (row_of b, record (w.tables) { budgets = w.tables.budgets ++ b ∷ [] })
    else err (failure "new row violates row-level security policy for table \"budgets\"")

-- CreateBudget
unfoldable pub create_budget : ℤ → String → Entry → M BudgetRow
create_budget user_id role e = with_tx (do
  set_rls_context user_id role
  id ← nextval "budgets"
  exec (λ w. inserted (new_budget e id user_id w.now) w))

abbrev pub is_shown : ℤ → World → BudgetRecord → Bool
is_shown id w b = eqb_ℤ b.id id && not b.deleted && budgets_select w b

-- GetBudget
unfoldable pub get_budget : ℤ → String → ℤ → M BudgetRow
get_budget user_id role id = with_tx (do
  set_rls_context user_id role
  query (λ w. one_row (Option.map row_of (find? (is_shown id w) w.tables.budgets))))

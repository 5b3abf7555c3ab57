-- ===== src/Budget/Tests.antt =====
-- Runs of the budget service on sample data.
use esppdv.Base.{refl, ◌≡◌, some, pos, [], ◌∷◌, false}
use esppdv.Text.{to_upper}
use esppdv.Outcome.{Result, ok}
use esppdv.World.{World}
use esppdv.World.Rows.{BudgetRecord}
use esppdv.World.Sql.{reach, query, set_rls_context, with_tx, publish}
use esppdv.Exec.{◌>>=◌, or_else, attempt}
use esppdv.Decimal.{parse_int}
use esppdv.Httpx.{require_auth, parse_id_param}
use esppdv.Budget.Repo.{get_budget}
use esppdv.Budget.Handler.{BudgetResponse, get, to_response, can_manage_budget, publish_audit}
use esppdv.Budget.View.{Viewed, get-Viewed}
use esppdv.Sample.Cipher.{toy_gcm}
use esppdv.Sample.Data.{sample_world, sample_locals, start}

abbrev budget : BudgetRecord
budget = record {
  id = pos 5;
  unit_id = pos 3;
  amount_enc = some (1 ∷ 57 ∷ []);
  source_enc = some (2 ∷ 65 ∷ []);
  description = "2025";
  created_by = pos 1;
  created_at = start;
  updated_at = start;
  deleted = false;
}

abbrev budget_world : World
budget_world = record sample_world {
  tables = record (sample_world.tables) { budgets = budget ∷ [] };
}

-- An approver does not manage budgets.
abbrev masked : BudgetResponse
masked = record {
  id = pos 5;
  unit_id = pos 3;
  amount = "***";
  source = "***";
  description = "2025";
  created_by = pos 1;
  created_at = pos 1000000000;
  updated_at = pos 1000000000;
}

abbrev after_view : World
after_view = (get toy_gcm sample_locals "10.0.0.1" "curl" "5" budget_world).1

get_runs :
    ◌≡◌ {A = Result BudgetResponse × World}
      (get toy_gcm sample_locals "10.0.0.1" "curl" "5" budget_world)
      (ok masked, after_view)
unfolding get ◌>>=◌ or_else attempt require_auth parse_id_param parse_int get_budget with_tx reach
    set_rls_context query publish publish_audit to_response can_manage_budget to_upper
get_runs = refl

get-Viewed_example : Viewed toy_gcm sample_locals "5" budget_world after_view masked
get-Viewed_example =
    get-Viewed toy_gcm sample_locals "10.0.0.1" "curl" "5" budget_world after_view masked get_runs

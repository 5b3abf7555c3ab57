-- ===== src/Budget/Handler.antt =====
-- services/budget-service/internal/http/handler.go. Times in replies stand for their RFC 3339 text,
-- which has whole seconds. A body is `none` if BodyParser refuses it; `ip` and `user_agent` are
-- c.IP() and the User-Agent header.
use esppdv.Base.{ℤ, pos, String, Bool, true, false, ◌||◌, Option, str_eq, eqb_ℤ, if◌then◌else◌}
use esppdv.Text.{Bytes, to_upper}
use esppdv.Outcome.{Error, http, no_rows, Result, ok, err}
use esppdv.Exec.{pure, lift, gets, guard, raise_if, or_else, or_raise, attempt, ◌>>=◌, ◌>>◌}
use esppdv.World.{World}
use esppdv.World.Rows.{AuditEvent, audit_log}
use esppdv.World.Sql.{M, publish}
use esppdv.Crypto.{Aead, encrypt_string, decrypt_string}
use esppdv.Totp.{unix}
use esppdv.Httpx.{AuthInfo, Locals, require_auth, parse_id_param}
use esppdv.Budget.Repo.{BudgetRow, Entry, create_budget, get_budget}

pub record CreateRequest : Type 0 where
  pub unit_id : ℤ
  pub amount : String
  pub source : String
  pub description : String

pub record BudgetResponse : Type 0 where
  pub id : ℤ
  pub unit_id : ℤ
  pub amount : String
  pub source : String
  pub description : String
  pub created_by : ℤ
  pub created_at : ℤ
  pub updated_at : ℤ

abbrev pub no_budget : Error → Error
no_budget no_rows = http 404 "not found"
no_budget e = e

-- canManageBudget
unfoldable pub can_manage_budget : String → Bool
can_manage_budget role =
    let r = to_upper role in str_eq r "SUPER_ADMIN" || str_eq r "BUDGET_ADMIN" || str_eq r "FINANCE"

-- canViewBudgetAmounts
abbrev pub can_view_budget_amounts : String → Bool
can_view_budget_amounts role = can_manage_budget role

abbrev pub response_of : BudgetRow → String → String → BudgetResponse
response_of r amount source = record {
  id = r.id;
  unit_id = r.unit_id;
  amount = amount;
  source = source;
  description = r.description;
  created_by = r.created_by;
  created_at = unix r.created_at;
  updated_at = unix r.updated_at;
}

abbrev pub response_with : BudgetRow → Result String → Result String → Result BudgetResponse
response_with r (err e) _ = err e
response_with r (ok amount) (err e) = err e
response_with r (ok amount) (ok source) = ok (response_of r amount source)

abbrev pub audit_event : String → ℤ → AuthInfo → String → String → World → AuditEvent
audit_event action resource_id a ip user_agent w = record {
  action = action;
  resource_type = "budget";
  resource_id = resource_id;
  user_id = a.user_id;
  role = a.role;
  ip_address = ip;
  user_agent = user_agent;
  timestamp = w.now;
}

abbrev pub announce : Bool → AuditEvent → M (Unit {0})
announce false evt = pure tt
announce true evt = attempt (publish (audit_log evt)) >> pure tt

-- publishAudit, for the resource type "budget"; an error of Publish is dropped.
unfoldable pub publish_audit : String → ℤ → AuthInfo → String → String → M (Unit {0})
publish_audit action resource_id a ip user_agent = do
  connected ← gets (λ w. w.nc)
  evt ← gets (audit_event action resource_id a ip user_agent)
  announce connected evt

abbrev pub entry_of : CreateRequest → Bytes → Bytes → Entry
entry_of req amount_enc source_enc = record {
  unit_id = req.unit_id;
  amount_enc = amount_enc;
  source_enc = source_enc;
  description = req.description;
}

module _ (gcm : Aead) where
  -- toResponse
  unfoldable pub to_response : BudgetRow → String → Result BudgetResponse
  to_response r role =
      if can_view_budget_amounts role
      then response_with r (decrypt_string gcm r.amount_enc "budgets:amount")
          (decrypt_string gcm r.source_enc "budgets:source")
      else ok (response_of r "***" "***")

  unfoldable pub create : Locals → String → String → Option CreateRequest → M BudgetResponse
  create locals ip user_agent body = do
    req ← or_raise body (http 400 "invalid json")
    raise_if (eqb_ℤ req.unit_id (pos 0)) (http 400 "unit_id required")
    a ← require_auth locals
    guard (can_manage_budget a.role) (http 403 "forbidden")
    amount_enc ← encrypt_string gcm req.amount "budgets:amount"
    source_enc ← encrypt_string gcm req.source "budgets:source"
    row ← create_budget a.user_id a.role (entry_of req amount_enc source_enc)
    publish_audit "CREATE_BUDGET" row.id a ip user_agent
    lift (to_response row a.role)

  unfoldable pub get : Locals → String → String → String → M BudgetResponse
  get locals ip user_agent id_str = do
    id ← parse_id_param id_str
    a ← require_auth locals
    row ← or_else (get_budget a.user_id a.role id) no_budget
    publish_audit "VIEW_BUDGET" row.id a ip user_agent
    lift (to_response row a.role)

-- ===== src/Audit/Handler.antt =====
-- services/audit-service/internal/http/handler.go. `rfc3339` is time.Parse for that layout.
use esppdv.Base.{ℤ, pos, String, Bool, ◌||◌, List, Option, none, some, str_eq, eqb_ℤ, if◌then◌else◌}
use esppdv.Outcome.{http}
use esppdv.Exec.{pure, guard, attempt, ◌>>=◌, ◌>>◌}
use esppdv.Decimal.{parse_int}
use esppdv.Paging.{parse_int_or, clamp_int}
use esppdv.World.Rows.{Time, AuditRow, AuditEvent}
use esppdv.World.Sql.{M}
use esppdv.Httpx.{Locals, require_auth}
use esppdv.Audit.Repo.{InsertInput, insert}
use esppdv.Audit.Query.{QueryInput, query_logs}

-- `if evt.ResourceID != 0 { rid = &evt.ResourceID }`
abbrev pub resource_of : ℤ → Option ℤ
resource_of id = if eqb_ℤ id (pos 0) then none else some id

abbrev pub input_of : AuditEvent → InsertInput
input_of evt = record {
  action = evt.action;
  resource_type = evt.resource_type;
  resource_id = resource_of evt.resource_id;
  user_id = evt.user_id;
  role = evt.role;
  ip_address = some evt.ip_address;
  user_agent = some evt.user_agent;
  metadata = evt;
  timestamp = evt.timestamp;
}

-- The consumer of "audit.log", for the event, or `none` if the JSON is invalid.
unfoldable pub on_audit_log : (String → Option String) → Option AuditEvent → M (Unit {0})
on_audit_log inet none = pure tt
on_audit_log inet (some evt) = attempt (insert inet (pos 0) "SYSTEM" (input_of evt)) >> pure tt

-- canReadAudit
unfoldable pub can_read_audit : String → Bool
can_read_audit role = str_eq role "SUPER_ADMIN" || str_eq role "AUDITOR"

-- The query parameters, "" where one is missing.
pub record LogParams : Type 0 where
  pub limit : String
  pub offset : String
  pub user_id : String
  pub since : String
  pub until : String
  pub action : String
  pub resource_type : String

pub record LogPage : Type 0 where
  pub items : List AuditRow
  pub limit : ℤ
  pub offset : ℤ

-- `if s != "" { if v, err := parse(s); err == nil { … } }`
abbrev pub optional {ℓ} : {A : Type ℓ} → (String → Option A) → String → Option A
optional parse s = if str_eq s "" then none else parse s

abbrev pub limit_of : LogParams → ℤ
limit_of p = clamp_int (parse_int_or p.limit (pos 100)) (pos 1) (pos 500)

abbrev pub offset_of : LogParams → ℤ
offset_of p = clamp_int (parse_int_or p.offset (pos 0)) (pos 0) (pos 100000)

abbrev pub query_of : (String → Option Time) → LogParams → QueryInput
query_of rfc3339 p = record {
  action = p.action;
  resource = p.resource_type;
  user_id = optional parse_int p.user_id;
  since = optional rfc3339 p.since;
  until = optional rfc3339 p.until;
  limit = limit_of p;
  offset = offset_of p;
}

-- QueryLogs
unfoldable pub handle_query_logs :
    (String → String) → (String → Option Time) → Locals → LogParams → M LogPage
handle_query_logs inet_text rfc3339 locals p = do
  a ← require_auth locals
  guard (can_read_audit a.role) (http 403 "forbidden")
  items ← query_logs inet_text a.user_id a.role (query_of rfc3339 p)
  pure (record { items = items; limit = limit_of p; offset = offset_of p })

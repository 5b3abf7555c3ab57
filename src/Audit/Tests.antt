-- ===== src/Audit/Tests.antt =====
-- Runs of the audit service on sample data.
use esppdv.Base.{
  arith, refl, ◌≡◌, ◌∷◌, [], some, none, Option, String, pos, str_eq, if◌then◌else◌, List,
}
use esppdv.Outcome.{Result, ok}
use esppdv.Exec.{◌>>=◌, or_else, attempt}
use esppdv.Decimal.{parse_int}
use esppdv.Text.{hex_digit, varchar, exceeds}
use esppdv.Paging.{parse_int_or, clamp_int}
use esppdv.World.{World}
use esppdv.World.Rows.{Time, AuditRow, AuditEvent}
use esppdv.World.Sql.{reach, query, exec, nextval, set_rls_context, with_tx}
use esppdv.Httpx.{Locals, require_auth}
use esppdv.Audit.Itoa.{itoa, itoa_from, itoa_lem, text_of}
use esppdv.Audit.Repo.{entry, insert}
use esppdv.Audit.Query.{QueryInput, Statement, statement, run_statement, query_logs}
use esppdv.Audit.Handler.{
  input_of, LogParams, LogPage, can_read_audit, handle_query_logs, on_audit_log,
}
use esppdv.Audit.Select.{log_page, statement_lem}
use esppdv.Audit.View.{Listed, query_logs-Listed, recorded, on_audit_log-recorded}
use esppdv.Sample.Data.{sample_world, sample_locals, start}
use esppdv.Httpx.{text}

abbrev toy_inet : String → Option String
toy_inet s = if str_eq s "" then none else some s

abbrev toy_time : String → Option Time
toy_time s = none

abbrev viewed : AuditEvent
viewed = record {
  action = "VIEW";
  resource_type = "BUDGET";
  resource_id = pos 9;
  user_id = pos 7;
  role = "FINANCE";
  ip_address = "10.0.0.1";
  user_agent = "curl";
  timestamp = start;
}

abbrev logged : World
logged = (on_audit_log toy_inet (some viewed) sample_world).1

abbrev auditor : Locals
auditor = record sample_locals { user_role = text "AUDITOR" }

abbrev views : LogParams
views = record {
  limit = "10";
  offset = "";
  user_id = "7";
  since = "";
  until = "";
  action = "VIEW";
  resource_type = "";
}

abbrev asked : Result LogPage × World
asked = handle_query_logs (λ s. s) toy_time auditor views logged

abbrev one_entry : LogPage
one_entry = record {
  items = entry (pos 42) (input_of viewed) (some "10.0.0.1") ∷ [];
  limit = pos 10;
  offset = pos 0;
}

query_logs_runs :
    ◌≡◌ {A = Result LogPage × World}
      (handle_query_logs (λ s. s) toy_time auditor views logged)
      (ok one_entry, asked.1)
unfolding on_audit_log insert attempt nextval exec handle_query_logs ◌>>=◌ or_else require_auth
    can_read_audit parse_int_or parse_int clamp_int query_logs with_tx reach set_rls_context query
    itoa itoa_from hex_digit varchar exceeds
query_logs_runs = refl

query_logs-Listed_example : Listed (λ s. s) toy_time auditor views logged asked.1 one_entry
query_logs-Listed_example =
    query_logs-Listed (λ s. s) toy_time auditor views logged asked.1 one_entry query_logs_runs

abbrev of_user : QueryInput
of_user = record {
  action = "";
  user_id = some (pos 7);
  since = none;
  until = some start;
  limit = pos 5;
  offset = pos 0;
  resource = "BUDGET";
}

statement_lem_example :
    (s : Statement) × (statement of_user ≡ ok s)
    × ((rows : List AuditRow) → run_statement (λ t. t) s rows ≡ ok (log_page (λ t. t) of_user rows))
statement_lem_example = statement_lem (λ t. t) of_user (omega arith) (omega arith)

itoa_lem_example : itoa (pos 120) ≡ some (text_of (pos 120))
itoa_lem_example = itoa_lem (pos 120) refl

on_audit_log-recorded_example :
    (on_audit_log toy_inet (some viewed) sample_world).1.tables
    ≡ recorded viewed sample_world (toy_inet "10.0.0.1")
on_audit_log-recorded_example = on_audit_log-recorded toy_inet viewed sample_world refl

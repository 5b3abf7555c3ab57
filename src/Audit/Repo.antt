-- ===== src/Audit/Repo.antt =====
-- Insert of services/audit-service/internal/repo/repo.go. `inet` is the input function of
-- PostgreSQL's INET, `none` for a text that it refuses.
use esppdv.Text.{varchar, exceeds}
use esppdv.Base.{ℤ, String, ◌||◌, [], ◌∷◌, ◌++◌, Option, none, some, if◌then◌else◌}
use esppdv.Outcome.{failure, Result, ok, err}
use esppdv.Exec.{◌>>=◌, ◌>>◌}
use esppdv.World.{Tables}
use esppdv.World.Rows.{Time, AuditRow, AuditEvent}
use esppdv.World.Sql.{M, exec, nextval, set_rls_context, with_tx}

pub record InsertInput : Type 0 where
  pub action : String
  pub resource_type : String
  pub resource_id : Option ℤ
  pub user_id : ℤ
  pub role : String
  pub ip_address : Option String
  pub user_agent : Option String
  pub metadata : AuditEvent
  pub timestamp : Time

-- The action and the resource type are VARCHAR(50). The timestamp is a value, never NULL, so that COALESCE($9, NOW()) takes it as it is.
abbrev pub entry : ℤ → InsertInput → Option String → AuditRow
entry id inp ip = record {
  id = id;
  action = varchar 50 inp.action;
  resource_type = varchar 50 inp.resource_type;
  resource_id = inp.resource_id;
  user_id = inp.user_id;
  role = inp.role;
  ip_address = ip;
  user_agent = inp.user_agent;
  metadata = inp.metadata;
  timestamp = inp.timestamp;
}

abbrev pub with_entry : AuditRow → Tables → Tables
with_entry a t = record t { audit_logs = t.audit_logs ++ a ∷ [] }

abbrev pub stored : ℤ → InsertInput → Tables → Result (Option String) → Result (Unit {0} × Tables)
stored id inp t (err e) = err e
stored id inp t (ok ip) =
    if exceeds 50 inp.action || exceeds 50 inp.resource_type
    then err (failure "value too long for type character varying(50)")
    else ok (tt, with_entry (entry id inp ip) t)

module _ (inet : String → Option String) where
  abbrev address_of : Option String → Result (Option String)
  address_of none = err (failure "invalid input syntax for type inet")
  address_of (some ip) = ok (some ip)

  abbrev pub address : Option String → Result (Option String)
  address none = ok none
  address (some s) = address_of (inet s)

  -- Insert
  unfoldable pub insert : ℤ → String → InsertInput → M (Unit {0})
  insert user_id role inp = with_tx (do
    set_rls_context user_id role
    id ← nextval "audit_logs"
    exec (λ w. stored id inp w.tables (address inp.ip_address)))

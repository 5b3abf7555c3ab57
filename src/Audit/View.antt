-- ===== src/Audit/View.antt =====
-- What a QueryLogs has checked and returned, and what the consumer of "audit.log" leaves.
use esppdv.Base.{
  eqb_ℤ, leb_ℤ, Bool, ◌&&◌, map, filter, ℤ, pos, ◌≤ℤ◌, String, true, ◌||◌, List, [], Option, none,
  some, ◌≡◌, inl, inr, refl, ap, sym, ◌∙◌, arith, Bool-cases, Option-cases, suc, if◌then◌else◌,
}
use esppdv.Text.{varchar, exceeds}
use esppdv.Outcome.{ok}
use esppdv.Exec.{attempt, or_else, ◌>>=◌}
use esppdv.Paging.{clamp_int-bounds, page, order_by}
use esppdv.World.{World, Tables}
use esppdv.World.Rows.{Time, AuditRow, AuditEvent}
use esppdv.World.Sql.{with_tx, set_rls_context, nextval, exec, reach}
use esppdv.World.Quiet.{Quiet, quiet_rules, lasting-tables}
use esppdv.World.Inversion.{pure-ok, lift-elim, guard-elim, raise_if-elim, quiet-elim, query-ok}
use esppdv.World.Tx.{tx-elim}
use esppdv.Httpx.{AuthInfo, Locals, auth_from_locals}
use esppdv.Httpx.Guards.{auth-elim}
use esppdv.Audit.Repo.{with_entry, insert}
use esppdv.Audit.Query.{QueryInput, query_logs, later, shown}
use esppdv.Audit.Filter.{unless_empty, if_some}
use esppdv.Decimal.{parse_int}
use esppdv.Audit.Handler.{
  on_audit_log, can_read_audit, LogParams, LogPage, query_of, handle_query_logs, limit_of,
  offset_of, optional,
}
use esppdv.Audit.Select.{log_page, statement_lem}

Quiet-query_logs :
    (inet_text : String → String) (user_id : ℤ) (role : String) (q : QueryInput)
    → Quiet (query_logs inet_text user_id role q)
unfolding query_logs
Quiet-query_logs inet_text user_id role q = search quiet_rules depth 10

query_logs-page :
    (inet_text : String → String) (user_id : ℤ) (role : String) (q : QueryInput) (w w' : World)
    (items : List AuditRow)
    → pos 0 ≤ℤ q.limit
    → pos 0 ≤ℤ q.offset
    → query_logs inet_text user_id role q w ≡ (ok items, w')
    → items ≡ log_page inet_text q w.tables.audit_logs
unfolding query_logs
query_logs-page inet_text user_id role q w w' items from_0 skip_0 k = raise_if-elim _ _ _ _ k λ _ k.
    tx-elim user_id role _ w k λ s v i ran _. lift-elim _ _ _ ran λ st made ran.
      let (st', made', selects) = statement_lem inet_text q from_0 skip_0 in
      let found = query-ok _ s ran in
      let same : st ≡ st' = cc (made, made') in
      let rows : items ≡ log_page inet_text q s.tables.audit_logs =
        cc (rw same at found, selects s.tables.audit_logs) in
      rows ∙ ap (λ (t : Tables). log_page inet_text q t.audit_logs) i.tables

-- The entries that the parameters ask for: those with the action and the resource type, where these
-- are not empty, of the user, not before `since` and not after `until`, where these can be read.
abbrev pub is_wanted : (String → Option Time) → LogParams → AuditRow → Bool
is_wanted rfc3339 p r =
    (((unless_empty p.action r.action && unless_empty p.resource_type r.resource_type)
        && if_some (λ i. eqb_ℤ r.user_id i) (optional parse_int p.user_id))
      && if_some (λ t. leb_ℤ t r.timestamp) (optional rfc3339 p.since))
    && if_some (λ t. leb_ℤ r.timestamp t) (optional rfc3339 p.until)

limit_bounds : (p : LogParams) → (pos 1 ≤ℤ limit_of p) × (limit_of p ≤ℤ pos 500)
limit_bounds p = clamp_int-bounds _ (pos 1) (pos 500) (omega arith)

offset_bounds : (p : LogParams) → (pos 0 ≤ℤ offset_of p) × (offset_of p ≤ℤ pos 100000)
offset_bounds p = clamp_int-bounds _ (pos 0) (pos 100000) (omega arith)

-- What a QueryLogs has checked and returned.
pub record Listed (inet_text : String → String) (rfc3339 : String → Option Time) (locals : Locals)
    (p : LogParams) (w w' : World) (reply : LogPage) : Type 0 where
  pub auth : AuthInfo
  pub logged_in : auth_from_locals locals ≡ some auth
  pub entitled : can_read_audit auth.role ≡ true
  pub items :
      reply.items
      ≡ map (shown inet_text) (
          page reply.limit reply.offset
            (order_by later (filter (is_wanted rfc3339 p) w.tables.audit_logs)))
  pub limit : (pos 1 ≤ℤ reply.limit) × (reply.limit ≤ℤ pos 500)
  pub offset : (pos 0 ≤ℤ reply.offset) × (reply.offset ≤ℤ pos 100000)
  pub tables : w'.tables ≡ w.tables

-- A QueryLogs that replies was called by a logged-in user with the role SUPER_ADMIN or AUDITOR; it
-- has changed no table; its items are the page, at the limit and the offset that it returns, which
-- are from 1 to 500 and from 0 to 100000, of the entries with the action, the resource type, the
-- user and the range of time of the parameters, the newest first.
pub query_logs-Listed :
    (inet_text : String → String) (rfc3339 : String → Option Time) (locals : Locals) (p : LogParams)
    (w w' : World) (reply : LogPage)
    → handle_query_logs inet_text rfc3339 locals p w ≡ (ok reply, w')
    → Listed inet_text rfc3339 locals p w w' reply
unfolding handle_query_logs
query_logs-Listed inet_text rfc3339 locals p w w' reply k = auth-elim _ _ _ k λ a logged_in k.
    guard-elim _ _ _ _ k λ entitled k.
      quiet-elim _ _ _ (Quiet-query_logs inet_text _ _ _) k λ items w1 run same k.
        let (e, ended) = pure-ok _ w1 k in
        record {
          auth = a;
          logged_in = logged_in;
          entitled = entitled;
          items = rw (← e) (
              query_logs-page inet_text a.user_id a.role (query_of rfc3339 p) w w1 items
                (omega (arith, limit_bounds p)) (omega (arith, offset_bounds p)) run);
          limit = rw (← e) (limit_bounds p);
          offset = rw (← e) (offset_bounds p);
          tables = ap (λ (v : World). v.tables) (sym ended) ∙ lasting-tables w w1 same;
        }

-- The row of an event: a resource id of 0 is NULL, and the event itself is the metadata.
abbrev pub row_of : AuditEvent → ℤ → String → AuditRow
row_of evt id ip = record {
  id = id;
  action = varchar 50 evt.action;
  resource_type = varchar 50 evt.resource_type;
  resource_id = if eqb_ℤ evt.resource_id (pos 0) then none else some evt.resource_id;
  user_id = evt.user_id;
  role = evt.role;
  ip_address = some ip;
  user_agent = some evt.user_agent;
  metadata = evt;
  timestamp = evt.timestamp;
}

-- The tables with the entry of an event, by what INET makes of its address.
abbrev pub recorded : AuditEvent → World → Option String → Tables
recorded evt w none = w.tables
recorded evt w (some ip) =
    if exceeds 50 evt.action || exceeds 50 evt.resource_type
    then w.tables
    else with_entry (row_of evt (pos (suc (w.serial "audit_logs"))) ip) w.tables

-- While no outside service fails, the consumer of "audit.log" adds the entry of the event, with the
-- next id and the action, resource, user, role, address, agent and time of the event; but an event
-- whose address INET refuses, or whose action or resource type has a character other than a space
-- behind the 50th, leaves no trace.
pub on_audit_log-recorded :
    (inet : String → Option String) (evt : AuditEvent) (w : World)
    → w.faults ≡ []
    → (on_audit_log inet (some evt) w).1.tables ≡ recorded evt w (inet evt.ip_address)
unfolding on_audit_log insert ◌>>=◌ attempt with_tx set_rls_context nextval exec reach or_else
on_audit_log-recorded inet evt w calm = elim (Option-cases (inet evt.ip_address)) [
  | inl e ↦ rw (calm, e) refl
  | inr (ip, e) ↦ elim (Bool-cases (exceeds 50 evt.action || exceeds 50 evt.resource_type)) [
    | inl long ↦ rw (calm, e, long) refl
    | inr short ↦ rw (calm, e, short) refl
  ]
]

-- ===== src/Approval/Repo.antt =====
-- services/approval-service/internal/repo/repo.go: the table approvals, and the status of an SPD.
use esppdv.Base.{
  ℤ, String, Bool, true, not, ◌&&◌, List, [], ◌∷◌, ◌++◌, Option, none, some, str_eq, eqb_ℤ, ltb_ℤ,
  find?, any, filter, update, if◌then◌else◌,
}
use esppdv.Outcome.{failure, no_rows, Result, ok, err}
use esppdv.Exec.{pure, ◌>>=◌, ◌>>◌}
use esppdv.Paging.{order_by, page}
use esppdv.World.{World, Tables}
use esppdv.World.Rows.{Time, SpdRecord, ApprovalRow}
use esppdv.World.Sql.{M, query, exec, nextval, set_rls_context, with_tx}
use esppdv.World.Policies.{spds_update}

abbrev pub pending : ℤ → ℤ → ℤ → Time → ApprovalRow
pending id spd_id step now = record {
  id = id;
  spd_id = spd_id;
  step = step;
  approver_id = none;
  status = "PENDING";
  comment = none;
  decided_by = none;
  decided_at = none;
  created_at = now;
  updated_at = now;
}

abbrev pub has_spd_id : ℤ → SpdRecord → Bool
has_spd_id id s = eqb_ℤ s.id id

-- `spd_id` refers to a row of spds. The only unique key of approvals is its BIGSERIAL id, so that
-- ON CONFLICT DO NOTHING has no conflict to find.
abbrev pub opened_for : ApprovalRow → Tables → Result (Unit {0} × Tables)
opened_for a t =
    if any (has_spd_id a.spd_id) t.spds
    then ok (tt, record t { approvals = t.approvals ++ a ∷ [] })
    else err (failure "insert on table \"approvals\" violates foreign key constraint")

-- CreatePendingApproval
unfoldable pub create_pending_approval : ℤ → ℤ → M (Unit {0})
create_pending_approval spd_id step = do
  id ← nextval "approvals"
  exec (λ w. opened_for (pending id spd_id step w.now) w.tables)

abbrev pub may_decide : ℤ → Option ℤ → Bool
may_decide user_id none = true
may_decide user_id (some approver_id) = eqb_ℤ approver_id user_id

abbrev pub is_open : ℤ → ℤ → ApprovalRow → Bool
is_open user_id spd_id a =
    eqb_ℤ a.spd_id spd_id && str_eq a.status "PENDING" && may_decide user_id a.approver_id

abbrev pub decided : String → Option String → ℤ → Time → ApprovalRow → ApprovalRow
decided status comment user_id now a = record a {
  status = status;
  comment = comment;
  decided_by = some user_id;
  decided_at = some now;
  updated_at = now;
}

-- The first UPDATE decides every open row of the SPD; the first of them is scanned.
abbrev pub decide_rows :
    String → Option String → ℤ → ℤ → World → Option ApprovalRow → Result (ApprovalRow × Tables)
decide_rows status comment user_id spd_id w none = err no_rows
decide_rows status comment user_id spd_id w (some a) = ok (
  decided status comment user_id w.now a,
  record (w.tables) {
    approvals =
        update (is_open user_id spd_id) (decided status comment user_id w.now) w.tables.approvals;
  },
)

abbrev pub is_reached : ℤ → World → SpdRecord → Bool
is_reached id w s = eqb_ℤ s.id id && not s.deleted && spds_update w s

abbrev pub with_status : String → Time → SpdRecord → SpdRecord
with_status status now s = record s { status = status; updated_at = now }

-- The second UPDATE: the policy hides the rows that the user may not update.
abbrev pub set_status : String → ℤ → World → Tables
set_status status spd_id w = record (w.tables) {
  spds = update (is_reached spd_id w) (with_status status w.now) w.tables.spds;
}

-- The transaction that Approve and Reject each write out.
abbrev pub decide_tx : String → ℤ → String → ℤ → Option String → M ApprovalRow
decide_tx status user_id role spd_id comment = with_tx (do
  set_rls_context user_id role
  a ← exec (λ w.
      decide_rows status comment user_id spd_id w
        (find? (is_open user_id spd_id) w.tables.approvals))
  exec (λ w. ok (tt, set_status status spd_id w))
  pure a)

-- Approve
unfoldable pub approve : ℤ → String → ℤ → Option String → M ApprovalRow
approve user_id role spd_id comment = decide_tx "APPROVED" user_id role spd_id comment

-- Reject
unfoldable pub reject : ℤ → String → ℤ → Option String → M ApprovalRow
reject user_id role spd_id comment = decide_tx "REJECTED" user_id role spd_id comment

abbrev is_pending : ℤ → ApprovalRow → Bool
is_pending user_id a = str_eq a.status "PENDING" && may_decide user_id a.approver_id

abbrev older : ApprovalRow → ApprovalRow → Bool
older a b = ltb_ℤ a.created_at b.created_at

-- ListPending
unfoldable pub list_pending : ℤ → String → ℤ → ℤ → M (List ApprovalRow)
list_pending user_id role limit offset = with_tx (do
  set_rls_context user_id role
  query (λ w.
      ok (page limit offset (order_by older (filter (is_pending user_id) w.tables.approvals)))))

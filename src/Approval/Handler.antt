-- ===== src/Approval/Handler.antt =====
-- services/approval-service/internal/http/handler.go. A comment is `none` if the body has none or
-- BodyParser refuses it.
use esppdv.Base.{ℤ, pos, String, Bool, ◌||◌, List, Option, none, some, str_eq, eqb_ℤ, if◌then◌else◌}
use esppdv.Outcome.{Error, http, no_rows}
use esppdv.Exec.{pure, guard, or_else, attempt, ◌>>=◌, ◌>>◌}
use esppdv.Paging.{parse_int_or, clamp_int}
use esppdv.World.Rows.{ApprovalRow}
use esppdv.World.Sql.{M}
use esppdv.Httpx.{Locals, require_auth, parse_id_param}
use esppdv.Approval.Repo.{create_pending_approval, approve, reject, list_pending}

-- canApprove
unfoldable pub can_approve : String → Bool
can_approve role =
    str_eq role "SUPER_ADMIN"
    || str_eq role "APPROVER"
    || str_eq role "FINANCE"
    || str_eq role "BUDGET_ADMIN"

abbrev pub no_pending : Error → Error
no_pending no_rows = http 400 "no pending approval"
no_pending e = e

abbrev pub forbidden : Error
forbidden = http 403 "forbidden"

-- Approve
unfoldable pub handle_approve : Locals → String → Option String → M ApprovalRow
handle_approve locals spd_id_str comment = do
  spd_id ← parse_id_param spd_id_str
  a ← require_auth locals
  guard (can_approve a.role) forbidden
  or_else (approve a.user_id a.role spd_id comment) no_pending

-- Reject
unfoldable pub handle_reject : Locals → String → Option String → M ApprovalRow
handle_reject locals spd_id_str comment = do
  spd_id ← parse_id_param spd_id_str
  a ← require_auth locals
  guard (can_approve a.role) forbidden
  or_else (reject a.user_id a.role spd_id comment) no_pending

pub record ApprovalPage : Type 0 where
  pub items : List ApprovalRow
  pub limit : ℤ
  pub offset : ℤ

-- ListPending
unfoldable pub handle_list_pending : Locals → String → String → M ApprovalPage
handle_list_pending locals limit_str offset_str = do
  limit ← pure (clamp_int (parse_int_or limit_str (pos 50)) (pos 1) (pos 200))
  offset ← pure (clamp_int (parse_int_or offset_str (pos 0)) (pos 0) (pos 10000))
  a ← require_auth locals
  items ← list_pending a.user_id a.role limit offset
  pure (record { items = items; limit = limit; offset = offset })

-- The consumer of "spd.submitted", for the event's spd_id, or `none` if the JSON is invalid.
unfoldable pub on_spd_submitted : Option ℤ → M (Unit {0})
on_spd_submitted none = pure tt
on_spd_submitted (some spd_id) =
    if eqb_ℤ spd_id (pos 0)
    then pure tt
    else attempt (create_pending_approval spd_id (pos 1)) >> pure tt

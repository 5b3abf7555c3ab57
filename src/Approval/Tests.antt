-- ===== src/Approval/Tests.antt =====
-- Runs of the approval service on sample data.
use esppdv.Base.{refl, ◌≡◌, some, none, String, pos, [], ◌∷◌, inl}
use esppdv.Outcome.{Result, ok}
use esppdv.World.{World}
use esppdv.World.Rows.{ApprovalRow}
use esppdv.World.Sql.{reach, exec, set_rls_context, with_tx}
use esppdv.Exec.{◌>>=◌, or_else}
use esppdv.Decimal.{parse_int}
use esppdv.Httpx.{require_auth, parse_id_param}
use esppdv.Approval.Repo.{pending, decided, approve, reject}
use esppdv.Approval.Handler.{handle_approve, handle_reject, can_approve}
use esppdv.Approval.Decide.{Handled, approve-Handled, reject-Handled, decide_once}
use esppdv.Sample.Data.{sample_world, sample_locals, start}

abbrev open_request : ApprovalRow
open_request = pending (pos 50) (pos 42) (pos 1) start

abbrev open_world : World
open_world = record sample_world {
  tables = record (sample_world.tables) { approvals = open_request ∷ [] };
}

abbrev decision : String → ApprovalRow
decision status = decided status (some "baik") (pos 7) start open_request

abbrev after_approve : World
after_approve = (handle_approve sample_locals "42" (some "baik") open_world).1

approve_runs :
    ◌≡◌ {A = Result ApprovalRow × World}
      (handle_approve sample_locals "42" (some "baik") open_world)
      (ok (decision "APPROVED"), after_approve)
unfolding handle_approve ◌>>=◌ or_else require_auth parse_id_param parse_int can_approve approve
    with_tx reach set_rls_context exec
approve_runs = refl

approve-Handled_example :
    Handled "APPROVED" sample_locals "42"
      (some "baik")
      open_world
      after_approve
      (decision "APPROVED")
approve-Handled_example =
    approve-Handled sample_locals "42" (some "baik") open_world after_approve (decision "APPROVED")
      approve_runs

abbrev after_reject : World
after_reject = (handle_reject sample_locals "42" (some "baik") open_world).1

reject_runs :
    ◌≡◌ {A = Result ApprovalRow × World}
      (handle_reject sample_locals "42" (some "baik") open_world)
      (ok (decision "REJECTED"), after_reject)
unfolding handle_reject ◌>>=◌ or_else require_auth parse_id_param parse_int can_approve reject
    with_tx reach set_rls_context exec
reject_runs = refl

reject-Handled_example :
    Handled "REJECTED" sample_locals "42"
      (some "baik")
      open_world
      after_reject
      (decision "REJECTED")
reject-Handled_example =
    reject-Handled sample_locals "42" (some "baik") open_world after_reject (decision "REJECTED")
      reject_runs

abbrev after_decision : World
after_decision = (approve (pos 7) "APPROVER" (pos 42) (some "baik") open_world).1

decision_runs :
    ◌≡◌ {A = Result ApprovalRow × World}
      (approve (pos 7) "APPROVER" (pos 42) (some "baik") open_world)
      (ok (decision "APPROVED"), after_decision)
unfolding ◌>>=◌ approve with_tx reach set_rls_context exec or_else
decision_runs = refl

decide_once_example :
    (¬ (
      approve (pos 7) "APPROVER" (pos 42) none after_decision
      ≡ (ok (decision "APPROVED"), open_world)))
    × (¬ (
        reject (pos 7) "APPROVER" (pos 42) none after_decision
        ≡ (ok (decision "APPROVED"), open_world)))
decide_once_example =
    decide_once (pos 7) (pos 42) "APPROVER" "APPROVER" (some "baik") none open_world after_decision
      after_decision open_world (decision "APPROVED") (decision "APPROVED") (inl decision_runs) refl

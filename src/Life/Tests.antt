-- ===== src/Life/Tests.antt =====
-- One SPD through its life, on sample data.
use esppdv.Base.{false, refl, ◌≡◌, some, none, Option, String, pos, [], ◌∷◌}
use esppdv.World.{World}
use esppdv.World.Sql.{reach, exec, rand_read, nextval, set_rls_context, with_tx, publish}
use esppdv.Text.{exceeds}
use esppdv.Exec.{◌>>=◌, or_else, attempt}
use esppdv.Decimal.{parse_int}
use esppdv.Crypto.{encrypt_string, decrypt_string}
use esppdv.Httpx.{AuthInfo, auth_from_locals, require_auth, parse_id_param}
use esppdv.Spd.Repo.{row_of, submitted, create_spd, submit_spd}
use esppdv.Spd.Handler.{SpdResponse, response_of, create, submit, to_response}
use esppdv.Approval.Repo.{pending, decided, create_pending_approval, approve}
use esppdv.Approval.Handler.{on_spd_submitted, handle_approve, can_approve}
use esppdv.Life.Step.{Reachable, start, next, creates, submits, delivers, approves, Step}
use esppdv.Life.Sound.{Sound}
use esppdv.Life.Flow.{status_of, Moves, step-Moves}
use esppdv.Spd.Handler.{CreateRequest}
use esppdv.Sample.Cipher.{toy_gcm}
use esppdv.Sample.Data.{sample_world, sample_locals, start as start_time}
use esppdv.Outcome.{ok}
use esppdv.World.Rows.{SpdRecord, ApprovalRow}
use esppdv.Life.Answers.{submit_answers, approve_answers}

abbrev trip : CreateRequest
trip = record {
  nomor_surat = "001/SPD";
  employee_id = none;
  unit_id = pos 3;
  purpose = "rapat";
  total_cost = "1500000";
}

abbrev created : World
created = (create toy_gcm sample_locals (some trip) sample_world).1

abbrev sent : World
sent = (submit toy_gcm sample_locals "42" created).1

abbrev delivered : World
delivered = (on_spd_submitted (some (pos 42)) sent).1

abbrev approved : World
approved = (handle_approve sample_locals "42" none delivered).1

sent-Reachable : Reachable toy_gcm sent
sent-Reachable =
    next created sent
      (next sample_world created (start sample_world refl refl refl)
        (creates sample_locals (some trip) refl))
      (submits sample_locals "42" refl)

delivery : Step toy_gcm sent delivered
unfolding create submit ◌>>=◌ or_else require_auth parse_id_param parse_int encrypt_string rand_read
    create_spd submit_spd with_tx reach set_rls_context nextval exec attempt publish to_response
    decrypt_string exceeds
delivery = delivers (pos 42) refl refl

delivered-Reachable : Reachable toy_gcm delivered
delivered-Reachable = next sent delivered sent-Reachable delivery

approval : Step toy_gcm delivered approved
approval = approves sample_locals "42" none refl

status_of-approved :
    ◌≡◌ {A = Option String × Option String}
      (status_of (pos 42) delivered, status_of (pos 42) approved)
      (some "SUBMITTED", some "APPROVED")
unfolding create submit ◌>>=◌ or_else require_auth parse_id_param parse_int encrypt_string rand_read
    create_spd submit_spd with_tx reach set_rls_context nextval exec attempt publish to_response
    decrypt_string on_spd_submitted create_pending_approval handle_approve approve can_approve
    exceeds
status_of-approved = refl

step-Moves_example : Moves (status_of (pos 42) delivered) (status_of (pos 42) approved)
step-Moves_example = step-Moves toy_gcm delivered approved (pos 42) delivered-Reachable approval

abbrev draft : SpdRecord
draft = record {
  id = pos 42;
  nomor_surat = "001/SPD";
  employee_id = none;
  unit_id = pos 3;
  purpose_enc = some (1 ∷ 114 ∷ 97 ∷ 112 ∷ 97 ∷ 116 ∷ []);
  total_cost_enc = some (2 ∷ 49 ∷ 53 ∷ 48 ∷ 48 ∷ 48 ∷ 48 ∷ 48 ∷ []);
  status = "DRAFT";
  created_by = pos 7;
  created_at = start_time;
  updated_at = start_time;
  deleted = false;
}

abbrev open_request : ApprovalRow
open_request = pending (pos 50) (pos 42) (pos 1) start_time

abbrev ready : World
ready = record sample_world {
  tables = record (sample_world.tables) { spds = draft ∷ []; approvals = open_request ∷ [] };
}

abbrev caller : AuthInfo
caller = record { user_id = pos 7; role = "APPROVER"; token_type = "access"; token_id = "a1" }

abbrev sent_reply : SpdResponse
sent_reply = response_of (row_of (submitted start_time draft)) "rapat" "1500000"

submit_answers_example : (submit toy_gcm sample_locals "42" ready).0 ≡ ok sent_reply
unfolding parse_int auth_from_locals to_response decrypt_string
submit_answers_example =
    submit_answers toy_gcm sample_locals "42" ready (pos 42) caller draft sent_reply refl refl refl
      refl refl

approve_answers_example :
    (handle_approve sample_locals "42" none ready).0
    ≡ ok (decided "APPROVED" none (pos 7) start_time open_request)
unfolding parse_int auth_from_locals can_approve
approve_answers_example =
    approve_answers sample_locals "42" none ready (pos 42) caller open_request refl refl refl refl
      refl

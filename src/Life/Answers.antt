-- ===== src/Life/Answers.antt =====
-- Requests that have to succeed while no outside service fails.
use esppdv.Base.{ℤ, String, true, Option, some, [], ◌≡◌, refl, find?, Bool-cases, inl, inr}
use esppdv.Decimal.{parse_int}
use esppdv.Outcome.{ok}
use esppdv.Exec.{◌>>=◌, or_else, attempt}
use esppdv.Crypto.{Aead}
use esppdv.World.{World}
use esppdv.World.Rows.{SpdRecord, ApprovalRow}
use esppdv.World.Sql.{reach, exec, set_rls_context, with_tx, publish}
use esppdv.World.Tx.{acting}
use esppdv.Httpx.{AuthInfo, Locals, require_auth, auth_from_locals, parse_id_param}
use esppdv.Spd.Repo.{row_of, is_submittable, submitted, submit_spd}
use esppdv.Spd.Handler.{SpdResponse, submit, to_response}
use esppdv.Approval.Repo.{is_open, decided, approve}
use esppdv.Approval.Handler.{can_approve, handle_approve}

abbrev calm_world : World → World
calm_world w = record w { faults = [] }

-- While no outside service fails, a Submit by a logged-in user of a live draft that the policies
-- let that user update, and of which the new row can be decrypted, replies with that row.
pub submit_answers :
    (gcm : Aead) (locals : Locals) (id_str : String) (w : World) (id : ℤ) (a : AuthInfo)
    (draft : SpdRecord) (reply : SpdResponse)
    → w.faults ≡ []
    → parse_int id_str ≡ some id
    → auth_from_locals locals ≡ some a
    → find? (is_submittable id (acting w a.user_id a.role)) w.tables.spds ≡ some draft
    → to_response gcm (row_of (submitted w.now draft)) ≡ ok reply
    → (submit gcm locals id_str w).0 ≡ ok reply
unfolding submit parse_id_param require_auth ◌>>=◌ or_else submit_spd with_tx set_rls_context reach
    exec attempt publish
submit_answers gcm locals id_str w id a draft reply calm parsed auth found shown =
    elim (Bool-cases w.nc) [
      | inl e ↦ rw (parsed, auth, calm, found, e, shown) refl
      | inr e ↦ rw (parsed, auth, calm, found, e, shown) refl
    ]

-- While no outside service fails, an Approve by a logged-in user with an approver's role, of an SPD
-- that has an approval pending and open to that user, replies with that approval, decided.
pub approve_answers :
    (locals : Locals) (id_str : String) (comment : Option String) (w : World) (id : ℤ)
    (a : AuthInfo) (request : ApprovalRow)
    → w.faults ≡ []
    → parse_int id_str ≡ some id
    → auth_from_locals locals ≡ some a
    → can_approve a.role ≡ true
    → find? (is_open a.user_id id) w.tables.approvals ≡ some request
    → (handle_approve locals id_str comment w).0
      ≡ ok (decided "APPROVED" comment a.user_id w.now request)
unfolding handle_approve approve parse_id_param require_auth ◌>>=◌ or_else with_tx set_rls_context
    reach exec
approve_answers locals id_str comment w id a request calm parsed auth entitled found =
    rw (parsed, auth, calm, entitled, found) refl

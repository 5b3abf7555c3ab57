-- ===== src/Life/Step.antt =====
-- The steps of the system, and the states that they lead to.
use esppdv.Base.{ℤ, String, true, [], Option, some, ◌≡◌, any}
use esppdv.Crypto.{Aead}
use esppdv.World.{World}
use esppdv.World.Rows.{AuditEvent, NotificationEvent, Job}
use esppdv.Httpx.{Locals}
use esppdv.Spd.Handler.{CreateRequest, create, submit}
use esppdv.Approval.Handler.{handle_approve, handle_reject, on_spd_submitted}
use esppdv.Budget.Handler as BudgetApi
use esppdv.Document.Handler.{Writers, generate, on_document_generate}
use esppdv.Notification.Handler.{SendRequest, send_test, on_notification_send}
use esppdv.Audit.Handler.{on_audit_log}
use esppdv.Life.Effect.{Aside, is_event}

-- A request to the SPD, approval, budget, document or notification service, whether it succeeds or
-- fails; a delivery, which may repeat, of an spd.submitted that was published; any delivery of
-- another event; and whatever else leaves SPDs and approvals as they are and publishes no
-- spd.submitted: time, faults, and requests that only read or are about users. A run of tools/etl,
-- which loads SPDs and approvals, is no step.
pub data Step (gcm : Aead) (w v : World) : Type 0 where
  creates :
      (locals : Locals) (body : Option CreateRequest)
      → (create gcm locals body w).1 ≡ v
      → Step gcm w v
  submits : (locals : Locals) (id_str : String) → (submit gcm locals id_str w).1 ≡ v → Step gcm w v
  delivers :
      (id : ℤ)
      → any (is_event id) w.published ≡ true
      → (on_spd_submitted (some id) w).1 ≡ v
      → Step gcm w v
  approves :
      (locals : Locals) (spd_id_str : String) (comment : Option String)
      → (handle_approve locals spd_id_str comment w).1 ≡ v
      → Step gcm w v
  rejects :
      (locals : Locals) (spd_id_str : String) (comment : Option String)
      → (handle_reject locals spd_id_str comment w).1 ≡ v
      → Step gcm w v
  creates_budget :
      (locals : Locals) (ip user_agent : String) (body : Option BudgetApi.CreateRequest)
      → (BudgetApi.create gcm locals ip user_agent body w).1 ≡ v
      → Step gcm w v
  views_budget :
      (locals : Locals) (ip user_agent id_str : String)
      → (BudgetApi.get gcm locals ip user_agent id_str w).1 ≡ v
      → Step gcm w v
  generates :
      (ws : Writers) (locals : Locals) (spd_id_str format_str : String)
      → (generate gcm ws locals spd_id_str format_str w).1 ≡ v
      → Step gcm w v
  delivers_job :
      (ws : Writers) (j : Option Job) → (on_document_generate gcm ws j w).1 ≡ v → Step gcm w v
  sends :
      (locals : Locals) (body : Option SendRequest) → (send_test locals body w).1 ≡ v → Step gcm w v
  delivers_notification :
      (event : Option NotificationEvent) → (on_notification_send event w).1 ≡ v → Step gcm w v
  delivers_audit_log :
      (inet : String → Option String) (event : Option AuditEvent)
      → (on_audit_log inet event w).1 ≡ v
      → Step gcm w v
  passes : Aside w v → Step gcm w v

-- The states that the system can reach from empty tables.
pub data Reachable (gcm : Aead) : World → Type 0 where
  start :
      (w : World)
      → w.tables.spds ≡ []
      → w.tables.approvals ≡ []
      → w.published ≡ []
      → Reachable gcm w
  next : (w v : World) → Reachable gcm w → Step gcm w v → Reachable gcm v

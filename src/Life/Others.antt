-- ===== src/Life/Others.antt =====
-- The requests to the budget, document, notification and audit services, and their consumers, leave
-- SPDs and approvals as they are and publish no spd.submitted.
use esppdv.Base.{
  ℤ, String, Bool, true, false, Option, none, some, ◌≡◌, ◌||◌, refl, arith, Bool-cases, inl, inr,
  any,
}
use esppdv.Text.{Bytes, exceeds}
use esppdv.Outcome.{Result, ok, err}
use esppdv.Crypto.{Aead}
use esppdv.Crypto.Random.{Quiet-encrypt_string}
use esppdv.World.{World, Tables}
use esppdv.World.Rows.{
  AuditEvent, NotificationEvent, NotificationRow, Job, DocumentRow, BudgetRecord,
}
use esppdv.World.Policies.{budgets_insert}
use esppdv.World.Quiet.{Quiet, quiet_rules, Quiet-bind, Quiet-reach}
use esppdv.World.Calm.{Calm, calm_rules, Calm-bind, Calm-reach}
use esppdv.Httpx.{AuthInfo, Locals, parse_id_param}
use esppdv.Httpx.Guards.{Quiet-require_auth}
use esppdv.Budget.Handler as BudgetApi
use esppdv.Budget.Repo as Budgets
use esppdv.Budget.View.{Quiet-get_budget}
use esppdv.Document.Made.{Quiet-get_spd_for_doc}
use esppdv.Document.Handler as DocumentApi
use esppdv.Document.Repo as Documents
use esppdv.Notification.Handler as NotificationApi
use esppdv.Notification.Repo as Notifications
use esppdv.Notification.Sent.{Quiet-new_id, Calm-new_id}
use esppdv.Audit.Handler as AuditApi
use esppdv.Audit.Repo as AuditLogs
use esppdv.Life.Outcomes.{Calm-require_auth, Calm-encrypt_string}
use esppdv.Life.Bystander.{bystander_rules, Bystander, Bystander-Quiet, Spares, Bystander-exec}

pub send_test-Bystander :
    (locals : Locals) (body : Option NotificationApi.SendRequest)
    → Bystander (NotificationApi.send_test locals body)
unfolding NotificationApi.send_test
send_test-Bystander locals body =
    search
      (
        bystander_rules, quiet_rules, calm_rules, Quiet-require_auth, Calm-require_auth,
        Quiet-new_id, Calm-new_id,
      )
      depth 30

Spares-notification :
    (n : World → NotificationRow) → Spares (λ w. Notifications.inserted (n w) w.tables)
Spares-notification n = record { at = λ w r t h. (cc h, cc h) }

-- The consumers of the notification and the audit service.
pub on_notification_send-Bystander :
    (event : Option NotificationEvent) → Bystander (NotificationApi.on_notification_send event)
unfolding NotificationApi.on_notification_send Notifications.insert_notification
on_notification_send-Bystander none = Bystander-Quiet (search quiet_rules) (search calm_rules)
on_notification_send-Bystander (some evt) =
    search (bystander_rules, quiet_rules, calm_rules, Bystander-exec, Spares-notification) depth 14

stored-Spares :
    (id : ℤ) (inp : AuditLogs.InsertInput) (ip : Result (Option String)) (t u : Tables)
    → AuditLogs.stored id inp t ip ≡ ok (tt, u)
    → (u.spds ≡ t.spds) × (u.approvals ≡ t.approvals)
stored-Spares id inp (err e) t u h = cc
stored-Spares id inp (ok ip) t u h =
    elim (Bool-cases (exceeds 50 inp.action || exceeds 50 inp.resource_type)) [
      | inl long ↦ cc (rw long at h)
      | inr short ↦ (cc (rw short at h), cc (rw short at h))
    ]

Spares-entry :
    (id : ℤ) (inp : AuditLogs.InsertInput) (ip : Result (Option String))
    → Spares (λ w. AuditLogs.stored id inp w.tables ip)
Spares-entry id inp ip = record { at = λ w a t h. stored-Spares id inp ip w.tables t h }

pub on_audit_log-Bystander :
    (inet : String → Option String) (event : Option AuditEvent)
    → Bystander (AuditApi.on_audit_log inet event)
unfolding AuditApi.on_audit_log AuditLogs.insert
on_audit_log-Bystander inet none = Bystander-Quiet (search quiet_rules) (search calm_rules)
on_audit_log-Bystander inet (some evt) =
    search (bystander_rules, quiet_rules, calm_rules, Bystander-exec, Spares-entry) depth 14

Spares-budget : (b : World → BudgetRecord) → Spares (λ w. Budgets.inserted (b w) w)
Spares-budget b = record { at = λ w r t h. budget_kept (b w) w r t h }
  where
    budget_kept :
        (b : BudgetRecord) (w : World) (r : Budgets.BudgetRow) (t : Tables)
        → Budgets.inserted b w ≡ ok (r, t)
        → (t.spds ≡ w.tables.spds) × (t.approvals ≡ w.tables.approvals)
    budget_kept b w r t h = elim (Bool-cases (budgets_insert w b)) [
      | inl e ↦ (cc (rw e at h), cc (rw e at h))
      | inr e ↦ cc (rw e at h)
    ]

announce-Bystander :
    (connected : Bool) (evt : AuditEvent) → Bystander (BudgetApi.announce connected evt)
announce-Bystander false evt = Bystander-Quiet (search quiet_rules) (search calm_rules)
announce-Bystander true evt = search (bystander_rules, quiet_rules, calm_rules) depth 10

publish_audit-Bystander :
    (action : String) (id : ℤ) (a : AuthInfo) (ip user_agent : String)
    → Bystander (BudgetApi.publish_audit action id a ip user_agent)
unfolding BudgetApi.publish_audit
publish_audit-Bystander action id a ip user_agent =
    search (bystander_rules, quiet_rules, calm_rules, announce-Bystander) depth 10

create_budget-Bystander :
    (user_id : ℤ) (role : String) (e : Budgets.Entry)
    → Bystander (Budgets.create_budget user_id role e)
unfolding Budgets.create_budget
create_budget-Bystander user_id role e =
    search (bystander_rules, quiet_rules, calm_rules, Bystander-exec, Spares-budget) depth 14

pub create-Bystander :
    (gcm : Aead) (locals : Locals) (ip user_agent : String) (body : Option BudgetApi.CreateRequest)
    → Bystander (BudgetApi.create gcm locals ip user_agent body)
unfolding BudgetApi.create
create-Bystander gcm locals ip user_agent body =
    search
      (
        bystander_rules, quiet_rules, calm_rules, Quiet-require_auth, Calm-require_auth,
        Quiet-encrypt_string, Calm-encrypt_string, create_budget-Bystander, publish_audit-Bystander,
      )
      depth 30

Calm-parse_id_param : (s : String) → Calm (parse_id_param s)
unfolding parse_id_param
Calm-parse_id_param s = search calm_rules

Quiet-parse_id_param : (s : String) → Quiet (parse_id_param s)
unfolding parse_id_param
Quiet-parse_id_param s = search quiet_rules

Calm-get_budget : (user_id : ℤ) (role : String) (id : ℤ) → Calm (Budgets.get_budget user_id role id)
unfolding Budgets.get_budget
Calm-get_budget user_id role id = search calm_rules depth 10

pub get-Bystander :
    (gcm : Aead) (locals : Locals) (ip user_agent id_str : String)
    → Bystander (BudgetApi.get gcm locals ip user_agent id_str)
unfolding BudgetApi.get
get-Bystander gcm locals ip user_agent id_str =
    search
      (
        bystander_rules, quiet_rules, calm_rules, Quiet-require_auth, Calm-require_auth,
        Quiet-parse_id_param, Calm-parse_id_param, Quiet-get_budget, Calm-get_budget,
        publish_audit-Bystander,
      )
      depth 30

-- The document service.
Spares-document :
    (format : String) (d : World → DocumentRow)
    → Spares (λ w. Documents.inserted format (d w) w.tables)
Spares-document format d = record { at = λ w r t h. document_kept (d w) w.tables r t h }
  where
    document_kept :
        (d : DocumentRow) (u : Tables) (r : DocumentRow) (t : Tables)
        → Documents.inserted format d u ≡ ok (r, t)
        → (t.spds ≡ u.spds) × (t.approvals ≡ u.approvals)
    document_kept d u r t h = elim (Bool-cases (exceeds 10 format)) [
      | inl e ↦ cc (rw e at h)
      | inr e ↦ elim (Bool-cases (any (Documents.is_spd d.spd_id) u.spds)) [
        | inl k ↦ (cc (rw (e, k) at h), cc (rw (e, k) at h))
        | inr k ↦ cc (rw (e, k) at h)
      ]
    ]

insert_document-Bystander :
    (user_id : ℤ) (role : String) (spd_id : ℤ) (format key : String) (by_user : ℤ)
    → Bystander (Documents.insert_document user_id role spd_id format key by_user)
unfolding Documents.insert_document
insert_document-Bystander user_id role spd_id format key by_user =
    search (bystander_rules, quiet_rules, calm_rules, Bystander-exec, Spares-document) depth 14

Quiet-put_object : (key : String) (content : Bytes) → Quiet (DocumentApi.put_object key content)
unfolding DocumentApi.put_object
Quiet-put_object key content = Quiet-bind Quiet-reach λ _. record { at = λ w. refl }

Calm-put_object : (key : String) (content : Bytes) → Calm (DocumentApi.put_object key content)
unfolding DocumentApi.put_object
Calm-put_object key content =
    Calm-bind Calm-reach
      λ _. record { at = λ w. record { published = refl; serial = λ table. omega arith } }

Calm-get_spd_for_doc :
    (user_id : ℤ) (role : String) (id : ℤ) → Calm (Documents.get_spd_for_doc user_id role id)
unfolding Documents.get_spd_for_doc
Calm-get_spd_for_doc user_id role id = search calm_rules depth 10

announce_document-Bystander :
    (connected : Bool) (d : DocumentRow) → Bystander (DocumentApi.announce connected d)
announce_document-Bystander false d = Bystander-Quiet (search quiet_rules) (search calm_rules)
announce_document-Bystander true d = search (bystander_rules, quiet_rules, calm_rules) depth 10

process_job-Bystander :
    (gcm : Aead) (ws : DocumentApi.Writers) (j : Job) → Bystander (DocumentApi.process_job gcm ws j)
unfolding DocumentApi.process_job
process_job-Bystander gcm ws j =
    search
      (
        bystander_rules, quiet_rules, calm_rules, Quiet-get_spd_for_doc, Calm-get_spd_for_doc,
        Quiet-put_object, Calm-put_object, insert_document-Bystander, announce_document-Bystander,
      )
      depth 40

dispatch-Bystander :
    (gcm : Aead) (ws : DocumentApi.Writers) (connected : Bool) (j : Job)
    → Bystander (DocumentApi.dispatch gcm ws connected j)
dispatch-Bystander gcm ws true j = search (bystander_rules, quiet_rules, calm_rules) depth 10
dispatch-Bystander gcm ws false j =
    search (bystander_rules, quiet_rules, calm_rules, process_job-Bystander) depth 10

pub generate-Bystander :
    (gcm : Aead) (ws : DocumentApi.Writers) (locals : Locals) (spd_id_str format_str : String)
    → Bystander (DocumentApi.generate gcm ws locals spd_id_str format_str)
unfolding DocumentApi.generate
generate-Bystander gcm ws locals spd_id_str format_str =
    search
      (
        bystander_rules, quiet_rules, calm_rules, Quiet-require_auth, Calm-require_auth,
        Quiet-parse_id_param, Calm-parse_id_param, Quiet-new_id, Calm-new_id, dispatch-Bystander,
      )
      depth 40

pub on_document_generate-Bystander :
    (gcm : Aead) (ws : DocumentApi.Writers) (j : Option Job)
    → Bystander (DocumentApi.on_document_generate gcm ws j)
unfolding DocumentApi.on_document_generate
on_document_generate-Bystander gcm ws none =
    Bystander-Quiet (search quiet_rules) (search calm_rules)
on_document_generate-Bystander gcm ws (some j) =
    search (bystander_rules, quiet_rules, calm_rules, process_job-Bystander) depth 10

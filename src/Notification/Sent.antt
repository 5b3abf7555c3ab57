-- ===== src/Notification/Sent.antt =====
-- A notification from the request to its row.
use esppdv.Base.{
  ℤ, if◌then◌else◌, pos, suc, String, false, [], ◌∷◌, ◌++◌, some, ◌≡◌, refl, ap, sym, ◌∙◌, str_eq,
}
use esppdv.Outcome.{Result, ok}
use esppdv.Exec.{◌>>=◌, or_else, attempt}
use esppdv.Exec.Rules.{bind-elim}
use esppdv.Text.{to_lower, trim_space}
use esppdv.World.{World}
use esppdv.World.Rows.{Time, NotificationRow, NotificationEvent, Message, notification_send}
use esppdv.World.Sql.{reach, exec, nextval, set_rls_context, with_tx, publish}
use esppdv.World.Quiet.{Quiet, quiet_rules, lasting-tables, lasting-now}
use esppdv.World.Calm.{Calm, calm_rules}
use esppdv.World.Inversion.{pure-ok, quiet-elim, gets-elim, raise_if-elim, reached, reach-ok}
use esppdv.Httpx.{AuthInfo, Locals, auth_from_locals}
use esppdv.Httpx.Guards.{auth-elim}
use esppdv.Notification.Repo.{insert_notification}
use esppdv.Notification.Handler.{SendRequest, new_id, send_test, on_notification_send}

pub Quiet-new_id : (n : _) → Quiet (new_id n)
unfolding new_id
Quiet-new_id n = search quiet_rules

pub Calm-new_id : (n : _) → Calm (new_id n)
unfolding new_id
Calm-new_id n = search calm_rules

-- The event of a request: its texts, by e-mail where it names no channel.
abbrev pub asked_for : SendRequest → String → AuthInfo → World → NotificationEvent
asked_for req id a w = record {
  id = id;
  channel = to_lower (trim_space (if str_eq req.channel "" then "email" else req.channel));
  recipient = req.recipient;
  subject = req.subject;
  body = req.body;
  requested_by = a.user_id;
  role = a.role;
  requested_at = w.now;
}

-- What a SendTest has checked and published.
pub record Queued (locals : Locals) (req : SendRequest) (w w' : World) (id : String) : Type 0 where
  pub auth : AuthInfo
  pub logged_in : auth_from_locals locals ≡ some auth
  pub addressed : str_eq req.recipient "" ≡ false
  pub published : w'.published ≡ w.published ++ notification_send (asked_for req id auth w) ∷ []
  pub tables : w'.tables ≡ w.tables

-- A step that publishes, if it succeeds.
published-ok :
    (m : Message) (w : World) {t : World}
    → publish m w ≡ (ok tt, t)
    → (t.published ≡ w.published ++ m ∷ []) × (t.tables ≡ w.tables)
unfolding publish
published-ok m w k = bind-elim _ _ w k λ _ w1 r q.
    let e : reached w ≡ w1 = reach-ok w r in
    let f : record w1 { published = w1.published ++ m ∷ [] } ≡ _ =
      ap (λ (p : Result (Unit {0}) × World). p.1) q in
    (rw (← f, ← e) refl, rw (← f, ← e) refl)

same_published :
    {A : Type 0} {m : World → Result A × World} (w : World) {a : A} {t : World}
    → Calm m
    → m w ≡ (ok a, t)
    → t.published ≡ w.published
same_published {m = m} w c k =
    ap (λ (p : Result _ × World). p.1.published) (sym k) ∙ (c.at w).published

-- A SendTest that replies with an id was called by a logged-in user with a recipient; it has
-- changed no table, and has published one event with that id, the request's recipient, subject and
-- body, its channel in lower case, or "email", and the user, the role and the time of the request.
pub send_test-Queued :
    (locals : Locals) (req : SendRequest) (w w' : World) (id : String)
    → send_test locals (some req) w ≡ (ok id, w')
    → Queued locals req w w' id
unfolding send_test
send_test-Queued locals req w w' id k =
    gets-elim _ _ (λ _. req) k
      λ k. raise_if-elim _ _ _ _ k λ addressed k. auth-elim _ _ _ k λ a logged_in k.
        quiet-elim _ _ _ (Quiet-new_id 12) k λ n w1 drawn same k. gets-elim _ _ _ k λ k.
          bind-elim _ _ _ k λ _ w2 said k.
            let (e, ended) = pure-ok _ w2 k in
            let (p, t) = published-ok _ w1 said in
            record {
              auth = a;
              logged_in = logged_in;
              addressed = addressed;
              published =
                  ap (λ (v : World). v.published) (sym ended)
                  ∙ p
                  ∙ rw (same_published w (Calm-new_id 12) drawn, lasting-now w w1 same, ← e) refl;
              tables = ap (λ (v : World). v.tables) (sym ended) ∙ t ∙ lasting-tables w w1 same;
            }

-- The row of an event, sent at the instant of its delivery.
abbrev pub sent_row : NotificationEvent → ℤ → Time → NotificationRow
sent_row evt id now = record {
  id = id;
  channel = evt.channel;
  recipient = evt.recipient;
  subject = evt.subject;
  body = evt.body;
  status = "SENT";
  requested_by = some evt.requested_by;
  created_at = now;
  sent_at = some now;
}

notified :
    (evt : NotificationEvent) (w : World)
    → w.faults ≡ []
    → (on_notification_send (some evt) w).1.tables ≡ record (w.tables) {
      notifications =
          w.tables.notifications ++ sent_row evt (pos (suc (w.serial "notifications"))) w.now ∷ [];
    }
unfolding on_notification_send insert_notification ◌>>=◌ attempt with_tx set_rls_context nextval
    exec reach or_else
notified evt w calm = rw calm refl

-- What comes of a request: the one event that it has published, and the tables that its delivery
-- leaves in a later world.
pub record Sent (locals : Locals) (req : SendRequest) (w w' v : World) (id : String) : Type 0 where
  pub auth : AuthInfo
  pub logged_in : auth_from_locals locals ≡ some auth
  pub event : NotificationEvent
  pub published : w'.published ≡ w.published ++ notification_send event ∷ []
  pub row : NotificationRow
  pub delivered :
      (on_notification_send (some event) v).1.tables
      ≡ record (v.tables) { notifications = v.tables.notifications ++ row ∷ [] }
  pub numbered : row.id ≡ pos (suc (v.serial "notifications"))
  pub texts : (row.recipient ≡ req.recipient) × (row.subject ≡ req.subject) × (row.body ≡ req.body)
  pub status : row.status ≡ "SENT"
  pub by : row.requested_by ≡ some auth.user_id
  pub times : (row.created_at ≡ v.now) × (row.sent_at ≡ some v.now)

-- After a SendTest that has replied, the delivery of the event that it has published, in whatever
-- world it comes to while no outside service fails, changes the tables by one row: with the next
-- id, the recipient, the subject and the body of the request, and the caller as its user, SENT at
-- the time of the delivery.
pub send_test-delivered :
    (locals : Locals) (req : SendRequest) (w w' v : World) (id : String)
    → send_test locals (some req) w ≡ (ok id, w')
    → v.faults ≡ []
    → Sent locals req w w' v id
send_test-delivered locals req w w' v id k calm =
    let q = send_test-Queued locals req w w' id k in
    let event = asked_for req id q.auth w in
    record {
      auth = q.auth;
      logged_in = q.logged_in;
      event = event;
      published = q.published;
      row = sent_row event (pos (suc (v.serial "notifications"))) v.now;
      delivered = notified event v calm;
      numbered = refl;
      texts = (refl, refl, refl);
      status = refl;
      by = refl;
      times = (refl, refl);
    }

-- ===== src/Notification/Repo.antt =====
-- services/notification-service/internal/repo/repo.go: the table notifications.
use esppdv.Base.{ℤ, String, [], ◌∷◌, ◌++◌, none, some, str_eq, if◌then◌else◌}
use esppdv.Outcome.{Result, ok}
use esppdv.Exec.{◌>>=◌, ◌>>◌}
use esppdv.World.{Tables}
use esppdv.World.Rows.{Time, NotificationRow}
use esppdv.World.Sql.{M, exec, nextval, set_rls_context, with_tx}

-- The texts of a notification and its status.
pub record Entry : Type 0 where
  pub channel : String
  pub recipient : String
  pub subject : String
  pub body : String
  pub status : String

abbrev pub new_notification : Entry → ℤ → ℤ → Time → NotificationRow
new_notification e id requested_by now = record {
  id = id;
  channel = e.channel;
  recipient = e.recipient;
  subject = e.subject;
  body = e.body;
  status = e.status;
  requested_by = some requested_by;
  created_at = now;
  sent_at = if str_eq e.status "SENT" then some now else none;
}

abbrev pub inserted : NotificationRow → Tables → Result (NotificationRow × Tables)
inserted n t = ok (n, record t { notifications = t.notifications ++ n ∷ [] })

-- InsertNotification
unfoldable pub insert_notification : ℤ → String → Entry → ℤ → M NotificationRow
insert_notification user_id role e requested_by = with_tx (do
  set_rls_context user_id role
  id ← nextval "notifications"
  exec (λ w. inserted (new_notification e id requested_by w.now) w.tables))

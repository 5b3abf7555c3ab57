-- ===== src/Notification/Handler.antt =====
-- services/notification-service/internal/http/handler.go. A body is `none` if BodyParser refuses it.
use esppdv.Base.{ℕ, String, Option, none, some, str_eq, if◌then◌else◌}
use esppdv.Text.{to_lower, trim_space, hex_encode}
use esppdv.Outcome.{http}
use esppdv.Exec.{pure, gets, raise_if, or_raise, attempt, ◌>>=◌, ◌>>◌}
use esppdv.World.{World}
use esppdv.World.Rows.{NotificationEvent, notification_send}
use esppdv.World.Sql.{M, publish, rand_read}
use esppdv.Httpx.{AuthInfo, Locals, require_auth}
use esppdv.Notification.Repo.{Entry, insert_notification}

pub record SendRequest : Type 0 where
  pub channel : String
  pub recipient : String
  pub subject : String
  pub body : String

-- newID
unfoldable pub new_id : ℕ → M String
new_id n = rand_read n >>= λ b. pure (hex_encode b)

-- The channel, "email" where the request has none.
abbrev pub channel_of : String → String
channel_of channel = to_lower (trim_space (if str_eq channel "" then "email" else channel))

abbrev pub event_of : SendRequest → String → AuthInfo → World → NotificationEvent
event_of req id a w = record {
  id = id;
  channel = channel_of req.channel;
  recipient = req.recipient;
  subject = req.subject;
  body = req.body;
  requested_by = a.user_id;
  role = a.role;
  requested_at = w.now;
}

-- SendTest: the id of the reply.
unfoldable pub send_test : Locals → Option SendRequest → M String
send_test locals body = do
  req ← or_raise body (http 400 "invalid json")
  raise_if (str_eq req.recipient "") (http 400 "recipient required")
  a ← require_auth locals
  id ← new_id 12
  evt ← gets (event_of req id a)
  publish (notification_send evt)
  pure id

abbrev pub entry_of : NotificationEvent → Entry
entry_of evt = record {
  channel = evt.channel;
  recipient = evt.recipient;
  subject = evt.subject;
  body = evt.body;
  status = "SENT";
}

-- The consumer of "notification.send", for the event, or `none` if the JSON is invalid.
unfoldable pub on_notification_send : Option NotificationEvent → M (Unit {0})
on_notification_send none = pure tt
on_notification_send (some evt) =
    attempt (insert_notification evt.requested_by evt.role (entry_of evt) evt.requested_by)
    >> pure tt

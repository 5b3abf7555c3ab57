-- ===== src/Notification/Tests.antt =====
-- Runs of the notification service on sample data.
use esppdv.Base.{refl, ◌≡◌, some, String}
use esppdv.Text.{to_lower, trim_space, hex_encode}
use esppdv.Outcome.{Result, ok}
use esppdv.Exec.{◌>>=◌}
use esppdv.World.{World}
use esppdv.World.Sql.{reach, publish, rand_read}
use esppdv.Httpx.{require_auth}
use esppdv.Notification.Handler.{SendRequest, new_id, send_test}
use esppdv.Notification.Sent.{Queued, send_test-Queued, Sent, send_test-delivered}
use esppdv.Sample.Data.{sample_world, sample_locals}

abbrev greeting : SendRequest
greeting = record { channel = ""; recipient = "siti@example.org"; subject = "Halo"; body = "Tes" }

abbrev queue_id : String
queue_id = "0102030405060708090a0b0c"

abbrev after_send : World
after_send = (send_test sample_locals (some greeting) sample_world).1

send_runs :
    ◌≡◌ {A = Result String × World}
      (send_test sample_locals (some greeting) sample_world)
      (ok queue_id, after_send)
unfolding send_test ◌>>=◌ require_auth new_id rand_read hex_encode publish reach to_lower trim_space
send_runs = refl

send_test-Queued_example : Queued sample_locals greeting sample_world after_send queue_id
send_test-Queued_example =
    send_test-Queued sample_locals greeting sample_world after_send queue_id send_runs

send_test-delivered_example :
    Sent sample_locals greeting sample_world after_send sample_world queue_id
send_test-delivered_example =
    send_test-delivered sample_locals greeting sample_world after_send sample_world queue_id
      send_runs refl

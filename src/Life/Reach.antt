-- ===== src/Life/Reach.antt =====
-- The invariant holds in every state that the system reaches, and each step moves the status of an
-- SPD as the workflow allows.
use esppdv.Base.{ℤ, String, true, ◌≡◌, inl, inr, refl, any}
use esppdv.Crypto.{Aead}
use esppdv.World.{World}
use esppdv.Life.Effect.{Idle, Aside, Made, Handed, Opened, Ruled, is_event}
use esppdv.Life.Step.{
  Step, creates, submits, delivers, approves, rejects, creates_budget, views_budget, generates,
  delivers_job, sends, delivers_notification, delivers_audit_log, passes, Reachable, start, next,
}
use esppdv.World.Sql.{M}
use esppdv.Life.Bystander.{Bystander}
use esppdv.Life.Others.{
  create-Bystander, get-Bystander, generate-Bystander, on_document_generate-Bystander,
  send_test-Bystander, on_notification_send-Bystander, on_audit_log-Bystander,
}
use esppdv.Life.Outcomes.{create_outcome, approve_outcome, reject_outcome}
use esppdv.Life.Sending.{submit_outcome}
use esppdv.Life.Delivery.{deliver_outcome}
use esppdv.Life.Sound.{is_final, Sound, Sound-Idle, Sound-Aside}
use esppdv.Life.Preserved.{Sound-Made, Sound-Handed, Sound-Opened}
use esppdv.Life.Decision.{Sound-Ruled}

-- What a step does, whoever asks for it.
pub data Does (w v : World) : Type 0 where
  idles : Idle w v → Does w v
  steps_aside : Aside w v → Does w v
  makes : Made w v → Does w v
  hands : Handed w v → Does w v
  opens : (id : ℤ) → any (is_event id) w.published ≡ true → Opened id w v → Does w v
  rules : (status : String) → is_final status ≡ true → Ruled status w v → Does w v

beside : {A : Type 0} {m : M A} (w : World) {v : World} → Bystander m → (m w).1 ≡ v → Does w v
beside w b e = rw (← e) (steps_aside (b.at w))

pub step-Does : (gcm : Aead) (w v : World) → Step gcm w v → Does w v
step-Does gcm w v (creates locals body e) =
    rw (← e) (elim (create_outcome gcm locals body w) [ inl i ↦ idles i | inr m ↦ makes m ])
step-Does gcm w v (submits locals id e) =
    rw (← e) (elim (submit_outcome gcm locals id w) [ inl i ↦ idles i | inr m ↦ hands m ])
step-Does gcm w v (delivers id k e) =
    rw (← e) (elim (deliver_outcome id w) [ inl i ↦ idles i | inr m ↦ opens id k m ])
step-Does gcm w v (approves locals id c e) =
    rw (← e)
      (elim (approve_outcome locals id c w) [ inl i ↦ idles i | inr m ↦ rules "APPROVED" refl m ])
step-Does gcm w v (rejects locals id c e) =
    rw (← e)
      (elim (reject_outcome locals id c w) [ inl i ↦ idles i | inr m ↦ rules "REJECTED" refl m ])
step-Does gcm w v (creates_budget locals ip agent body e) =
    beside w (create-Bystander gcm locals ip agent body) e
step-Does gcm w v (views_budget locals ip agent id e) =
    beside w (get-Bystander gcm locals ip agent id) e
step-Does gcm w v (generates ws locals id format e) =
    beside w (generate-Bystander gcm ws locals id format) e
step-Does gcm w v (delivers_job ws j e) = beside w (on_document_generate-Bystander gcm ws j) e
step-Does gcm w v (sends locals body e) = beside w (send_test-Bystander locals body) e
step-Does gcm w v (delivers_notification event e) =
    beside w (on_notification_send-Bystander event) e
step-Does gcm w v (delivers_audit_log inet event e) = beside w (on_audit_log-Bystander inet event) e
step-Does gcm w v (passes a) = steps_aside a

Sound-Does : (w v : World) → Sound w → Does w v → Sound v
Sound-Does w v s (idles i) = Sound-Idle w v s i
Sound-Does w v s (steps_aside a) = Sound-Aside w v s a
Sound-Does w v s (makes m) = Sound-Made w v s m
Sound-Does w v s (hands m) = Sound-Handed w v s m
Sound-Does w v s (opens id e m) = Sound-Opened id w v s e m
Sound-Does w v s (rules status f m) = Sound-Ruled status w v f s m

pub Reachable-Sound : (gcm : Aead) (w : World) → Reachable gcm w → Sound w
Reachable-Sound gcm w (start _ es ea ep) = record {
  numbered = rw es tt;
  unique = rw es tt;
  vouched = rw es tt;
  referring = rw ea tt;
  backed = rw ep tt;
}
Reachable-Sound gcm w (next u _ r s) =
    Sound-Does u w (Reachable-Sound gcm u r) (step-Does gcm u w s)

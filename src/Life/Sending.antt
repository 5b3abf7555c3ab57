-- ===== src/Life/Sending.antt =====
-- What Submit comes to.
use esppdv.Base.{
  ℤ, String, Bool, true, false, Option, List, [], ◌∷◌, ◌++◌, ◌≡◌, ◌⊎◌, inl, inr, refl, ap, sym, ◌∙◌,
  find?-holds, eqb_ℤ_iff, eq_iff, Option-cases, arith,
}
use esppdv.Decimal.{parse_int}
use esppdv.Outcome.{Result, ok, err}
use esppdv.Exec.{lift, continue, or_else, gets, ◌>>=◌, ◌>>◌}
use esppdv.Exec.Rules.{or_else-ok}
use esppdv.Crypto.{Aead}
use esppdv.World.{World, Tables}
use esppdv.World.Rows.{SpdRecord, SpdSubmittedEvent, spd_submitted}
use esppdv.World.Sql.{M, reach, next_fault, publish}
use esppdv.World.Atomic.{Atomic, Atomic-or_else, Atomic-with_tx}
use esppdv.World.Calm.{After, Calm, calm_rules, Calm-or_else}
use esppdv.World.Tx.{acting}
use esppdv.Httpx.{Locals, require_auth, auth_from_locals, parse_id_param}
use esppdv.Spd.Repo.{SpdRow, submit_spd, is_submittable}
use esppdv.Spd.Handler.{SpdResponse, submit, announce, no_draft, to_response}
use esppdv.Spd.Submit.{Sent, submit_spd-Sent}
use esppdv.Life.Effect.{Idle, Handed, Announced}
use esppdv.Life.Outcomes.{idle}
use esppdv.Life.Delivery.{unmoved, attempt-world}

Calm-submit_spd : (user_id : ℤ) (role : String) (id : ℤ) → Calm (submit_spd user_id role id)
unfolding submit_spd
Calm-submit_spd user_id role id = search calm_rules depth 10

Atomic-submit_spd : (user_id : ℤ) (role : String) (id : ℤ) → Atomic (submit_spd user_id role id)
unfolding submit_spd
Atomic-submit_spd user_id role id = Atomic-with_tx _

picked_id :
    (id : ℤ) (w : World) (s : SpdRecord)
    → is_submittable id w s ≡ true
    → (s.id ≡ id) × (s.status ≡ "DRAFT")
picked_id id w s h =
    ((eqb_ℤ_iff s.id id).0 (ground arith), (eq_iff s.status "DRAFT").0 (ground arith))

-- What Publish does to the messages.
record Spoken (id : ℤ) (u v : World) : Type 0 where
  tables : v.tables ≡ u.tables
  serial : v.serial ≡ u.serial
  published : Announced id u v

publish-Spoken :
    (event : SpdSubmittedEvent) (r : Result (Unit {0}) × List (Option String)) (u : World)
    → Spoken event.spd_id u
        (continue r.0
          (λ _ (w : World).
            (ok tt, record w { published = w.published ++ spd_submitted event ∷ [] }))
          (record u { faults = r.1 })).1
publish-Spoken event (ok a, fs) u = record {
  tables = refl;
  serial = refl;
  published = inr (event, refl, refl);
}
publish-Spoken event (err e, fs) u = record { tables = refl; serial = refl; published = inl refl }

announce-Spoken :
    (connected : Bool) (event : SpdSubmittedEvent) (u : World)
    → Spoken event.spd_id u (announce connected event u).1
unfolding publish reach ◌>>=◌
announce-Spoken false event u = record { tables = refl; serial = refl; published = inl refl }
announce-Spoken true event u =
    rw (attempt-world (publish (spd_submitted event)) u)
      (publish-Spoken event (next_fault u.faults) u)

-- What Submit does once the row is committed.
abbrev hand_on : Aead → ℤ → SpdRow → M SpdResponse
hand_on gcm user_id row = do
  now ← gets (λ w. w.now)
  connected ← gets (λ w. w.nc)
  announce connected
      (record { spd_id = row.id; unit_id = row.unit_id; user_id = user_id; submitted_at = now })
  lift (to_response gcm row)

abbrev event_of : ℤ → SpdRow → World → SpdSubmittedEvent
event_of user_id row u = record {
  spd_id = row.id;
  unit_id = row.unit_id;
  user_id = user_id;
  submitted_at = u.now;
}

world_lift :
    {A B : Type 0} (r : Result A) (x : Result B) (v : World) → (continue r (λ _. lift x) v).1 ≡ v
world_lift (ok a) x v = refl
world_lift (err e) x v = refl

hand_on-world :
    (gcm : Aead) (user_id : ℤ) (row : SpdRow) (u : World)
    → (hand_on gcm user_id row u).1 ≡ (announce u.nc (event_of user_id row u) u).1
unfolding ◌>>=◌
hand_on-world gcm user_id row u =
    world_lift (announce u.nc (event_of user_id row u) u).0 (to_response gcm row)
      (announce u.nc (event_of user_id row u) u).1

published_after :
    (id : ℤ) (w u v : World) → u.published ≡ w.published → Announced id u v → Announced id w v
published_after id w u v e (inl p) = inl (p ∙ e)
published_after id w u v e (inr (event, same, p)) =
    inr (event, same, p ∙ ap (λ l. l ++ spd_submitted event ∷ []) e)

sent-Handed :
    (gcm : Aead) (user_id : ℤ) (role : String) (id : ℤ) (w u : World) (row : SpdRow)
    → Sent user_id role id w u row
    → After w u
    → Handed w (hand_on gcm user_id row u).1
sent-Handed gcm user_id role id w u row s a =
    let world = acting w user_id role in
    let picked = find?-holds (is_submittable id world) w.tables.spds s.draft s.found in
    let same : row.id ≡ id =
      ap (λ (r : SpdRow). r.id) s.same ∙ (picked_id id world s.draft picked).0 in
    let spoken = announce-Spoken u.nc (event_of user_id row u) u in
    rw (hand_on-world gcm user_id row u) (record {
      id = row.id;
      picked = is_submittable id world;
      draft = s.draft;
      found = s.found;
      only_id = λ r h. (picked_id id world r h).0 ∙ sym same;
      only_draft = λ r h. (picked_id id world r h).1;
      now = w.now;
      spds = ap (λ (t : Tables). t.spds) (spoken.tables ∙ s.tables);
      approvals = ap (λ (t : Tables). t.approvals) (spoken.tables ∙ s.tables);
      published =
          published_after row.id w u (announce u.nc (event_of user_id row u) u).1 a.published
            spoken.published;
      serial = rw spoken.serial (a.serial "spds");
    })

-- The transaction of Submit, and what follows it.
hand_outcome :
    (gcm : Aead) (user_id : ℤ) (role : String) (id : ℤ) (w u : World) (r : Result SpdRow)
    → or_else (submit_spd user_id role id) no_draft w ≡ (r, u)
    → Idle w (continue r (hand_on gcm user_id) u).1
      ⊎ Handed w (continue r (hand_on gcm user_id) u).1
hand_outcome gcm user_id role id w u (ok row) h =
    let calm : After w u =
      rw (ap (λ (p : Result SpdRow × World). p.1) h) at
        ((Calm-or_else no_draft (Calm-submit_spd user_id role id)).at w) in
    inr (
      sent-Handed gcm user_id role id w u row
        (submit_spd-Sent user_id role id w u row (or_else-ok _ no_draft w h)) calm)
hand_outcome gcm user_id role id w u (err e) h =
    let atomic = Atomic-or_else no_draft (Atomic-submit_spd user_id role id) in
    let calm = Calm-or_else no_draft (Calm-submit_spd user_id role id) in
    let same = ap (λ (p : Result SpdRow × World). p.1) h in
    inl (
      rw (← same)
        (idle w _ (atomic.at w e (ap (λ (p : Result SpdRow × World). p.0) h)) (calm.at w)))

pub submit_outcome :
    (gcm : Aead) (locals : Locals) (id_str : String) (w : World)
    → Idle w (submit gcm locals id_str w).1 ⊎ Handed w (submit gcm locals id_str w).1
unfolding submit parse_id_param require_auth ◌>>=◌
submit_outcome gcm locals id_str w = elim (Option-cases (parse_int id_str)) [
  | inl e ↦ inl (rw e (unmoved w))
  | inr (id, e) ↦ elim (Option-cases (auth_from_locals locals)) [
    | inl k ↦ inl (rw (e, k) (unmoved w))
    | inr (a, k) ↦
        rw (e, k)
          (hand_outcome gcm a.user_id a.role id w
            (or_else (submit_spd a.user_id a.role id) no_draft w).1
            (or_else (submit_spd a.user_id a.role id) no_draft w).0 refl)
  ]
]

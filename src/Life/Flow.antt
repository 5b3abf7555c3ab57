-- ===== src/Life/Flow.antt =====
-- Each step moves the status of an SPD as the workflow allows.
use mathlib.Core.Option
use esppdv.Base.{
  ℤ, String, Bool, true, false, Option, none, some, List, [], ◌∷◌, ◌≡◌, inl, inr, refl, sym, ◌∙◌,
  find?, find?-holds, any, update, eqb_ℤ_iff, str_eq, Bool-cases, Option-cases, arith,
  if◌then◌else◌,
}
use esppdv.Crypto.{Aead}
use esppdv.World.{World}
use esppdv.World.Rows.{SpdRecord, ApprovalRow}
use esppdv.Spd.Repo.{submitted}
use esppdv.Approval.Repo.{is_open, with_status}
use esppdv.Life.Tables.{All-find?, find?-update_row, find?-append_some, find?-append_none}
use esppdv.Life.Effect.{Made, Handed, Ruled}
use esppdv.Life.Step.{Step, Reachable}
use esppdv.Life.Sound.{has_id, Unique, is_draft, is_past_draft, is_final, Referring, Sound}
use esppdv.Life.Reach.{
  Does, idles, steps_aside, makes, hands, opens, rules, step-Does, Reachable-Sound,
}

-- The status of the SPD with an id, if there is one.
abbrev pub status_of : ℤ → World → Option String
status_of id w = Option.map (λ (s : SpdRecord). s.status) (find? (has_id id) w.tables.spds)

-- The workflow: an SPD comes in as a draft, a draft is submitted, and what is no longer a draft is
-- approved or rejected.
pub data Moves (s t : Option String) : Type 0 where
  stays : t ≡ s → Moves s t
  drafted : s ≡ none → t ≡ some "DRAFT" → Moves s t
  handed : s ≡ some "DRAFT" → t ≡ some "SUBMITTED" → Moves s t
  ruled :
      (old status : String)
      → s ≡ some old
      → str_eq old "DRAFT" ≡ false
      → is_final status ≡ true
      → t ≡ some status
      → Moves s t

status_in : Option SpdRecord → Option String
status_in o = Option.map (λ (s : SpdRecord). s.status) o

same_tables :
    (id : ℤ) (w v : World) → v.tables.spds ≡ w.tables.spds → status_of id v ≡ status_of id w
same_tables id w v e = rw e refl

Moves-Made : (id : ℤ) (w v : World) → Made w v → Moves (status_of id w) (status_of id v)
Moves-Made id w v m = elim (Option-cases (find? (has_id id) w.tables.spds)) [
  | inr (s, e) ↦
      stays (rw (m.spds, e, find?-append_some (has_id id) w.tables.spds (m.row ∷ []) e) refl)
  | inl e ↦
      let new = find?-append_none (has_id id) w.tables.spds (m.row ∷ []) e in
      elim (Bool-cases (has_id id m.row)) [
        | inl k ↦ drafted (rw e refl) (rw (m.spds, new, k, m.status) refl)
        | inr k ↦ stays (rw (m.spds, new, k, e) refl)
      ]
]

-- What an update that keeps the ids makes of the status.
status-update :
    (id : ℤ) (q : SpdRecord → Bool) (g : SpdRecord → SpdRecord) (w v : World) {s : SpdRecord}
    → ((r : SpdRecord) → (g r).id ≡ r.id)
    → v.tables.spds ≡ update q g w.tables.spds
    → find? (has_id id) w.tables.spds ≡ some s
    → status_of id v ≡ some (if q s then g s else s).status
status-update id q g w v same e k =
    rw (e, find?-update_row (has_id id) q g w.tables.spds (λ r. rw (same r) refl), k) refl

status-update-none :
    (id : ℤ) (q : SpdRecord → Bool) (g : SpdRecord → SpdRecord) (w v : World)
    → ((r : SpdRecord) → (g r).id ≡ r.id)
    → v.tables.spds ≡ update q g w.tables.spds
    → find? (has_id id) w.tables.spds ≡ none
    → status_of id v ≡ none
status-update-none id q g w v same e k =
    rw (e, find?-update_row (has_id id) q g w.tables.spds (λ r. rw (same r) refl), k) refl

Moves-Handed : (id : ℤ) (w v : World) → Handed w v → Moves (status_of id w) (status_of id v)
Moves-Handed id w v m = elim (Option-cases (find? (has_id id) w.tables.spds)) [
  | inl e ↦
      stays (status-update-none id m.picked (submitted m.now) w v (λ r. refl) m.spds e ∙ rw e refl)
  | inr (s, e) ↦
      let after = status-update id m.picked (submitted m.now) w v (λ r. refl) m.spds e in
      elim (Bool-cases (m.picked s)) [
        | inl k ↦ handed (rw (e, m.only_draft s k) refl) (after ∙ rw k refl)
        | inr k ↦ stays (after ∙ rw (k, e) refl)
      ]
]

any_past :
    (id : ℤ) (l : List SpdRecord) → any (is_past_draft id) l ≡ true → any (has_id id) l ≡ true
any_past id [] h = cc
any_past id (x ∷ l) h = elim (Bool-cases (has_id id x)) [
  | inl e ↦ rw e refl
  | inr e ↦ rw e (any_past id l (rw e at h))
]

-- The one row of an id is no draft, if some row of it is none.
past_draft :
    (id : ℤ) (l : List SpdRecord) {s : SpdRecord}
    → Unique l
    → any (is_past_draft id) l ≡ true
    → find? (has_id id) l ≡ some s
    → is_draft s ≡ false
past_draft id [] u h k = cc
past_draft id (x ∷ l) {s} (d, u) h k = elim (Bool-cases (has_id id x)) [
  | inr e ↦ past_draft id l u (rw e at h) (rw e at k)
  | inl e ↦
      let same : x ≡ s = cc (rw e at k) in
      elim (Bool-cases (is_draft x)) [
        | inr n ↦ rw (← same) n
        | inl n ↦
            let is : x.id ≡ id = (eqb_ℤ_iff x.id id).0 e in
            let later = any_past id l (rw (e, n) at h) in cc (later, rw is at d)
      ]
]

open_spd : (user_id id : ℤ) (a : ApprovalRow) → is_open user_id id a ≡ true → a.spd_id ≡ id
open_spd user_id id a h = (eqb_ℤ_iff a.spd_id id).0 (ground arith)

Moves-Ruled :
    (status : String) (id : ℤ) (w v : World)
    → is_final status ≡ true
    → Sound w
    → Ruled status w v
    → Moves (status_of id w) (status_of id v)
Moves-Ruled status id w v final sound m = elim (Option-cases (find? (has_id id) w.tables.spds)) [
  | inl e ↦ stays (
      status-update-none id m.picked (with_status status m.now) w v (λ r. refl) m.spds e
      ∙ rw e refl)
  | inr (s, e) ↦
      let after = status-update id m.picked (with_status status m.now) w v (λ r. refl) m.spds e in
      elim (Bool-cases (m.picked s)) [
        | inr k ↦ stays (after ∙ rw (k, e) refl)
        | inl k ↦
            let here : s.id ≡ id =
              (eqb_ℤ_iff s.id id).0 (find?-holds (has_id id) w.tables.spds s e) in
            let its =
              open_spd m.user_id m.id m.request
                (find?-holds (is_open m.user_id m.id) w.tables.approvals m.request m.found) in
            let back =
              All-find? (Referring w.tables.spds) (is_open m.user_id m.id) w.tables.approvals
                sound.referring m.found in
            let which : m.request.spd_id ≡ id = its ∙ sym (m.only_id s k) ∙ here in
            ruled s.status status (rw e refl)
              (past_draft id w.tables.spds sound.unique (rw which at back) e) final
              (after ∙ rw k refl)
      ]
]

Moves-Does : (id : ℤ) (w v : World) → Sound w → Does w v → Moves (status_of id w) (status_of id v)
Moves-Does id w v s (idles i) = stays (same_tables id w v i.spds)
Moves-Does id w v s (steps_aside a) = stays (same_tables id w v a.spds)
Moves-Does id w v s (makes m) = Moves-Made id w v m
Moves-Does id w v s (hands m) = Moves-Handed id w v m
Moves-Does id w v s (opens _ e m) = stays (same_tables id w v m.spds)
Moves-Does id w v s (rules status f m) = Moves-Ruled status id w v f s m

-- From a state that the system has reached, each step, which is a request to the SPD, approval,
-- budget, document or notification service, a delivery of an event, or something else that leaves
-- SPDs and approvals as they are and publishes no spd.submitted, moves the status of each SPD as the workflow
-- allows: none to DRAFT, DRAFT to SUBMITTED, and a status other than DRAFT to APPROVED or REJECTED;
-- or it leaves it.
pub step-Moves :
    (gcm : Aead) (w v : World) (id : ℤ)
    → Reachable gcm w
    → Step gcm w v
    → Moves (status_of id w) (status_of id v)
step-Moves gcm w v id r s = Moves-Does id w v (Reachable-Sound gcm w r) (step-Does gcm w v s)

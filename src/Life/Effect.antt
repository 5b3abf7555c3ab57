-- ===== src/Life/Effect.antt =====
-- What one step of the system does to the tables spds and approvals, to the id sequence of spds and
-- to the messages.
use esppdv.Base.{
  suc, ◌≤◌, ℤ, pos, String, Bool, true, false, Option, some, List, [], ◌∷◌, ◌++◌, ◌≡◌, ◌⊎◌, find?,
  All, update, eqb_ℤ,
}
use esppdv.World.{World}
use esppdv.World.Rows.{
  Time, SpdRecord, ApprovalRow, SpdSubmittedEvent, Message, spd_submitted, audit_log,
  document_generate, document_generated, notification_send,
}
use esppdv.Spd.Repo.{submitted}
use esppdv.Approval.Repo.{pending, is_open, decided, with_status}

abbrev pub spds : World → List SpdRecord
spds w = w.tables.spds

abbrev pub approvals : World → List ApprovalRow
approvals w = w.tables.approvals

-- Nothing of it changes, but that values of the sequence may be drawn.
pub record Idle (w v : World) : Type 0 where
  pub spds : v.tables.spds ≡ w.tables.spds
  pub approvals : v.tables.approvals ≡ w.tables.approvals
  pub published : v.published ≡ w.published
  pub serial : w.serial "spds" ≤ v.serial "spds"

abbrev pub is_submission : Message → Bool
is_submission (spd_submitted _) = true
is_submission (audit_log _) = false
is_submission (document_generate _) = false
is_submission (document_generated _ _) = false
is_submission (notification_send _) = false

-- SPDs and approvals stay as they are, and no message about the submission of an SPD comes up;
-- other tables and messages may change.
pub record Aside (w v : World) : Type 0 where
  pub spds : v.tables.spds ≡ w.tables.spds
  pub approvals : v.tables.approvals ≡ w.tables.approvals
  pub messages : List Message
  pub published : v.published ≡ w.published ++ messages
  pub others : All (λ m. is_submission m ≡ false) messages
  pub serial : w.serial "spds" ≤ v.serial "spds"

-- A new draft, with the next value of the sequence as its id.
pub record Made (w v : World) : Type 0 where
  pub row : SpdRecord
  pub id : row.id ≡ pos (suc (w.serial "spds"))
  pub status : row.status ≡ "DRAFT"
  pub spds : v.tables.spds ≡ w.tables.spds ++ row ∷ []
  pub approvals : v.tables.approvals ≡ w.tables.approvals
  pub published : v.published ≡ w.published
  pub serial : suc (w.serial "spds") ≤ v.serial "spds"

-- No new message, or the event of the SPD.
abbrev pub Announced : ℤ → World → World → Type 0
Announced id w v =
    (v.published ≡ w.published)
    ⊎ ((event : SpdSubmittedEvent) × (event.spd_id ≡ id)
        × (v.published ≡ w.published ++ spd_submitted event ∷ []))

-- The drafts that a test picks, one at least and all of one id, are submitted.
pub record Handed (w v : World) : Type 0 where
  pub id : ℤ
  pub picked : SpdRecord → Bool
  pub draft : SpdRecord
  pub found : find? picked w.tables.spds ≡ some draft
  pub only_id : (s : SpdRecord) → picked s ≡ true → s.id ≡ id
  pub only_draft : (s : SpdRecord) → picked s ≡ true → s.status ≡ "DRAFT"
  pub now : Time
  pub spds : v.tables.spds ≡ update picked (submitted now) w.tables.spds
  pub approvals : v.tables.approvals ≡ w.tables.approvals
  pub published : Announced id w v
  pub serial : w.serial "spds" ≤ v.serial "spds"

-- A pending approval of an SPD.
pub record Opened (spd_id : ℤ) (w v : World) : Type 0 where
  pub id : ℤ
  pub step : ℤ
  pub now : Time
  pub spds : v.tables.spds ≡ w.tables.spds
  pub approvals : v.tables.approvals ≡ w.tables.approvals ++ pending id spd_id step now ∷ []
  pub published : v.published ≡ w.published
  pub serial : w.serial "spds" ≤ v.serial "spds"

-- The open approvals of an SPD, one at least, are decided, and the rows of the SPD that a test
-- picks get the status.
pub record Ruled (status : String) (w v : World) : Type 0 where
  pub id : ℤ
  pub user_id : ℤ
  pub comment : Option String
  pub request : ApprovalRow
  pub found : find? (is_open user_id id) w.tables.approvals ≡ some request
  pub picked : SpdRecord → Bool
  pub only_id : (s : SpdRecord) → picked s ≡ true → s.id ≡ id
  pub now : Time
  pub spds : v.tables.spds ≡ update picked (with_status status now) w.tables.spds
  pub approvals :
      v.tables.approvals
      ≡ update (is_open user_id id) (decided status comment user_id now) w.tables.approvals
  pub published : v.published ≡ w.published
  pub serial : w.serial "spds" ≤ v.serial "spds"

-- A message of the SPD has been published.
abbrev pub is_event : ℤ → Message → Bool
is_event id (spd_submitted event) = eqb_ℤ event.spd_id id
is_event id _ = false

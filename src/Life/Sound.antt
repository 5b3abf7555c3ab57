-- ===== src/Life/Sound.antt =====
-- The invariant of the tables spds and approvals and of the event spd.submitted, effect by effect.
use esppdv.Base.{
  ℕ, suc, ◌≤◌, ℤ, pos, ◌≤ℤ◌, String, Bool, true, false, not, ◌&&◌, ◌||◌, List, [], ◌∷◌, ◌++◌, ◌≡◌,
  inl, inr, refl, sym, ◌∙◌, All, any, update, eqb_ℤ, eqb_ℤ_iff, str_eq, Bool-cases, arith,
}
use esppdv.World.{World}
use esppdv.World.Rows.{
  SpdRecord, ApprovalRow, Message, spd_submitted, audit_log, document_generate, document_generated,
  notification_send,
}
use esppdv.Life.Tables.{All-map}
use esppdv.Life.Effect.{Idle, Aside, is_submission}

abbrev pub has_id : ℤ → SpdRecord → Bool
has_id id s = eqb_ℤ s.id id

-- No two rows have one id.
abbrev pub Unique : List SpdRecord → Type 0
Unique [] = Unit
Unique (s ∷ l) = (any (has_id s.id) l ≡ false) × Unique l

abbrev pub is_draft : SpdRecord → Bool
is_draft s = str_eq s.status "DRAFT"

abbrev pub is_past_draft : ℤ → SpdRecord → Bool
is_past_draft id s = eqb_ℤ s.id id && not (is_draft s)

abbrev pub is_final : String → Bool
is_final status = str_eq status "APPROVED" || str_eq status "REJECTED"

abbrev pub is_ruling : SpdRecord → ApprovalRow → Bool
is_ruling s a = eqb_ℤ a.spd_id s.id && str_eq a.status s.status

-- A decided SPD has an approval of that status.
abbrev pub vouched : List ApprovalRow → SpdRecord → Bool
vouched l s = not (is_final s.status) || any (is_ruling s) l

abbrev pub Vouched : List ApprovalRow → SpdRecord → Type 0
Vouched l s = vouched l s ≡ true

abbrev pub Referring : List SpdRecord → ApprovalRow → Type 0
Referring l a = any (is_past_draft a.spd_id) l ≡ true

abbrev pub backed : List SpdRecord → Message → Bool
backed l (spd_submitted event) = any (is_past_draft event.spd_id) l
backed l (audit_log _) = true
backed l (document_generate _) = true
backed l (document_generated _ _) = true
backed l (notification_send _) = true

abbrev pub Backed : List SpdRecord → Message → Type 0
Backed l m = backed l m ≡ true

abbrev pub Numbered : ℕ → SpdRecord → Type 0
Numbered n s = s.id ≤ℤ pos n

-- `numbered` and `unique`: an id of spds is one that the sequence has given, and is given once.
-- `vouched`: an SPD that is APPROVED or REJECTED has an approval with that status.
-- `referring`, `backed`: approvals and events are of SPDs that are there and no longer drafts.
pub record Sound (w : World) : Type 0 where
  pub numbered : All (Numbered (w.serial "spds")) w.tables.spds
  pub unique : Unique w.tables.spds
  pub vouched : All (Vouched w.tables.approvals) w.tables.spds
  pub referring : All (Referring w.tables.spds) w.tables.approvals
  pub backed : All (Backed w.tables.spds) w.published

pub renumbered : (m n : ℕ) (l : List SpdRecord) → m ≤ n → All (Numbered m) l → All (Numbered n) l
renumbered m n l le h = All-map (Numbered m) (Numbered n) l (λ s k. omega (arith, k, le)) h

-- An invariant carries over to a world with the same tables and messages.
carried :
    (w v : World)
    → Sound w
    → (l : List SpdRecord) × (l ≡ v.tables.spds) × (l ≡ w.tables.spds)
    → v.tables.approvals ≡ w.tables.approvals
    → v.published ≡ w.published
    → w.serial "spds" ≤ v.serial "spds"
    → Sound v
carried w v s (l, e, k) ea ep le =
    let es : v.tables.spds ≡ w.tables.spds = sym e ∙ k in
    record {
      numbered = rw es (renumbered _ _ w.tables.spds le s.numbered);
      unique = rw es s.unique;
      vouched = rw (es, ea) s.vouched;
      referring = rw (es, ea) s.referring;
      backed = rw (es, ep) s.backed;
    }

pub Sound-Idle : (w v : World) → Sound w → Idle w v → Sound v
Sound-Idle w v s i = carried w v s (v.tables.spds, refl, i.spds) i.approvals i.published i.serial

Backed_other : (l : List SpdRecord) (m : Message) → is_submission m ≡ false → Backed l m
Backed_other l (spd_submitted _) h = cc
Backed_other l (audit_log _) h = refl
Backed_other l (document_generate _) h = refl
Backed_other l (document_generated _ _) h = refl
Backed_other l (notification_send _) h = refl

Backed_joined :
    (l : List SpdRecord) (ms ns : List Message)
    → All (Backed l) ms
    → All (λ m. is_submission m ≡ false) ns
    → All (Backed l) (ms ++ ns)
Backed_joined l [] ns h k = All-map (λ m. is_submission m ≡ false) (Backed l) ns (Backed_other l) k
Backed_joined l (m ∷ ms) ns (b, h) k = (b, Backed_joined l ms ns h k)

pub Sound-Aside : (w v : World) → Sound w → Aside w v → Sound v
Sound-Aside w v s a = record {
  numbered =
      rw a.spds (renumbered (w.serial "spds") (v.serial "spds") w.tables.spds a.serial s.numbered);
  unique = rw a.spds s.unique;
  vouched = rw (a.spds, a.approvals) s.vouched;
  referring = rw (a.spds, a.approvals) s.referring;
  backed =
      rw (a.spds, a.published)
        (Backed_joined w.tables.spds w.published a.messages s.backed a.others);
}

-- A new id is no row's.
pub fresh :
    (n : ℕ) (id : ℤ) (l : List SpdRecord)
    → id ≡ pos (suc n)
    → All (Numbered n) l
    → any (has_id id) l ≡ false
fresh n id [] e h = refl
fresh n id (s ∷ l) e (k, h) = elim (Bool-cases (eqb_ℤ s.id id)) [
  | inl same ↦
      let is : s.id ≡ pos (suc n) = (eqb_ℤ_iff s.id id).0 same ∙ e in
      absurd (omega (arith, rw is at k))
  | inr other ↦ rw other (fresh n id l e h)
]

any-append_false :
    {A : Type 0} (p : A → Bool) (l : List A) (x : A)
    → any p l ≡ false
    → p x ≡ false
    → any p (l ++ x ∷ []) ≡ false
any-append_false p [] x h k = rw k refl
any-append_false p (y ∷ l) x h k = elim (Bool-cases (p y)) [
  | inl e ↦ cc (rw e at h)
  | inr e ↦ rw e (any-append_false p l x (rw e at h) k)
]

pub Unique-append :
    (l : List SpdRecord) (s : SpdRecord)
    → any (has_id s.id) l ≡ false
    → Unique l
    → Unique (l ++ s ∷ [])
Unique-append [] s h u = (refl, tt)
Unique-append (x ∷ l) s h (d, u) = elim (Bool-cases (eqb_ℤ x.id s.id)) [
  | inl e ↦ cc (rw e at h)
  | inr e ↦
      let apart : eqb_ℤ s.id x.id ≡ false = ground (arith, e) in
      (any-append_false (has_id x.id) l s d apart, Unique-append l s (rw e at h) u)
]

-- An update that keeps the ids.
any_same :
    (q : SpdRecord → Bool) (g : SpdRecord → SpdRecord) (id : ℤ) (l : List SpdRecord)
    → ((s : SpdRecord) → (g s).id ≡ s.id)
    → any (has_id id) (update q g l) ≡ any (has_id id) l
any_same q g id [] same = refl
any_same q g id (s ∷ l) same = elim (Bool-cases (q s)) [
  | inl e ↦ rw (e, same s, any_same q g id l same) refl
  | inr e ↦ rw (e, any_same q g id l same) refl
]

pub Unique-update :
    (q : SpdRecord → Bool) (g : SpdRecord → SpdRecord) (l : List SpdRecord)
    → ((s : SpdRecord) → (g s).id ≡ s.id)
    → Unique l
    → Unique (update q g l)
Unique-update q g [] same u = tt
Unique-update q g (s ∷ l) same (d, u) = elim (Bool-cases (q s)) [
  | inl e ↦ rw (e, same s) (any_same q g s.id l same ∙ d, Unique-update q g l same u)
  | inr e ↦ rw e (any_same q g s.id l same ∙ d, Unique-update q g l same u)
]

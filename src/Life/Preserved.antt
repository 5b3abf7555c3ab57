-- ===== src/Life/Preserved.antt =====
-- Every effect of a step keeps the invariant.
use esppdv.Base.{
  ℕ, ℤ, String, Bool, true, false, List, [], ◌∷◌, ◌++◌, ◌≡◌, inl, inr, refl, All, any, update,
  eqb_ℤ_iff, eqb_ℤ_refl, Bool-cases, arith,
}
use esppdv.World.{World}
use esppdv.World.Rows.{
  SpdRecord, ApprovalRow, Message, spd_submitted, audit_log, document_generate, document_generated,
  notification_send,
}
use esppdv.Spd.Repo.{submitted}
use esppdv.Life.Tables.{All-map, All-update, All-append, any-append, any-updated, any-update}
use esppdv.Life.Effect.{Made, Handed, Opened, Announced, is_event}
use esppdv.Life.Sound.{
  is_draft, is_past_draft, is_final, is_ruling, Vouched, Referring, Backed, Numbered, Sound,
  renumbered, fresh, Unique-append, Unique-update,
}

-- An SPD that is there and no longer a draft stays so.
abbrev pub Persists : List SpdRecord → List SpdRecord → Type 0
Persists l l' = (id : ℤ) → any (is_past_draft id) l ≡ true → any (is_past_draft id) l' ≡ true

pub Referring-all :
    (l l' : List SpdRecord) (rows : List ApprovalRow)
    → Persists l l'
    → All (Referring l) rows
    → All (Referring l') rows
Referring-all l l' rows p h = All-map (Referring l) (Referring l') rows (λ a k. p a.spd_id k) h

Backed_one : (l l' : List SpdRecord) (m : Message) → Persists l l' → Backed l m → Backed l' m
Backed_one l l' (spd_submitted event) p h = p event.spd_id h
Backed_one l l' (audit_log _) p h = refl
Backed_one l l' (document_generate _) p h = refl
Backed_one l l' (document_generated _ _) p h = refl
Backed_one l l' (notification_send _) p h = refl

pub Backed_all :
    (l l' : List SpdRecord) (ms : List Message)
    → Persists l l'
    → All (Backed l) ms
    → All (Backed l') ms
Backed_all l l' ms p h = All-map (Backed l) (Backed l') ms (λ m k. Backed_one l l' m p k) h

not_final : (status : String) → status ≡ "DRAFT" → is_final status ≡ false
not_final status e = rw e refl

pub Sound-Made : (w v : World) → Sound w → Made w v → Sound v
Sound-Made w v s m =
    let old = w.tables.spds in
    let kept : Persists old (old ++ m.row ∷ []) =
      λ id h. any-append (is_past_draft id) old (m.row ∷ []) h in
    record {
      numbered = rw m.spds (
          All-append (Numbered (v.serial "spds")) old m.row
            (renumbered (w.serial "spds") (v.serial "spds") old (omega (arith, m.serial))
              s.numbered)
            (rw m.id (omega (arith, m.serial))));
      unique =
          rw m.spds (
            Unique-append old m.row (fresh (w.serial "spds") m.row.id old m.id s.numbered)
              s.unique);
      vouched =
          rw (m.spds, m.approvals)
            (All-append (Vouched w.tables.approvals) old m.row s.vouched
              (rw (not_final m.row.status m.status) refl));
      referring =
          rw (m.spds, m.approvals) (Referring-all old _ w.tables.approvals kept s.referring);
      backed = rw (m.spds, m.published) (Backed_all old _ w.published kept s.backed);
    }

pub Persists-update :
    (q : SpdRecord → Bool) (g : SpdRecord → SpdRecord) (l : List SpdRecord)
    → ((s : SpdRecord) → (g s).id ≡ s.id)
    → ((s : SpdRecord) → is_draft (g s) ≡ false)
    → Persists l (update q g l)
Persists-update q g l same past id h =
    any-update (is_past_draft id) q g l (λ s _ k. rw (same s, past s) (ground (arith, k))) h

-- An update that keeps the ids keeps the numbering.
pub Numbered-update :
    (n : ℕ) (q : SpdRecord → Bool) (g : SpdRecord → SpdRecord) (l : List SpdRecord)
    → ((s : SpdRecord) → (g s).id ≡ s.id)
    → All (Numbered n) l
    → All (Numbered n) (update q g l)
Numbered-update n q g l same h =
    All-update (Numbered n) (Numbered n) q g l (λ s k _. rw (same s) k) (λ s k _. k) h

Backed_announced :
    (id : ℤ) (l : List SpdRecord) (w v : World)
    → any (is_past_draft id) l ≡ true
    → All (Backed l) w.published
    → Announced id w v
    → All (Backed l) v.published
Backed_announced id l w v p h (inl e) = rw e h
Backed_announced id l w v p h (inr (event, same, e)) =
    rw e (All-append (Backed l) w.published (spd_submitted event) h (rw same p))

pub Sound-Handed : (w v : World) → Sound w → Handed w v → Sound v
Sound-Handed w v s m =
    let old = w.tables.spds in
    let new = update m.picked (submitted m.now) old in
    let kept : Persists old new =
      Persists-update m.picked (submitted m.now) old (λ r. refl) (λ r. refl) in
    let handed : any (is_past_draft m.id) new ≡ true =
      any-updated (is_past_draft m.id) m.picked (submitted m.now) old
        (λ r k. rw (m.only_id r k, eqb_ℤ_refl m.id) refl) m.found in
    record {
      numbered = rw m.spds (
          Numbered-update (v.serial "spds") m.picked (submitted m.now) old (λ r. refl)
            (renumbered (w.serial "spds") (v.serial "spds") old m.serial s.numbered));
      unique = rw m.spds (Unique-update m.picked (submitted m.now) old (λ r. refl) s.unique);
      vouched =
          rw (m.spds, m.approvals)
            (All-update (Vouched w.tables.approvals) (Vouched w.tables.approvals) m.picked
              (submitted m.now) old (λ r _ _. refl) (λ r k _. k) s.vouched);
      referring =
          rw (m.spds, m.approvals) (Referring-all old new w.tables.approvals kept s.referring);
      backed = rw m.spds (
          Backed_announced m.id new w v handed (Backed_all old new w.published kept s.backed)
            m.published);
    }

event_backed :
    (id : ℤ) (l : List SpdRecord) (m : Message)
    → Backed l m
    → is_event id m ≡ true
    → any (is_past_draft id) l ≡ true
event_backed id l (spd_submitted event) b e =
    let same : event.spd_id ≡ id = (eqb_ℤ_iff event.spd_id id).0 e in rw (← same) b
event_backed id l (audit_log _) b e = cc
event_backed id l (document_generate _) b e = cc
event_backed id l (document_generated _ _) b e = cc
event_backed id l (notification_send _) b e = cc

-- An event that was published is of an SPD that is no longer a draft.
event-Backed :
    (id : ℤ) (l : List SpdRecord) (ms : List Message)
    → All (Backed l) ms
    → any (is_event id) ms ≡ true
    → any (is_past_draft id) l ≡ true
event-Backed id l [] h k = cc
event-Backed id l (m ∷ ms) (b, h) k = elim (Bool-cases (is_event id m)) [
  | inl e ↦ event_backed id l m b e
  | inr e ↦ event-Backed id l ms h (rw e at k)
]

Vouched-append :
    (r : SpdRecord) (l : List ApprovalRow) (a : ApprovalRow) → Vouched l r → Vouched (l ++ a ∷ []) r
Vouched-append r l a h = elim (Bool-cases (is_final r.status)) [
  | inl e ↦ rw e (any-append (is_ruling r) l (a ∷ []) (rw e at h))
  | inr e ↦ rw e refl
]

pub Sound-Opened :
    (id : ℤ) (w v : World)
    → Sound w
    → any (is_event id) w.published ≡ true
    → Opened id w v
    → Sound v
Sound-Opened id w v s e m = record {
  numbered =
      rw m.spds (renumbered (w.serial "spds") (v.serial "spds") w.tables.spds m.serial s.numbered);
  unique = rw m.spds s.unique;
  vouched =
      rw (m.spds, m.approvals)
        (All-map (Vouched w.tables.approvals) (Vouched (w.tables.approvals ++ _ ∷ [])) w.tables.spds
          (λ r k. Vouched-append r w.tables.approvals _ k) s.vouched);
  referring =
      rw (m.spds, m.approvals)
        (All-append (Referring w.tables.spds) w.tables.approvals _ s.referring
          (event-Backed id w.tables.spds w.published s.backed e));
  backed = rw (m.spds, m.published) s.backed;
}

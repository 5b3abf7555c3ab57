-- ===== src/Life/Decision.antt =====
-- A decision keeps the invariant.
use esppdv.Base.{
  ℤ, String, true, false, Option, some, List, ◌≡◌, inl, inr, refl, find?, any, update, eqb_ℤ,
  str_eq, eq_iff, eq_refl, Bool-cases, arith,
}
use esppdv.World.{World}
use esppdv.World.Rows.{Time, SpdRecord, ApprovalRow}
use esppdv.Approval.Repo.{is_open, decided, with_status}
use esppdv.Life.Tables.{All-update, any-updated, any-update}
use esppdv.Life.Effect.{Ruled}
use esppdv.Life.Sound.{is_final, is_ruling, Vouched, Referring, Sound, renumbered, Unique-update}
use esppdv.Life.Preserved.{Persists, Referring-all, Backed_all, Persists-update, Numbered-update}

final-ne-pending : (status : String) → is_final status ≡ true → str_eq status "PENDING" ≡ false
final-ne-pending status h = elim (Bool-cases (str_eq status "PENDING")) [
  | inl e ↦
      let same = (eq_iff status "PENDING").0 e in
      let no : is_final "PENDING" ≡ true = rw same at h in cc no
  | inr e ↦ e
]

final-ne-draft : (status : String) → is_final status ≡ true → str_eq status "DRAFT" ≡ false
final-ne-draft status h = elim (Bool-cases (str_eq status "DRAFT")) [
  | inl e ↦
      let same = (eq_iff status "DRAFT").0 e in
      let no : is_final "DRAFT" ≡ true = rw same at h in cc no
  | inr e ↦ e
]

module _ (status : String) (user_id id : ℤ) (comment : Option String) (now : Time)
    (final : is_final status ≡ true) where
  abbrev ruled : ApprovalRow → ApprovalRow
  ruled a = decided status comment user_id now a

  open_id : (a : ApprovalRow) → is_open user_id id a ≡ true → eqb_ℤ a.spd_id id ≡ true
  open_id a h = ground arith

  open_pending : (a : ApprovalRow) → is_open user_id id a ≡ true → str_eq a.status "PENDING" ≡ true
  open_pending a h = ground arith

  -- The rows of the SPD are vouched for by the approval that was found.
  vouched_new :
      (l : List ApprovalRow) (s : SpdRecord) {request : ApprovalRow}
      → find? (is_open user_id id) l ≡ some request
      → s.id ≡ id
      → any (is_ruling (with_status status now s)) (update (is_open user_id id) ruled l) ≡ true
  vouched_new l s found e =
      any-updated (is_ruling (with_status status now s)) (is_open user_id id) ruled l
        (λ a h. rw (e, open_id a h, eq_refl status) refl) found

  -- A ruling was not open.
  ruling-closed :
      (s : SpdRecord) (a : ApprovalRow)
      → is_final s.status ≡ true
      → is_open user_id id a ≡ true
      → is_ruling s a ≡ true
      → is_ruling s (ruled a) ≡ true
  ruling-closed s a f h k =
      let same : a.status ≡ s.status = (eq_iff a.status s.status).0 (ground (arith, k)) in
      let shut = final-ne-pending s.status f in cc (open_pending a h, rw (← same) at shut)

  vouched_old :
      (l : List ApprovalRow) (s : SpdRecord)
      → Vouched l s
      → Vouched (update (is_open user_id id) ruled l) s
  vouched_old l s h = elim (Bool-cases (is_final s.status)) [
    | inl f ↦ rw f (
        any-update (is_ruling s) (is_open user_id id) ruled l (λ a o k. ruling-closed s a f o k)
          (rw f at h))
    | inr f ↦ rw f refl
  ]

pub Sound-Ruled :
    (status : String) (w v : World) → is_final status ≡ true → Sound w → Ruled status w v → Sound v
Sound-Ruled status w v final s m =
    let old = w.tables.spds in
    let g = with_status status m.now in
    let new = update m.picked g old in
    let kept : Persists old new =
      Persists-update m.picked g old (λ r. refl) (λ r. final-ne-draft status final) in
    let was = w.tables.approvals in
    let pick = is_open m.user_id m.id in
    let now = update pick (decided status m.comment m.user_id m.now) was in
    record {
      numbered = rw m.spds (
          Numbered-update (v.serial "spds") m.picked g old (λ r. refl)
            (renumbered (w.serial "spds") (v.serial "spds") old m.serial s.numbered));
      unique = rw m.spds (Unique-update m.picked g old (λ r. refl) s.unique);
      vouched =
          rw (m.spds, m.approvals)
            (All-update (Vouched was) (Vouched now) m.picked g old
              (λ r _ h. rw final (
                vouched_new status m.user_id m.id m.comment m.now final was r m.found
                  (m.only_id r h)))
              (λ r h _. vouched_old status m.user_id m.id m.comment m.now final was r h) s.vouched);
      referring =
          rw (m.spds, m.approvals)
            (All-update (Referring new) (Referring new) pick
              (decided status m.comment m.user_id m.now) was (λ a h _. h) (λ a h _. h)
              (Referring-all old new was kept s.referring));
      backed = rw (m.spds, m.published) (Backed_all old new w.published kept s.backed);
    }

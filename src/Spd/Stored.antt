-- ===== src/Spd/Stored.antt =====
-- What create_spd has checked and stored.
use esppdv.Base.{
  ℕ, suc, ℤ, pos, String, true, false, [], ◌∷◌, ◌++◌, ◌≡◌, refl, ap, sym, ◌∙◌, any, Bool-cases, inl,
  inr,
}
use esppdv.Text.{varchar, exceeds}
use esppdv.Outcome.{Result, ok}
use esppdv.Exec.Rules.{bind-elim}
use esppdv.World.{World, Tables}
use esppdv.World.Rows.{SpdRecord}
use esppdv.World.Sql.{nextval, advanced}
use esppdv.World.Policies.{spds_insert}
use esppdv.World.Atomic.{Atomic, Atomic-with_tx}
use esppdv.World.Inversion.{exec-ok, exec-serial, reached}
use esppdv.World.Tx.{tx-elim}
use esppdv.Spd.Repo.{SpdRow, Draft, new_spd, has_nomor, inserted, row_of, create_spd}
use esppdv.World.Tx.{acting}

pub Atomic-create_spd :
    (user_id : ℤ) (role : String) (d : Draft) → Atomic (create_spd user_id role d)
unfolding create_spd
Atomic-create_spd user_id role d = Atomic-with_tx _

abbrev pub with_spd : Tables → SpdRecord → Tables
with_spd t s = record t { spds = t.spds ++ s ∷ [] }

-- The id that the next row of spds is given.
abbrev pub next_id : World → ℤ
next_id w = pos (suc (w.serial "spds"))

-- What create_spd has checked and stored: the next serial number is the id of the row.
pub record Stored (user_id : ℤ) (role : String) (d : Draft) (w w' : World) (row : SpdRow)
    : Type 0 where
  pub same : row ≡ row_of (new_spd d (next_id w) user_id w.now)
  pub tables : w'.tables ≡ with_spd w.tables (new_spd d (next_id w) user_id w.now)
  pub serial : w'.serial ≡ advanced "spds" w.serial
  pub now : w'.now ≡ w.now
  pub fits : exceeds 50 d.nomor_surat ≡ false
  pub unique : any (has_nomor (varchar 50 d.nomor_surat)) w.tables.spds ≡ false
  pub permitted : spds_insert (acting w user_id role) (new_spd d (next_id w) user_id w.now) ≡ true

-- What the INSERT has checked, in the state that it works on.
record Inserted (nomor_surat : String) (s : SpdRecord) (w : World) (r : SpdRow) (t : Tables)
    : Type 0 where
  same : row_of s ≡ r
  tables : with_spd w.tables s ≡ t
  fits : exceeds 50 nomor_surat ≡ false
  unique : any (has_nomor s.nomor_surat) w.tables.spds ≡ false
  permitted : spds_insert w s ≡ true

put :
    (s : SpdRecord) (w : World) {r : SpdRow} {t : Tables}
    → ◌≡◌ {A = Result (SpdRow × Tables)} (ok (row_of s, with_spd w.tables s)) (ok (r, t))
    → (row_of s ≡ r) × (with_spd w.tables s ≡ t)
put s w h = (cc h, cc h)

inserted-ok :
    (nomor_surat : String) (s : SpdRecord) (w : World) {r : SpdRow} {t : Tables}
    → inserted nomor_surat s w ≡ ok (r, t)
    → Inserted nomor_surat s w r t
inserted-ok nomor_surat s w h = elim (Bool-cases (exceeds 50 nomor_surat)) [
  | inl e ↦ cc (rw e at h)
  | inr e ↦ elim (Bool-cases (spds_insert w s)) [
    | inr e' ↦ cc (rw (e, e') at h)
    | inl e' ↦ elim (Bool-cases (any (has_nomor s.nomor_surat) w.tables.spds)) [
      | inl e'' ↦ cc (rw (e, e', e'') at h)
      | inr e'' ↦
          let (same, tables) = put s w (rw (e, e', e'') at h) in
          record { same = same; tables = tables; fits = e; unique = e''; permitted = e' }
    ]
  ]
]

-- The id that a sequence gives, and the world after it.
pub nextval-ok :
    (table : String) (w : World) {id : ℤ} {t : World}
    → nextval table w ≡ (ok id, t)
    → (id ≡ pos (suc (w.serial table))) × (record w { serial = advanced table w.serial } ≡ t)
unfolding nextval
nextval-ok table w h = (cc h, cc h)

pub create_spd-Stored :
    (user_id : ℤ) (role : String) (d : Draft) (w w' : World) (row : SpdRow)
    → create_spd user_id role d w ≡ (ok row, w')
    → Stored user_id role d w w' row
unfolding create_spd
create_spd-Stored user_id role d w w' row k = tx-elim user_id role _ w k λ s v i k done.
    bind-elim _ _ s k λ id s1 k1 k.
      let (drawn, e1) = nextval-ok "spds" s k1 in
      let (ran, now2) = exec-ok _ s1 k in
      let (serial2, _, _) = exec-serial _ s1 k in
      let c = inserted-ok d.nomor_surat (new_spd d id user_id s1.now) (reached s1) ran in
      let now1 : s1.now ≡ w.now = rw (← e1) i.now in
      let tables1 : s1.tables ≡ w.tables = rw (← e1) i.tables in
      let setting1 : s1.setting ≡ (acting w user_id role).setting = rw (← e1) i.setting in
      let rls1 : s1.rls ≡ w.rls = rw (← e1) i.rls in
      let id1 : id ≡ next_id w = drawn ∙ ap (λ (f : String → ℕ). pos (suc (f "spds"))) i.serial in
      let e : new_spd d id user_id s1.now ≡ new_spd d (next_id w) user_id w.now =
        rw (id1, now1) refl in
      record {
        same = sym c.same ∙ ap row_of e;
        tables = done.tables ∙ sym c.tables ∙ rw (tables1, e) refl;
        serial = done.serial ∙ serial2 ∙ rw (← e1, i.serial) refl;
        now = done.now ∙ now2 ∙ now1;
        fits = c.fits;
        unique = rw tables1 at c.unique;
        permitted = rw (rls1, setting1, tables1) at c.permitted;
      }

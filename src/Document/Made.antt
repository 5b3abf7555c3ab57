-- ===== src/Document/Made.antt =====
-- What the making of a document has read, stored and recorded.
use mathlib.Core.Option
use esppdv.Base.{
  ℤ, String, Bool, true, false, [], ◌∷◌, ◌++◌, Option, none, some, ◌≡◌, refl, ap, sym, ◌∙◌, find?,
  any, Bool-cases, inl, inr,
}
use esppdv.Text.{exceeds}
use esppdv.Text.{Bytes}
use esppdv.Outcome.{ok}
use esppdv.Exec.Rules.{bind-elim, or_else-ok}
use esppdv.Crypto.{Aead, decrypt_string}
use esppdv.World.{World, Tables}
use esppdv.World.Rows.{Job, SpdRecord, DocumentRow}
use esppdv.World.Quiet.{
  Quiet, quiet_rules, Quiet-or_else, Quiet-bind, Quiet-reach, Quiet-pure, lasting-tables,
  lasting-now,
}
use esppdv.World.Inversion.{
  pure-ok, one_row-ok, lift-elim, gets-elim, quiet-elim, query-ok, exec-ok,
}
use esppdv.World.Tx.{tx-elim, returned, acting}
use esppdv.Spd.Repo.{is_shown}
use esppdv.Spd.Stored.{nextval-ok}
use esppdv.Document.Repo.{
  SpdForDoc, spd_for_doc, new_document, is_spd, inserted, get_spd_for_doc, insert_document,
}
use esppdv.Document.Handler.{
  Writers, DocumentResult, build_document, object_key, no_spd, result_of, announce, put_object,
  process_job,
}

pub Quiet-get_spd_for_doc :
    (user_id : ℤ) (role : String) (id : ℤ) → Quiet (get_spd_for_doc user_id role id)
unfolding get_spd_for_doc
Quiet-get_spd_for_doc user_id role id = search quiet_rules depth 10

pub Quiet-put_object : (key : String) (content : Bytes) → Quiet (put_object key content)
unfolding put_object
Quiet-put_object key content = Quiet-bind Quiet-reach (λ _. record { at = λ w. refl })

Quiet-announce : (connected : Bool) (d : DocumentRow) → Quiet (announce connected d)
Quiet-announce false d = Quiet-pure tt
Quiet-announce true d = search quiet_rules

-- The row of a document, for a job and the id of the row.
abbrev pub row_of : Job → String → ℤ → World → DocumentRow
row_of j ext id w =
    new_document id j.spd_id j.format (object_key j.spd_id j.job_id ext) j.requested_by w.now

abbrev pub with_document : Tables → DocumentRow → Tables
with_document t d = record t { documents = t.documents ++ d ∷ [] }

inserted-ok :
    (format : String) (d : DocumentRow) (t : Tables) {e : DocumentRow} {u : Tables}
    → inserted format d t ≡ ok (e, u)
    → (d ≡ e) × (with_document t d ≡ u)
inserted-ok format d t h = elim (Bool-cases (exceeds 10 format)) [
  | inl e ↦ cc (rw e at h)
  | inr e ↦ elim (Bool-cases (any (is_spd d.spd_id) t.spds)) [
    | inl k ↦ returned _ _ _ _ (rw (e, k) at h)
    | inr k ↦ cc (rw (e, k) at h)
  ]
]

insert_document-ok :
    (user_id : ℤ) (role : String) (spd_id : ℤ) (format key : String) (by_user : ℤ) (w : World)
    {d : DocumentRow} {t : World}
    → insert_document user_id role spd_id format key by_user w ≡ (ok d, t)
    → (id : ℤ) × (d ≡ new_document id spd_id format key by_user w.now)
      × (t.tables ≡ with_document w.tables d)
unfolding insert_document
insert_document-ok user_id role spd_id format key by_user w k =
    tx-elim user_id role _ w k λ s v i ran done. bind-elim _ _ s ran λ id s1 k1 ran.
      let (_, e1) = nextval-ok "documents" s k1 in
      let (put, _) = exec-ok _ s1 ran in
      let (same, tables) = inserted-ok _ _ _ put in
      let now1 : s1.now ≡ w.now = rw (← e1) i.now in
      let tables1 : s1.tables ≡ w.tables = rw (← e1) i.tables in
      (
        id,
        sym same ∙ ap (λ n. new_document id spd_id format key by_user n) now1,
        done.tables ∙ sym tables ∙ λ n. with_document (tables1 n) (same n),
      )

mapped :
    (o : Option SpdRecord) {d : SpdForDoc}
    → Option.map spd_for_doc o ≡ some d
    → (s : SpdRecord) × (o ≡ some s) × (spd_for_doc s ≡ d)
mapped none h = cc
mapped (some s) h = (s, refl, cc)

get_spd_for_doc-found :
    (user_id : ℤ) (role : String) (id : ℤ) (w : World) {d : SpdForDoc} {t : World}
    → get_spd_for_doc user_id role id w ≡ (ok d, t)
    → (s : SpdRecord) × (find? (is_shown id (acting w user_id role)) w.tables.spds ≡ some s)
      × (spd_for_doc s ≡ d)
unfolding get_spd_for_doc
get_spd_for_doc-found user_id role id w k = tx-elim user_id role _ w k λ s v i ran _.
    let found = one_row-ok _ (query-ok _ s ran) in
    let (r, e, same) = mapped _ found in (r, rw (i.tables, i.rls, i.setting) at e, same)

-- What a finished job has read and recorded.
pub record Made (gcm : Aead) (ws : Writers) (j : Job) (w w' : World) (res : DocumentResult)
    : Type 0 where
  pub spd : SpdRecord
  pub found : find? (is_shown j.spd_id (acting w j.requested_by j.role)) w.tables.spds ≡ some spd
  pub purpose : String
  pub opened_purpose : decrypt_string gcm (spd_for_doc spd).purpose_enc "spds:purpose" ≡ ok purpose
  pub total : String
  pub opened_total :
      decrypt_string gcm (spd_for_doc spd).total_cost_enc "spds:total_cost" ≡ ok total
  pub content : Bytes
  pub content_type : String
  pub ext : String
  pub built :
      build_document ws j.format spd.nomor_surat purpose total ≡ ok (content, content_type, ext)
  pub id : ℤ
  pub tables : w'.tables ≡ with_document w.tables (row_of j ext id w)
  pub result : res ≡ result_of (row_of j ext id w)

-- A job that ends in a document has read an SPD that the policies show the user of the job, has
-- opened its fields and had them written in the format of the job; it has added one row, of that
-- SPD, user and format and with the key of the object, changed nothing else in the tables, and
-- returned the row.
pub process_job-Made :
    (gcm : Aead) (ws : Writers) (j : Job) (w w' : World) (res : DocumentResult)
    → process_job gcm ws j w ≡ (ok res, w')
    → Made gcm ws j w w' res
unfolding process_job
process_job-Made gcm ws j w w' res k =
    quiet-elim _ _ _ (Quiet-or_else no_spd (Quiet-get_spd_for_doc _ _ _)) k λ d w1 got same1 k.
      lift-elim _ _ _ k λ purpose opened_purpose k. lift-elim _ _ _ k λ total opened_total k.
        lift-elim _ _ _ k λ b built k. quiet-elim _ _ _ (Quiet-put_object _ _) k λ _ w2 _ same2 k.
          bind-elim _ _ _ k λ doc w3 added k. gets-elim _ _ _ k λ k.
            quiet-elim _ _ _ (Quiet-announce _ _) k λ _ w4 _ same4 k.
              let (s, found, is) = get_spd_for_doc-found _ _ _ w (or_else-ok _ _ w got) in
              let (id, row, tables) = insert_document-ok _ _ _ _ _ _ w2 added in
              let (e, ended) = pure-ok _ w4 k in
              let kept : w2.tables ≡ w.tables = lasting-tables w w2 (same2 ∙ same1) in
              let now : w2.now ≡ w.now = lasting-now w w2 (same2 ∙ same1) in
              let same : doc ≡ row_of j (b.2) id w = row ∙ rw now refl in
              record {
                spd = s;
                found = found;
                purpose = purpose;
                opened_purpose = rw (sym is) at opened_purpose;
                total = total;
                opened_total = rw (sym is) at opened_total;
                content = b.0;
                content_type = b.1;
                ext = b.2;
                built = rw (sym is) at built;
                id = id;
                tables =
                    ap (λ (v : World). v.tables) (sym ended)
                    ∙ lasting-tables w3 w4 same4
                    ∙ tables
                    ∙ (λ n. with_document (kept n) (same n));
                result = sym e ∙ ap result_of same;
              }

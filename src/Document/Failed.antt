-- ===== src/Document/Failed.antt =====
-- A job that fails, a job that has to succeed, and a request for a document.
use esppdv.Base.{
  ℤ, pos, suc, String, Bool, true, false, [], ◌∷◌, some, ◌≡◌, refl, find?, any, Bool-cases, inl,
  inr,
}
use esppdv.Text.{exceeds}
use esppdv.Text.{Bytes}
use esppdv.Outcome.{Error, Result, ok, err}
use esppdv.Exec.{pure, gets, attempt, forget, continue, or_else, ◌>>=◌}
use esppdv.Crypto.{Aead, decrypt_string}
use esppdv.World.{World}
use esppdv.World.Rows.{Job, SpdRecord, DocumentRow, document_generated}
use esppdv.World.Sql.{reach, query, exec, nextval, set_rls_context, with_tx, publish}
use esppdv.World.Quiet.{Quiet-or_else, Quiet-lift}
use esppdv.World.Atomic.{Atomic, Atomic-bind, Atomic-bind_total, Atomic-with_tx}
use esppdv.World.Tx.{acting}
use esppdv.Spd.Repo.{is_shown}
use esppdv.Document.Repo.{spd_for_doc, is_spd, get_spd_for_doc, insert_document}
use esppdv.Document.Handler.{
  Writers, build_document, object_key, no_spd, result_of, announce, put_object, process_job,
}
use esppdv.Document.Made.{Quiet-get_spd_for_doc, Quiet-put_object, row_of}

after_announce :
    {A : Type 0} (r : Result (Unit {0})) (a : A) (v : World)
    → (continue
        (continue (forget r v).0 (λ _. pure tt) (forget r v).1).0
        (λ _. pure a)
        (continue (forget r v).0 (λ _. pure tt) (forget r v).1).1).0
      ≡ ok a
after_announce (ok _) a v = refl
after_announce (err e) a v = refl

-- What follows the row of a document does not fail.
announced :
    {A : Type 0} (connected : Bool) (d : DocumentRow) (a : A) (w : World)
    → ((announce connected d >>= λ _. pure a) w).0 ≡ ok a
unfolding ◌>>=◌ attempt
announced false d a w = refl
announced true d a w =
    after_announce (publish (document_generated d.id d.spd_id) w).0 a
      (publish (document_generated d.id d.spd_id) w).1

finished :
    (d : DocumentRow) (w : World)
    → ((gets (λ (v : World). v.nc) >>= λ c. announce c d >>= λ _. pure (result_of d)) w).0
      ≡ ok (result_of d)
unfolding ◌>>=◌
finished d w = announced w.nc d (result_of d) w

Atomic-insert_document :
    (user_id : ℤ) (role : String) (spd_id : ℤ) (format key : String) (by_user : ℤ)
    → Atomic (insert_document user_id role spd_id format key by_user)
unfolding insert_document
Atomic-insert_document user_id role spd_id format key by_user = Atomic-with_tx _

process_job-Atomic : (gcm : Aead) (ws : Writers) (j : Job) → Atomic (process_job gcm ws j)
unfolding process_job
process_job-Atomic gcm ws j = Atomic-bind (Quiet-or_else no_spd (Quiet-get_spd_for_doc _ _ _)) λ d.
    Atomic-bind (Quiet-lift _) λ purpose. Atomic-bind (Quiet-lift _) λ total.
      Atomic-bind (Quiet-lift _) λ b. Atomic-bind (Quiet-put_object _ _) λ _.
        Atomic-bind_total _ (Atomic-insert_document _ _ _ _ _ _)
          λ w doc t k. (result_of doc, finished doc t)

-- A job that ends in an error has left every table as it was.
pub process_job_fails :
    (gcm : Aead) (ws : Writers) (j : Job) (w : World) (e : Error)
    → (process_job gcm ws j w).0 ≡ err e
    → (process_job gcm ws j w).1.tables ≡ w.tables
process_job_fails gcm ws j w e k = (process_job-Atomic gcm ws j).at w e k

-- While no outside service fails, a job whose SPD is shown to its user, can be opened and can be
-- written in its format of at most ten characters ends in the document, with the object stored
-- under its key in front of the older ones.
pub process_job_answers :
    (gcm : Aead) (ws : Writers) (j : Job) (w : World) (s : SpdRecord) (purpose total : String)
    (content : Bytes) (content_type ext : String)
    → w.faults ≡ []
    → find? (is_shown j.spd_id (acting w j.requested_by j.role)) w.tables.spds ≡ some s
    → decrypt_string gcm (spd_for_doc s).purpose_enc "spds:purpose" ≡ ok purpose
    → decrypt_string gcm (spd_for_doc s).total_cost_enc "spds:total_cost" ≡ ok total
    → build_document ws j.format s.nomor_surat purpose total ≡ ok (content, content_type, ext)
    → exceeds 10 j.format ≡ false
    → any (is_spd j.spd_id) w.tables.spds ≡ true
    → ((process_job gcm ws j w).0
        ≡ ok (result_of (row_of j ext (pos (suc (w.serial "documents"))) w)))
      × ((process_job gcm ws j w).1.objects
          ≡ (object_key j.spd_id j.job_id ext, content) ∷ w.objects)
unfolding process_job get_spd_for_doc insert_document put_object ◌>>=◌ or_else with_tx
    set_rls_context reach query exec nextval attempt publish
process_job_answers gcm ws j w s purpose total content content_type ext calm found p t built short
      is =
    elim (Bool-cases w.nc) [
      | inl c ↦ (
        rw (calm, found, p, t, built, short, is, c) refl,
        rw (calm, found, p, t, built, short, is, c) refl,
      )
      | inr c ↦ (
        rw (calm, found, p, t, built, short, is, c) refl,
        rw (calm, found, p, t, built, short, is, c) refl,
      )
    ]

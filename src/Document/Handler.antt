-- ===== src/Document/Handler.antt =====
-- services/document-service/internal/http/handler.go. The writers of the three formats are gofpdf, a
-- parameter, and those of Ooxml. A time in the reply stands for its RFC 3339 text.
use esppdv.Base.{ℤ, String, Bool, true, false, ◌||◌, ◌∷◌, Option, none, some, str_eq, if◌then◌else◌}
use esppdv.Text.{Bytes, ◌+++◌, to_lower, trim_space}
use esppdv.Decimal.{format_int}
use esppdv.Outcome.{Error, http, no_rows, Result, ok, err}
use esppdv.Exec.{pure, lift, gets, guard, or_else, attempt, ◌>>=◌, ◌>>◌}
use esppdv.Crypto.{Aead, decrypt_string}
use esppdv.Totp.{unix}
use esppdv.World.{World}
use esppdv.World.Rows.{Job, DocumentRow, document_generate, document_generated}
use esppdv.World.Sql.{M, reach, publish}
use esppdv.Httpx.{AuthInfo, Locals, require_auth, parse_id_param}
use esppdv.Notification.Handler.{new_id}
use esppdv.Document.Repo.{get_spd_for_doc, insert_document}

pub record DocumentResult : Type 0 where
  pub document_id : ℤ
  pub spd_id : ℤ
  pub format : String
  pub object_key : String
  pub created_at : ℤ

-- What Generate replies: a job that is queued, by its id, or a document.
pub data Generated : Type 0 where
  queued : String → Generated
  created : DocumentResult → Generated

-- mc.PutObject: the newest object of a key stands first.
unfoldable pub put_object : String → Bytes → M (Unit {0})
put_object key content = do reach; λ w. (ok tt, record w { objects = (key, content) ∷ w.objects })

-- The writers, by nomor_surat, purpose and total.
pub record Writers : Type 0 where
  pub pdf : String → String → String → Result Bytes
  pub docx : String → String → String → Result Bytes
  pub xlsx : String → String → String → Result Bytes

abbrev with_types : Result Bytes → String → String → Result (Bytes × String × String)
with_types (err e) content_type ext = err e
with_types (ok b) content_type ext = ok (b, content_type, ext)

-- buildDocument: the content, its type and the extension.
unfoldable pub build_document :
    Writers → String → String → String → String → Result (Bytes × String × String)
build_document ws format nomor_surat purpose total =
    if str_eq format "pdf"
    then with_types (ws.pdf nomor_surat purpose total) "application/pdf" "pdf"
    else if str_eq format "docx"
    then with_types (ws.docx nomor_surat purpose total)
        "application/vnd.openxmlformats-officedocument.wordprocessingml.document" "docx"
    else if str_eq format "xlsx"
    then with_types (ws.xlsx nomor_surat purpose total)
        "application/vnd.openxmlformats-officedocument.spreadsheetml.sheet" "xlsx"
    else err (http 400 "unsupported format")

abbrev pub object_key : ℤ → String → String → String
object_key spd_id job_id ext =
    "spds/"
    +++ format_int spd_id
    +++ "/spd_"
    +++ format_int spd_id
    +++ "_"
    +++ job_id
    +++ "."
    +++ ext

abbrev pub no_spd : Error → Error
no_spd no_rows = http 404 "spd not found"
no_spd e = e

abbrev pub result_of : DocumentRow → DocumentResult
result_of d = record {
  document_id = d.id;
  spd_id = d.spd_id;
  format = d.format;
  object_key = d.object_key;
  created_at = unix d.created_at;
}

-- The event of a finished document; an error of Publish is dropped.
abbrev pub announce : Bool → DocumentRow → M (Unit {0})
announce false d = pure tt
announce true d = attempt (publish (document_generated d.id d.spd_id)) >> pure tt

abbrev pub is_format : String → Bool
is_format f = str_eq f "pdf" || str_eq f "docx" || str_eq f "xlsx"

-- The format of a request, "pdf" where it has none.
abbrev pub or_pdf : String → String
or_pdf f = if str_eq f "" then "pdf" else f

abbrev pub job_of : String → ℤ → String → AuthInfo → World → Job
job_of job_id spd_id format a w = record {
  job_id = job_id;
  spd_id = spd_id;
  format = format;
  requested_by = a.user_id;
  role = a.role;
  requested_at = w.now;
}

module _ (gcm : Aead) (ws : Writers) where
  -- processJob
  unfoldable pub process_job : Job → M DocumentResult
  process_job j = do
    spd ← or_else (get_spd_for_doc j.requested_by j.role j.spd_id) no_spd
    purpose ← lift (decrypt_string gcm spd.purpose_enc "spds:purpose")
    total ← lift (decrypt_string gcm spd.total_cost_enc "spds:total_cost")
    (content, content_type, ext) ← lift (build_document ws j.format spd.nomor_surat purpose total)
    put_object (object_key j.spd_id j.job_id ext) content
    doc ←
        insert_document j.requested_by j.role j.spd_id j.format (object_key j.spd_id j.job_id ext)
          j.requested_by
    connected ← gets (λ w. w.nc)
    announce connected doc
    pure (result_of doc)

  abbrev pub dispatch : Bool → Job → M Generated
  dispatch true j = publish (document_generate j) >> pure (queued j.job_id)
  dispatch false j = process_job j >>= λ res. pure (created res)

  -- Generate, by the format of the body, "" if the body has none or BodyParser refuses it.
  unfoldable pub generate : Locals → String → String → M Generated
  generate locals spd_id_str format_str = do
    spd_id ← parse_id_param spd_id_str
    a ← require_auth locals
    format ← pure (or_pdf (to_lower (trim_space format_str)))
    guard (is_format format) (http 400 "format must be pdf|docx|xlsx")
    job_id ← new_id 16
    j ← gets (job_of job_id spd_id format a)
    connected ← gets (λ w. w.nc)
    dispatch connected j

  -- The consumer of "document.generate", for the job, or `none` if the JSON is invalid.
  unfoldable pub on_document_generate : Option Job → M (Unit {0})
  on_document_generate none = pure tt
  on_document_generate (some j) = attempt (process_job j) >> pure tt

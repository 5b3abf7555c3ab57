-- ===== src/Document/Tests.antt =====
-- Runs of the document service on sample data.
use Prim.Native.Char.{code}
use esppdv.Base.{
  ℕ, suc, refl, ◌≡◌, ◌∷◌, [], none, some, String, pos, false, ◌==◌, Bool-cases, inl, inr,
  if◌then◌else◌,
}
use esppdv.Text.{exceeds}
use esppdv.Outcome.{http, Result, ok, err}
use esppdv.Exec.{◌>>=◌, or_else, attempt}
use esppdv.Crypto.{decrypt_string}
use esppdv.World.{World}
use esppdv.World.Rows.{Job, SpdRecord}
use esppdv.World.Sql.{reach, query, exec, nextval, set_rls_context, with_tx, publish}
use esppdv.Document.Repo.{get_spd_for_doc, insert_document}
use esppdv.Document.Ooxml.{ZipLib, build_docx, build_xlsx}
use esppdv.Document.Handler.{
  Writers, DocumentResult, build_document, object_key, result_of, put_object, process_job,
}
use esppdv.Document.Made.{Made, process_job-Made, row_of}
use esppdv.Document.Failed.{process_job_fails, process_job_answers}
use esppdv.Document.Markup.{tags, Packed, docx_tags, xlsx_tags, markup_kept}
use esppdv.Sample.Cipher.{toy_gcm}
use esppdv.Sample.Data.{sample_world, start}

abbrev trip : SpdRecord
trip = record {
  id = pos 42;
  nomor_surat = "001/SPD";
  employee_id = none;
  unit_id = pos 3;
  purpose_enc = some (1 ∷ 114 ∷ 97 ∷ 112 ∷ 97 ∷ 116 ∷ []);
  total_cost_enc = some (2 ∷ 49 ∷ 53 ∷ 48 ∷ 48 ∷ 48 ∷ 48 ∷ 48 ∷ []);
  status = "DRAFT";
  created_by = pos 7;
  created_at = start;
  updated_at = start;
  deleted = false;
}

abbrev trip_world : World
trip_world = record sample_world { tables = record (sample_world.tables) { spds = trip ∷ [] } }

abbrev toy_writers : Writers
toy_writers = record {
  pdf = λ nomor_surat purpose total. ok (37 ∷ 80 ∷ []);
  docx = λ nomor_surat purpose total. ok (80 ∷ 75 ∷ []);
  xlsx = λ nomor_surat purpose total. ok (80 ∷ 75 ∷ []);
}

abbrev order : Job
order = record {
  job_id = "a1";
  spd_id = pos 42;
  format = "pdf";
  requested_by = pos 7;
  role = "APPROVER";
  requested_at = start;
}

abbrev after_job : World
after_job = (process_job toy_gcm toy_writers order trip_world).1

abbrev the_document : DocumentResult
the_document = result_of (row_of order "pdf" (pos 42) trip_world)

job_runs :
    ◌≡◌ {A = Result DocumentResult × World}
      (process_job toy_gcm toy_writers order trip_world)
      (ok the_document, after_job)
unfolding process_job ◌>>=◌ or_else get_spd_for_doc insert_document put_object with_tx reach query
    exec nextval set_rls_context attempt publish decrypt_string build_document exceeds
job_runs = refl

process_job-Made_example : Made toy_gcm toy_writers order trip_world after_job the_document
process_job-Made_example =
    process_job-Made toy_gcm toy_writers order trip_world after_job the_document job_runs

no_spd_found :
    (process_job toy_gcm toy_writers order sample_world).0 ≡ err (http 404 "spd not found")
unfolding process_job ◌>>=◌ or_else get_spd_for_doc with_tx reach query set_rls_context
no_spd_found = refl

process_job_fails_example :
    (process_job toy_gcm toy_writers order sample_world).1.tables ≡ sample_world.tables
process_job_fails_example =
    process_job_fails toy_gcm toy_writers order sample_world (http 404 "spd not found") no_spd_found

opened_purpose :
    decrypt_string toy_gcm (1 ∷ 114 ∷ 97 ∷ 112 ∷ 97 ∷ 116 ∷ []) "spds:purpose" ≡ ok "rapat"
unfolding decrypt_string
opened_purpose = refl

opened_total :
    decrypt_string toy_gcm (2 ∷ 49 ∷ 53 ∷ 48 ∷ 48 ∷ 48 ∷ 48 ∷ 48 ∷ []) "spds:total_cost"
    ≡ ok "1500000"
unfolding decrypt_string
opened_total = refl

written :
    build_document toy_writers "pdf" "001/SPD" "rapat" "1500000"
    ≡ ok (37 ∷ 80 ∷ [], "application/pdf", "pdf")
unfolding build_document
written = refl

process_job_answers_example :
    ((process_job toy_gcm toy_writers order trip_world).0
      ≡ ok (result_of (row_of order "pdf" (pos 42) trip_world)))
    × ((process_job toy_gcm toy_writers order trip_world).1.objects
        ≡ (object_key (pos 42) "a1" "pdf", 37 ∷ 80 ∷ []) ∷ [])
unfolding exceeds
process_job_answers_example =
    process_job_answers toy_gcm toy_writers order trip_world trip "rapat" "1500000" (37 ∷ 80 ∷ [])
      "application/pdf" "pdf" refl refl opened_purpose opened_total written refl refl

-- An escape of the one character that opens a tag.
toy_escape : String → String
toy_escape String.[] = String.[]
toy_escape (String.◌∷◌ c s) =
    let rest = toy_escape s in if code c == 60 then String.◌∷◌ "&" rest else String.◌∷◌ c rest

toy_escape-tags : (s : String) → tags (toy_escape s) ≡ 0
unfolding tags toy_escape
toy_escape-tags String.[] = refl
toy_escape-tags (String.◌∷◌ c s) = elim (Bool-cases (code c == 60)) [
  | inl e ↦ rw e (toy_escape-tags s)
  | inr e ↦ rw (e, e) (toy_escape-tags s)
]

-- A zip.Writer that counts its files.
abbrev toy_zip : ZipLib ℕ
toy_zip = record { new_writer = 0; create = λ n name text. ok (suc n); close = λ n. ok (n ∷ []) }

markup_kept_example :
    Packed toy_zip (build_docx toy_zip toy_escape "1" "<b>" "2") docx_tags
    × Packed toy_zip (build_xlsx toy_zip toy_escape "1" "<b>" "2") xlsx_tags
markup_kept_example = markup_kept toy_zip toy_escape "1" "<b>" "2" toy_escape-tags

-- ===== src/Document/Repo.antt =====
-- services/document-service/internal/repo/repo.go: the rows of spds that a document is made of, and
-- the table documents.
use mathlib.Core.Option
use esppdv.Base.{
  ℤ, String, Bool, [], ◌∷◌, ◌++◌, Option, none, some, find?, any, eqb_ℤ, if◌then◌else◌,
}
use esppdv.Text.{Bytes, varchar, exceeds}
use esppdv.Outcome.{failure, Result, ok, err}
use esppdv.Exec.{◌>>=◌, ◌>>◌}
use esppdv.World.{Tables}
use esppdv.World.Rows.{Time, SpdRecord, DocumentRow}
use esppdv.World.Sql.{M, query, exec, one_row, nextval, set_rls_context, with_tx}
use esppdv.Spd.Repo.{is_shown}

pub record SpdForDoc : Type 0 where
  pub id : ℤ
  pub nomor_surat : String
  pub unit_id : ℤ
  pub purpose_enc : Bytes
  pub total_cost_enc : Bytes
  pub status : String
  pub created_at : Time

abbrev nil_if_null : Option Bytes → Bytes
nil_if_null none = []
nil_if_null (some b) = b

abbrev pub spd_for_doc : SpdRecord → SpdForDoc
spd_for_doc s = record {
  id = s.id;
  nomor_surat = s.nomor_surat;
  unit_id = s.unit_id;
  purpose_enc = nil_if_null s.purpose_enc;
  total_cost_enc = nil_if_null s.total_cost_enc;
  status = s.status;
  created_at = s.created_at;
}

-- GetSPDForDoc: the statement is that of GetSPD, for fewer columns.
unfoldable pub get_spd_for_doc : ℤ → String → ℤ → M SpdForDoc
get_spd_for_doc user_id role id = with_tx (do
  set_rls_context user_id role
  query (λ w. one_row (Option.map spd_for_doc (find? (is_shown id w) w.tables.spds))))

abbrev pub new_document : ℤ → ℤ → String → String → ℤ → Time → DocumentRow
new_document id spd_id format object_key requested_by now = record {
  id = id;
  spd_id = spd_id;
  format = varchar 10 format;
  object_key = object_key;
  requested_by = requested_by;
  created_at = now;
}

abbrev pub is_spd : ℤ → SpdRecord → Bool
is_spd id s = eqb_ℤ s.id id

-- The format is VARCHAR(10), and spd_id refers to a row of spds.
abbrev pub inserted : String → DocumentRow → Tables → Result (DocumentRow × Tables)
inserted format d t =
    if exceeds 10 format
    then err (failure "value too long for type character varying(10)")
    else if any (is_spd d.spd_id) t.spds
    then ok (d, record t { documents = t.documents ++ d ∷ [] })
    else err (failure "insert on table \"documents\" violates foreign key constraint")

-- InsertDocument
unfoldable pub insert_document : ℤ → String → ℤ → String → String → ℤ → M DocumentRow
insert_document user_id role spd_id format object_key requested_by = with_tx (do
  set_rls_context user_id role
  id ← nextval "documents"
  exec
      (λ w. inserted format (new_document id spd_id format object_key requested_by w.now) w.tables))

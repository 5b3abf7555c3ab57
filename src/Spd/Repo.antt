-- ===== src/Spd/Repo.antt =====
-- services/spd-service/internal/repo/repo.go: the table spds. The keys of other tables that a row
-- refers to are checked by the database; a row that breaks one is a fault of the statement.
use mathlib.Core.Option
use esppdv.Base.{
  ℤ, String, Bool, false, not, ◌&&◌, List, [], ◌∷◌, ◌++◌, Option, none, some, str_eq, eqb_ℤ, ltb_ℤ,
  find?, any, filter, map, update, if◌then◌else◌,
}
use esppdv.Text.{Bytes, varchar, exceeds}
use esppdv.Outcome.{failure, no_rows, Result, ok, err}
use esppdv.Exec.{◌>>=◌, ◌>>◌}
use esppdv.Paging.{order_by, page}
use esppdv.World.{World, Tables}
use esppdv.World.Rows.{Time, SpdRecord}
use esppdv.World.Sql.{M, query, exec, one_row, nextval, set_rls_context, with_tx}
use esppdv.World.Policies.{spds_select, spds_insert, spds_update}

pub record SpdRow : Type 0 where
  pub id : ℤ
  pub nomor_surat : String
  pub employee_id : Option ℤ
  pub unit_id : ℤ
  pub purpose_enc : Bytes
  pub total_cost_enc : Bytes
  pub status : String
  pub created_by : ℤ
  pub created_at : Time
  pub updated_at : Time

-- A NULL is scanned into a nil slice.
abbrev nil_if_null : Option Bytes → Bytes
nil_if_null none = []
nil_if_null (some b) = b

abbrev pub row_of : SpdRecord → SpdRow
row_of s = record {
  id = s.id;
  nomor_surat = s.nomor_surat;
  employee_id = s.employee_id;
  unit_id = s.unit_id;
  purpose_enc = nil_if_null s.purpose_enc;
  total_cost_enc = nil_if_null s.total_cost_enc;
  status = s.status;
  created_by = s.created_by;
  created_at = s.created_at;
  updated_at = s.updated_at;
}

-- The values of a new row.
pub record Draft : Type 0 where
  pub nomor_surat : String
  pub unit_id : ℤ
  pub employee_id : Option ℤ
  pub purpose_enc : Bytes
  pub total_cost_enc : Bytes

abbrev pub new_spd : Draft → ℤ → ℤ → Time → SpdRecord
new_spd d id user_id now = record {
  id = id;
  nomor_surat = varchar 50 d.nomor_surat;
  employee_id = d.employee_id;
  unit_id = d.unit_id;
  purpose_enc = some d.purpose_enc;
  total_cost_enc = some d.total_cost_enc;
  status = "DRAFT";
  created_by = user_id;
  created_at = now;
  updated_at = now;
  deleted = false;
}

abbrev pub has_nomor : String → SpdRecord → Bool
has_nomor nomor_surat s = str_eq s.nomor_surat nomor_surat

-- The text of the request has to fit VARCHAR(50); then the policy is checked, and then that the
-- number is unique.
abbrev pub inserted : String → SpdRecord → World → Result (SpdRow × Tables)
inserted nomor_surat s w =
    if exceeds 50 nomor_surat
    then err (failure "value too long for type character varying(50)")
    else if not (spds_insert w s)
    then err (failure "new row violates row-level security policy for table \"spds\"")
    else if any (has_nomor s.nomor_surat) w.tables.spds
    then err (failure "duplicate key value violates unique constraint")
    else ok (row_of s, record (w.tables) { spds = w.tables.spds ++ s ∷ [] })

-- CreateSPD
unfoldable pub create_spd : ℤ → String → Draft → M SpdRow
create_spd user_id role d = with_tx (do
  set_rls_context user_id role
  id ← nextval "spds"
  exec (λ w. inserted d.nomor_surat (new_spd d id user_id w.now) w))

abbrev pub is_shown : ℤ → World → SpdRecord → Bool
is_shown id w s = eqb_ℤ s.id id && not s.deleted && spds_select w s

-- GetSPD
unfoldable pub get_spd : ℤ → String → ℤ → M SpdRow
get_spd user_id role id = with_tx (do
  set_rls_context user_id role
  query (λ w. one_row (Option.map row_of (find? (is_shown id w) w.tables.spds))))

abbrev pub is_listed : World → SpdRecord → Bool
is_listed w s = not s.deleted && spds_select w s

abbrev newer : SpdRecord → SpdRecord → Bool
newer s t = ltb_ℤ t.created_at s.created_at

-- ListSPDs
unfoldable pub list_spds : ℤ → String → ℤ → ℤ → M (List SpdRow)
list_spds user_id role limit offset = with_tx (do
  set_rls_context user_id role
  query (λ w.
      ok (map row_of (page limit offset (order_by newer (filter (is_listed w) w.tables.spds))))))

-- The rows that the UPDATE of SubmitSPD reaches; the select policy admits them all.
abbrev pub is_submittable : ℤ → World → SpdRecord → Bool
is_submittable id w s = eqb_ℤ s.id id && str_eq s.status "DRAFT" && not s.deleted && spds_update w s

abbrev pub submitted : Time → SpdRecord → SpdRecord
submitted now s = record s { status = "SUBMITTED"; updated_at = now }

-- `RETURNING`: the first of the rows that were updated.
abbrev pub submit_row : ℤ → World → Option SpdRecord → Result (SpdRow × Tables)
submit_row id w none = err no_rows
submit_row id w (some s) = ok (
  row_of (submitted w.now s),
  record (w.tables) { spds = update (is_submittable id w) (submitted w.now) w.tables.spds },
)

-- SubmitSPD
unfoldable pub submit_spd : ℤ → String → ℤ → M SpdRow
submit_spd user_id role id = with_tx (do
  set_rls_context user_id role
  exec (λ w. submit_row id w (find? (is_submittable id w) w.tables.spds)))

-- ===== src/Etl/Money.antt =====
-- migrateBudgets and migrateSPDs of tools/etl/main.go. Columns that the tables here leave out are
-- parsed all the same.
use esppdv.Base.{
  pos, String, Bool, true, false, not, ◌||◌, Option, none, some, any, str_eq, if◌then◌else◌,
}
use esppdv.Text.{Bytes, varchar, exceeds}
use esppdv.Exec.{pure, lift, gets, ◌>>=◌, ◌>>◌}
use esppdv.Crypto.{Aead, encrypt_string}
use esppdv.World.Rows.{Time, BudgetRecord, SpdRecord}
use esppdv.World.Sql.{M, set_rls_context}
use esppdv.World.Policies.{spds_insert, budgets_insert}
use esppdv.Etl.Csv.{File, Row, str}
use esppdv.Etl.Field.{int64_ptr, int64_val, time_ptr}
use esppdv.Etl.Load.{Target, migrate, or_now, duplicate}
use esppdv.Etl.Org.{is_set}

-- What the database has against a row, where a test is the case.
abbrev pub when : Bool → String → Option String → Option String
when true e rest = some e
when false e rest = rest

abbrev pub against_policy : String
against_policy = "new row violates row-level security policy"

abbrev pub budgets : Target BudgetRecord
budgets = record {
  rows = λ t. t.budgets;
  with_rows = λ l t. record t { budgets = l };
  key = λ b. (b.id, pos 0);
  fitted = λ b. b;
  invalid = λ b w. when (not (budgets_insert w b)) against_policy none;
  refused = λ b w. none;
}

abbrev pub is_status : String → Bool
is_status s =
    str_eq s "DRAFT"
    || str_eq s "SUBMITTED"
    || str_eq s "APPROVED"
    || str_eq s "REJECTED"
    || str_eq s "CANCELLED"

abbrev has_nomor : String → SpdRecord → Bool
has_nomor nomor_surat s = str_eq s.nomor_surat nomor_surat

abbrev pub spds : Target SpdRecord
spds = record {
  rows = λ t. t.spds;
  with_rows = λ l t. record t { spds = l };
  key = λ s. (s.id, pos 0);
  fitted = λ s. record s { nomor_surat = varchar 50 s.nomor_surat };
  invalid = λ s w. when (exceeds 50 s.nomor_surat) "value too long for type character varying(50)" (
      when (not (spds_insert w s)) against_policy
        (when (not (is_status s.status)) "new row violates check constraint" none));
  refused = λ s w. duplicate (any (has_nomor s.nomor_surat) w.tables.spds);
}

-- `if status == "" { status = … }`
abbrev pub status_or : String → String → String
status_or default status = if str_eq status "" then default else status

module _ (gcm : Aead) where
  -- `if v := str(row, …); v != "" { … }`: an empty text leaves NULL.
  unfoldable pub encrypt_field : String → String → M (Option Bytes)
  encrypt_field v aad =
      if str_eq v "" then pure none else (encrypt_string gcm v aad >>= λ b. pure (some b))

module _ (parse : String → String → Option Time) (gcm : Aead) where
  unfoldable pub budget_of : Row → M BudgetRecord
  budget_of row = do
    id ← lift (int64_val row "id")
    unit_id ← lift (int64_val row "unit_id")
    created_by ← lift (int64_val row "created_by")
    set_rls_context created_by "SUPER_ADMIN"
    amount_enc ← encrypt_field gcm (str row "amount") "budgets:amount"
    source_enc ← encrypt_field gcm (str row "source") "budgets:source"
    created_at ← lift (time_ptr parse row "created_at")
    updated_at ← lift (time_ptr parse row "updated_at")
    deleted_at ← lift (time_ptr parse row "deleted_at")
    now ← gets (λ w. w.now)
    pure (record {
      id = id;
      unit_id = unit_id;
      amount_enc = amount_enc;
      source_enc = source_enc;
      description = str row "description";
      created_by = created_by;
      created_at = or_now created_at now;
      updated_at = or_now updated_at now;
      deleted = is_set deleted_at;
    })

  -- migrateBudgets
  unfoldable pub migrate_budgets : File → Bool → M (Unit {0})
  migrate_budgets file dry = migrate budgets budget_of file dry

  unfoldable pub spd_of : Row → M SpdRecord
  spd_of row = do
    id ← lift (int64_val row "id")
    unit_id ← lift (int64_val row "unit_id")
    employee_id ← lift (int64_ptr row "employee_id")
    budget_id ← lift (int64_ptr row "budget_id")
    current_approver_id ← lift (int64_ptr row "current_approver_id")
    created_by ← lift (int64_val row "created_by")
    set_rls_context created_by "SUPER_ADMIN"
    purpose_enc ← encrypt_field gcm (str row "purpose") "spds:purpose"
    total_cost_enc ← encrypt_field gcm (str row "total_cost") "spds:total_cost"
    created_at ← lift (time_ptr parse row "created_at")
    updated_at ← lift (time_ptr parse row "updated_at")
    deleted_at ← lift (time_ptr parse row "deleted_at")
    now ← gets (λ w. w.now)
    pure (record {
      id = id;
      nomor_surat = str row "nomor_surat";
      employee_id = employee_id;
      unit_id = unit_id;
      purpose_enc = purpose_enc;
      total_cost_enc = total_cost_enc;
      status = status_or "DRAFT" (str row "status");
      created_by = created_by;
      created_at = or_now created_at now;
      updated_at = or_now updated_at now;
      deleted = is_set deleted_at;
    })

  -- migrateSPDs
  unfoldable pub migrate_spds : File → Bool → M (Unit {0})
  migrate_spds file dry = migrate spds spd_of file dry

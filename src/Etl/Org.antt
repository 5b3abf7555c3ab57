-- ===== src/Etl/Org.antt =====
-- migrateUnits, migrateEmployees, migrateUsers and migrateUserUnits of tools/etl/main.go. Columns
-- that the tables here leave out are parsed all the same.
use esppdv.Base.{pos, String, Bool, true, false, Option, none, some, any, str_eq}
use esppdv.Text.{◌+++◌}
use esppdv.Decimal.{format_int}
use esppdv.Outcome.{failure}
use esppdv.Exec.{pure, lift, raise_if, ◌>>=◌, ◌>>◌}
use esppdv.World.Rows.{Time, UnitRow, EmployeeRow, UserRecord, UserUnit}
use esppdv.World.Sql.{M}
use esppdv.Etl.Csv.{File, Row, str}
use esppdv.Etl.Field.{int64_ptr, int64_val, bool_val, time_ptr}
use esppdv.Etl.Load.{Target, migrate, duplicate}

abbrev pub is_set : Option Time → Bool
is_set none = false
is_set (some t) = true

abbrev has_code : String → UnitRow → Bool
has_code code u = str_eq u.code code

abbrev pub units : Target UnitRow
units = record {
  rows = λ t. t.units;
  with_rows = λ l t. record t { units = l };
  key = λ u. (u.id, pos 0);
  fitted = λ a. a;
  invalid = λ a w. none;
  refused = λ u w. duplicate (any (has_code u.code) w.tables.units);
}

abbrev has_nip : String → EmployeeRow → Bool
has_nip nip e = str_eq e.nip nip

abbrev pub employees : Target EmployeeRow
employees = record {
  rows = λ t. t.employees;
  with_rows = λ l t. record t { employees = l };
  key = λ e. (e.id, pos 0);
  fitted = λ a. a;
  invalid = λ a w. none;
  refused = λ e w. duplicate (any (has_nip e.nip) w.tables.employees);
}

abbrev has_name : String → UserRecord → Bool
has_name username u = str_eq u.username username

abbrev pub users : Target UserRecord
users = record {
  rows = λ t. t.users;
  with_rows = λ l t. record t { users = l };
  key = λ u. (u.id, pos 0);
  fitted = λ a. a;
  invalid = λ a w. none;
  refused = λ u w. duplicate (any (has_name u.username) w.tables.users);
}

abbrev pub user_units : Target UserUnit
user_units = record {
  rows = λ t. t.user_units;
  with_rows = λ l t. record t { user_units = l };
  key = λ m. (m.user_id, m.unit_id);
  fitted = λ a. a;
  invalid = λ a w. none;
  refused = λ m w. none;
}

module _ (parse : String → String → Option Time) where
  unfoldable pub unit_of : Row → M UnitRow
  unit_of row = do
    id ← lift (int64_val row "id")
    created_at ← lift (time_ptr parse row "created_at")
    updated_at ← lift (time_ptr parse row "updated_at")
    deleted_at ← lift (time_ptr parse row "deleted_at")
    pure (record {
      id = id;
      code = str row "code";
      name = str row "name";
      deleted = is_set deleted_at;
    })

  -- migrateUnits
  unfoldable pub migrate_units : File → Bool → M (Unit {0})
  migrate_units file dry = migrate units unit_of file dry

  unfoldable pub employee_of : Row → M EmployeeRow
  employee_of row = do
    id ← lift (int64_val row "id")
    unit_id ← lift (int64_ptr row "unit_id")
    created_at ← lift (time_ptr parse row "created_at")
    updated_at ← lift (time_ptr parse row "updated_at")
    deleted_at ← lift (time_ptr parse row "deleted_at")
    pure (record {
      id = id;
      nip = str row "nip";
      name = str row "name";
      unit_id = unit_id;
      deleted = is_set deleted_at;
    })

  -- migrateEmployees
  unfoldable pub migrate_employees : File → Bool → M (Unit {0})
  migrate_employees file dry = migrate employees employee_of file dry

  -- The columns mfa_secret_enc and mfa_enrolled_at are left NULL.
  unfoldable pub user_of : Row → M UserRecord
  user_of row = do
    id ← lift (int64_val row "id")
    employee_id ← lift (int64_ptr row "employee_id")
    last_login_at ← lift (time_ptr parse row "last_login_at")
    created_at ← lift (time_ptr parse row "created_at")
    updated_at ← lift (time_ptr parse row "updated_at")
    deleted_at ← lift (time_ptr parse row "deleted_at")
    raise_if (str_eq (str row "password_hash") "")
        (failure ("users.id=" +++ format_int id +++ ": password_hash required"))
    pure (record {
      id = id;
      username = str row "username";
      role = str row "role";
      password_hash = str row "password_hash";
      is_active = bool_val row "is_active" true;
      mfa_enabled = bool_val row "mfa_enabled" false;
      mfa_secret_enc = none;
      mfa_enrolled_at = none;
      deleted = is_set deleted_at;
    })

  -- migrateUsers
  unfoldable pub migrate_users : File → Bool → M (Unit {0})
  migrate_users file dry = migrate users user_of file dry

  unfoldable pub user_unit_of : Row → M UserUnit
  user_unit_of row = do
    user_id ← lift (int64_val row "user_id")
    unit_id ← lift (int64_val row "unit_id")
    created_at ← lift (time_ptr parse row "created_at")
    pure (record { user_id = user_id; unit_id = unit_id })

  -- migrateUserUnits
  unfoldable pub migrate_user_units : File → Bool → M (Unit {0})
  migrate_user_units file dry = migrate user_units user_unit_of file dry

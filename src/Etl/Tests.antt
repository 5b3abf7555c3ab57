-- ===== src/Etl/Tests.antt =====
-- Runs of the migration on sample files.
use esppdv.Base.{
  refl, ◌≡◌, some, none, Option, String, pos, true, false, [], ◌∷◌, All, str_eq, if◌then◌else◌,
}
use esppdv.Outcome.{Result, ok}
use esppdv.Exec.{◌>>=◌, for_each, or_else}
use esppdv.World.{World}
use esppdv.World.Rows.{Time}
use esppdv.World.Sql.{reach, exec, with_tx, set_rls_context, rand_read}
use esppdv.Decimal.{parse_int}
use esppdv.Text.{to_lower, trim_space, exceeds}
use esppdv.Crypto.{encrypt_string}
use esppdv.Etl.Csv.{File, missing, records, read_csv, str}
use esppdv.Etl.Field.{int64_ptr, int64_val, bool_val, parse_time, time_ptr}
use esppdv.Etl.Load.{insert, migrate}
use esppdv.Etl.Org.{
  unit_of, user_of, migrate_units, migrate_employees, migrate_users, migrate_user_units,
}
use esppdv.Etl.Money.{spd_of, encrypt_field, migrate_budgets, migrate_spds}
use esppdv.Etl.Flow.{migrate_approvals, migrate_documents, migrate_notifications}
use esppdv.Etl.Run.{Input, run, bump_sequences}
use esppdv.Etl.Again.{run_again}
use esppdv.Etl.Bumps.{Covers}
use esppdv.Etl.Sequences.{numbered_tables, run-Covers, dry_run}
use esppdv.Sample.Cipher.{toy_gcm}
use esppdv.Sample.Data.{sample_world}

abbrev toy_parse : String → String → Option Time
toy_parse layout text = if str_eq text "2020-01-01" then some (pos 1577836800000000000) else none

abbrev units_file : File
units_file = records (
    ok ("id" ∷ " Code" ∷ "name" ∷ "created_at" ∷ [])
    ∷ ok ("3" ∷ "FIN" ∷ "Keuangan" ∷ "2020-01-01" ∷ [])
    ∷ ok ("90" ∷ "HR" ∷ "Personalia" ∷ [])
    ∷ [])

abbrev spds_file : File
spds_file = records (
    ok ("id" ∷ "nomor_surat" ∷ "unit_id" ∷ "created_by" ∷ "purpose" ∷ [])
    ∷ ok ("500" ∷ "017/SPD" ∷ "3" ∷ "7" ∷ "rapat" ∷ [])
    ∷ [])

abbrev sample_input : Input
sample_input = record {
  units = units_file;
  employees = missing;
  users = missing;
  user_units = missing;
  budgets = missing;
  spds = spds_file;
  approvals = missing;
  documents = missing;
  notifications = missing;
}

abbrev migrated : World
migrated = (run toy_parse toy_gcm sample_input false sample_world).1

run_runs :
    ◌≡◌ {A = Result (Unit {0}) × World}
      (run toy_parse toy_gcm sample_input false sample_world)
      (ok tt, migrated)
unfolding run ◌>>=◌ for_each or_else reach exec with_tx set_rls_context rand_read parse_int
    encrypt_string read_csv str int64_ptr int64_val bool_val parse_time time_ptr insert migrate
    unit_of user_of migrate_units migrate_employees migrate_users migrate_user_units spd_of
    encrypt_field migrate_budgets migrate_spds migrate_approvals migrate_documents
    migrate_notifications bump_sequences to_lower trim_space exceeds
run_runs = refl

run_again_example : (run toy_parse toy_gcm sample_input false migrated).1.tables ≡ migrated.tables
run_again_example =
    run_again toy_parse toy_gcm sample_input false sample_world migrated migrated run_runs refl

-- A database whose policies do not bind the role of the migration.
abbrev unbound : World
unbound = record sample_world { rls = false }

abbrev loaded : World
loaded = (run toy_parse toy_gcm sample_input false unbound).1

unbound_runs :
    ◌≡◌ {A = Result (Unit {0}) × World}
      (run toy_parse toy_gcm sample_input false unbound)
      (ok tt, loaded)
unfolding run ◌>>=◌ for_each or_else reach exec with_tx set_rls_context rand_read parse_int
    encrypt_string read_csv str int64_ptr int64_val bool_val parse_time time_ptr insert migrate
    unit_of user_of migrate_units migrate_employees migrate_users migrate_user_units spd_of
    encrypt_field migrate_budgets migrate_spds migrate_approvals migrate_documents
    migrate_notifications bump_sequences to_lower trim_space exceeds
unbound_runs = refl

unbound_still : loaded.rls ≡ false
unfolding run ◌>>=◌ for_each or_else reach exec with_tx set_rls_context rand_read parse_int
    encrypt_string read_csv str int64_ptr int64_val bool_val parse_time time_ptr insert migrate
    unit_of user_of migrate_units migrate_employees migrate_users migrate_user_units spd_of
    encrypt_field migrate_budgets migrate_spds migrate_approvals migrate_documents
    migrate_notifications bump_sequences to_lower trim_space exceeds
unbound_still = refl

run-Covers_example : All (Covers loaded) numbered_tables
run-Covers_example =
    run-Covers toy_parse toy_gcm sample_input unbound loaded unbound_runs unbound_still

dry_run_example :
    (run toy_parse toy_gcm sample_input true sample_world).1.tables ≡ sample_world.tables
dry_run_example = dry_run toy_parse toy_gcm sample_input sample_world

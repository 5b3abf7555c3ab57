-- ===== src/World/Sql.antt =====
-- shared/db/db.go, and how a statement reaches the database. A statement that fails, by an outside
-- fault or by a constraint, changes no table.
use esppdv.Base.{
  ℕ, suc, ℤ, pos, String, str_eq, List, [], ◌∷◌, ◌++◌, Option, none, some, ltb, take, drop, length,
  if◌then◌else◌,
}
use esppdv.Text.{Bytes, ◌+++◌}
use esppdv.Outcome.{Error, failure, no_rows, Result, ok, err}
use esppdv.Exec.{Exec, ◌>>◌, or_else}
use esppdv.World.{World, Tables, Setting}
use esppdv.World.Rows.{Message}

abbrev pub M : Type 0 → Type 0
M A = Exec World A

-- Takes the next fault.
abbrev pub next_fault : List (Option String) → Result (Unit {0}) × List (Option String)
next_fault [] = (ok tt, [])
next_fault (none ∷ fs) = (ok tt, fs)
next_fault (some e ∷ fs) = (err (failure e), fs)

-- A call of an outside service, which may fail.
unfoldable pub reach : M (Unit {0})
reach w = let (r, fs) = next_fault w.faults in (r, record w { faults = fs })

abbrev pub run_query : {A : Type 0} → Result A → M A
run_query r w = (r, w)

abbrev pub run_exec : {A : Type 0} → Result (A × Tables) → M A
run_exec (ok (a, t)) w = (ok a, record w { tables = t })
run_exec (err e) w = (err e, w)

-- A SELECT.
unfoldable pub query : {A : Type 0} → (World → Result A) → M A
query f = do reach; λ w. run_query (f w) w

-- An INSERT or an UPDATE: the rows that it returns, and the tables after it.
unfoldable pub exec : {A : Type 0} → (World → Result (A × Tables)) → M A
exec f = do reach; λ w. run_exec (f w) w

-- row.Scan of the first row, with its error for an empty result.
abbrev pub one_row : {A : Type 0} → Option A → Result A
one_row none = err no_rows
one_row (some a) = ok a

-- The default of a BIGSERIAL column. A rollback does not give the value back.
abbrev pub advanced : String → (String → ℕ) → String → ℕ
advanced table serial t = if str_eq t table then suc (serial t) else serial t

unfoldable pub nextval : String → M ℤ
nextval table w = (ok (pos (suc (w.serial table))), record w { serial = advanced table w.serial })

abbrev pub no_setting : Setting
no_setting = record { current_user_id = pos 0; user_role = "" }

-- fmt.Errorf("…: %w", err)
abbrev pub wrap : String → Error → Error
wrap context (failure e) = failure (context +++ e)
wrap context e = failure context

abbrev pub set_user : ℤ → M (Unit {0})
set_user user_id w =
    (ok tt, record w { setting = record (w.setting) { current_user_id = user_id } })

abbrev pub set_role : String → M (Unit {0})
set_role role w = (ok tt, record w { setting = record (w.setting) { user_role = role } })

-- SetRLSContext: two `SELECT set_config(…, true)` statements.
unfoldable pub set_rls_context : ℤ → String → M (Unit {0})
set_rls_context user_id role = do
  or_else reach (wrap "set app.current_user_id: ")
  set_user user_id
  or_else reach (wrap "set app.user_role: ")
  set_role role

-- Commit, by its outcome.
abbrev pub commit :
    {A : Type 0} → Tables → A → Result (Unit {0}) × List (Option String) → World → Result A × World
commit before a (ok _, fs) w = (ok a, record w { faults = fs; setting = no_setting })
commit before a (err e, fs) w =
    (err e, record w { tables = before; faults = fs; setting = no_setting })

-- `defer tx.Rollback`: an error, also one of Commit, leaves the tables as they were at the start.
abbrev pub close_tx : {A : Type 0} → Tables → Result A → World → Result A × World
close_tx before (err e) w = (err e, record w { tables = before; setting = no_setting })
close_tx before (ok a) w = commit before a (next_fault w.faults) w

-- Pool.WithTx: BeginTx, the body, and Commit if the body returned no error.
unfoldable pub with_tx : {A : Type 0} → M A → M A
with_tx fn = do reach; λ w. let (r, w') = fn w in close_tx w.tables r w'

-- nc.Publish
unfoldable pub publish : Message → M (Unit {0})
publish m = do reach; λ w. (ok tt, record w { published = w.published ++ m ∷ [] })

-- rand.Read of a buffer of n bytes.
unfoldable pub rand_read : ℕ → M Bytes
rand_read n w =
    if ltb (length w.entropy) n
    then (err (failure "rand"), w)
    else (ok (take n w.entropy), record w { entropy = drop n w.entropy })

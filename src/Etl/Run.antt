-- ===== src/Etl/Run.antt =====
-- main and bumpSequences of tools/etl/main.go. An error of one step ends the program, as `must` does.
use esppdv.Base.{
  ℤ, filter, pos, pos_part, ltb_ℤ, leb_ℤ, String, Bool, List, [], ◌∷◌, Option, str_eq, map,
  if◌then◌else◌,
}
use esppdv.Outcome.{failure, Result, ok, err}
use esppdv.Exec.{pure, for_each, ◌>>◌}
use esppdv.Crypto.{Aead}
use esppdv.World.{World}
use esppdv.World.Rows.{Time}
use esppdv.World.Sql.{M, reach}
use esppdv.World.Policies.{spds_select, budgets_select}
use esppdv.Etl.Csv.{File}
use esppdv.Etl.Load.{Target}
use esppdv.Etl.Org.{
  units, employees, users, migrate_units, migrate_employees, migrate_users, migrate_user_units,
}
use esppdv.Etl.Money.{budgets, spds, migrate_budgets, migrate_spds}
use esppdv.Etl.Flow.{
  approvals, documents, notifications, migrate_approvals, migrate_documents, migrate_notifications,
}

-- MAX(id), and 1 for an empty table, as COALESCE gives it.
abbrev pub max_from : ℤ → List ℤ → ℤ
max_from m [] = m
max_from m (i ∷ is) = max_from (if ltb_ℤ m i then i else m) is

abbrev pub max_id : List ℤ → ℤ
max_id [] = pos 1
max_id (i ∷ is) = max_from i is

-- setval refuses a value below the least one of the sequence, 1.
abbrev pub bumped : String → ℤ → World → Result (Unit {0}) × World
bumped table m w =
    if leb_ℤ (pos 1) m
    then (ok tt, record w { serial = λ t. if str_eq t table then pos_part m else w.serial t })
    else (err (failure "setval: value is out of bounds"), w)

abbrev pub setval : String → (World → List ℤ) → M (Unit {0})
setval table ids = do reach; λ w. bumped table (max_id (ids w)) w

abbrev pub all_ids : {A : Type 0} → Target A → World → List ℤ
all_ids target w = map (λ a. (target.key a).0) (target.rows w.tables)

-- The ids of the rows that a policy shows. The statement runs outside of a transaction, where no
-- user and no role are set.
abbrev pub shown_ids : {A : Type 0} → Target A → (World → A → Bool) → World → List ℤ
shown_ids target policy w = map (λ a. (target.key a).0) (filter (policy w) (target.rows w.tables))

-- The tables of the loop, with the ids that a SELECT reads.
abbrev pub bumps : List (String × (World → List ℤ))
bumps =
    ("units", all_ids units)
    ∷ ("employees", all_ids employees)
    ∷ ("users", all_ids users)
    ∷ ("budgets", shown_ids budgets budgets_select)
    ∷ ("spds", shown_ids spds spds_select)
    ∷ ("approvals", all_ids approvals)
    ∷ ("documents", all_ids documents)
    ∷ ("notifications", all_ids notifications)
    ∷ []

abbrev pub bump : String × (World → List ℤ) → M (Unit {0})
bump (table, ids) = setval table ids

-- bumpSequences
unfoldable pub bump_sequences : M (Unit {0})
bump_sequences = for_each bumps bump

-- The files of the input directory.
pub record Input : Type 0 where
  pub units : File
  pub employees : File
  pub users : File
  pub user_units : File
  pub budgets : File
  pub spds : File
  pub approvals : File
  pub documents : File
  pub notifications : File

module _ (parse : String → String → Option Time) (gcm : Aead) where
  -- main, from the first migration on.
  unfoldable pub run : Input → Bool → M (Unit {0})
  run input dry = do
    migrate_units parse input.units dry
    migrate_employees parse input.employees dry
    migrate_users parse input.users dry
    migrate_user_units parse input.user_units dry
    migrate_budgets parse gcm input.budgets dry
    migrate_spds parse gcm input.spds dry
    migrate_approvals parse input.approvals dry
    migrate_documents parse input.documents dry
    migrate_notifications parse input.notifications dry
    if dry then pure tt else bump_sequences

-- ===== src/Etl/Sequences.antt =====
-- What a whole run of tools/etl/main.go leaves to the services that insert next, and a dry run.
use esppdv.Base.{Bool, filter, map, ◌≡◌, refl, ap, String, true, false, List, [], ◌∷◌, Option, All}
use esppdv.Outcome.{Result, ok, err}
use esppdv.Exec.Rules.{bind-elim}
use esppdv.Crypto.{Aead}
use esppdv.World.{World}
use esppdv.World.Rows.{Time}
use esppdv.World.Sql.{M}
use esppdv.World.Quiet.{Quiet, quiet_rules, lasting-tables, Quiet-pure, Quiet-raise}
use esppdv.Etl.Csv.{File, Row, read_csv}
use esppdv.Etl.Load.{Target, load_rows, migrate}
use esppdv.Etl.Org.{migrate_units, migrate_employees, migrate_users, migrate_user_units}
use esppdv.Etl.Money.{migrate_budgets, migrate_spds}
use esppdv.Etl.Flow.{migrate_approvals, migrate_documents, migrate_notifications}
use esppdv.Etl.Run.{all_ids, shown_ids, bumps, Input, run}
use esppdv.Etl.Org.{units, employees, users}
use esppdv.Etl.Money.{budgets, spds}
use esppdv.Etl.Flow.{approvals, documents, notifications}
use esppdv.World.Policies.{spds_select, budgets_select}
use esppdv.Etl.Bumps.{Covers, Bump, bump_sequences-Covers}

-- The tables that have a sequence, with all their ids.
abbrev pub numbered_tables : List Bump
numbered_tables =
    ("units", all_ids units)
    ∷ ("employees", all_ids employees)
    ∷ ("users", all_ids users)
    ∷ ("budgets", all_ids budgets)
    ∷ ("spds", all_ids spds)
    ∷ ("approvals", all_ids approvals)
    ∷ ("documents", all_ids documents)
    ∷ ("notifications", all_ids notifications)
    ∷ []

filter_all : {A : Type 0} (p : A → Bool) (l : List A) → ((a : A) → p a ≡ true) → filter p l ≡ l
filter_all p [] h = refl
filter_all p (a ∷ l) h = rw (h a, filter_all p l h) refl

budgets-shown : (w : World) → w.rls ≡ false → shown_ids budgets budgets_select w ≡ all_ids budgets w
budgets-shown w off =
    ap (map (λ b. (budgets.key b).0))
      (filter_all (budgets_select w) w.tables.budgets (λ b. rw off refl))

spds-shown : (w : World) → w.rls ≡ false → shown_ids spds spds_select w ≡ all_ids spds w
spds-shown w off =
    ap (map (λ s. (spds.key s).0)) (filter_all (spds_select w) w.tables.spds (λ s. rw off refl))

all_covered : (w : World) → w.rls ≡ false → All (Covers w) bumps → All (Covers w) numbered_tables
all_covered w off (a, (b, (c, (d, (e, rest))))) =
    (a, (b, (c, (rw (budgets-shown w off) at d, (rw (spds-shown w off) at e, rest)))))

module _ (parse : String → String → Option Time) (gcm : Aead) where
  -- Where the policies of the database do not bind the tool's role, a migration that succeeds and is
  -- no dry run leaves the id sequence of each of the eight tables that have one at or past every id
  -- of that table, so that the next INSERT of a service gets a new id.
  pub run-Covers :
      (input : Input) (w w' : World)
      → run parse gcm input false w ≡ (ok tt, w')
      → w'.rls ≡ false
      → All (Covers w') numbered_tables
  unfolding run
  run-Covers input w w' h off = all_covered w' off (
      bind-elim _ _ w h λ _ w1 _ h. bind-elim _ _ w1 h λ _ w2 _ h. bind-elim _ _ w2 h λ _ w3 _ h.
        bind-elim _ _ w3 h λ _ w4 _ h. bind-elim _ _ w4 h λ _ w5 _ h. bind-elim _ _ w5 h λ _ w6 _ h.
          bind-elim _ _ w6 h λ _ w7 _ h.
            bind-elim _ _ w7 h
              λ _ w8 _ h. bind-elim _ _ w8 h λ _ w9 _ h. bump_sequences-Covers w9 h)

module _ {A : Type 0} (target : Target A) (decode : Row → M A) where
  Quiet-dry_load : (r : Result (List Row)) → Quiet (load_rows target decode true r)
  Quiet-dry_load (err e) = Quiet-raise e
  Quiet-dry_load (ok []) = Quiet-pure tt
  Quiet-dry_load (ok (row ∷ rows)) = Quiet-pure tt

  Quiet-dry_migrate : (file : File) → Quiet (migrate target decode file true)
  unfolding migrate
  Quiet-dry_migrate file = Quiet-dry_load (read_csv file)

module _ (parse : String → String → Option Time) (gcm : Aead) where
  Quiet-dry_run : (input : Input) → Quiet (run parse gcm input true)
  unfolding run migrate_units migrate_employees migrate_users migrate_user_units migrate_budgets
      migrate_spds migrate_approvals migrate_documents migrate_notifications
  Quiet-dry_run input = search (quiet_rules, Quiet-dry_migrate) depth 20

  -- A dry run changes no table.
  pub dry_run : (input : Input) (w : World) → (run parse gcm input true w).1.tables ≡ w.tables
  dry_run input w = lasting-tables w (run parse gcm input true w).1 ((Quiet-dry_run input).at w)

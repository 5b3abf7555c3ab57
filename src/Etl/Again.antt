-- ===== src/Etl/Again.antt =====
-- The migration run a second time, and run dry.
use esppdv.Base.{◌≡◌, refl, ℤ, String, Bool, List, [], ◌∷◌, Option, arith}
use esppdv.Outcome.{ok}
use esppdv.Exec.{for_each}
use esppdv.Crypto.{Aead}
use esppdv.World.{World}
use esppdv.World.Rows.{Time}
use esppdv.World.Quiet.{Quiet, Quiet-pure, Quiet-bind, Quiet-reach, Quiet-if}
use esppdv.Etl.Org.{
  units, employees, users, user_units, migrate_units, migrate_employees, migrate_users,
  migrate_user_units,
}
use esppdv.Etl.Money.{budgets, spds, migrate_budgets, migrate_spds}
use esppdv.Etl.Flow.{
  approvals, documents, notifications, migrate_approvals, migrate_documents, migrate_notifications,
}
use esppdv.Etl.Laws.{
  units-Lawful, employees-Lawful, users-Lawful, user_units-Lawful, budgets-Lawful, spds-Lawful,
  approvals-Lawful, documents-Lawful, notifications-Lawful,
}
use esppdv.Etl.Run.{bumped, max_id, bumps, bump, bump_sequences, Input, run}
use esppdv.Etl.Kept.{Kept, Kept-refl}
use esppdv.Etl.Repeat.{Repeatable, Repeatable-then, Repeatable-of_Quiet, Repeatable-migrate}
use esppdv.Etl.Decoders.{
  units-Decoder, employees-Decoder, users-Decoder, user_units-Decoder, budgets-Decoder,
  spds-Decoder, approvals-Decoder, documents-Decoder, notifications-Decoder,
}

bumped-tables : (table : String) (m : ℤ) (w : World) → (bumped table m w).1.tables ≡ w.tables
bumped-tables table m w = ground arith

bumped-now : (table : String) (m : ℤ) (w : World) → (bumped table m w).1.now ≡ w.now
bumped-now table m w = ground arith

Quiet-bump : (b : String × (World → List ℤ)) → Quiet (bump b)
Quiet-bump (table, ids) = Quiet-bind Quiet-reach λ _. record {
  at = λ w. λ i. (bumped-tables table (max_id (ids w)) w i, bumped-now table (max_id (ids w)) w i);
}

pub Quiet-bumps : (bs : List (String × (World → List ℤ))) → Quiet (for_each bs bump)
unfolding for_each
Quiet-bumps [] = Quiet-pure tt
Quiet-bumps (b ∷ bs) = Quiet-bind (Quiet-bump b) (λ _. Quiet-bumps bs)

pub Quiet-bump_sequences : Quiet bump_sequences
unfolding bump_sequences
Quiet-bump_sequences = Quiet-bumps bumps

module _ (parse : String → String → Option Time) (gcm : Aead) where
  Repeatable-run : (input : Input) (dry : Bool) → Repeatable (run parse gcm input dry)
  unfolding run migrate_units migrate_employees migrate_users migrate_user_units migrate_budgets
      migrate_spds migrate_approvals migrate_documents migrate_notifications
  Repeatable-run input dry =
      Repeatable-then _ _
        (Repeatable-migrate units _ _ units-Lawful (units-Decoder parse) input.units dry)
        (Repeatable-then _ _
          (Repeatable-migrate employees _ _ employees-Lawful (employees-Decoder parse)
            input.employees dry)
          (Repeatable-then _ _
            (Repeatable-migrate users _ _ users-Lawful (users-Decoder parse) input.users dry)
            (Repeatable-then _ _
              (Repeatable-migrate user_units _ _ user_units-Lawful (user_units-Decoder parse)
                input.user_units dry)
              (Repeatable-then _ _
                (Repeatable-migrate budgets _ _ budgets-Lawful (budgets-Decoder parse gcm)
                  input.budgets dry)
                (Repeatable-then _ _
                  (Repeatable-migrate spds _ _ spds-Lawful (spds-Decoder parse gcm) input.spds dry)
                  (Repeatable-then _ _
                    (Repeatable-migrate approvals _ _ approvals-Lawful (approvals-Decoder parse)
                      input.approvals dry)
                    (Repeatable-then _ _
                      (Repeatable-migrate documents _ _ documents-Lawful (documents-Decoder parse)
                        input.documents dry)
                      (Repeatable-then _ _
                        (Repeatable-migrate notifications _ _ notifications-Lawful
                          (notifications-Decoder parse) input.notifications dry)
                        (Repeatable-of_Quiet
                          (Quiet-if dry (Quiet-pure tt) Quiet-bump_sequences))))))))))

  -- A migration that has succeeded, run again over the tables that it left, with any faults, clock
  -- and random bytes, changes no table, whether it ends in an error or not.
  pub run_again :
      (input : Input) (dry : Bool) (w w' v : World)
      → run parse gcm input dry w ≡ (ok tt, w')
      → v.tables ≡ w'.tables
      → (run parse gcm input dry v).1.tables ≡ w'.tables
  run_again input dry w w' v h e =
      ((Repeatable-run input dry).again w w' h w'.tables (Kept-refl w'.tables w'.tables refl)).at v
        e

  -- A migration loses no key of any table, however it ends.
  run_keeps :
      (input : Input) (dry : Bool) (w : World) → Kept w.tables (run parse gcm input dry w).1.tables
  run_keeps input dry w = (Repeatable-run input dry).grows.at w

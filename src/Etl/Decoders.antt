-- ===== src/Etl/Decoders.antt =====
-- What each migrate function makes of a row: the key of the row, and no write.
use esppdv.Base.{◌≡◌, ap, ℤ, pos, String, Option}
use esppdv.Outcome.{Result, ok, err}
use esppdv.Crypto.{Aead}
use esppdv.Crypto.Random.{Quiet-encrypt_string}
use esppdv.World.Rows.{Time}
use esppdv.World.Quiet.{Quiet, quiet_rules}
use esppdv.Etl.Csv.{Row}
use esppdv.Etl.Field.{int64_val}
use esppdv.Etl.Load.{Key}
use esppdv.Etl.Org.{
  units, employees, users, user_units, unit_of, employee_of, user_of, user_unit_of,
}
use esppdv.Etl.Money.{budgets, spds, encrypt_field, budget_of, spd_of}
use esppdv.Etl.Flow.{approvals, documents, notifications, approval_of, document_of, notification_of}
use esppdv.Etl.Settled.{Yields-bind, Yields-lift, Yields-pure}
use esppdv.Etl.Repeat.{Decoder}

abbrev pub id_key_of : Result ℤ → Result Key
id_key_of (err e) = err e
id_key_of (ok i) = ok (i, pos 0)

-- The key that a row shows.
abbrev pub id_key : Row → Result Key
id_key row = id_key_of (int64_val row "id")

abbrev pub pair_key_of : Result ℤ → Result ℤ → Result Key
pair_key_of (err e) r = err e
pair_key_of (ok i) (err e) = err e
pair_key_of (ok i) (ok j) = ok (i, j)

abbrev pub pair_key : Row → Result Key
pair_key row = pair_key_of (int64_val row "user_id") (int64_val row "unit_id")

id_key-ok : (row : Row) {i : ℤ} → int64_val row "id" ≡ ok i → id_key row ≡ ok (i, pos 0)
id_key-ok row e = ap id_key_of e

pair_key-ok :
    (row : Row) {i j : ℤ}
    → int64_val row "user_id" ≡ ok i
    → int64_val row "unit_id" ≡ ok j
    → pair_key row ≡ ok (i, j)
pair_key-ok row d e = λ n. pair_key_of (d n) (e n)

module _ (parse : String → String → Option Time) where
  pub units-Decoder : Decoder units (unit_of parse) id_key
  unfolding unit_of
  units-Decoder = record {
    quiet = λ row. search quiet_rules depth 20;
    keyed = λ row. Yields-lift _ λ _ e.
        Yields-bind _ λ _. Yields-bind _ λ _. Yields-bind _ λ _. Yields-pure _ (id_key-ok row e);
  }

  pub employees-Decoder : Decoder employees (employee_of parse) id_key
  unfolding employee_of
  employees-Decoder = record {
    quiet = λ row. search quiet_rules depth 20;
    keyed = λ row. Yields-lift _ λ _ e. Yields-bind _ λ _.
        Yields-bind _ λ _. Yields-bind _ λ _. Yields-bind _ λ _. Yields-pure _ (id_key-ok row e);
  }

  pub users-Decoder : Decoder users (user_of parse) id_key
  unfolding user_of
  users-Decoder = record {
    quiet = λ row. search quiet_rules depth 20;
    keyed = λ row. Yields-lift _ λ _ e. Yields-bind _ λ _. Yields-bind _ λ _. Yields-bind _ λ _.
        Yields-bind _ λ _. Yields-bind _ λ _. Yields-bind _ λ _. Yields-pure _ (id_key-ok row e);
  }

  pub user_units-Decoder : Decoder user_units (user_unit_of parse) pair_key
  unfolding user_unit_of
  user_units-Decoder = record {
    quiet = λ row. search quiet_rules depth 20;
    keyed = λ row.
        Yields-lift _
          λ _ d. Yields-lift _ λ _ e. Yields-bind _ λ _. Yields-pure _ (pair_key-ok row d e);
  }

  pub approvals-Decoder : Decoder approvals (approval_of parse) id_key
  unfolding approval_of
  approvals-Decoder = record {
    quiet = λ row. search quiet_rules depth 20;
    keyed = λ row. Yields-lift _ λ _ e. Yields-bind _ λ _. Yields-bind _ λ _. Yields-bind _ λ _.
        Yields-bind _ λ _.
          Yields-bind _ λ _. Yields-bind _ λ _. Yields-bind _ λ _. Yields-pure _ (id_key-ok row e);
  }

  pub documents-Decoder : Decoder documents (document_of parse) id_key
  unfolding document_of
  documents-Decoder = record {
    quiet = λ row. search quiet_rules depth 20;
    keyed = λ row. Yields-lift _ λ _ e. Yields-bind _ λ _.
        Yields-bind _ λ _. Yields-bind _ λ _. Yields-bind _ λ _. Yields-pure _ (id_key-ok row e);
  }

  pub notifications-Decoder : Decoder notifications (notification_of parse) id_key
  unfolding notification_of
  notifications-Decoder = record {
    quiet = λ row. search quiet_rules depth 20;
    keyed = λ row. Yields-lift _ λ _ e. Yields-bind _ λ _. Yields-bind _ λ _.
        Yields-bind _ λ _. Yields-bind _ λ _. Yields-bind _ λ _. Yields-pure _ (id_key-ok row e);
  }

Quiet-encrypt_field : (gcm : Aead) (v aad : String) → Quiet (encrypt_field gcm v aad)
unfolding encrypt_field
Quiet-encrypt_field gcm v aad = search (quiet_rules, Quiet-encrypt_string) depth 8

module _ (parse : String → String → Option Time) (gcm : Aead) where
  pub budgets-Decoder : Decoder budgets (budget_of parse gcm) id_key
  unfolding budget_of
  budgets-Decoder = record {
    quiet = λ row. search (quiet_rules, Quiet-encrypt_field) depth 30;
    keyed = λ row. Yields-lift _ λ _ e. Yields-bind _ λ _. Yields-bind _ λ _. Yields-bind _ λ _.
        Yields-bind _ λ _. Yields-bind _ λ _. Yields-bind _ λ _.
          Yields-bind _ λ _. Yields-bind _ λ _. Yields-bind _ λ _. Yields-pure _ (id_key-ok row e);
  }

  pub spds-Decoder : Decoder spds (spd_of parse gcm) id_key
  unfolding spd_of
  spds-Decoder = record {
    quiet = λ row. search (quiet_rules, Quiet-encrypt_field) depth 30;
    keyed = λ row. Yields-lift _ λ _ e. Yields-bind _ λ _. Yields-bind _ λ _. Yields-bind _ λ _.
        Yields-bind _ λ _. Yields-bind _ λ _. Yields-bind _ λ _. Yields-bind _ λ _.
          Yields-bind _ λ _. Yields-bind _ λ _.
            Yields-bind _
              λ _. Yields-bind _ λ _. Yields-bind _ λ _. Yields-pure _ (id_key-ok row e);
  }

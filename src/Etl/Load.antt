-- ===== src/Etl/Load.antt =====
-- What the functions migrate… of tools/etl/main.go share: the loop over a file's rows in one
-- transaction, and INSERT … ON CONFLICT DO NOTHING.
use esppdv.Base.{
  ℤ, String, Bool, true, false, ◌&&◌, List, [], ◌∷◌, ◌++◌, Option, none, some, any, eqb_ℤ,
  if◌then◌else◌,
}
use esppdv.Outcome.{failure, Result, ok, err}
use esppdv.Exec.{pure, raise, for_each, ◌>>=◌}
use esppdv.World.{World, Tables}
use esppdv.World.Rows.{Time}
use esppdv.World.Sql.{M, exec, with_tx}
use esppdv.Etl.Csv.{File, Row, read_csv}

-- A primary key: an id and 0, or the two columns of user_units.
abbrev pub Key : Type 0
Key = ℤ × ℤ

abbrev pub same_key : Key → Key → Bool
same_key (a, b) (c, d) = eqb_ℤ a c && eqb_ℤ b d

-- A table: its rows, its primary key, and the row that its column types make of the values of an
-- INSERT. `invalid` is what a type, a policy or a CHECK has against the values, before the key is
-- looked up; `refused` is what another UNIQUE or a foreign key has against the new row.
pub record Target (A : Type 0) : Type 0 where
  pub rows : Tables → List A
  pub with_rows : List A → Tables → Tables
  pub key : A → Key
  pub fitted : A → A
  pub invalid : A → World → Option String
  pub refused : A → World → Option String

module _ {A : Type 0} (target : Target A) where
  abbrev pub has_key : Key → A → Bool
  has_key k a = same_key k (target.key a)

  abbrev pub holds_key : Key → Tables → Bool
  holds_key k t = any (has_key k) (target.rows t)

  abbrev pub added : A → Tables → Option String → Result (Unit {0} × Tables)
  added a t (some e) = err (failure e)
  added a t none = ok (tt, target.with_rows (target.rows t ++ target.fitted a ∷ []) t)

  abbrev pub inserted_valid : A → World → Option String → Result (Unit {0} × Tables)
  inserted_valid a w (some e) = err (failure e)
  inserted_valid a w none =
      if holds_key (target.key a) w.tables
      then ok (tt, w.tables)
      else added a w.tables (target.refused (target.fitted a) w)

  abbrev pub inserted : A → World → Result (Unit {0} × Tables)
  inserted a w = inserted_valid a w (target.invalid a w)

  -- INSERT … ON CONFLICT (id) DO NOTHING
  unfoldable pub insert : A → M (Unit {0})
  insert a = exec (λ w. inserted a w)

  -- One round of the loop.
  abbrev pub load_row : (Row → M A) → Row → M (Unit {0})
  load_row decode row = decode row >>= λ a. insert a

  -- `if err != nil || len(rows) == 0 || dry { return err }`, then the transaction.
  abbrev pub load_rows : (Row → M A) → Bool → Result (List Row) → M (Unit {0})
  load_rows decode dry (err e) = raise e
  load_rows decode dry (ok []) = pure tt
  load_rows decode true (ok (row ∷ rows)) = pure tt
  load_rows decode false (ok (row ∷ rows)) = with_tx (for_each (row ∷ rows) (load_row decode))

  unfoldable pub migrate : (Row → M A) → File → Bool → M (Unit {0})
  migrate decode file dry = load_rows decode dry (read_csv file)

-- COALESCE(t, NOW())
abbrev pub or_now : Option Time → Time → Time
or_now none now = now
or_now (some t) now = t

-- A text of a UNIQUE column that a row already has.
abbrev pub duplicate : Bool → Option String
duplicate true = some "duplicate key value violates unique constraint"
duplicate false = none

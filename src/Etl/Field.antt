-- ===== src/Etl/Field.antt =====
-- The typed fields of a row in tools/etl/main.go. `parse` is time.Parse, by layout and text.
use esppdv.Base.{
  ℤ, String, Bool, true, false, ◌||◌, List, [], ◌∷◌, Option, none, some, str_eq, if◌then◌else◌,
}
use esppdv.Text.{◌+++◌, trim_space, to_lower}
use esppdv.Decimal.{parse_int}
use esppdv.Outcome.{Error, failure, Result, ok, err}
use esppdv.World.Rows.{Time}
use esppdv.Etl.Csv.{Row, str}

abbrev invalid_syntax : Error
invalid_syntax = failure "strconv: invalid syntax or value out of range"

abbrev int64_of : Option ℤ → Error → Result ℤ
int64_of none e = err e
int64_of (some i) e = ok i

abbrev int64_ptr_of : Option ℤ → Error → Result (Option ℤ)
int64_ptr_of none e = err e
int64_ptr_of (some i) e = ok (some i)

-- int64Ptr
unfoldable pub int64_ptr : Row → String → Result (Option ℤ)
int64_ptr row key =
    let v = str row key in
    if str_eq v ""
    then ok none
    else int64_ptr_of (parse_int v)
        (failure (key +++ ": strconv: invalid syntax or value out of range"))

-- int64Val
unfoldable pub int64_val : Row → String → Result ℤ
int64_val row key =
    let v = str row key in
    if str_eq v ""
    then err (failure (key +++ ": required"))
    else int64_of (parse_int v) invalid_syntax

-- boolVal
unfoldable pub bool_val : Row → String → Bool → Bool
bool_val row key default =
    let v = to_lower (str row key) in
    if str_eq v ""
    then default
    else if str_eq v "1" || str_eq v "t" || str_eq v "true" || str_eq v "y" || str_eq v "yes"
    then true
    else if str_eq v "0" || str_eq v "f" || str_eq v "false" || str_eq v "n" || str_eq v "no"
    then false
    else default

abbrev pub layouts : List String
layouts =
    "2006-01-02T15:04:05.999999999Z07:00" ∷ "2006-01-02T15:04:05Z07:00"
    ∷ "2006-01-02 15:04:05.999999" ∷ "2006-01-02 15:04:05" ∷ "2006-01-02" ∷ []

abbrev or_else_try : Option Time → Result Time → Result Time
or_else_try none rest = rest
or_else_try (some t) rest = ok t

module _ (parse : String → String → Option Time) where
  abbrev pub first_layout : List String → String → Result Time
  first_layout [] s = err (failure ("unrecognized time format: " +++ s))
  first_layout (l ∷ ls) s = let rest = first_layout ls s in or_else_try (parse l s) rest

  -- parseTime
  unfoldable pub parse_time : String → Result Time
  parse_time s =
      let v = trim_space s in if str_eq v "" then err (failure "empty") else first_layout layouts v

  abbrev time_ptr_of : String → Result Time → Result (Option Time)
  time_ptr_of key (err (failure e)) = err (failure (key +++ ": " +++ e))
  time_ptr_of key (err e) = err e
  time_ptr_of key (ok t) = ok (some t)

  -- timePtr
  unfoldable pub time_ptr : Row → String → Result (Option Time)
  time_ptr row key =
      let v = str row key in if str_eq v "" then ok none else time_ptr_of key (parse_time v)

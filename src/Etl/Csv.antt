-- ===== src/Etl/Csv.antt =====
-- readCSV of tools/etl/main.go, on what encoding/csv makes of a file.
use esppdv.Base.{String, List, [], ◌∷◌, str_eq, if◌then◌else◌}
use esppdv.Text.{trim_space, to_lower}
use esppdv.Outcome.{Error, Result, ok, err}

-- A file of the input directory: it does not exist, it cannot be opened, or its reader gives these
-- records, each with its own error, up to the end.
pub data File : Type 0 where
  missing : File
  unreadable : Error → File
  records : List (Result (List String)) → File

-- map[string]string: the entry for a key that stands first is the one that was put last.
abbrev pub Row : Type 0
Row = List (String × String)

-- `for i, h := range header { if i < len(rec) { … } }`, on top of the entries so far.
abbrev filled : Row → List String → List String → Row
filled row [] rec = row
filled row (h ∷ header) [] = row
filled row (h ∷ header) (f ∷ rec) = filled ((h, trim_space f) ∷ row) header rec

abbrev column_names : List String → List String
column_names [] = []
column_names (h ∷ header) = to_lower (trim_space h) ∷ column_names header

abbrev add_row : Row → Result (List Row) → Result (List Row)
add_row row (err e) = err e
add_row row (ok rows) = ok (row ∷ rows)

abbrev pub read_rows : List String → List (Result (List String)) → Result (List Row)
read_rows header [] = ok []
read_rows header (err e ∷ recs) = err e
read_rows header (ok rec ∷ recs) = add_row (filled [] header rec) (read_rows header recs)

-- readCSV: a missing or an empty file has no rows.
unfoldable pub read_csv : File → Result (List Row)
read_csv missing = ok []
read_csv (unreadable e) = err e
read_csv (records []) = ok []
read_csv (records (err e ∷ recs)) = err e
read_csv (records (ok header ∷ recs)) = read_rows (column_names header) recs

abbrev entry : String → Row → String
entry key [] = ""
entry key ((k, v) ∷ row) = if str_eq k key then v else entry key row

-- str: a key that is not there reads as "".
unfoldable pub str : Row → String → String
str row key = entry (to_lower key) row

-- ===== src/Reports/Csv.antt =====
-- A reader of CSV files, against which the files of the reports are checked: fields are apart by commas,
-- rows by line ends, and a field in quotes may hold both, and a quote where it is written twice.
use Prim.Native.Char.{Char, code}
use Prim.Native.String.{[], ◌∷◌}
use subscription_be.Prelude.{String, List, [], ◌∷◌, ◌==◌, if◌then◌else◌}

pub data Mode : Type 0 where
  start quoted pending bare : Mode

pub data Kind : Type 0 where
  quote comma newline other : Kind

abbrev pub kind : Char → Kind
kind c =
    if code c == 34
    then quote
    else if code c == 44
    then comma
    else if code c == 10
    then newline
    else other

-- A character, a field or a row before what was read of the rest
abbrev pub put : Char → List (List String) → List (List String)
put c [] = []
put c ([] ∷ rows) = [] ∷ rows
put c ((f ∷ row) ∷ rows) = ((c ∷ f) ∷ row) ∷ rows

abbrev pub next_field : List (List String) → List (List String)
next_field [] = []
next_field (row ∷ rows) = ("" ∷ row) ∷ rows

abbrev pub next_row : List (List String) → List (List String)
next_row rows = ("" ∷ []) ∷ rows

-- The rows of a text, from a position in the given mode
abbrev pub read : Mode → String → List (List String)
read mode [] = ("" ∷ []) ∷ []
read start (c ∷ s) = elim (kind c) [
  | quote ↦ read quoted s
  | comma ↦ next_field (read start s)
  | newline ↦ next_row (read start s)
  | other ↦ put c (read bare s)
]
read quoted (c ∷ s) = elim (kind c) [
  | quote ↦ read pending s
  | comma ↦ put c (read quoted s)
  | newline ↦ put c (read quoted s)
  | other ↦ put c (read quoted s)
]
read pending (c ∷ s) = elim (kind c) [
  | quote ↦ put c (read quoted s)
  | comma ↦ next_field (read start s)
  | newline ↦ next_row (read start s)
  | other ↦ put c (read bare s)
]
read bare (c ∷ s) = elim (kind c) [
  | quote ↦ put c (read bare s)
  | comma ↦ next_field (read start s)
  | newline ↦ next_row (read start s)
  | other ↦ put c (read bare s)
]

unfoldable pub read_csv : String → List (List String)
read_csv t = read start t

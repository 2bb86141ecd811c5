-- ===== src/Service/Points.antt =====
-- `import_points_csv` of backend/export.py, on what `csv.DictReader` gives for each row: the row, or
-- the exception that it raises there. `str.strip` is a parameter.
pub mod Accounts
use network_backend_article.Base.{
  ℕ, ◌+◌, String, Bool, Option, none, some, List, [], ◌∷◌, ◌++◌, if◌then◌else◌,
}
use network_backend_article.Base.Dict.{Dict, lookup, assign_key}
use network_backend_article.Base.Text.{is_empty}
use network_backend_article.Base.Result.{Action, Result, Error, ok, err, attribute_error}
use network_backend_article.Base.Raises.{◌>>=◌, catch_conversion}
use network_backend_article.Base.Python.{Python, Value, str}
use network_backend_article.Store.Tables.{Store}
use network_backend_article.Store.Points.{upsert_point}

-- The values of the columns in their order, with none for those that a short row lacks, and the
-- values of a row that is longer than its header, which stand under the key None.
pub record CsvRow : Type 0 where
  pub columns : List (String × Option String)
  pub surplus : List String

abbrev pub or_empty : Option String → String
or_empty none = ""
or_empty (some v) = v

-- `(k or "").strip()` and `(v or "").strip()` of each column; a later key replaces an equal one.
unfoldable pub strip_columns :
    (String → String) → List (String × Option String) → Dict String → Dict String
strip_columns strip [] d = d
strip_columns strip ((k, v) ∷ cs) d =
    strip_columns strip cs (assign_key (strip k) (strip (or_empty v)) d)

-- The surplus values are a list, which has no `strip`.
abbrev pub strip_row : (String → String) → CsvRow → List String → Result (Dict String)
strip_row strip row [] = ok (strip_columns strip row.columns [])
strip_row strip row (v ∷ vs) = err attribute_error

abbrev pub cleaned : (String → String) → Result CsvRow → Result (Dict String)
cleaned strip row = row >>= λ r. strip_row strip r r.surplus

-- `imported` are the ids of the rows written, `errors` the number and the id of each row refused.
pub record Imported : Type 0 where
  pub imported : List String
  pub errors : List (ℕ × String)

abbrev pub filled : Option String → Option String
filled none = none
filled (some v) = if is_empty v then none else some v

-- The first of the keys with a value that is not empty.
abbrev pub pick : Dict String → List String → Option String
pick row [] = none
pick row (n ∷ ns) = elim (filled (lookup n row)) [ none ↦ pick row ns | some v ↦ some v ]

module _ (py : Python) where
  open py use {Float, float_of}

  abbrev pub number : Option String → Result (Option Float)
  number none = ok none
  number (some v) = elim (float_of (str v)) [ ok x ↦ ok (some x) | err e ↦ err e ]

  abbrev pub position : Dict String → Result (Option Float × Option Float × Option Float)
  position row = do
    x ← number (pick row ("pos_x" ∷ "x" ∷ []))
    y ← number (pick row ("pos_y" ∷ "y" ∷ []))
    z ← number (pick row ("pos_z" ∷ "z" ∷ []))
    ok (x, y, z)

  abbrev pub add_point :
      String
      → ℕ
      → Dict String
      → String
      → Result (Option Float × Option Float × Option Float)
      → Imported × Store Float
      → Imported × Store Float
  add_point exp now row id (err e) (r, s) = (r, s)
  add_point exp now row id (ok (x, y, z)) (r, s) = (
    record r { imported = r.imported ++ id ∷ [] },
    upsert_point exp id (pick row ("point_role" ∷ "role" ∷ [])) x y z (pick row ("note" ∷ [])) now
        s,
  )

  abbrev pub add_error :
      ℕ → String → Result (Option Float × Option Float × Option Float) → Imported → Imported
  add_error line id (ok p) r = r
  add_error line id (err e) r = record r { errors = r.errors ++ (line, id) ∷ [] }

  -- `float` of a text raises only `ValueError`.
  abbrev pub take_row :
      String → ℕ → ℕ → Dict String → Option String → Imported × Store Float → Imported × Store Float
  take_row exp now line row none rs = rs
  take_row exp now line row (some id) rs =
      let p = position row in
      let (r, s) = add_point exp now row id p rs in (add_error line id p r, s)

  -- An exception ends the import; the points of the rows before it stay written.
  unfoldable pub import_rows :
      (String → String)
      → String
      → ℕ
      → ℕ
      → List (Result CsvRow)
      → Imported × Store Float
      → Result Imported × Store Float
  unfolding strip_columns
  import_rows strip exp now line [] (r, s) = (ok r, s)
  import_rows strip exp now line (row ∷ rows) (r, s) = elim (cleaned strip row) [
    | err e ↦ (err e, s)
    | ok d ↦
        import_rows strip exp now (line + 1) rows
          (take_row exp now line d (pick d ("point_id" ∷ "id" ∷ [])) (r, s))
  ]

  unfoldable pub import_points_csv :
      (String → String) → String → List (Result CsvRow) → ℕ → Action (Store Float) Imported
  unfolding import_rows
  import_points_csv strip exp rows now s =
      import_rows strip exp now 2 rows (record { imported = []; errors = [] }, s)

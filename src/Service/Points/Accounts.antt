-- ===== src/Service/Points/Accounts.antt =====
-- The rows of `import_points_csv` (backend/export.py) and its answer.
use network_backend_article.Base.{
  ℕ, ◌+◌, String, Bool, true, false, Option, none, some, List, [], ◌∷◌, if◌then◌else◌, length,
  length-append, count, arith, ◌≡◌, refl, ap, inl, inr, Bool-cases, ◌∙◌, not, ◌||◌, str_eq,
}
use network_backend_article.Base.Dict.{Dict, lookup, assign_key, lookup-assign_key}
use network_backend_article.Base.Text.{is_empty}
use network_backend_article.Base.Result.{Result, ok, err}
use network_backend_article.Base.Python.{Python}
use network_backend_article.Store.Tables.{Store}
use network_backend_article.Service.Points.{
  Imported, CsvRow, strip_row, or_empty, strip_columns, filled, pick, add_point, add_error,
  position, take_row, import_rows, import_points_csv,
}

pub answered : Imported → ℕ
answered r = length r.imported + length r.errors

abbrev is_named : Option String → Bool
is_named none = false
is_named (some _) = true

-- The last value of the columns with the key, stripped, and the given one where there is none.
pub last_value : (String → String) → String → List (String × Option String) → String → String
last_value strip key [] v = v
last_value strip key ((k, w) ∷ cs) v =
    last_value strip key cs (if str_eq (strip k) key then strip (or_empty w) else v)

-- A column `point_id` or a column `id` has a value.
pub names_point : (String → String) → Result CsvRow → Bool
names_point strip (err e) = false
names_point strip (ok row) =
    not (is_empty (last_value strip "point_id" row.columns ""))
    || not (is_empty (last_value strip "id" row.columns ""))

lookup-strip_columns :
    (strip : String → String) (key : String) (cs : List (String × Option String)) (d : Dict String)
    → or_empty (lookup key (strip_columns strip cs d))
      ≡ last_value strip key cs (or_empty (lookup key d))
unfolding strip_columns last_value
lookup-strip_columns strip key [] d = refl
lookup-strip_columns strip key ((k, v) ∷ cs) d =
    lookup-strip_columns strip key cs (assign_key (strip k) (strip (or_empty v)) d)
    ∙ ap (last_value strip key cs) (
        ap or_empty (lookup-assign_key (strip k) key (strip (or_empty v)) d)
        ∙ or_empty-if (str_eq (strip k) key) (strip (or_empty v)) (lookup key d))
  where
    or_empty-if :
        (b : Bool) (w : String) (o : Option String)
        → or_empty (if b then some w else o) ≡ (if b then w else or_empty o)
    or_empty-if true w o = refl
    or_empty-if false w o = refl

is_named-second :
    (b : Option String)
    → is_named (elim (filled b) [ none ↦ none | some v ↦ some v ]) ≡ not (is_empty (or_empty b))
is_named-second none = refl
is_named-second (some w) = elim (Bool-cases (is_empty w)) [ inl e ↦ rw e refl | inr e ↦ rw e refl ]

is_named-filled :
    (a b : Option String)
    → is_named (elim (filled a) [
      | none ↦ elim (filled b) [ none ↦ none | some v ↦ some v ]
      | some v ↦ some v
    ])
      ≡ (not (is_empty (or_empty a)) || not (is_empty (or_empty b)))
is_named-filled none b = is_named-second b
is_named-filled (some v) b = elim (Bool-cases (is_empty v)) [
  | inl e ↦ rw e (is_named-second b)
  | inr e ↦ rw e refl
]

is_named-names_point :
    (strip : String → String) (row : CsvRow)
    → is_named (pick (strip_columns strip row.columns []) ("point_id" ∷ "id" ∷ []))
      ≡ names_point strip (ok row)
unfolding names_point
is_named-names_point strip row =
    let d = strip_columns strip row.columns [] in
    is_named-filled (lookup "point_id" d) (lookup "id" d)
    ∙ rw
        (
          lookup-strip_columns strip "point_id" row.columns [],
          lookup-strip_columns strip "id" row.columns [],
        )
        refl

module _ (py : Python) where
  open py use {Float}

  added :
      (exp : String) (now line : ℕ) (row : Dict String) (id : String)
      (p : Result (Option Float × Option Float × Option Float)) (r : Imported) (s : Store Float)
      → answered (add_error py line id p (add_point py exp now row id p (r, s)).0) ≡ answered r + 1
  unfolding answered
  added exp now line row id (ok p) r s = omega (arith, length-append r.imported (id ∷ []))
  added exp now line row id (err e) r s = omega (arith, length-append r.errors ((line, id) ∷ []))

  take_row-answered :
      (exp : String) (now line : ℕ) (row : Dict String) (id : Option String) (r : Imported)
      (s : Store Float)
      → answered (take_row py exp now line row id (r, s)).0
        ≡ answered r + (if is_named id then 1 else 0)
  unfolding answered
  take_row-answered exp now line row none r s = omega arith
  take_row-answered exp now line row (some id) r s = added exp now line row id (position py row) r s

  row_answered :
      (strip : String → String) (exp : String) (now line : ℕ) (rows : List (Result CsvRow))
      (r : Imported) (s : Store Float) (out : Imported) (row : CsvRow) (surplus : List String)
      → ((r' : Imported) (s' : Store Float)
          → (import_rows py strip exp now (line + 1) rows (r', s')).0 ≡ ok out
          → answered out ≡ answered r' + count (names_point strip) rows)
      → (elim (strip_row strip row surplus) as (λ _. Result Imported × Store Float) [
        | err e ↦ (err e, s)
        | ok d ↦
            import_rows py strip exp now
              (line + 1)
              rows
              (take_row py exp now line d (pick d ("point_id" ∷ "id" ∷ [])) (r, s))
      ]).0
        ≡ ok out
      → answered out ≡ answered r + count (names_point strip) (ok row ∷ rows)
  row_answered strip exp now line rows r s out row (v ∷ vs) ih h = cc h
  row_answered strip exp now line rows r s out row [] ih h =
      let d = strip_columns strip row.columns [] in
      let id = pick d ("point_id" ∷ "id" ∷ []) in
      let one = take_row-answered exp now line d id r s in
      let rest =
        ih (take_row py exp now line d id (r, s)).0 (take_row py exp now line d id (r, s)).1 h in
      rest ∙ rw (one, is_named-names_point strip row) (omega arith)

  import_rows-answered :
      (strip : String → String) (exp : String) (now line : ℕ) (rows : List (Result CsvRow))
      (r : Imported) (s : Store Float) (out : Imported)
      → (import_rows py strip exp now line rows (r, s)).0 ≡ ok out
      → answered out ≡ answered r + count (names_point strip) rows
  unfolding import_rows
  import_rows-answered strip exp now line [] r s out h =
      let e : r ≡ out = cc h in rw (← e) (omega arith)
  import_rows-answered strip exp now line (err e ∷ rows) r s out h = cc h
  import_rows-answered strip exp now line (ok row ∷ rows) r s out h =
      row_answered strip exp now line rows r s out row row.surplus
        (λ r' s'. import_rows-answered strip exp now (line + 1) rows r' s' out) h

  -- Where the import returns, the points imported and the errors are together as many as the rows
  -- in which a column `point_id` or `id` has a value that is not blank (the last one, where
  -- columns have one name).
  pub import_points_csv-answers_each :
      (strip : String → String) (exp : String) (rows : List (Result CsvRow)) (now : ℕ)
      (s : Store Float) (r : Imported)
      → (import_points_csv py strip exp rows now s).0 ≡ ok r
      → answered r ≡ count (names_point strip) rows
  unfolding import_points_csv answered
  import_points_csv-answers_each strip exp rows now s r h =
      let h =
        import_rows-answered strip exp now 2 rows (record { imported = []; errors = [] }) s r h in
      omega arith

-- ===== src/Service/Tests.antt =====
-- A file of points, and the theorem on it.
use network_backend_article.Base.{String, some, none, List, [], ◌∷◌, ◌≡◌, refl, count}
use network_backend_article.Base.Result.{Result, ok}
use network_backend_article.Samples.{python}
use network_backend_article.Store.Tables.{empty}
use network_backend_article.Service.Points.{
  Imported, CsvRow, import_points_csv, import_rows, strip_columns,
}
use network_backend_article.Service.Points.Accounts.{
  answered, names_point, import_points_csv-answers_each,
}

abbrev rows : List (Result CsvRow)
rows =
    ok (record { columns = ("point_id", some "P1") ∷ ("x", some "") ∷ []; surplus = [] })
    ∷ ok (record { columns = ("id", some "P2") ∷ ("x", some "east") ∷ []; surplus = [] })
    ∷ ok (record { columns = ("note", some "no id") ∷ ("x", none) ∷ []; surplus = [] })
    ∷ []

-- None of the texts has a blank at an end.
abbrev unchanged : String → String
unchanged s = s

imported : (r : Imported) × ((import_points_csv python unchanged "E" rows 5 empty).0 ≡ ok r)
unfolding import_points_csv import_rows strip_columns
imported = (_, refl)

import_points_csv-answers_each_example : answered imported.0 ≡ count (names_point unchanged) rows
import_points_csv-answers_each_example =
    import_points_csv-answers_each python unchanged "E" rows 5 empty imported.0 imported.1

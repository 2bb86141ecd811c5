-- ===== src/Export/Raises.antt =====
-- Which exceptions leave `export_experiment` (backend/export.py), apart from those of the files.
use network_backend_article.Base.{ℕ, ◌≡◌, String, Option, List}
use network_backend_article.Base.Result.{Result, Error, err}
use network_backend_article.Store.Tables.{Store}
use network_backend_article.Export.Statistics.{Statistics}

module _ (st : Statistics) (number_of : String → Result (Option ℕ)) (e : Error) where
  open st use {Float, fmean, stdev}

  -- A function outside the code raises the exception: the mean or the deviation of some values, or
  -- the reading of the number at the end of a name.
  pub data IsRaised : Type 0 where
    by_mean : (xs : List Float) → fmean xs ≡ err e → IsRaised
    by_deviation : (xs : List Float) → stdev xs ≡ err e → IsRaised
    by_number : (name : String) → number_of name ≡ err e → IsRaised

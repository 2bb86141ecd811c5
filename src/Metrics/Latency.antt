-- ===== src/Metrics/Latency.antt =====
-- The statistics of the latency samples of `Metrics` (backend/metrics.py) in a snapshot. The deques
-- that keep the samples are of the standard library; floats and their arithmetic are parameters.
use network_backend_article.Base.{ℕ, zero, suc, ◌-◌, Bool, List, [], ◌∷◌, min, length, sort_by}

pub record Stats (F : Type 0) : Type 0 where
  pub count : ℕ
  pub avg : F
  pub p95 : F
  pub max : F

-- `sum(xs) / n`, `round(x, 2)` and `int(n * 0.95)` are `mean`, `round2` and `rank`.
module _ {F : Type 0} (le : F → F → Bool) (mean : List F → F) (round2 : F → F) (rank : ℕ → ℕ)
    (zero_float : F) where
  abbrev item : F → List F → ℕ → F
  item d [] i = d
  item d (x ∷ xs) zero = x
  item d (x ∷ xs) (suc i) = item d xs i

  abbrev of_sorted : List F → Stats F
  of_sorted [] = record { count = 0; avg = zero_float; p95 = zero_float; max = zero_float }
  of_sorted (x ∷ xs) =
      let n = length (x ∷ xs) in
      record {
        count = n;
        avg = round2 (mean (x ∷ xs));
        p95 = round2 (item zero_float (x ∷ xs) (min (n - 1) (rank n)));
        max = round2 (item zero_float (x ∷ xs) (n - 1));
      }

  -- `_stats`
  unfoldable pub stats : List F → Stats F
  stats samples = of_sorted (sort_by le samples)

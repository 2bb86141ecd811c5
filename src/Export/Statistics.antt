-- ===== src/Export/Statistics.antt =====
-- The numbers of backend/export.py: floats with the functions that the code takes of Python and of
-- its module `statistics`, and `_quantile`.
use network_backend_article.Base.{
  ℕ, suc, ◌+◌, ◌-◌, Bool, true, false, List, [], ◌∷◌, min, length, sort_by,
}
use network_backend_article.Base.Result.{Result, ok}
use network_backend_article.Base.Raises.{◌>>=◌}

-- `fmean`, `median` and `stdev` are called on lists that are long enough; the first and the last
-- may raise, as on infinite values. `round3` is `round(x, 3)`, `trunc` is `int` of a number that is
-- not negative.
pub record Statistics : Type 1 where
  pub Float : Type 0
  pub zero : Float
  pub one : Float
  pub of_nat : ℕ → Float
  pub trunc : Float → ℕ
  pub le : Float → Float → Bool
  pub add : Float → Float → Float
  pub sub : Float → Float → Float
  pub mul : Float → Float → Float
  pub round3 : Float → Float
  pub median : List Float → Float
  pub fmean : List Float → Result Float
  pub stdev : List Float → Result Float
  pub quarter : Float
  pub three_quarters : Float

module _ (st : Statistics) where
  open st use {Float, zero, one, of_nat, trunc, le, add, sub, mul, stdev, round3}

  -- `ordered[i]`, for an index in the range.
  abbrev pub item : Float → List Float → ℕ → Float
  item d [] i = d
  item d (x ∷ xs) ℕ.zero = x
  item d (x ∷ xs) (suc i) = item d xs i

  -- The linear interpolation at the position `pos`.
  abbrev pub between : List Float → Float → Float
  between ordered pos =
      let low = trunc pos in
      let high = min (low + 1) (length ordered - 1) in
      let frac = sub pos (of_nat low) in
      add (mul (item zero ordered low) (sub one frac)) (mul (item zero ordered high) frac)

  abbrev of_sorted : List Float → Float → Float
  of_sorted [] q = zero
  of_sorted (x ∷ []) q = x
  of_sorted (x ∷ y ∷ xs) q = between (x ∷ y ∷ xs) (mul (of_nat (length (x ∷ y ∷ xs) - 1)) q)

  unfoldable pub quantile : List Float → Float → Float
  quantile values q = of_sorted (sort_by le values) q

  -- The smallest and the largest of a list that is not empty.
  abbrev pub smallest : Float → List Float → Float
  smallest m [] = m
  smallest m (x ∷ xs) = smallest (elim (le m x) [ true ↦ m | false ↦ x ]) xs

  abbrev pub largest : Float → List Float → Float
  largest m [] = m
  largest m (x ∷ xs) = largest (elim (le x m) [ true ↦ m | false ↦ x ]) xs

  -- `round(stdev(xs), 3) if len(xs) > 1 else 0.0`
  abbrev pub spread : List Float → Result Float
  spread [] = ok zero
  spread (x ∷ []) = ok zero
  spread (x ∷ y ∷ xs) = stdev (x ∷ y ∷ xs) >>= λ sd. ok (round3 sd)

-- ===== src/Export/Summaries.antt =====
-- The representative values of backend/export.py: `_repr`, `summarize` and
-- `summarize_calibration_points`.
use network_backend_article.Base.{
  String, Bool, false, ◌&&◌, Option, none, some, List, [], ◌∷◌, map, sort_by, str_eq, length,
}
use network_backend_article.Export.Statistics.{Statistics, quantile, smallest, largest, spread}
use network_backend_article.Base.Result.{Result, ok}
use network_backend_article.Base.Raises.{◌>>=◌}
use network_backend_article.Export.Groups.{group_from, pair_eq, pair_leb}
use network_backend_article.Export.Rows.{
  Row, Repr, collect, Summary, CalibrationPoint, keep_some, row_offset, valid_filtered, raw_values,
  is_calibration,
}

module _ (st : Statistics) where
  open st use {Float, add, sub, median, fmean, round3, quarter, three_quarters}

  abbrev option_map : (Float → Float) → Option Float → Option Float
  option_map f none = none
  option_map f (some x) = some (f x)

  abbrev repr_of : Row Float → List Float → Option (Repr Float)
  repr_of row [] = none
  repr_of row (x ∷ xs) = some (record {
    sample_count = length (x ∷ xs);
    median_filtered = round3 (median (x ∷ xs));
    device_offset_db = option_map round3 (row_offset row);
    corrected_rssi = option_map (λ o. round3 (add (median (x ∷ xs)) o)) (row_offset row);
    pos = row.pos;
  })

  -- `_repr`
  unfoldable pub repr_rows : List (Row Float) → Option (Repr Float)
  repr_rows [] = none
  repr_rows (r ∷ rs) = repr_of r (valid_filtered (r ∷ rs))

  abbrev median_or_none : List Float → Option Float
  median_or_none [] = none
  median_or_none (x ∷ xs) = some (round3 (median (x ∷ xs)))

  abbrev pub summary_of : Row Float → List Float → List Float → Result (Option (Summary Float))
  summary_of row raw [] = ok none
  summary_of row raw (x ∷ xs) = fmean (x ∷ xs) >>= λ mean. spread st (x ∷ xs) >>= λ std. ok (
      some (record {
        point_id = row.point_id;
        point_role = row.point_role;
        node_id = row.node_id;
        pos = row.pos;
        sample_count = length (x ∷ xs);
        median_raw = median_or_none raw;
        median_filtered = round3 (median (x ∷ xs));
        mean_filtered = round3 mean;
        std_filtered = std;
        min_filtered = round3 (smallest st x xs);
        max_filtered = round3 (largest st x xs);
        iqr_filtered =
            round3 (sub (quantile st (x ∷ xs) three_quarters) (quantile st (x ∷ xs) quarter));
        device_offset_db = option_map round3 (row_offset row);
        corrected_rssi = option_map (λ o. round3 (add (median (x ∷ xs)) o)) (row_offset row);
      }))

  abbrev pub summary_rows : (String × String) × List (Row Float) → Result (Option (Summary Float))
  summary_rows (k, []) = ok none
  summary_rows (k, r ∷ rs) = summary_of r (raw_values (r ∷ rs)) (valid_filtered (r ∷ rs))

  -- Of the valid rows, by point and node.
  unfoldable pub summarize : List (Row Float) → Result (List (Summary Float))
  summarize rows = collect summary_rows (
      (sort_by (λ a b. pair_leb a.0 b.0)
        (group_from pair_eq (λ r. r.valid) (λ r. (r.point_id, r.node_id)) rows [])))

  -- `str(run_id)` of no Run is "None".
  abbrev run_text : Option String → String
  run_text none = "None"
  run_text (some id) = id

  abbrev same_run : Option String × String → Option String × String → Bool
  same_run (none, a) (none, b) = str_eq a b
  same_run (some r, a) (some q, b) = str_eq r q && str_eq a b
  same_run (none, a) (some q, b) = false
  same_run (some r, a) (none, b) = false

  abbrev calibration_point :
      (Option String × String) × List (Row Float) → Option (CalibrationPoint Float)
  calibration_point (k, []) = none
  calibration_point ((run_id, node_id), r ∷ rs) = elim (repr_rows (r ∷ rs)) [
    | none ↦ none
    | some rep ↦ some (record {
      run_id = run_id;
      calibration_point_id = r.point_id;
      node_id = node_id;
      repr = rep;
    })
  ]

  unfoldable pub summarize_calibration_points : List (Row Float) → List (CalibrationPoint Float)
  summarize_calibration_points rows = keep_some (
      map calibration_point (
        sort_by (λ a b. pair_leb (run_text a.0.0, a.0.1) (run_text b.0.0, b.0.1))
          (group_from same_run is_calibration (λ r. (r.run_id, r.node_id)) rows [])))

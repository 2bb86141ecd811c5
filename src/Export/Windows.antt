-- ===== src/Export/Windows.antt =====
-- The summaries by window of backend/export.py.
use network_backend_article.Base.{
  String, Bool, ◌&&◌, ◌||◌, Option, none, some, List, [], ◌∷◌, sort_by, str_eq, ltb, leb, ◌==◌,
  if◌then◌else◌,
}
use network_backend_article.Base.Text.{text_leb}
use network_backend_article.Base.Dict.{Dict, lookup}
use network_backend_article.Base.Result.{Result, ok, err, key_error}
use network_backend_article.Base.Raises.{◌>>=◌}
use network_backend_article.Store.Tables.{SegmentRow}
use network_backend_article.Export.Statistics.{Statistics}
use network_backend_article.Export.Groups.{group_from, pair_eq}
use network_backend_article.Export.Rows.{
  Row, Repr, WindowPoint, completed_segment_ids, by_id, direction_of, pass_of, collect, is_test_in,
  is_calibration_in, segment_key,
}
use network_backend_article.Export.Summaries.{repr_rows}

module _ (st : Statistics) where
  open st use {Float}

  abbrev pub window_point : String → SegmentRow → Row Float → Repr Float → WindowPoint Float
  window_point seg_id s row rep = record {
    run_id = s.run_id;
    direction = direction_of row.run;
    pass_index = pass_of row.run;
    segment_id = seg_id;
    test_point_id = s.point_id;
    attempt_index = s.attempt_index;
    calibration_point_id = row.point_id;
    recording_started_at_ms = s.recording_started_at_ms;
    recording_ended_at_ms = s.recording_ended_at_ms;
    node_id = row.node_id;
    repr = rep;
  }

  abbrev pub meta_point :
      String → Option SegmentRow → Row Float → Repr Float → Result (Option (WindowPoint Float))
  meta_point id none row rep = err key_error
  meta_point id (some s) row rep = ok (some (window_point id s row rep))

  abbrev pub represented :
      Dict SegmentRow
      → String
      → Row Float
      → Option (Repr Float)
      → Result (Option (WindowPoint Float))
  represented meta id row none = ok none
  represented meta id row (some rep) = meta_point id (lookup id meta) row rep

  -- The row of one group; a group is never empty.
  abbrev pub group_point :
      Dict SegmentRow → String → List (Row Float) → Result (Option (WindowPoint Float))
  group_point meta id [] = ok none
  group_point meta id (r ∷ rs) = represented meta id r (repr_rows st (r ∷ rs))

  abbrev pub by_start : WindowPoint Float → WindowPoint Float → Bool
  by_start a b =
      if str_eq a.run_id b.run_id
      then leb a.recording_started_at_ms b.recording_started_at_ms
      else text_leb a.run_id b.run_id

  abbrev pub by_start_and_point : WindowPoint Float → WindowPoint Float → Bool
  by_start_and_point a b =
      if str_eq a.run_id b.run_id
      then ltb a.recording_started_at_ms b.recording_started_at_ms
        || (a.recording_started_at_ms == b.recording_started_at_ms
            && text_leb a.calibration_point_id b.calibration_point_id)
      else text_leb a.run_id b.run_id

  abbrev pub test_groups : List (Row Float) → List SegmentRow → List (String × List (Row Float))
  test_groups rows segments =
      group_from str_eq (is_test_in (completed_segment_ids segments)) segment_key rows []

  unfoldable pub summarize_test_points :
      List (Row Float) → List SegmentRow → Result (List (WindowPoint Float))
  summarize_test_points rows segments =
      collect (λ g. group_point (by_id segments []) g.0 g.1) (test_groups rows segments) >>= λ out.
      ok (sort_by by_start out)

  abbrev pub calibration_groups :
      List (Row Float) → List SegmentRow → List ((String × String) × List (Row Float))
  calibration_groups rows segments =
      group_from pair_eq (is_calibration_in (completed_segment_ids segments))
        (λ r. (segment_key r, r.node_id)) rows []

  unfoldable pub summarize_calibration_by_window :
      List (Row Float) → List SegmentRow → Result (List (WindowPoint Float))
  summarize_calibration_by_window rows segments =
      collect (λ g. group_point (by_id segments []) g.0.0 g.1) (calibration_groups rows segments)
      >>= λ out. ok (sort_by by_start_and_point out)

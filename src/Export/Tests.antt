-- ===== src/Export/Tests.antt =====
-- A small experiment (backend/export.py), and the theorems on its export.
use network_backend_article.Base.{
  ℕ, ◌≡◌, String, true, false, Option, none, some, List, [], ◌∷◌, refl, inl,
}
use network_backend_article.Base.Int.{pos}
use network_backend_article.Base.Result.{Result, ok, err, value_error}
use network_backend_article.Base.Rows.{Within}
use network_backend_article.Store.Tables.{
  Store, SegmentRow, SegmentStatus, RunRow, RunStatus, MeasurementRow, empty,
}
use network_backend_article.Samples.{numbers}
use network_backend_article.Export.Rows.{WindowPoint, collect, valid_filtered}
use network_backend_article.Export.Windows.{summarize_test_points, summarize_calibration_by_window}
use network_backend_article.Export.Summaries.{summarize, repr_rows}
use network_backend_article.Export.Groups.{group_from}
use network_backend_article.Export.Statistics.{quantile}
use network_backend_article.Export.Checks.{
  run_problems, run_warnings, each_of, trailing, max_receive_gap, has_overlap, points_in_order,
  exceeding,
}
use network_backend_article.Export.Quality.{
  problems, warnings, segment_problems, missing_coords, bssids, data_problems,
}
use network_backend_article.Store.Measurements.{measurements_for_export, join_row}
use network_backend_article.Store.Points.{list_points, list_device_offsets, list_tx}
use network_backend_article.Store.Runs.{list_runs, latest_offset_run}
use network_backend_article.Store.Segments.{list_test_segments}
use network_backend_article.Export.Bundle.{
  Bundle, export_experiment, export_rows, export_segments, phase_offsets, quality_check,
}
use network_backend_article.Export.Complete.{AreRows, summarize_test_points-AreRows}
use network_backend_article.Export.Report.{IsFilled, export_experiment-is_sound}

abbrev sample : String → String → ℕ → MeasurementRow ℕ
sample node role ts = record {
  experiment_id = "E";
  session_id = "";
  run_id = some "R";
  segment_id = some "S";
  point_id = node;
  point_role = role;
  node_id = node;
  node_ts_ms = none;
  server_ts_ms = ts;
  seq = none;
  rssi_raw_dbm = none;
  rssi_filtered_dbm = some 60;
  sample_count = none;
  error_flags = pos 0;
  ap_bssid = some "ap";
  ap_channel = none;
  valid = true;
  invalid_reason = none;
}

abbrev segment : SegmentRow
segment = record {
  segment_id = "S";
  run_id = "R";
  point_id = "P1";
  order_index = 1;
  attempt_index = 1;
  status = SegmentStatus.completed;
  prepared_at_ms = 10;
  recording_started_at_ms = 20;
  recording_ended_at_ms = 50;
  actual_ended_at_ms = some 50;
  superseded = false;
  note = none;
}

abbrev forward_run : RunRow
forward_run = record {
  run_id = "R";
  experiment_id = "E";
  direction = "forward";
  pass_index = 1;
  status = RunStatus.completed;
  started_at_ms = 5;
  ended_at_ms = some 60;
  pre_offset_run_id = none;
  post_offset_run_id = none;
  note = none;
}

abbrev store : Store ℕ
store = record empty {
  runs = forward_run ∷ [];
  segments = segment ∷ [];
  measurements = sample "t1" "test" 30 ∷ sample "c1" "calibration" 31 ∷ [];
}

-- What the checks ask for beside the samples: an offset measurement, a transmitter, a coordinate.
abbrev full_store : Store ℕ
full_store = record store {
  offset_runs =
      record {
        offset_run_id = "pre";
        experiment_id = "E";
        phase = "pre";
        status = RunStatus.completed;
        started_at_ms = 1;
        ended_at_ms = some 2;
        note = none;
      }
      ∷ [];
  device_offsets =
      record {
        offset_run_id = "pre";
        node_id = "c1";
        experiment_id = "E";
        offset_median_dbm = some 60;
        device_offset_db = some 1;
        sample_count = 5;
        std_db = none;
        calibrated_at_ms = 2;
      }
      ∷ [];
  points =
      record {
        experiment_id = "E";
        point_id = "P1";
        point_role = some "test";
        pos_x = some 1;
        pos_y = none;
        pos_z = none;
        note = none;
        updated_at_ms = 1;
      }
      ∷ record {
        experiment_id = "E";
        point_id = "t1";
        point_role = some "test";
        pos_x = some 1;
        pos_y = none;
        pos_z = none;
        note = none;
        updated_at_ms = 1;
      }
      ∷ [];
  tx =
      record {
        experiment_id = "E";
        tx_id = "ap";
        pos_x = some 0;
        pos_y = none;
        pos_z = none;
        frequency_hz = none;
        ap_bssid = none;
        ap_channel = none;
        note = none;
      }
      ∷ [];
}

abbrev no_number : String → Result (Option ℕ)
no_number s = ok none

summarize_test_points-AreRows_example :
    (out : List (WindowPoint ℕ)) × (summarize_test_points numbers
        (export_rows "E" store)
        (export_segments "E" store)
      ≡ ok out)
    × AreRows numbers (export_segments "E" store) out
summarize_test_points-AreRows_example =
    summarize_test_points-AreRows numbers (export_rows "E" store) (export_segments "E" store)

exported :
    (b : Bundle ℕ) × (export_experiment numbers no_number "E" 1 1 1 full_store ≡ ok b)
    × (b.qc.ok ≡ true)
    × (Within segment b.segments)
unfolding export_experiment summarize summarize_test_points summarize_calibration_by_window
    quality_check problems warnings run_problems segment_problems missing_coords bssids
    data_problems run_warnings each_of trailing collect valid_filtered quantile repr_rows
    export_rows export_segments phase_offsets measurements_for_export join_row list_points
    list_device_offsets list_tx list_runs latest_offset_run list_test_segments group_from
    max_receive_gap has_overlap points_in_order exceeding
exported = (_, refl, refl, inl refl)

export_experiment-is_sound_example : IsFilled 1 exported.0.test_points exported.0.cal_window "S"
export_experiment-is_sound_example =
    export_experiment-is_sound numbers no_number "E" 1 1 1 full_store exported.0 segment exported.1
      exported.2 exported.3 refl refl

-- The name of the point ends in more digits than `int` takes.
abbrev too_long : String → Result (Option ℕ)
too_long s = err value_error

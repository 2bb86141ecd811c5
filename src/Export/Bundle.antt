-- ===== src/Export/Bundle.antt =====
-- `export_experiment` of backend/export.py, but for the files that it writes, and `offset_drift`.
use network_backend_article.Base.{
  ℕ, String, Bool, true, false, Option, none, some, List, [], ◌∷◌, map, filter, sort_by, str_eq,
  if◌then◌else◌, length,
}
use network_backend_article.Base.Text.{text_leb}
use network_backend_article.Base.Dict.{Dict, lookup, assign_key, keys}
use network_backend_article.Base.Result.{Result, ok}
use network_backend_article.Base.Raises.{◌>>=◌}
use network_backend_article.Store.Tables.{
  Store, SegmentRow, RunRow, OffsetRunRow, PointRow, DeviceOffsetRow, TxRow,
}
use network_backend_article.Store.Measurements.{ExportRow, measurements_for_export}
use network_backend_article.Store.Points.{list_points, list_tx, list_device_offsets}
use network_backend_article.Store.Runs.{list_runs, latest_offset_run}
use network_backend_article.Store.Segments.{list_test_segments}
use network_backend_article.Export.Statistics.{Statistics}
use network_backend_article.Export.Rows.{
  Row, Position, Summary, WindowPoint, CalibrationPoint, is_counted,
}
use network_backend_article.Export.Summaries.{summarize, summarize_calibration_points}
use network_backend_article.Export.Windows.{summarize_test_points, summarize_calibration_by_window}
use network_backend_article.Export.Checks.{Problem, Warning, max_receive_gap, each, add_text}
use network_backend_article.Export.Quality.{Input, problems, warnings, is_ok, is_used}

pub record Drift (F : Type 0) : Type 0 where
  pub node_id : String
  pub pre_device_offset_db : Option F
  pub post_device_offset_db : Option F
  pub device_offset_drift_db : Option F

abbrev union : List String → List String → List String
union [] ks = ks
union (j ∷ js) ks = add_text j (union js ks)

module _ {F : Type 0} where
  -- `{o["node_id"]: o["device_offset_db"] for o in offsets}`
  abbrev pub by_node : List (DeviceOffsetRow F) → Dict (Option F) → Dict (Option F)
  by_node [] d = d
  by_node (o ∷ os) d = by_node os (assign_key o.node_id o.device_offset_db d)

  -- `pre.get(node)`: a missing node and a node without a value are both None.
  abbrev pub get : String → Dict (Option F) → Option F
  get node d = elim (lookup node d) [ none ↦ none | some v ↦ v ]

  -- The drift is `round(post - pre, 3)`.
  abbrev drift_of : (F → F → F) → Option F → Option F → Option F
  drift_of f none q = none
  drift_of f (some p) none = none
  drift_of f (some p) (some q) = some (f q p)

  unfoldable pub offset_drift :
      (F → F → F) → List (DeviceOffsetRow F) → List (DeviceOffsetRow F) → List (Drift F)
  offset_drift f pre_offsets post_offsets =
      let pre = by_node pre_offsets [] in
      let post = by_node post_offsets [] in
      map
        (λ node. record {
          node_id = node;
          pre_device_offset_db = get node pre;
          post_device_offset_db = get node post;
          device_offset_drift_db = drift_of f (get node pre) (get node post);
        })
        (sort_by text_leb (union (keys pre) (keys post)))

  -- The columns of the joined point.
  abbrev joined_pos : Option (PointRow F) → Position F
  joined_pos none = (none, none, none)
  joined_pos (some p) = (p.pos_x, p.pos_y, p.pos_z)

  -- `coords`: the points with a coordinate, by their names.
  abbrev pub coords : List (PointRow F) → Dict (Position F) → Dict (Position F)
  coords [] d = d
  coords (p ∷ ps) d = elim p.pos_x [
    | none ↦ coords ps d
    | some x ↦ coords ps (assign_key p.point_id (p.pos_x, p.pos_y, p.pos_z) d)
  ]

  -- A registered coordinate replaces that of the row.
  abbrev pub corrected : Dict (Position F) → ExportRow F → Row F
  corrected d r = record {
    base = r;
    pos = elim (lookup r.point_id d) [ none ↦ joined_pos r.point | some pos ↦ pos ];
  }

  unfoldable pub export_rows : String → Store F → List (Row F)
  export_rows experiment_id s =
      map (corrected (coords (list_points experiment_id s) []))
        (measurements_for_export experiment_id s)

  -- The TestSegments of the experiment, by Run.
  unfoldable pub export_segments : String → Store F → List SegmentRow
  export_segments experiment_id s =
      each (λ r. list_test_segments r.run_id s) (list_runs experiment_id s)

  abbrev offsets_of : Option OffsetRunRow → Store F → List (DeviceOffsetRow F)
  offsets_of none s = []
  offsets_of (some run) s = list_device_offsets run.offset_run_id s

  unfoldable pub phase_offsets : String → String → Store F → List (DeviceOffsetRow F)
  phase_offsets phase experiment_id s = offsets_of (latest_offset_run experiment_id phase s) s

  -- `tx_rx["rx"]`
  abbrev is_receiver : PointRow F → Bool
  is_receiver p = elim p.point_role [
    | none ↦ false
    | some role ↦ if str_eq role "calibration" then true else str_eq role "test"
  ]

  unfoldable pub receivers : List (PointRow F) → List (String × Option String × Position F)
  receivers points =
      map (λ p. (p.point_id, p.point_role, (p.pos_x, p.pos_y, p.pos_z))) (filter is_receiver points)

-- `qc["counts"]`
pub record Counts : Type 0 where
  pub raw_rows : ℕ
  pub runs : ℕ
  pub completed_segments : ℕ
  pub test_points : ℕ
  pub calibration_windows : ℕ

pub record Report (F : Type 0) : Type 0 where
  pub ok : Bool
  pub problems : List Problem
  pub warnings : List Warning
  pub offset_drift : List (Drift F)
  pub max_receive_gap_ms : List (String × ℕ)
  pub counts : Counts

-- What `export_experiment` computes for its files.
pub record Bundle (F : Type 0) : Type 0 where
  pub rows : List (Row F)
  pub summary : List (Summary F)
  pub test_points : List (WindowPoint F)
  pub cal_window : List (WindowPoint F)
  pub cal_points : List (CalibrationPoint F)
  pub points : List (PointRow F)
  pub runs : List RunRow
  pub segments : List SegmentRow
  pub tx : List (TxRow F)
  pub rx : List (String × Option String × Position F)
  pub qc : Report F

module _ (st : Statistics) (number_of : String → Result (Option ℕ)) where
  open st use {Float, sub, round3}

  abbrev drift : Float → Float → Float
  drift q p = round3 (sub q p)

  unfoldable pub quality_check : Input Float → Result (Report Float)
  unfolding problems warnings
  quality_check i = warnings number_of i >>= λ given. ok (record {
    ok = is_ok (problems i);
    problems = problems i;
    warnings = given;
    offset_drift = offset_drift drift i.pre_offsets i.post_offsets;
    max_receive_gap_ms = max_receive_gap (filter is_used i.rows);
    counts = record {
      raw_rows = length i.rows;
      runs = length i.runs;
      completed_segments = length (filter is_counted i.segments);
      test_points = length i.test_points;
      calibration_windows = length i.cal_window;
    };
  })

  -- The checks' input, from the store and the two summaries that may raise.
  abbrev pub input_of :
      Store Float
      → String
      → ℕ
      → ℕ
      → ℕ
      → List (WindowPoint Float)
      → List (WindowPoint Float)
      → Input Float
  input_of s experiment_id expected_samples expected_test_points expected_calibration_nodes
        test_points cal_window =
      record {
        rows = export_rows experiment_id s;
        test_points = test_points;
        cal_window = cal_window;
        pre_offsets = phase_offsets "pre" experiment_id s;
        post_offsets = phase_offsets "post" experiment_id s;
        points = list_points experiment_id s;
        tx_list = list_tx experiment_id s;
        runs = list_runs experiment_id s;
        segments = export_segments experiment_id s;
        expected_test_points = expected_test_points;
        expected_calibration_nodes = expected_calibration_nodes;
        expected_samples = expected_samples;
      }

  abbrev pub bundle_of : Input Float → List (Summary Float) → Report Float → Bundle Float
  bundle_of i summary qc = record {
    rows = i.rows;
    summary = summary;
    test_points = i.test_points;
    cal_window = i.cal_window;
    cal_points = summarize_calibration_points st i.rows;
    points = i.points;
    runs = i.runs;
    segments = i.segments;
    tx = i.tx_list;
    rx = receivers i.points;
    qc = qc;
  }

  -- What is made of the input, where the two summaries by window are there.
  abbrev pub complete : List (Summary Float) → Input Float → Result (Bundle Float)
  complete summary i = quality_check i >>= λ qc. ok (bundle_of i summary qc)

  unfoldable pub export_experiment : String → ℕ → ℕ → ℕ → Store Float → Result (Bundle Float)
  export_experiment experiment_id expected_samples expected_test_points expected_calibration_nodes
        s =
      let rows = export_rows experiment_id s in
      let segments = export_segments experiment_id s in
      summarize st rows >>= λ summary. summarize_test_points st rows segments >>= λ test_points.
      summarize_calibration_by_window st rows segments >>= λ cal_window. complete summary (
        input_of s experiment_id expected_samples expected_test_points expected_calibration_nodes
          test_points cal_window)

-- ===== src/Export/Quality.antt =====
-- `quality_check` of backend/export.py on the rows, the windows and the runs.
use network_backend_article.Base.{
  ℕ, ◌*◌, String, Bool, true, false, not, ◌&&◌, ◌||◌, Option, none, some, List, [], ◌∷◌, ◌++◌, map,
  filter, any, sort_by, str_eq, ltb, if◌then◌else◌, length,
}
use network_backend_article.Base.Text.{text_leb}
use network_backend_article.Base.Result.{Result, ok}
use network_backend_article.Base.Raises.{◌>>=◌}
use network_backend_article.Store.Tables.{SegmentRow, RunRow, PointRow, DeviceOffsetRow, TxRow}
use network_backend_article.Export.Rows.{Row, WindowPoint, is_counted}
use network_backend_article.Export.Checks.{
  Problem, Warning, max_receive_gap, run_problems, run_warnings, is_checked, each, each_of, when,
  add_node, calibration_problems, add_text, add_bssid, is_given, channel_warnings, nonempty,
  none_given, is_big, no_pre_offset, no_tx, no_test_samples, no_coordinates, mixed_bssid,
  few_samples, no_post_offset, long_gaps,
}

module _ {F : Type 0} where
  -- `tp_by_seg`
  abbrev pub has_test : List (WindowPoint F) → String → Bool
  has_test test_points id = any (λ t. str_eq t.segment_id id) test_points

  abbrev pub nodes_of : String → List (WindowPoint F) → List String
  nodes_of id [] = []
  nodes_of id (c ∷ cs) =
      if str_eq c.segment_id id then add_node c.node_id (nodes_of id cs) else nodes_of id cs

  unfoldable pub segment_problems :
      List (WindowPoint F) → List (WindowPoint F) → ℕ → SegmentRow → List Problem
  segment_problems test_points cal_window expected s =
      if is_counted s
      then when (not (has_test test_points s.segment_id)) (no_test_samples s.segment_id)
        ++ calibration_problems s.segment_id (length (nodes_of s.segment_id cal_window)) expected
      else []

  abbrev has_x : Option F → Bool
  has_x none = false
  has_x (some x) = true

  abbrev is_registered : List (PointRow F) → String → Bool
  is_registered points id = any (λ p. str_eq p.point_id id && has_x p.pos_x) points

  abbrev unlocated : List (PointRow F) → WindowPoint F → Bool
  unlocated points t = not (has_x t.repr.pos.0) || not (is_registered points t.test_point_id)

  abbrev missing_in : List (PointRow F) → List (WindowPoint F) → List String
  missing_in points [] = []
  missing_in points (t ∷ ts) =
      let rest = missing_in points ts in
      if unlocated points t then add_text t.test_point_id rest else rest

  unfoldable pub missing_coords : List (PointRow F) → List (WindowPoint F) → List String
  missing_coords points ts = sort_by text_leb (missing_in points ts)

  unfoldable pub bssids : List (Row F) → List String
  bssids [] = []
  bssids (r ∷ rs) = add_bssid r.ap_bssid (bssids rs)

  abbrev pub is_used : Row F → Bool
  is_used r = is_given r.run_id && (str_eq r.point_role "calibration" || str_eq r.point_role "test")

  abbrev has_no_channel : Row F → Bool
  has_no_channel r = elim r.ap_channel [ none ↦ true | some _ ↦ false ]

  -- `t["sample_count"] < expected_samples * 0.6`, in whole numbers.
  abbrev is_low : ℕ → WindowPoint F → Bool
  is_low expected t = ltb (10 * t.repr.sample_count) (6 * expected)

  abbrev count_text : WindowPoint F → String × ℕ
  count_text t = (t.test_point_id, t.repr.sample_count)

pub record Input (F : Type 0) : Type 0 where
  pub rows : List (Row F)
  pub test_points : List (WindowPoint F)
  pub cal_window : List (WindowPoint F)
  pub pre_offsets : List (DeviceOffsetRow F)
  pub post_offsets : List (DeviceOffsetRow F)
  pub points : List (PointRow F)
  pub tx_list : List (TxRow F)
  pub runs : List RunRow
  pub segments : List SegmentRow
  pub expected_test_points : ℕ
  pub expected_calibration_nodes : ℕ
  pub expected_samples : ℕ

module _ {F : Type 0} where
  -- Coordinates, transmitters, access points and sample counts.
  unfoldable pub data_problems : Input F → List Problem
  unfolding missing_coords bssids
  data_problems i =
      nonempty (missing_coords i.points i.test_points) no_coordinates
      ++ none_given i.tx_list no_tx
      ++ when (ltb 1 (length (bssids i.rows))) (mixed_bssid (sort_by text_leb (bssids i.rows)))
      ++ nonempty (map count_text (filter (is_low i.expected_samples) i.test_points)) few_samples

  -- The problems, in the order of the code.
  unfoldable pub problems : Input F → List Problem
  unfolding run_problems segment_problems
  problems i =
      none_given i.pre_offsets no_pre_offset
      ++ each (run_problems i.expected_test_points i.segments) (filter is_checked i.runs)
      ++ each (segment_problems i.test_points i.cal_window i.expected_calibration_nodes) i.segments
      ++ data_problems i

  unfoldable pub warnings : (String → Result (Option ℕ)) → Input F → Result (List Warning)
  unfolding run_warnings each_of max_receive_gap
  warnings number_of i =
      let used = filter is_used i.rows in
      let gaps = filter is_big (max_receive_gap used) in
      each_of (run_warnings number_of i.expected_test_points i.segments) (filter is_checked i.runs)
      >>= λ of_runs. ok (
          none_given i.post_offsets no_post_offset
          ++ of_runs
          ++ channel_warnings (length used) (length (filter has_no_channel used))
          ++ nonempty (sort_by (λ a b. text_leb a.0 b.0) gaps) long_gaps)

-- `"ok": not problems`
abbrev pub is_ok : List Problem → Bool
is_ok [] = true
is_ok (p ∷ ps) = false

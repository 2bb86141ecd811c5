-- ===== src/Export/Rows.antt =====
-- The rows of backend/export.py and the selections its summaries share.
use network_backend_article.Base.{
  ℕ, String, Bool, true, false, not, ◌&&◌, Option, none, some, List, [], ◌∷◌, map, filter, any,
  str_eq,
}
use network_backend_article.Base.Dict.{Dict, assign_key}
use network_backend_article.Base.Result.{Result, ok}
use network_backend_article.Base.Raises.{◌>>=◌}
use network_backend_article.Store.Tables.{SegmentRow, SegmentStatus, RunRow, DeviceOffsetRow}
use network_backend_article.Store.Measurements.{ExportRow}

abbrev pub Position : Type 0 → Type 0
Position F = Option F × Option F × Option F

-- A row of the export with its columns `pos_x`, `pos_y`, `pos_z`, which the export overwrites.
pub record Row (F : Type 0) : Type 0 where
  pub base : ExportRow F
  pub open base use *
  pub pos : Position F

-- `_repr`
pub record Repr (F : Type 0) : Type 0 where
  pub sample_count : ℕ
  pub median_filtered : F
  pub device_offset_db : Option F
  pub corrected_rssi : Option F
  pub pos : Position F

pub record Summary (F : Type 0) : Type 0 where
  pub point_id : String
  pub point_role : String
  pub node_id : String
  pub pos : Position F
  pub sample_count : ℕ
  pub median_raw : Option F
  pub median_filtered : F
  pub mean_filtered : F
  pub std_filtered : F
  pub min_filtered : F
  pub max_filtered : F
  pub iqr_filtered : F
  pub device_offset_db : Option F
  pub corrected_rssi : Option F

-- A row of `test_points.csv` or, with the point of the calibration node, of
-- `calibration_by_test_window.csv`.
pub record WindowPoint (F : Type 0) : Type 0 where
  pub run_id : String
  pub direction : Option String
  pub pass_index : Option ℕ
  pub segment_id : String
  pub test_point_id : String
  pub attempt_index : ℕ
  pub calibration_point_id : String
  pub recording_started_at_ms : ℕ
  pub recording_ended_at_ms : ℕ
  pub node_id : String
  pub repr : Repr F

pub record CalibrationPoint (F : Type 0) : Type 0 where
  pub run_id : Option String
  pub calibration_point_id : String
  pub node_id : String
  pub repr : Repr F

abbrev pub is_completed : SegmentStatus → Bool
is_completed SegmentStatus.completed = true
is_completed _ = false

abbrev pub is_counted : SegmentRow → Bool
is_counted s = is_completed s.status && not s.superseded

abbrev pub completed_segment_ids : List SegmentRow → List String
completed_segment_ids segments = map (λ s. s.segment_id) (filter is_counted segments)

abbrev pub in_kept : List String → Option String → Bool
in_kept keep none = false
in_kept keep (some id) = any (λ k. str_eq k id) keep

-- `seg_meta`
abbrev pub by_id : List SegmentRow → Dict SegmentRow → Dict SegmentRow
by_id [] d = d
by_id (s ∷ ss) d = by_id ss (assign_key s.segment_id s d)

abbrev pub id_or_empty : Option String → String
id_or_empty none = ""
id_or_empty (some id) = id

abbrev pub direction_of : Option RunRow → Option String
direction_of none = none
direction_of (some r) = some r.direction

abbrev pub pass_of : Option RunRow → Option ℕ
pass_of none = none
pass_of (some r) = some r.pass_index

-- A list comprehension whose body may raise, and may skip its item.
unfoldable pub collect : {A B : Type 0} → (A → Result (Option B)) → List A → Result (List B)
collect f [] = ok []
collect f (a ∷ as') =
    f a >>= λ b. collect f as' >>= λ bs. ok (elim b [ none ↦ bs | some v ↦ v ∷ bs ])

abbrev pub keep_some : {A : Type 0} → List (Option A) → List A
keep_some [] = []
keep_some (none ∷ os) = keep_some os
keep_some (some a ∷ os) = a ∷ keep_some os

module _ {F : Type 0} where
  abbrev offset_of : Option (DeviceOffsetRow F) → Option F
  offset_of none = none
  offset_of (some d) = d.device_offset_db

  abbrev pub row_offset : Row F → Option F
  row_offset r = offset_of r.device_offset

  abbrev if_valid : Bool → Option F → List F → List F
  if_valid false x xs = xs
  if_valid true none xs = xs
  if_valid true (some x) xs = x ∷ xs

  -- `_valid_filtered`
  unfoldable pub valid_filtered : List (Row F) → List F
  valid_filtered [] = []
  valid_filtered (r ∷ rs) = if_valid r.valid r.rssi_filtered_dbm (valid_filtered rs)

  abbrev pub raw_values : List (Row F) → List F
  raw_values [] = []
  raw_values (r ∷ rs) = if_valid true r.rssi_raw_dbm (raw_values rs)

  abbrev pub is_test_in : List String → Row F → Bool
  is_test_in keep r = str_eq r.point_role "test" && in_kept keep r.segment_id

  abbrev pub is_calibration_in : List String → Row F → Bool
  is_calibration_in keep r = str_eq r.point_role "calibration" && in_kept keep r.segment_id

  abbrev pub is_calibration : Row F → Bool
  is_calibration r = str_eq r.point_role "calibration"

  abbrev pub segment_key : Row F → String
  segment_key r = id_or_empty r.segment_id

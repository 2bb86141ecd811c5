-- ===== src/Store/Tables.antt =====
-- The rows of the SQLite tables of db/schema_experiment.sql, as backend/store.py writes and reads
-- them, and the whole database. `F` is the type of a REAL column. Texts that the code compares
-- with its own literals only, the two status columns, are enumerations.
use network_backend_article.Base.{ℕ, String, Bool, Option, List, []}
use network_backend_article.Base.Int.{ℤ}

pub record ExperimentRow : Type 0 where
  pub experiment_id : String
  pub started_at_ms : ℕ
  pub ended_at_ms : Option ℕ
  pub ap_bssid : Option String
  pub ap_channel : Option ℤ
  pub note : Option String

-- The legacy table of single sessions.
pub record SessionRow : Type 0 where
  pub session_id : String
  pub experiment_id : String
  pub point_id : String
  pub point_role : String
  pub started_at_ms : ℕ
  pub ended_at_ms : Option ℕ
  pub planned_seconds : ℕ
  pub superseded : Bool
  pub note : Option String

pub data RunStatus : Type 0 where
  running completed interrupted discarded : RunStatus

pub record OffsetRunRow : Type 0 where
  pub offset_run_id : String
  pub experiment_id : String
  pub phase : String
  pub status : RunStatus
  pub started_at_ms : ℕ
  pub ended_at_ms : Option ℕ
  pub note : Option String

pub record RunRow : Type 0 where
  pub run_id : String
  pub experiment_id : String
  pub direction : String
  pub pass_index : ℕ
  pub status : RunStatus
  pub started_at_ms : ℕ
  pub ended_at_ms : Option ℕ
  pub pre_offset_run_id : Option String
  pub post_offset_run_id : Option String
  pub note : Option String

pub data SegmentStatus : Type 0 where
  stabilizing recording completed interrupted discarded : SegmentStatus

pub record SegmentRow : Type 0 where
  pub segment_id : String
  pub run_id : String
  pub point_id : String
  pub order_index : ℕ
  pub attempt_index : ℕ
  pub status : SegmentStatus
  pub prepared_at_ms : ℕ
  pub recording_started_at_ms : ℕ
  pub recording_ended_at_ms : ℕ
  pub actual_ended_at_ms : Option ℕ
  pub superseded : Bool
  pub note : Option String

pub record MeasurementRow (F : Type 0) : Type 0 where
  pub experiment_id : String
  pub session_id : String
  pub run_id : Option String
  pub segment_id : Option String
  pub point_id : String
  pub point_role : String
  pub node_id : String
  pub node_ts_ms : Option ℤ
  pub server_ts_ms : ℕ
  pub seq : Option ℤ
  pub rssi_raw_dbm : Option F
  pub rssi_filtered_dbm : Option F
  pub sample_count : Option ℤ
  pub error_flags : ℤ
  pub ap_bssid : Option String
  pub ap_channel : Option ℤ
  pub valid : Bool
  pub invalid_reason : Option String

pub record AssignmentRow : Type 0 where
  pub experiment_id : String
  pub node_id : String
  pub point_id : String
  pub point_role : String
  pub updated_at_ms : ℕ

pub record PointRow (F : Type 0) : Type 0 where
  pub experiment_id : String
  pub point_id : String
  pub point_role : Option String
  pub pos_x : Option F
  pub pos_y : Option F
  pub pos_z : Option F
  pub note : Option String
  pub updated_at_ms : ℕ

pub record DeviceOffsetRow (F : Type 0) : Type 0 where
  pub offset_run_id : String
  pub node_id : String
  pub experiment_id : String
  pub offset_median_dbm : Option F
  pub device_offset_db : Option F
  pub sample_count : ℕ
  pub std_db : Option F
  pub calibrated_at_ms : ℕ

pub record TxRow (F : Type 0) : Type 0 where
  pub experiment_id : String
  pub tx_id : String
  pub pos_x : Option F
  pub pos_y : Option F
  pub pos_z : Option F
  pub frequency_hz : Option ℤ
  pub ap_bssid : Option String
  pub ap_channel : Option ℤ
  pub note : Option String

-- One line of `ingest_raw.jsonl`.
pub record JsonlLine : Type 0 where
  pub recv_ms : ℕ
  pub topic : String
  pub session_id : Option String
  pub point_id : Option String
  pub payload : String

-- The database file and the backup file. New rows stand at the end of a table.
pub record Store (F : Type 0) : Type 0 where
  pub experiments : List ExperimentRow
  pub sessions : List SessionRow
  pub offset_runs : List OffsetRunRow
  pub runs : List RunRow
  pub segments : List SegmentRow
  pub measurements : List (MeasurementRow F)
  pub assignments : List AssignmentRow
  pub points : List (PointRow F)
  pub device_offsets : List (DeviceOffsetRow F)
  pub tx : List (TxRow F)
  pub jsonl : List JsonlLine

abbrev pub empty : {F : Type 0} → Store F
empty = record {
  experiments = [];
  sessions = [];
  offset_runs = [];
  runs = [];
  segments = [];
  measurements = [];
  assignments = [];
  points = [];
  device_offsets = [];
  tx = [];
  jsonl = [];
}

-- ===== src/Service.antt =====
-- The HTTP handlers of backend/main.py: what they check themselves, what they pass on to the
-- manager, and the status code of the answer.
pub mod Analysis
pub mod Current
pub mod Hub
pub mod Loops
pub mod Points
mod Tests
use Prim.Native.String.{◌++◌}
use network_backend_article.Base.{
  ℕ, String, Bool, true, false, Option, none, some, List, [], ◌∷◌, if◌then◌else◌,
}
use network_backend_article.Base.Int.{ℤ, pos}
use network_backend_article.Base.Text.{strip, is_empty}
use network_backend_article.Base.Result.{
  Action, Result, Error, ok, err, conflict, value_error, bad_request, gone, pure, raise, gets, lift,
  ◌>>=◌, ◌>>◌,
}
use network_backend_article.Store.Tables.{OffsetRunRow, TxRow, RunRow, AssignmentRow, PointRow}
use network_backend_article.Store.Runs.{latest_offset_run, list_runs}
use network_backend_article.Store.Points.{upsert_tx, list_tx, list_assignments, list_points}
use network_backend_article.Experiment
use network_backend_article.Experiment.State.{
  Manager, ActiveRun, ActiveOffsetRun, ActiveTestSegment, SegmentView, to_dict, update_store,
}

pub record ExperimentStart : Type 0 where
  pub experiment_id : String
  pub ap_bssid : Option String
  pub ap_channel : Option ℤ
  pub note : Option String

pub record OffsetStart : Type 0 where
  pub phase : String
  pub note : Option String

pub record RunStart : Type 0 where
  pub direction : String
  pub pass_index : ℤ
  pub offset_run_id : Option String
  pub note : Option String

pub record SegmentPrepare : Type 0 where
  pub point_id : String
  pub order_index : ℤ
  pub stabilization_seconds : Option ℤ
  pub recording_seconds : Option ℤ
  pub note : Option String

pub record OffsetCompute : Type 0 where
  pub offset_run_id : Option String
  pub phase : String

pub record TxInput (F : Type 0) : Type 0 where
  pub tx_id : String
  pub pos_x : Option F
  pub pos_y : Option F
  pub pos_z : Option F
  pub frequency_hz : Option ℤ
  pub note : Option String

-- The exception handlers of the application; any other exception is an internal error.
unfoldable pub status_code : {A : Type 0} → Result A → ℕ
status_code (ok a) = 200
status_code (err conflict) = 409
status_code (err value_error) = 400
status_code (err bad_request) = 400
status_code (err gone) = 410
status_code (err e) = 500

abbrev base_name : String → String
base_name name = if is_empty (strip name) then "experiment" else strip name

abbrev phase_of : Option OffsetStart → String
phase_of none = "pre"
phase_of (some body) = body.phase

abbrev note_of : Option OffsetStart → Option String
note_of none = none
note_of (some body) = body.note

abbrev pub or_setting : Option ℤ → ℤ → ℤ
or_setting none setting = setting
or_setting (some n) setting = n

abbrev chosen_id : Option OffsetCompute → Option String
chosen_id none = none
chosen_id (some body) = body.offset_run_id

abbrev compute_phase : Option OffsetCompute → String
compute_phase none = "pre"
compute_phase (some body) = body.phase

abbrev pub id_or_latest : Option String → Option OffsetRunRow → Result String
id_or_latest (some id) latest = ok id
id_or_latest none none = err bad_request
id_or_latest none (some r) = ok r.offset_run_id

module _ {F : Type 0} where
  -- `require_experiment` of backend/main.py
  unfoldable pub require_experiment : Action (Manager F) String
  require_experiment m = (elim m.experiment_id [ none ↦ err bad_request | some id ↦ ok id ], m)

  -- `clock` is the time of day, as `strftime` writes it.
  unfoldable pub experiment_start : ExperimentStart → String → ℕ → ℕ → Action (Manager F) (ℕ × ℕ)
  experiment_start body clock interrupted_at created_at =
      Experiment.start_experiment (base_name body.experiment_id ++ "_" ++ clock) body.ap_bssid
        body.ap_channel body.note interrupted_at created_at

  unfoldable pub offset_run_start :
      Option OffsetStart → ℕ → ℕ → ℕ → Action (Manager F) ActiveOffsetRun
  offset_run_start body id_at active_at row_at =
      Experiment.start_offset_run (phase_of body) (note_of body) id_at active_at row_at

  unfoldable pub run_start : RunStart → ℕ → Action (Manager F) ActiveRun
  run_start body now =
      Experiment.start_run body.direction body.pass_index body.offset_run_id body.note now

  unfoldable pub test_segment_prepare :
      ℤ → ℤ → SegmentPrepare → ℕ → Action (Manager F) ActiveTestSegment
  test_segment_prepare stabilization_setting recording_setting body now =
      Experiment.prepare_test_segment body.point_id body.order_index
        (or_setting body.stabilization_seconds stabilization_setting)
        (or_setting body.recording_seconds recording_setting) body.note now

  unfoldable pub test_segment_current : ℕ → Manager F → Option SegmentView
  test_segment_current now m = elim m.active_test_segment [
    | none ↦ none
    | some seg ↦ some (to_dict seg none now)
  ]

  unfoldable pub experiment_runs : Action (Manager F) (List RunRow)
  experiment_runs = require_experiment >>= λ exp. gets λ m. list_runs exp m.store

  unfoldable pub experiment_assignments : Action (Manager F) (List AssignmentRow)
  experiment_assignments = require_experiment >>= λ exp. gets λ m. list_assignments exp m.store

  unfoldable pub experiment_points : Action (Manager F) (List (PointRow F))
  experiment_points = require_experiment >>= λ exp. gets λ m. list_points exp m.store

  unfoldable pub experiment_tx : TxInput F → Action (Manager F) (List (TxRow F))
  experiment_tx body = do
    exp ← require_experiment
    ap_bssid ← gets (λ m. m.ap_bssid)
    ap_channel ← gets (λ m. m.ap_channel)
    update_store (
        upsert_tx exp body.tx_id body.pos_x body.pos_y body.pos_z body.frequency_hz ap_bssid
          ap_channel body.note)
    gets λ m. list_tx exp m.store

  -- The OffsetRun that `experiment_offsets` computes.
  unfoldable pub offsets_target : Option OffsetCompute → Action (Manager F) String
  offsets_target body = do
    exp ← require_experiment
    latest ← gets (λ m. latest_offset_run exp (compute_phase body) m.store)
    lift (id_or_latest (chosen_id body) latest)

  unfoldable pub legacy_session_gone : Action (Manager F) Unit
  legacy_session_gone = raise gone

-- ===== src/Experiment.antt =====
-- The methods of `ExperimentManager` (backend/experiment.py) that change its state, in the order
-- of the source. What a method changed before it raises stays changed.
pub mod State
pub mod Context
pub mod Requests
pub mod Coherence
pub mod Offsets
mod Tests
pub mod Windows
use network_backend_article.Base.{
  ℕ, zero, suc, ◌+◌, ◌*◌, String, Bool, true, false, not, ◌&&◌, ◌||◌, Option, none, some, List, [],
  ◌∷◌, map, str_eq, ltb, leb, if◌then◌else◌, filter, first,
}
use mathlib.Core.List.{reverse}
use Prim.Native.String.{◌++◌}
use network_backend_article.Base.Int.{ℤ}
use network_backend_article.Base.Text.{strip, decimal, is_empty}
use network_backend_article.Base.Result.{
  Action, Result, ok, err, conflict, value_error, pure, raise, raise_if, gets, lift, modify, ◌>>=◌,
  ◌>>◌,
}
use network_backend_article.Store.Tables.{
  Store, RunStatus, SegmentStatus, OffsetRunRow, RunRow, AssignmentRow,
}
use network_backend_article.Store.Runs.{
  create_experiment, create_run, set_run_offset_refs, set_run_status, list_runs, create_offset_run,
  set_offset_run_status, list_offset_runs, is_completed,
}
use network_backend_article.Store.Runs as Runs
use network_backend_article.Store.Segments.{
  mark_all_open_interrupted, create_test_segment, set_segment_status, supersede_segment,
  truncate_segment_recording, latest_attempt_index,
}
use network_backend_article.Store.Points.{upsert_assignment, list_assignments, list_device_offsets}
use State.{
  Manager, ActiveRun, ActiveOffsetRun, ActiveTestSegment, Dict, assign_key, on_store, update_store,
  require, at_least,
}

abbrev pub is_direction : String → Bool
is_direction s = str_eq s "forward" || str_eq s "reverse"

abbrev pub is_role : String → Bool
is_role s = str_eq s "offset" || str_eq s "calibration" || str_eq s "test"

-- The dict comprehension over `list_assignments`; a later row of a node wins.
abbrev restore : List AssignmentRow → Dict (String × String) → Dict (String × String)
restore [] d = d
restore (a ∷ as') d = restore as' (assign_key a.node_id (a.point_id, a.point_role) d)

abbrev is_nil : {A : Type 0} → List A → Bool
is_nil [] = true
is_nil (x ∷ xs) = false

-- The window that `prepare_test_segment` plans at `prepared`.
abbrev planned_segment : ActiveRun → String → ℕ → ℕ → ℕ → ℕ → ℕ → ActiveTestSegment
planned_segment run point_id order_index attempt prepared stabilization recording = record {
  segment_id =
      run.run_id ++ "__" ++ point_id ++ "__a" ++ decimal attempt ++ "__" ++ decimal prepared;
  run_id = run.run_id;
  point_id = point_id;
  order_index = order_index;
  attempt_index = attempt;
  prepared_at_ms = prepared;
  recording_started_at_ms = prepared + stabilization * 1000;
  recording_ended_at_ms = prepared + stabilization * 1000 + recording * 1000;
}

module _ {F : Type 0} where
  -- The counts are those of the interrupted Runs and Segments.
  unfoldable pub start_experiment :
      String → Option String → Option ℤ → Option String → ℕ → ℕ → Action (Manager F) (ℕ × ℕ)
  unfolding mark_all_open_interrupted create_experiment list_assignments
  start_experiment experiment_id ap_bssid ap_channel note interrupted_at created_at m =
      let (counts, store) = mark_all_open_interrupted interrupted_at m.store in
      let store' = create_experiment experiment_id created_at ap_bssid ap_channel note store in
      (
        ok counts,
        record m {
          store = store';
          experiment_id = some experiment_id;
          ap_bssid = ap_bssid;
          ap_channel = ap_channel;
          active_run = none;
          active_test_segment = none;
          active_offset = none;
          assignments = restore (list_assignments experiment_id store') [];
        },
      )

  abbrev end_in_store : Option String → ℕ → Store F → Store F
  end_in_store none now s = s
  end_in_store (some experiment_id) now s =
      if is_empty experiment_id then s else Runs.end_experiment experiment_id now s

  unfoldable pub end_experiment : ℕ → Action (Manager F) Unit
  unfolding Runs.end_experiment
  end_experiment now m = (
    ok tt,
    record m {
      store = end_in_store m.experiment_id now m.store;
      active_run = none;
      active_test_segment = none;
      active_offset = none;
    },
  )

  -- `_require_experiment`
  abbrev pub require_experiment : Action (Manager F) String
  require_experiment m = require m.experiment_id conflict m

  unfoldable pub assign : String → String → String → ℕ → Action (Manager F) Unit
  unfolding upsert_assignment
  assign node_id point_id point_role now = do
    exp ← require_experiment
    raise_if (not (is_role point_role)) value_error
    raise_if (is_empty (strip node_id) || is_empty (strip point_id)) value_error
    modify λ m. record m {
      assignments = assign_key (strip node_id) (strip point_id, point_role) m.assignments;
    }
    update_store (upsert_assignment exp (strip node_id) (strip point_id) point_role now)

  -- The three readings of the clock are those of the id, of the active OffsetRun and of the row.
  unfoldable pub start_offset_run :
      String → Option String → ℕ → ℕ → ℕ → Action (Manager F) ActiveOffsetRun
  unfolding create_offset_run
  start_offset_run phase note id_at active_at row_at = do
    exp ← require_experiment
    raise_if (not (str_eq phase "pre" || str_eq phase "post")) value_error
    λ m. raise_if (elim m.active_run [ none ↦ false | some _ ↦ true ]) conflict m
    λ m. raise_if (elim m.active_offset [ none ↦ false | some _ ↦ true ]) conflict m
    offset ← pure (record {
      offset_run_id = "offset_" ++ phase ++ "__" ++ decimal id_at;
      experiment_id = exp;
      phase = phase;
      started_at_ms = active_at;
    })
    modify λ m. record m { active_offset = some offset }
    on_store (create_offset_run offset.offset_run_id exp phase row_at note)
    pure offset

  abbrev stop_offset : Option ActiveOffsetRun → ℕ → Action (Manager F) Bool
  stop_offset none now = pure false
  stop_offset (some offset) now = do
    update_store (set_offset_run_status offset.offset_run_id RunStatus.completed (some now))
    pure true

  unfoldable pub stop_offset_run : ℕ → Action (Manager F) Bool
  unfolding set_offset_run_status
  stop_offset_run now m = stop_offset m.active_offset now (record m { active_offset = none })

  -- The newest pre OffsetRun that is completed and has computed device offsets.
  abbrev usable_pre_offset : Store F → OffsetRunRow → Bool
  usable_pre_offset s r =
      str_eq r.phase "pre"
      && is_completed r.status
      && not (is_nil (list_device_offsets r.offset_run_id s))

  abbrev pub choose_pre_offset : Option String → String → Store F → Option String
  choose_pre_offset (some id) exp s = some id
  choose_pre_offset none exp s =
      elim (first (filter (usable_pre_offset s) (reverse (list_offset_runs exp s)))) [
        | none ↦ none
        | some r ↦ some r.offset_run_id
      ]

  -- The end of `start_run`: the new Run is active before its row is written.
  unfoldable pub begin_run : ActiveRun → String → Option String → Action (Manager F) ActiveRun
  unfolding create_run
  begin_run run pre_offset memo = do
    modify λ m. record m { active_run = some run; active_test_segment = none }
    on_store (
        create_run run.run_id run.experiment_id run.direction run.pass_index run.started_at_ms
          (some pre_offset) memo)
    pure run

  -- The checks of `start_run`: the Run to begin, and its pre OffsetRun.
  unfoldable pub plan_run : String → ℤ → Option String → ℕ → Action (Manager F) (ActiveRun × String)
  plan_run direction pass_index pre_offset_run_id started = do
    exp ← require_experiment
    raise_if (not (is_direction direction)) value_error
    pass ← lift (at_least 1 pass_index value_error)
    chosen ← gets (λ m. choose_pre_offset pre_offset_run_id exp m.store)
    pre_offset ← require chosen conflict
    λ m. raise_if (is_nil (list_device_offsets pre_offset m.store)) conflict m
    λ m. raise_if (elim m.active_offset [ none ↦ false | some _ ↦ true ]) conflict m
    λ m. raise_if (elim m.active_run [ none ↦ false | some _ ↦ true ]) conflict m
    pure (
      record {
        run_id = exp ++ "__" ++ direction ++ decimal pass ++ "__" ++ decimal started;
        experiment_id = exp;
        direction = direction;
        pass_index = pass;
        started_at_ms = started;
      },
      pre_offset,
    )

  unfoldable pub start_run :
      String → ℤ → Option String → Option String → ℕ → Action (Manager F) ActiveRun
  start_run direction pass_index pre_offset_run_id memo started =
      plan_run direction pass_index pre_offset_run_id started >>= λ plan.
      begin_run plan.0 plan.1 memo

  -- The Runs of both directions; `runs[-1]` is the newest.
  abbrev newest_run : String → Store F → Option RunRow
  newest_run exp s = first (reverse (filter (λ r. is_direction r.direction) (list_runs exp s)))

  abbrev pub target_run : Option String → String → Store F → Option String
  target_run (some id) exp s = some id
  target_run none exp s = elim (newest_run exp s) [ none ↦ none | some r ↦ some r.run_id ]

  -- The Run that the OffsetRun is attached to.
  unfoldable pub attach_target : Option String → Action (Manager F) String
  attach_target run_id = do
    exp ← require_experiment
    chosen ← gets (λ m. target_run run_id exp m.store)
    require chosen conflict

  unfoldable pub attach_post_offset : String → Option String → Action (Manager F) String
  unfolding set_run_offset_refs
  attach_post_offset post_offset_run_id run_id = do
    target ← attach_target run_id
    update_store (set_run_offset_refs target none (some post_offset_run_id))
    pure target

  unfoldable pub end_run : ℕ → Action (Manager F) ActiveRun
  unfolding set_run_status
  end_run now = do
    run ← λ m. require m.active_run conflict m
    λ m. raise_if (elim m.active_test_segment [ none ↦ false | some _ ↦ true ]) conflict m
    modify λ m. record m { active_run = none }
    update_store (set_run_status run.run_id RunStatus.completed (some now))
    pure run

  unfoldable pub mark_run_interrupted : String → Action (Manager F) Unit
  unfolding set_run_status
  mark_run_interrupted run_id = update_store (set_run_status run_id RunStatus.interrupted none)

  -- The end of `prepare_test_segment`: the new segment is active before its row is written.
  unfoldable pub begin_segment :
      ActiveTestSegment → Option String → Action (Manager F) ActiveTestSegment
  unfolding create_test_segment
  begin_segment seg memo = do
    modify λ m. record m { active_test_segment = some seg }
    on_store (
        create_test_segment seg.segment_id seg.run_id seg.point_id seg.order_index seg.attempt_index
          seg.prepared_at_ms seg.recording_started_at_ms seg.recording_ended_at_ms memo)
    pure seg

  -- The checks of `prepare_test_segment`, and the segment that it plans.
  unfoldable pub plan_segment : String → ℤ → ℤ → ℤ → ℕ → Action (Manager F) ActiveTestSegment
  plan_segment point_id order_index stabilization_seconds recording_seconds prepared = do
    raise_if (is_empty (strip point_id)) value_error
    stabilization ← lift (at_least 0 stabilization_seconds value_error)
    recording ← lift (at_least 1 recording_seconds value_error)
    order ← lift (at_least 1 order_index value_error)
    run ← λ m. require m.active_run conflict m
    λ m. raise_if (elim m.active_test_segment [ none ↦ false | some _ ↦ true ]) conflict m
    last ← gets (λ m. latest_attempt_index run.run_id (strip point_id) m.store)
    pure (planned_segment run (strip point_id) order (last + 1) prepared stabilization recording)

  unfoldable pub prepare_test_segment :
      String → ℤ → ℤ → ℤ → Option String → ℕ → Action (Manager F) ActiveTestSegment
  prepare_test_segment point_id order_index stabilization_seconds recording_seconds memo prepared =
      plan_segment point_id order_index stabilization_seconds recording_seconds prepared >>= λ seg.
      begin_segment seg memo

  -- An early stop cuts the window at the time of the stop.
  abbrev cut_early : ActiveTestSegment → ℕ → Store F → Store F
  cut_early seg cur s =
      if ltb cur seg.recording_ended_at_ms
      then truncate_segment_recording seg.segment_id cur s
      else s

  abbrev finish : Option ActiveTestSegment → ℕ → Action (Manager F) Bool
  finish none cur = pure false
  finish (some seg) cur = do
    update_store (cut_early seg cur)
    update_store (set_segment_status seg.segment_id SegmentStatus.completed (some cur))
    pure true

  unfoldable pub finish_test_segment : ℕ → Action (Manager F) Bool
  unfolding truncate_segment_recording set_segment_status
  finish_test_segment cur m =
      finish m.active_test_segment cur (record m { active_test_segment = none })

  abbrev discard : Option ActiveTestSegment → ℕ → Action (Manager F) Bool
  discard none now = pure false
  discard (some seg) now = do
    update_store (set_segment_status seg.segment_id SegmentStatus.discarded (some now))
    update_store (supersede_segment seg.segment_id)
    pure true

  unfoldable pub discard_test_segment : ℕ → Action (Manager F) Bool
  unfolding set_segment_status supersede_segment
  discard_test_segment now m =
      discard m.active_test_segment now (record m { active_test_segment = none })

  abbrev advance : Option ActiveTestSegment → ℕ → Action (Manager F) (Option ActiveTestSegment)
  advance none cur m = (ok none, m)
  advance (some seg) cur m = if ltb cur seg.recording_ended_at_ms then (ok none, m) else (
    ok (some seg),
    record m {
      active_test_segment = none;
      store = set_segment_status seg.segment_id SegmentStatus.completed (some cur) m.store;
    },
  )

  unfoldable pub auto_advance_segment : ℕ → Action (Manager F) (Option ActiveTestSegment)
  unfolding set_segment_status
  auto_advance_segment cur m = advance m.active_test_segment cur m

-- ===== src/Experiment/State.antt =====
-- The state of `ExperimentManager` (backend/experiment.py) with the store that it writes to.
-- The methods run on the event loop one after the other, so each is one step; a reading of
-- `now_ms()` is an argument of the method.
use network_backend_article.Base.{ℕ, ◌-◌, String, Option, none, some, [], ltb, leb, if◌then◌else◌}
pub use network_backend_article.Base.Dict.{Dict, lookup, assign_key}
use network_backend_article.Base.Int.{ℤ, pos, negsuc}
use network_backend_article.Base.Result.{Action, Result, Error, ok, err}
use network_backend_article.Store.Tables.{Store}

pub record ActiveOffsetRun : Type 0 where
  pub offset_run_id : String
  pub experiment_id : String
  pub phase : String
  pub started_at_ms : ℕ

pub record ActiveRun : Type 0 where
  pub run_id : String
  pub experiment_id : String
  pub direction : String
  pub pass_index : ℕ
  pub started_at_ms : ℕ

pub record ActiveTestSegment : Type 0 where
  pub segment_id : String
  pub run_id : String
  pub point_id : String
  pub order_index : ℕ
  pub attempt_index : ℕ
  pub prepared_at_ms : ℕ
  pub recording_started_at_ms : ℕ
  pub recording_ended_at_ms : ℕ

pub data Phase : Type 0 where
  stabilizing recording completed : Phase

unfoldable pub state_at : ActiveTestSegment → ℕ → Phase
state_at seg current_ms =
    if ltb current_ms seg.recording_started_at_ms
    then Phase.stabilizing
    else if ltb current_ms seg.recording_ended_at_ms
    then Phase.recording
    else Phase.completed

-- `ActiveTestSegment.to_dict`, without the copied fields. `current_ms or now_ms()` takes the
-- clock also for a given 0.
pub record SegmentView : Type 0 where
  pub state : Phase
  pub remaining_stabilization_ms : ℕ
  pub remaining_recording_ms : ℕ

abbrev pub or_now : Option ℕ → ℕ → ℕ
or_now none now = now
or_now (some t) now = if leb t 0 then now else t

unfoldable pub to_dict : ActiveTestSegment → Option ℕ → ℕ → SegmentView
unfolding state_at
to_dict seg current_ms now =
    let cur = or_now current_ms now in
    record {
      state = state_at seg cur;
      remaining_stabilization_ms = seg.recording_started_at_ms - cur;
      remaining_recording_ms = seg.recording_ended_at_ms - cur;
    }

-- `assignments` maps a node to its point and its role.
pub record Manager (F : Type 0) : Type 0 where
  pub store : Store F
  pub experiment_id : Option String
  pub ap_bssid : Option String
  pub ap_channel : Option ℤ
  pub assignments : Dict (String × String)
  pub active_run : Option ActiveRun
  pub active_test_segment : Option ActiveTestSegment
  pub active_offset : Option ActiveOffsetRun

-- `ExperimentManager(store)`
abbrev pub init : {F : Type 0} → Store F → Manager F
init store = record {
  store = store;
  experiment_id = none;
  ap_bssid = none;
  ap_channel = none;
  assignments = [];
  active_run = none;
  active_test_segment = none;
  active_offset = none;
}

module _ {F A : Type 0} where
  abbrev continue_on_store : Manager F → Result A × Store F → Result A × Manager F
  continue_on_store m (r, s) = (r, record m { store = s })

  -- A call of a method of the store, which may raise.
  abbrev pub on_store : Action (Store F) A → Action (Manager F) A
  on_store f m = continue_on_store m (f m.store)

module _ {F : Type 0} where
  -- A call of a method of the store that does not raise.
  abbrev pub update_store : (Store F → Store F) → Action (Manager F) Unit
  update_store f m = (ok tt, record m { store = f m.store })

module _ {F A : Type 0} where
  abbrev pub require : Option A → Error → Action (Manager F) A
  require none e m = (err e, m)
  require (some a) e m = (ok a, m)

-- An int that a guard lets through only from `low` on.
abbrev pub at_least : ℕ → ℤ → Error → Result ℕ
at_least low (pos n) e = if ltb n low then err e else ok n
at_least low (negsuc n) e = err e

-- ===== src/Experiment/Context.antt =====
-- The queries of `ExperimentManager` and the storage context of a sample (backend/experiment.py).
pub mod Laws
pub mod Closed
pub mod Discarded
use network_backend_article.Base.{ℕ, String, Bool, Option, none, some, str_eq, if◌then◌else◌}
use network_backend_article.Store.Tables.{SegmentRow}
use network_backend_article.Store.Segments.{segment_for_timestamp}
use network_backend_article.Experiment.State.{Manager, ActiveRun, ActiveOffsetRun, lookup}

-- Where a sample is stored. `run_id` of an offset sample is the id of its OffsetRun.
pub record Context : Type 0 where
  pub run_id : String
  pub segment_id : Option String
  pub point_id : String
  pub point_role : String

abbrev pub id_of : Option SegmentRow → Option String
id_of none = none
id_of (some s) = some s.segment_id

-- The branches of `context_at` on the role, with the segment of the sample's time.
abbrev pub test_context : ActiveRun → Option SegmentRow → Option Context
test_context run none = none
test_context run (some s) = some (record {
  run_id = run.run_id;
  segment_id = some s.segment_id;
  point_id = s.point_id;
  point_role = "test";
})

abbrev pub role_context : ActiveRun → String × String → Option SegmentRow → Option Context
role_context run (point_id, role) segment =
    if str_eq role "calibration"
    then some (record {
      run_id = run.run_id;
      segment_id = id_of segment;
      point_id = point_id;
      point_role = "calibration";
    })
    else if str_eq role "test"
    then test_context run segment
    else none

abbrev pub run_context :
    Option ActiveRun → Option (String × String) → (ActiveRun → Option SegmentRow) → Option Context
run_context none found segment = none
run_context (some run) none segment = none
run_context (some run) (some found) segment = role_context run found (segment run)

abbrev pub offset_sample : Option ActiveOffsetRun → Option (String × String) → Option Context
offset_sample none found = none
offset_sample (some offset) found = some (record {
  run_id = offset.offset_run_id;
  segment_id = none;
  point_id = elim found [ none ↦ "offset-00" | some p ↦ p.0 ];
  point_role = "offset";
})

module _ {F : Type 0} where
  unfoldable pub role_of : String → Manager F → Option String
  role_of node_id m = elim (lookup node_id m.assignments) [ none ↦ none | some p ↦ some p.1 ]

  unfoldable pub point_of : String → Manager F → Option String
  point_of node_id m = elim (lookup node_id m.assignments) [ none ↦ none | some p ↦ some p.0 ]

  unfoldable pub context_at : String → ℕ → Manager F → Option Context
  context_at node_id server_ts_ms m =
      run_context m.active_run (lookup node_id m.assignments)
        (λ run. segment_for_timestamp run.run_id server_ts_ms m.store)

  unfoldable pub offset_context : String → Manager F → Option Context
  offset_context node_id m = offset_sample m.active_offset (lookup node_id m.assignments)

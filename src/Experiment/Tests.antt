-- ===== src/Experiment/Tests.antt =====
-- A measurement day of one Run with one TestSegment (backend/experiment.py), and the theorems on it.
mod Second
use network_backend_article.Base.{ℕ, ◌≤◌, ◌≡◌, ◌≢◌, refl, none, some, [], ◌∷◌, arith, count, true}
use network_backend_article.Base.Rows.{Within}
use network_backend_article.Base.Int.{pos}
use network_backend_article.Base.Text.{strip, decimal, decimal_ℤ}
use network_backend_article.Base.Result.{Result, ok, err, integrity_error}
use network_backend_article.Store.Tables.{SegmentRow, empty}
use network_backend_article.Store.Runs
use network_backend_article.Store.Points
use network_backend_article.Store.Segments
use network_backend_article.Experiment
use network_backend_article.Experiment.State.{Manager, ActiveRun, ActiveTestSegment, init}
use network_backend_article.Experiment.Requests.{
  Request, Write, upsert_device_offset, perform, serve, write, write_in,
}
use network_backend_article.Experiment.Windows.Order.{takes}
use network_backend_article.Experiment.Windows.Reach.{Reach, here, next, written, Reach-one_window}
use network_backend_article.Experiment.Coherence.{IsCoherent, serve-IsCoherent}
use network_backend_article.Experiment.Context.{context_at, role_of, Context}
use network_backend_article.Experiment.Context.Laws.{
  IsOpenAt, context_at-test, context_at-same_window,
}
use network_backend_article.Experiment.Context.Discarded.{discard_test_segment-excludes}
use network_backend_article.Experiment.Context.Closed.{finish_test_segment_closes}

abbrev fresh : Manager ℕ
fresh = init empty

abbrev node_offset : Write ℕ
node_offset = upsert_device_offset "offset_pre__2" "c1" "E" none none 1 none 3

abbrev day_start : Request
day_start = Request.start_experiment "E" none none none 1 1

abbrev test_node : Request
test_node = Request.assign "t1" "T" "test" 1

abbrev calibration_node : Request
calibration_node = Request.assign "c1" "C" "calibration" 1

abbrev offset_start : Request
offset_start = Request.start_offset_run "pre" none 2 2 2

abbrev offset_stop : Request
offset_stop = Request.stop_offset_run 3

abbrev run_start : Request
run_start = Request.start_run "forward" (pos 1) none none 10

abbrev segment_start : Request
segment_start = Request.prepare_test_segment "P1" (pos 1) (pos 1) (pos 2) none 20

abbrev after_day_start : Manager ℕ
after_day_start = (perform day_start fresh).1

abbrev after_test_node : Manager ℕ
after_test_node = (perform test_node after_day_start).1

abbrev after_calibration_node : Manager ℕ
after_calibration_node = (perform calibration_node after_test_node).1

abbrev after_offset_start : Manager ℕ
after_offset_start = (perform offset_start after_calibration_node).1

abbrev after_offset_stop : Manager ℕ
after_offset_stop = (perform offset_stop after_offset_start).1

abbrev calibrated : Manager ℕ
calibrated = write_in node_offset after_offset_stop

abbrev after_run_start : Manager ℕ
after_run_start = (perform run_start calibrated).1

abbrev after_segment_start : Manager ℕ
after_segment_start = (perform segment_start after_run_start).1

day_start-ok : (perform day_start fresh).0 ≡ ok tt
unfolding perform write Experiment.start_experiment Experiment.assign Experiment.start_offset_run
    Experiment.stop_offset_run Experiment.start_run Experiment.plan_run Experiment.begin_run
    Experiment.prepare_test_segment Experiment.plan_segment Experiment.begin_segment
    Runs.create_experiment Runs.create_offset_run Runs.set_offset_run_status Runs.create_run
    Runs.list_offset_runs Points.list_assignments Points.upsert_assignment
    Points.upsert_device_offset Points.list_device_offsets Segments.create_test_segment
    Segments.latest_attempt_index strip decimal decimal_ℤ
day_start-ok = refl

test_node-ok : (perform test_node after_day_start).0 ≡ ok tt
unfolding perform write Experiment.start_experiment Experiment.assign Experiment.start_offset_run
    Experiment.stop_offset_run Experiment.start_run Experiment.plan_run Experiment.begin_run
    Experiment.prepare_test_segment Experiment.plan_segment Experiment.begin_segment
    Runs.create_experiment Runs.create_offset_run Runs.set_offset_run_status Runs.create_run
    Runs.list_offset_runs Points.list_assignments Points.upsert_assignment
    Points.upsert_device_offset Points.list_device_offsets Segments.create_test_segment
    Segments.latest_attempt_index strip decimal decimal_ℤ
test_node-ok = refl

calibration_node-ok : (perform calibration_node after_test_node).0 ≡ ok tt
unfolding perform write Experiment.start_experiment Experiment.assign Experiment.start_offset_run
    Experiment.stop_offset_run Experiment.start_run Experiment.plan_run Experiment.begin_run
    Experiment.prepare_test_segment Experiment.plan_segment Experiment.begin_segment
    Runs.create_experiment Runs.create_offset_run Runs.set_offset_run_status Runs.create_run
    Runs.list_offset_runs Points.list_assignments Points.upsert_assignment
    Points.upsert_device_offset Points.list_device_offsets Segments.create_test_segment
    Segments.latest_attempt_index strip decimal decimal_ℤ
calibration_node-ok = refl

offset_start-ok : (perform offset_start after_calibration_node).0 ≡ ok tt
unfolding perform write Experiment.start_experiment Experiment.assign Experiment.start_offset_run
    Experiment.stop_offset_run Experiment.start_run Experiment.plan_run Experiment.begin_run
    Experiment.prepare_test_segment Experiment.plan_segment Experiment.begin_segment
    Runs.create_experiment Runs.create_offset_run Runs.set_offset_run_status Runs.create_run
    Runs.list_offset_runs Points.list_assignments Points.upsert_assignment
    Points.upsert_device_offset Points.list_device_offsets Segments.create_test_segment
    Segments.latest_attempt_index strip decimal decimal_ℤ
offset_start-ok = refl

offset_stop-ok : (perform offset_stop after_offset_start).0 ≡ ok tt
unfolding perform write Experiment.start_experiment Experiment.assign Experiment.start_offset_run
    Experiment.stop_offset_run Experiment.start_run Experiment.plan_run Experiment.begin_run
    Experiment.prepare_test_segment Experiment.plan_segment Experiment.begin_segment
    Runs.create_experiment Runs.create_offset_run Runs.set_offset_run_status Runs.create_run
    Runs.list_offset_runs Points.list_assignments Points.upsert_assignment
    Points.upsert_device_offset Points.list_device_offsets Segments.create_test_segment
    Segments.latest_attempt_index strip decimal decimal_ℤ
offset_stop-ok = refl

run_start-ok : (perform run_start calibrated).0 ≡ ok tt
unfolding perform write Experiment.start_experiment Experiment.assign Experiment.start_offset_run
    Experiment.stop_offset_run Experiment.start_run Experiment.plan_run Experiment.begin_run
    Experiment.prepare_test_segment Experiment.plan_segment Experiment.begin_segment
    Runs.create_experiment Runs.create_offset_run Runs.set_offset_run_status Runs.create_run
    Runs.list_offset_runs Points.list_assignments Points.upsert_assignment
    Points.upsert_device_offset Points.list_device_offsets Segments.create_test_segment
    Segments.latest_attempt_index strip decimal decimal_ℤ
run_start-ok = refl

segment_start-ok : (perform segment_start after_run_start).0 ≡ ok tt
unfolding perform write Experiment.start_experiment Experiment.assign Experiment.start_offset_run
    Experiment.stop_offset_run Experiment.start_run Experiment.plan_run Experiment.begin_run
    Experiment.prepare_test_segment Experiment.plan_segment Experiment.begin_segment
    Runs.create_experiment Runs.create_offset_run Runs.set_offset_run_status Runs.create_run
    Runs.list_offset_runs Points.list_assignments Points.upsert_assignment
    Points.upsert_device_offset Points.list_device_offsets Segments.create_test_segment
    Segments.latest_attempt_index strip decimal decimal_ℤ
segment_start-ok = refl

raises_nothing : {r : Result (Unit {0})} → r ≡ ok tt → r ≢ err integrity_error
raises_nothing e q = ground arith

after_day_start-Reach : Reach 1 after_day_start
after_day_start-Reach = next (here 0) day_start 1 (omega arith) refl (raises_nothing day_start-ok)

after_test_node-Reach : Reach 1 after_test_node
after_test_node-Reach =
    next (after_day_start-Reach) test_node 1 (omega arith) refl (raises_nothing test_node-ok)

after_calibration_node-Reach : Reach 1 after_calibration_node
after_calibration_node-Reach =
    next (after_test_node-Reach) calibration_node 1 (omega arith) refl
      (raises_nothing calibration_node-ok)

after_offset_start-Reach : Reach 2 after_offset_start
after_offset_start-Reach =
    next (after_calibration_node-Reach) offset_start 2 (omega arith) refl
      (raises_nothing offset_start-ok)

after_offset_stop-Reach : Reach 3 after_offset_stop
after_offset_stop-Reach =
    next (after_offset_start-Reach) offset_stop 3 (omega arith) refl (raises_nothing offset_stop-ok)

calibrated-Reach : Reach 3 calibrated
calibrated-Reach = written (after_offset_stop-Reach) node_offset

after_run_start-Reach : Reach 10 after_run_start
after_run_start-Reach =
    next (calibrated-Reach) run_start 10 (omega arith) refl (raises_nothing run_start-ok)

after_segment_start-Reach : Reach 20 after_segment_start
after_segment_start-Reach =
    next (after_run_start-Reach) segment_start 20 (omega arith) refl
      (raises_nothing segment_start-ok)

Reach-one_window_example :
    count (takes "E__forward1__10" 2000) after_segment_start.store.segments ≤ 1
Reach-one_window_example = Reach-one_window after_segment_start-Reach "E__forward1__10" 2000

serve-IsCoherent_example :
    IsCoherent (serve (day_start ∷ offset_start ∷ offset_stop ∷ run_start ∷ []) fresh)
serve-IsCoherent_example =
    serve-IsCoherent (day_start ∷ offset_start ∷ offset_stop ∷ run_start ∷ []) fresh tt

abbrev test_sample : Context
test_sample = record {
  run_id = "E__forward1__10";
  segment_id = some "E__forward1__10__P1__a1__20";
  point_id = "P1";
  point_role = "test";
}

test_sample-stored : context_at "t1" 2000 after_segment_start ≡ some test_sample
unfolding perform write Experiment.start_experiment Experiment.assign Experiment.start_offset_run
    Experiment.stop_offset_run Experiment.start_run Experiment.plan_run Experiment.begin_run
    Experiment.prepare_test_segment Experiment.plan_segment Experiment.begin_segment
    Runs.create_experiment Runs.create_offset_run Runs.set_offset_run_status Runs.create_run
    Runs.list_offset_runs Points.list_assignments Points.upsert_assignment
    Points.upsert_device_offset Points.list_device_offsets Segments.create_test_segment
    Segments.latest_attempt_index strip decimal decimal_ℤ context_at Segments.segment_for_timestamp
test_sample-stored = refl

calibration_node-role : role_of "c1" after_segment_start ≡ some "calibration"
unfolding perform write Experiment.start_experiment Experiment.assign Experiment.start_offset_run
    Experiment.stop_offset_run Experiment.start_run Experiment.plan_run Experiment.begin_run
    Experiment.prepare_test_segment Experiment.plan_segment Experiment.begin_segment
    Runs.create_experiment Runs.create_offset_run Runs.set_offset_run_status Runs.create_run
    Runs.list_offset_runs Points.list_assignments Points.upsert_assignment
    Points.upsert_device_offset Points.list_device_offsets Segments.create_test_segment
    Segments.latest_attempt_index strip decimal decimal_ℤ role_of
calibration_node-role = refl

test_node-role : role_of "t1" after_segment_start ≡ some "test"
unfolding perform write Experiment.start_experiment Experiment.assign Experiment.start_offset_run
    Experiment.stop_offset_run Experiment.start_run Experiment.plan_run Experiment.begin_run
    Experiment.prepare_test_segment Experiment.plan_segment Experiment.begin_segment
    Runs.create_experiment Runs.create_offset_run Runs.set_offset_run_status Runs.create_run
    Runs.list_offset_runs Points.list_assignments Points.upsert_assignment
    Points.upsert_device_offset Points.list_device_offsets Segments.create_test_segment
    Segments.latest_attempt_index strip decimal decimal_ℤ role_of
test_node-role = refl

context_at-test_example :
    (run : ActiveRun) × (r : SegmentRow) × (after_segment_start.active_run ≡ some run)
    × (Within r after_segment_start.store.segments)
    × IsOpenAt run.run_id 2000 r
    × (test_sample.run_id ≡ run.run_id)
    × (test_sample.segment_id ≡ some r.segment_id)
    × (test_sample.point_id ≡ r.point_id)
context_at-test_example =
    context_at-test "t1" 2000 after_segment_start test_sample test_sample-stored refl

context_at-same_window_example :
    (d : Context) × (context_at "c1" 2000 after_segment_start ≡ some d)
    × (d.run_id ≡ test_sample.run_id)
    × (d.segment_id ≡ test_sample.segment_id)
    × (d.point_role ≡ "calibration")
context_at-same_window_example =
    context_at-same_window "t1" "c1" 2000 after_segment_start test_sample test_sample-stored refl
      calibration_node-role

finish_test_segment_closes_example :
    context_at "t1" 2500 (Experiment.finish_test_segment 2500 after_segment_start).1 ≡ none
finish_test_segment_closes_example =
    finish_test_segment_closes 2500 2500 "t1" after_segment_start-Reach (omega arith) (omega arith)
      test_node-role

-- ===== src/Experiment/Tests/Second.antt =====
-- The day goes on: the TestSegment is finished and a second one prepared (backend/experiment.py).
use network_backend_article.Base.{ℕ, ◌≡◌, ◌≢◌, refl, none, some, arith, true, false, All}
use network_backend_article.Base.Int.{pos}
use network_backend_article.Base.Text.{strip, decimal, decimal_ℤ}
use network_backend_article.Base.Result.{ok}
use network_backend_article.Store.Runs
use network_backend_article.Store.Points
use network_backend_article.Store.Segments
use network_backend_article.Experiment
use network_backend_article.Experiment.State.{Manager, ActiveTestSegment}
use network_backend_article.Experiment.Requests.{Request, perform, write}
use network_backend_article.Experiment.Windows.Reach.{Reach, next}
use network_backend_article.Experiment.Context.{context_at}
use network_backend_article.Experiment.Context.Discarded.{discard_test_segment-excludes}
use network_backend_article.Experiment.Tests.{
  after_segment_start, after_segment_start-Reach, test_sample, raises_nothing,
}
use network_backend_article.Export.Checks.{has_overlap}
use network_backend_article.Export.Overlap.{has_time, Reach-has_overlap}

abbrev finished : Manager ℕ
finished = (perform (Request.finish_test_segment 2500) after_segment_start).1

abbrev second_start : Request
second_start = Request.prepare_test_segment "P2" (pos 2) (pos 1) (pos 2) none 3000

abbrev second_active : Manager ℕ
second_active = (perform second_start finished).1

abbrev second_segment : ActiveTestSegment
second_segment = record {
  segment_id = "E__forward1__10__P2__a1__3000";
  run_id = "E__forward1__10";
  point_id = "P2";
  order_index = 2;
  attempt_index = 1;
  prepared_at_ms = 3000;
  recording_started_at_ms = 4000;
  recording_ended_at_ms = 6000;
}

second_segment-active : second_active.active_test_segment ≡ some second_segment
unfolding perform write Experiment.start_experiment Experiment.assign Experiment.start_offset_run
    Experiment.stop_offset_run Experiment.start_run Experiment.plan_run Experiment.begin_run
    Experiment.prepare_test_segment Experiment.plan_segment Experiment.begin_segment
    Runs.create_experiment Runs.create_offset_run Runs.set_offset_run_status Runs.create_run
    Runs.list_offset_runs Points.list_assignments Points.upsert_assignment
    Points.upsert_device_offset Points.list_device_offsets Segments.create_test_segment
    Segments.latest_attempt_index strip decimal decimal_ℤ Experiment.finish_test_segment
    Segments.truncate_segment_recording Segments.set_segment_status
second_segment-active = refl

test_sample-kept :
    context_at "t1" 2000 (Experiment.discard_test_segment 3500 second_active).1 ≡ some test_sample
unfolding perform write Experiment.start_experiment Experiment.assign Experiment.start_offset_run
    Experiment.stop_offset_run Experiment.start_run Experiment.plan_run Experiment.begin_run
    Experiment.prepare_test_segment Experiment.plan_segment Experiment.begin_segment
    Runs.create_experiment Runs.create_offset_run Runs.set_offset_run_status Runs.create_run
    Runs.list_offset_runs Points.list_assignments Points.upsert_assignment
    Points.upsert_device_offset Points.list_device_offsets Segments.create_test_segment
    Segments.latest_attempt_index strip decimal decimal_ℤ Experiment.finish_test_segment
    Segments.truncate_segment_recording Segments.set_segment_status Experiment.discard_test_segment
    Segments.supersede_segment context_at Segments.segment_for_timestamp
test_sample-kept = refl

discard_test_segment-excludes_example :
    test_sample.segment_id ≢ some "E__forward1__10__P2__a1__3000"
discard_test_segment-excludes_example =
    discard_test_segment-excludes 3500 2000 "t1" second_active second_segment test_sample
      second_segment-active test_sample-kept refl

finished-ok : (perform (Request.finish_test_segment 2500) after_segment_start).0 ≡ ok tt
unfolding perform write Experiment.start_experiment Experiment.assign Experiment.start_offset_run
    Experiment.stop_offset_run Experiment.start_run Experiment.plan_run Experiment.begin_run
    Experiment.prepare_test_segment Experiment.plan_segment Experiment.begin_segment
    Runs.create_experiment Runs.create_offset_run Runs.set_offset_run_status Runs.create_run
    Runs.list_offset_runs Points.list_assignments Points.upsert_assignment
    Points.upsert_device_offset Points.list_device_offsets Segments.create_test_segment
    Segments.latest_attempt_index strip decimal decimal_ℤ Experiment.finish_test_segment
    Segments.truncate_segment_recording Segments.set_segment_status
finished-ok = refl

second_start-ok : (perform second_start finished).0 ≡ ok tt
unfolding perform write Experiment.start_experiment Experiment.assign Experiment.start_offset_run
    Experiment.stop_offset_run Experiment.start_run Experiment.plan_run Experiment.begin_run
    Experiment.prepare_test_segment Experiment.plan_segment Experiment.begin_segment
    Runs.create_experiment Runs.create_offset_run Runs.set_offset_run_status Runs.create_run
    Runs.list_offset_runs Points.list_assignments Points.upsert_assignment
    Points.upsert_device_offset Points.list_device_offsets Segments.create_test_segment
    Segments.latest_attempt_index strip decimal decimal_ℤ Experiment.finish_test_segment
    Segments.truncate_segment_recording Segments.set_segment_status
second_start-ok = refl

second_active-Reach : Reach 3000 second_active
second_active-Reach =
    next
      (next after_segment_start-Reach (Request.finish_test_segment 2500) 2500 (omega arith) refl
        (raises_nothing finished-ok))
      second_start 3000 (omega arith) refl (raises_nothing second_start-ok)

windows_have_time : All (λ s. has_time "E__forward1__10" s ≡ true) second_active.store.segments
unfolding perform write Experiment.start_experiment Experiment.assign Experiment.start_offset_run
    Experiment.stop_offset_run Experiment.start_run Experiment.plan_run Experiment.begin_run
    Experiment.prepare_test_segment Experiment.plan_segment Experiment.begin_segment
    Runs.create_experiment Runs.create_offset_run Runs.set_offset_run_status Runs.create_run
    Runs.list_offset_runs Points.list_assignments Points.upsert_assignment
    Points.upsert_device_offset Points.list_device_offsets Segments.create_test_segment
    Segments.latest_attempt_index strip decimal decimal_ℤ Experiment.finish_test_segment
    Segments.truncate_segment_recording Segments.set_segment_status
windows_have_time = (refl, (refl, tt))

Reach-has_overlap_example :
    has_overlap "E__forward1__10"
      (Segments.list_test_segments "E__forward1__10" second_active.store)
    ≡ false
Reach-has_overlap_example =
    Reach-has_overlap second_active-Reach "E__forward1__10" windows_have_time

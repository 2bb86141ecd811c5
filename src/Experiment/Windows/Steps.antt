-- ===== src/Experiment/Windows/Steps.antt =====
-- Each method of the manager keeps the invariant.
use network_backend_article.Base.{
  ℕ, ◌≤◌, ◌≡◌, ◌≢◌, refl, String, false, Option, none, some, arith, eq_iff,
}
use network_backend_article.Base.Int.{ℤ}
use network_backend_article.Base.Result.{ok, err, integrity_error, bind_check}
use network_backend_article.Store.Tables.{RunStatus, SegmentStatus, SegmentRow}
use network_backend_article.Store.Segments.{mark_all_open_interrupted, is_open, interrupt}
use network_backend_article.Store.Runs.{is_running}
use network_backend_article.Experiment
use network_backend_article.Experiment.State.{Manager, ActiveRun, ActiveTestSegment}
use network_backend_article.Experiment.Requests.{reboot}
use network_backend_article.Experiment.Windows.Invariant.{IsTimely}
use network_backend_article.Experiment.Windows.Tables.{
  AllTimely-later, AllTimely-idle, AllTimely-fresh, AllTimely-prepare, AllOrdered-prepare,
  lists_run-append, AllOwned-update_runs, AllOwned-append_run, AllOwned-update, AllOwned-append,
  AllOrdered-interrupt,
}

module _ {F : Type 0} where
  pub IsTimely-later : (now t : ℕ) (m : Manager F) → now ≤ t → IsTimely now m → IsTimely t m
  IsTimely-later now t m le h = record {
    ordered = h.ordered;
    timely = AllTimely-later now t m.active_run m.active_test_segment m.store.segments le h.timely;
    owned = h.owned;
    listed = h.listed;
  }

  pub start_experiment-IsTimely :
      (id : String) (bssid : Option String) (channel : Option ℤ) (memo : Option String)
      (t t' now : ℕ) (m : Manager F)
      → IsTimely now m
      → IsTimely now (Experiment.start_experiment id bssid channel memo t t' m).1
  unfolding Experiment.start_experiment
  start_experiment-IsTimely id bssid channel memo t t' now m h = record {
    ordered = AllOrdered-interrupt t m.store.segments h.ordered;
    timely = AllTimely-idle now _;
    owned =
        AllOwned-update_runs (λ r. is_running r.status)
          (λ r. record r { status = RunStatus.interrupted; ended_at_ms = some t }) (λ q. refl)
          m.store.runs _
          (AllOwned-update (λ r. is_open r.status) (interrupt t) (λ r. refl) m.store.runs
            m.store.segments h.owned);
    listed = tt;
  }

  pub reboot-IsTimely : (t now : ℕ) (m : Manager F) → IsTimely now m → IsTimely now (reboot t m)
  unfolding mark_all_open_interrupted
  reboot-IsTimely t now m h = record {
    ordered = AllOrdered-interrupt t m.store.segments h.ordered;
    timely = AllTimely-idle now _;
    owned =
        AllOwned-update_runs (λ r. is_running r.status)
          (λ r. record r { status = RunStatus.interrupted; ended_at_ms = some t }) (λ q. refl)
          m.store.runs _
          (AllOwned-update (λ r. is_open r.status) (interrupt t) (λ r. refl) m.store.runs
            m.store.segments h.owned);
    listed = tt;
  }

  pub end_experiment-IsTimely :
      (t now : ℕ) (m : Manager F) → IsTimely now m → IsTimely now (Experiment.end_experiment t m).1
  unfolding Experiment.end_experiment
  end_experiment-IsTimely t now m h = ground (arith, AllTimely-idle now m.store.segments)

  pub assign-IsTimely :
      (a b c : String) (t now : ℕ) (m : Manager F)
      → IsTimely now m
      → IsTimely now (Experiment.assign a b c t m).1
  unfolding Experiment.assign
  assign-IsTimely a b c t now m h = ground arith

  pub start_offset_run-IsTimely :
      (phase : String) (memo : Option String) (t t' t'' now : ℕ) (m : Manager F)
      → IsTimely now m
      → IsTimely now (Experiment.start_offset_run phase memo t t' t'' m).1
  unfolding Experiment.start_offset_run
  start_offset_run-IsTimely phase memo t t' t'' now m h = ground arith

  pub stop_offset_run-IsTimely :
      (t now : ℕ) (m : Manager F) → IsTimely now m → IsTimely now (Experiment.stop_offset_run t m).1
  unfolding Experiment.stop_offset_run
  stop_offset_run-IsTimely t now m h = ground arith

  pub begin_run-IsTimely :
      (run : ActiveRun) (pre : String) (memo : Option String) (now : ℕ) (m : Manager F)
      → (Experiment.begin_run run pre memo m).0 ≢ err integrity_error
      → IsTimely now m
      → IsTimely now (Experiment.begin_run run pre memo m).1
  unfolding Experiment.begin_run
  begin_run-IsTimely run pre memo now m new h = ground (
    arith,
    AllTimely-fresh now run m.store.runs m.store.segments,
    lists_run-append m.store.runs
        (record {
          run_id = run.run_id;
          experiment_id = run.experiment_id;
          direction = run.direction;
          pass_index = run.pass_index;
          status = RunStatus.running;
          started_at_ms = run.started_at_ms;
          ended_at_ms = none;
          pre_offset_run_id = some pre;
          post_offset_run_id = none;
          note = memo;
        })
        run.run_id,
    AllOwned-append_run m.store.runs
        (record {
          run_id = run.run_id;
          experiment_id = run.experiment_id;
          direction = run.direction;
          pass_index = run.pass_index;
          status = RunStatus.running;
          started_at_ms = run.started_at_ms;
          ended_at_ms = none;
          pre_offset_run_id = some pre;
          post_offset_run_id = none;
          note = memo;
        })
        m.store.segments,
    eq_iff run.run_id run.run_id,
  )

  plan_run-state :
      (direction : String) (pass : ℤ) (pre : Option String) (t : ℕ) (m : Manager F)
      → (Experiment.plan_run direction pass pre t m).1 ≡ m
  unfolding Experiment.plan_run
  plan_run-state direction pass pre t m = ground arith

  pub start_run-IsTimely :
      (direction : String) (pass : ℤ) (pre memo : Option String) (t now : ℕ) (m : Manager F)
      → (Experiment.start_run direction pass pre memo t m).0 ≢ err integrity_error
      → IsTimely now m
      → IsTimely now (Experiment.start_run direction pass pre memo t m).1
  unfolding Experiment.start_run
  start_run-IsTimely direction pass pre memo t now m new h =
      bind_check (λ r. r.0 ≢ err integrity_error → IsTimely now r.1)
        (λ plan. Experiment.begin_run plan.0 plan.1 memo) (Experiment.plan_run direction pass pre t)
        m (plan_run-state direction pass pre t m)
        (λ plan e new'. begin_run-IsTimely plan.0 plan.1 memo now m new' h) (λ e new'. h) new

  -- What the checks let through: nothing is being recorded, and the window is of the active Run
  -- and lies ahead.
  plan_segment_lem :
      (point : String) (order stab rec : ℤ) (t : ℕ) (m : Manager F) (seg : ActiveTestSegment)
      → (Experiment.plan_segment point order stab rec t m).0 ≡ ok seg
      → (run : ActiveRun) × (m.active_run ≡ some run)
        × (m.active_test_segment ≡ none)
        × (seg.run_id ≡ run.run_id)
        × (t ≤ seg.recording_started_at_ms)
  unfolding Experiment.plan_segment
  plan_segment_lem point order stab rec t m seg e = ground arith

  plan_segment-state :
      (point : String) (order stab rec : ℤ) (t : ℕ) (m : Manager F)
      → (Experiment.plan_segment point order stab rec t m).1 ≡ m
  unfolding Experiment.plan_segment
  plan_segment-state point order stab rec t m = ground arith

  begin_segment-IsTimely :
      (seg : ActiveTestSegment) (memo : Option String) (now : ℕ) (m : Manager F) (run : ActiveRun)
      → m.active_run ≡ some run
      → m.active_test_segment ≡ none
      → seg.run_id ≡ run.run_id
      → now ≤ seg.recording_started_at_ms
      → (Experiment.begin_segment seg memo m).0 ≢ err integrity_error
      → IsTimely now m
      → IsTimely now (Experiment.begin_segment seg memo m).1
  unfolding Experiment.begin_segment
  begin_segment-IsTimely seg memo now m run er es same le new h =
      let row : SegmentRow = record {
        segment_id = seg.segment_id;
        run_id = seg.run_id;
        point_id = seg.point_id;
        order_index = seg.order_index;
        attempt_index = seg.attempt_index;
        status = SegmentStatus.stabilizing;
        prepared_at_ms = seg.prepared_at_ms;
        recording_started_at_ms = seg.recording_started_at_ms;
        recording_ended_at_ms = seg.recording_ended_at_ms;
        actual_ended_at_ms = none;
        superseded = false;
        note = memo;
      } in
      ground (
        arith,
        AllTimely-prepare now run seg m.store.segments row,
        AllOrdered-prepare now run m.store.segments row,
        AllOwned-append m.store.runs m.store.segments row,
      )

  pub prepare_test_segment-IsTimely :
      (point : String) (order stab rec : ℤ) (memo : Option String) (now t : ℕ) (m : Manager F)
      → now ≤ t
      → (Experiment.prepare_test_segment point order stab rec memo t m).0 ≢ err integrity_error
      → IsTimely now m
      → IsTimely t (Experiment.prepare_test_segment point order stab rec memo t m).1
  unfolding Experiment.prepare_test_segment
  prepare_test_segment-IsTimely point order stab rec memo now t m le new h =
      bind_check (λ r. r.0 ≢ err integrity_error → IsTimely t r.1)
        (λ seg. Experiment.begin_segment seg memo) (Experiment.plan_segment point order stab rec t)
        m (plan_segment-state point order stab rec t m)
        (λ seg e new'.
          let (run, er, es, same, ahead) = plan_segment_lem point order stab rec t m seg e in
          begin_segment-IsTimely seg memo t m run er es same ahead new'
            (IsTimely-later now t m le h))
        (λ e new'. IsTimely-later now t m le h) new

-- ===== src/Experiment/Windows/Closing.antt =====
-- The methods that close a Run or a TestSegment keep the invariant.
use network_backend_article.Base.{
  ℕ, ◌≤◌, ◌≡◌, refl, String, Bool, Option, none, some, List, inl, inr, arith, update, ltb,
  Bool-cases, str_eq,
}
use network_backend_article.Store.Tables.{RunRow, RunStatus, SegmentStatus, SegmentRow}
use network_backend_article.Store.Segments.{has_id, truncate, with_status, supersede}
use network_backend_article.Base.Result.{bind_check, pure, ◌>>◌}
use network_backend_article.Store.Runs.{coalesce, set_run_offset_refs}
use network_backend_article.Experiment.Windows.Steps.{IsTimely-later}
use network_backend_article.Experiment
use network_backend_article.Experiment.State.{Manager, ActiveRun, ActiveTestSegment, update_store}
use network_backend_article.Experiment.Windows.Invariant.{
  AllTimely, AllOwned, AllOrdered, IsTimely, IsListed,
}
use network_backend_article.Experiment.Windows.Tables.{
  AllTimely-idle, lists_run-update, AllOwned-update_runs, AllOwned-update, AllOrdered-truncate,
  AllOrdered-supersede, AllOrdered-with_status, AllTimely-truncate, AllTimely-close,
  AllTimely-discard,
}

IsListed-update :
    (p : RunRow → Bool) (f : RunRow → RunRow)
    → ((q : RunRow) → (f q).run_id ≡ q.run_id)
    → (runs : List RunRow) (run : Option ActiveRun) → IsListed runs run
    → IsListed (update p f runs) run
IsListed-update p f same runs none h = tt
IsListed-update p f same runs (some run) h = rw (lists_run-update p f same runs run.run_id) h

module _ {F : Type 0} where
  -- A change of the rows of the Run table that keeps their ids.
  update_runs-IsTimely :
      (p : RunRow → Bool) (f : RunRow → RunRow)
      → ((q : RunRow) → (f q).run_id ≡ q.run_id)
      → (now : ℕ) (m : Manager F) → IsTimely now m
      → IsTimely now (record m { store = record m.store { runs = update p f m.store.runs } })
  update_runs-IsTimely p f same now m h = record {
    ordered = h.ordered;
    timely = h.timely;
    owned = AllOwned-update_runs p f same m.store.runs m.store.segments h.owned;
    listed = IsListed-update p f same m.store.runs m.active_run h.listed;
  }

  attach_target-state :
      (run : Option String) (m : Manager F) → (Experiment.attach_target run m).1 ≡ m
  unfolding Experiment.attach_target
  attach_target-state run m = ground arith

  pub attach_post_offset-IsTimely :
      (post : String) (run : Option String) (now : ℕ) (m : Manager F)
      → IsTimely now m
      → IsTimely now (Experiment.attach_post_offset post run m).1
  unfolding Experiment.attach_post_offset
  attach_post_offset-IsTimely post run now m h =
      bind_check (λ r. IsTimely now r.1)
        (λ target. update_store (set_run_offset_refs target none (some post)) >> pure target)
        (Experiment.attach_target run) m (attach_target-state run m)
        (λ id e.
          update_runs-IsTimely (λ r. str_eq r.run_id id)
            (λ r. record r {
              pre_offset_run_id = coalesce none r.pre_offset_run_id;
              post_offset_run_id = coalesce (some post) r.post_offset_run_id;
            })
            (λ q. refl) now m h)
        (λ e. h)

  pub mark_run_interrupted-IsTimely :
      (id : String) (now : ℕ) (m : Manager F)
      → IsTimely now m
      → IsTimely now (Experiment.mark_run_interrupted id m).1
  unfolding Experiment.mark_run_interrupted
  mark_run_interrupted-IsTimely id now m h =
      update_runs-IsTimely (λ r. str_eq r.run_id id)
        (λ r. record r {
          status = RunStatus.interrupted;
          ended_at_ms = coalesce none r.ended_at_ms;
        })
        (λ q. refl) now m h

  end_run_cases :
      (t now : ℕ) (m : Manager F) (run : Option ActiveRun) (seg : Option ActiveTestSegment)
      → m.active_run ≡ run
      → m.active_test_segment ≡ seg
      → IsTimely now m
      → IsTimely now (Experiment.end_run t m).1
  unfolding Experiment.end_run
  end_run_cases t now m none seg er es h = ground arith
  end_run_cases t now m (some run) (some seg) er es h = ground arith
  end_run_cases t now m (some run) none er es h = ground (
    arith,
    AllTimely-idle now m.store.segments,
    AllOwned-update_runs (λ r. str_eq r.run_id run.run_id)
        (λ r. record r {
          status = RunStatus.completed;
          ended_at_ms = coalesce (some t) r.ended_at_ms;
        })
        (λ q. refl) m.store.runs m.store.segments h.owned,
  )

  pub end_run-IsTimely :
      (t now : ℕ) (m : Manager F) → IsTimely now m → IsTimely now (Experiment.end_run t m).1
  end_run-IsTimely t now m = end_run_cases t now m m.active_run m.active_test_segment refl refl

  -- A segment that has ended by `t` is closed with a status that is written to its row.
  close_row-IsTimely :
      (now t : ℕ) (m : Manager F) (seg : ActiveTestSegment) (rows : List SegmentRow)
      (status : SegmentStatus)
      → now ≤ t
      → seg.recording_ended_at_ms ≤ t
      → AllOrdered rows
      → AllTimely now m.active_run (some seg) rows
      → AllOwned m.store.runs rows
      → IsListed m.store.runs m.active_run
      → IsTimely t (record m {
        active_test_segment = none;
        store = record m.store {
          segments = update (has_id seg.segment_id) (with_status status (some t)) rows;
        };
      })
  close_row-IsTimely now t m seg rows status le ended ordered timely owned listed = record {
    ordered = AllOrdered-with_status now m.active_run seg status (some t) rows timely ordered;
    timely = AllTimely-close now t m.active_run seg status (some t) rows le ended timely;
    owned =
        AllOwned-update (has_id seg.segment_id) (with_status status (some t)) (λ r. refl)
          m.store.runs rows owned;
    listed = listed;
  }

  finish_cases :
      (now t : ℕ) (m : Manager F) (active : Option ActiveTestSegment)
      → m.active_test_segment ≡ active
      → now ≤ t
      → IsTimely now m
      → IsTimely t (Experiment.finish_test_segment t m).1
  unfolding Experiment.finish_test_segment
  finish_cases now t m none e le h = rw e (ground (arith, IsTimely-later now t m le h))
  finish_cases now t m (some seg) e le h =
      let timely : AllTimely now m.active_run (some seg) m.store.segments = rw e at h.timely in
      rw e elim (Bool-cases (ltb t seg.recording_ended_at_ms)) [
        | inl early ↦ rw early (
            close_row-IsTimely now t m (record seg { recording_ended_at_ms = t })
              (update (has_id seg.segment_id) (truncate t) m.store.segments) SegmentStatus.completed
              le (omega arith) (AllOrdered-truncate seg.segment_id t m.store.segments h.ordered)
              (AllTimely-truncate now t m.active_run seg m.store.segments timely)
              (AllOwned-update (has_id seg.segment_id) (truncate t) (λ r. refl) m.store.runs
                m.store.segments h.owned)
              h.listed)
        | inr late ↦ rw late (
            close_row-IsTimely now t m seg m.store.segments SegmentStatus.completed le
              (ground arith) h.ordered timely h.owned h.listed)
      ]

  pub finish_test_segment-IsTimely :
      (now t : ℕ) (m : Manager F)
      → now ≤ t
      → IsTimely now m
      → IsTimely t (Experiment.finish_test_segment t m).1
  finish_test_segment-IsTimely now t m = finish_cases now t m m.active_test_segment refl

  advance_cases :
      (now t : ℕ) (m : Manager F) (active : Option ActiveTestSegment)
      → m.active_test_segment ≡ active
      → now ≤ t
      → IsTimely now m
      → IsTimely t (Experiment.auto_advance_segment t m).1
  unfolding Experiment.auto_advance_segment
  advance_cases now t m none e le h = simp e (IsTimely-later now t m le h)
  advance_cases now t m (some seg) e le h =
      let timely : AllTimely now m.active_run (some seg) m.store.segments = rw e at h.timely in
      simp e elim (Bool-cases (ltb t seg.recording_ended_at_ms)) [
        | inl early ↦ simp early (IsTimely-later now t m le h)
        | inr late ↦ rw late (
            close_row-IsTimely now t m seg m.store.segments SegmentStatus.completed le
              (ground arith) h.ordered timely h.owned h.listed)
      ]

  pub auto_advance_segment-IsTimely :
      (now t : ℕ) (m : Manager F)
      → now ≤ t
      → IsTimely now m
      → IsTimely t (Experiment.auto_advance_segment t m).1
  auto_advance_segment-IsTimely now t m = advance_cases now t m m.active_test_segment refl

  discard_cases :
      (now t : ℕ) (m : Manager F) (active : Option ActiveTestSegment)
      → m.active_test_segment ≡ active
      → now ≤ t
      → IsTimely now m
      → IsTimely t (Experiment.discard_test_segment t m).1
  unfolding Experiment.discard_test_segment
  discard_cases now t m none e le h = rw e (ground (arith, IsTimely-later now t m le h))
  discard_cases now t m (some seg) e le h =
      let timely : AllTimely now m.active_run (some seg) m.store.segments = rw e at h.timely in
      let rows : List SegmentRow =
        update (has_id seg.segment_id) (with_status SegmentStatus.discarded (some t))
          m.store.segments in
      rw e (record {
        ordered = AllOrdered-supersede seg.segment_id rows (
            AllOrdered-with_status now m.active_run seg SegmentStatus.discarded (some t)
              m.store.segments timely h.ordered);
        timely = AllTimely-discard now t m.active_run seg (some t) m.store.segments le timely;
        owned =
            AllOwned-update (has_id seg.segment_id) supersede (λ r. refl) m.store.runs rows
              (AllOwned-update (has_id seg.segment_id)
                (with_status SegmentStatus.discarded (some t)) (λ r. refl) m.store.runs
                m.store.segments h.owned);
        listed = h.listed;
      })

  pub discard_test_segment-IsTimely :
      (now t : ℕ) (m : Manager F)
      → now ≤ t
      → IsTimely now m
      → IsTimely t (Experiment.discard_test_segment t m).1
  discard_test_segment-IsTimely now t m = discard_cases now t m m.active_test_segment refl

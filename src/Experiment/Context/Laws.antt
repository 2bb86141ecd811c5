-- ===== src/Experiment/Context/Laws.antt =====
-- Where samples go: the theorems on `context_at` (backend/experiment.py).
use network_backend_article.Base.{
  ℕ, ◌≡◌, ◌≤◌, ◌<◌, refl, String, true, false, inl, inr, Option, none, some, arith, eq_iff, leb,
  Option-cases,
}
use network_backend_article.Base.Rows.{Within, first-sort_by-filter}
use network_backend_article.Store.Tables.{SegmentRow, SegmentStatus}
use network_backend_article.Store.Segments.{segment_for_timestamp, is_kept}
use network_backend_article.Experiment.State.{Manager, ActiveRun, lookup}
use network_backend_article.Experiment.Context.{
  Context, context_at, role_of, role_context, run_context, test_context,
}
use network_backend_article.Experiment.Windows.Order.{takes}

role_context-test :
    (run : ActiveRun) (found : String × String) (segment : Option SegmentRow) (c : Context)
    → role_context run found segment ≡ some c
    → c.point_role ≡ "test"
    → (r : SegmentRow) × (segment ≡ some r) × (test_context run (some r) ≡ some c)
role_context-test run (point, role) none c e t =
    absurd
      (ground (arith, eq_iff role "calibration", eq_iff "calibration" "test", eq_iff role "test"))
role_context-test run (point, role) (some r) c e t = (
  r,
  refl,
  ground (arith, eq_iff role "calibration", eq_iff "calibration" "test", eq_iff role "test"),
)

run_context-test :
    (run : Option ActiveRun) (found : Option (String × String))
    (segment : ActiveRun → Option SegmentRow) (c : Context)
    → run_context run found segment ≡ some c
    → c.point_role ≡ "test"
    → (a : ActiveRun) × (r : SegmentRow) × (run ≡ some a)
      × (segment a ≡ some r)
      × (test_context a (some r) ≡ some c)
run_context-test none found segment c e t = cc
run_context-test (some run) none segment c e t = cc
run_context-test (some run) (some found) segment c e t =
    let (r, er, ec) = role_context-test run found (segment run) c e t in (run, r, refl, er, ec)

-- The recording window of the TestSegment `r` of the Run holds the time, and nothing has put the
-- TestSegment aside.
pub record IsOpenAt (run_id : String) (ts : ℕ) (r : SegmentRow) : Type 0 where
  pub run : r.run_id ≡ run_id
  pub start : r.recording_started_at_ms ≤ ts
  pub end : ts < r.recording_ended_at_ms
  pub current : r.superseded ≡ false
  pub undiscarded : ¬ (r.status ≡ SegmentStatus.discarded)
  pub uninterrupted : ¬ (r.status ≡ SegmentStatus.interrupted)

is_kept-statuses :
    (s : SegmentStatus)
    → is_kept s ≡ true
    → (¬ (s ≡ SegmentStatus.discarded)) × (¬ (s ≡ SegmentStatus.interrupted))
is_kept-statuses s h = (λ e. ground (arith, e), λ e. ground (arith, e))

takes-IsOpenAt :
    (run_id : String) (ts : ℕ) (r : SegmentRow) → takes run_id ts r ≡ true → IsOpenAt run_id ts r
takes-IsOpenAt run_id ts r h =
    let (undiscarded, uninterrupted) = is_kept-statuses r.status (ground arith) in
    record {
      run = ground (arith, eq_iff r.run_id run_id);
      start = ground arith;
      end = ground arith;
      current = ground arith;
      undiscarded = undiscarded;
      uninterrupted = uninterrupted;
    }

module _ {F : Type 0} where
  -- A sample that is stored as a test sample lies in the recording window (from its start, and
  -- before its end) of a TestSegment of the active Run that is neither superseded, discarded nor
  -- interrupted, and it gets the id of that Run and the id and the point of that segment.
  pub context_at-test :
      (node : String) (ts : ℕ) (m : Manager F) (c : Context)
      → context_at node ts m ≡ some c
      → c.point_role ≡ "test"
      → (run : ActiveRun) × (r : SegmentRow) × (m.active_run ≡ some run)
        × (Within r m.store.segments)
        × IsOpenAt run.run_id ts r
        × (c.run_id ≡ run.run_id)
        × (c.segment_id ≡ some r.segment_id)
        × (c.point_id ≡ r.point_id)
  unfolding context_at segment_for_timestamp
  context_at-test node ts m c e t =
      let (run, r, er, es, ec) =
        run_context-test m.active_run (lookup node m.assignments)
          (λ run. segment_for_timestamp run.run_id ts m.store) c e t in
      let (taken, listed) =
        first-sort_by-filter (λ a b. leb b.recording_started_at_ms a.recording_started_at_ms)
          (takes run.run_id ts) m.store.segments es in
      (
        run,
        r,
        er,
        listed,
        takes-IsOpenAt run.run_id ts r taken,
        ground arith,
        ground arith,
        ground arith,
      )

  -- Two samples of one time, one stored as a test sample and one of a calibration node, are
  -- stored under the same Run and the same TestSegment.
  pub context_at-same_window :
      (test cal : String) (ts : ℕ) (m : Manager F) (c : Context)
      → context_at test ts m ≡ some c
      → c.point_role ≡ "test"
      → role_of cal m ≡ some "calibration"
      → (d : Context) × (context_at cal ts m ≡ some d)
        × (d.run_id ≡ c.run_id)
        × (d.segment_id ≡ c.segment_id)
        × (d.point_role ≡ "calibration")
  unfolding context_at role_of
  context_at-same_window test cal ts m c e t cal_role =
      let (run, r, er, es, ec) =
        run_context-test m.active_run (lookup test m.assignments)
          (λ run. segment_for_timestamp run.run_id ts m.store) c e t in
      elim (Option-cases (lookup cal m.assignments)) [
        | inl unknown ↦ ground arith
        | inr (found, known) ↦ (
          record {
            run_id = run.run_id;
            segment_id = some r.segment_id;
            point_id = found.0;
            point_role = "calibration";
          },
          rw (er, known) (ground (arith, es, eq_iff found.1 "calibration")),
          ground arith,
          ground arith,
          refl,
        )
      ]

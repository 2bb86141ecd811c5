-- ===== src/Experiment/Context/Closed.antt =====
-- When a TestSegment takes samples and when it no longer does, in the states that are reached.
use network_backend_article.Base.{
  ℕ, ◌≤◌, ◌≡◌, refl, String, inl, inr, Option, none, some, arith, eq_iff, leb, Option-cases,
}
use network_backend_article.Base.Rows.{Within-All, first-sort_by-filter}
use network_backend_article.Store.Tables.{Store}
use network_backend_article.Store.Segments.{segment_for_timestamp}
use network_backend_article.Experiment
use network_backend_article.Experiment.State.{Manager, ActiveRun, lookup}
use network_backend_article.Experiment.Context.{context_at, role_of}
use network_backend_article.Experiment.Windows.Order.{takes}
use network_backend_article.Experiment.Windows.Invariant.{IsTimely, AllTimely}
use network_backend_article.Experiment.Windows.Reach.{Reach, Reach-IsTimely}
use network_backend_article.Experiment.Windows.Closing.{finish_test_segment-IsTimely}

-- With no active segment, all windows of the active Run have ended.
no_window :
    {F : Type 0} (now ts : ℕ) (run : ActiveRun) (s : Store F)
    → AllTimely now (some run) none s.segments
    → now ≤ ts
    → segment_for_timestamp run.run_id ts s ≡ none
unfolding segment_for_timestamp AllTimely
no_window now ts run s h le = elim (Option-cases (segment_for_timestamp run.run_id ts s)) [
  | inl e ↦ e
  | inr (r, e) ↦
      let (taken, listed) =
        first-sort_by-filter (λ a b. leb b.recording_started_at_ms a.recording_started_at_ms)
          (takes run.run_id ts) s.segments e in
      absurd (ground (arith, Within-All _ r s.segments h listed, taken))
]

module _ {F : Type 0} where
  idle_test :
      (now ts : ℕ) (node : String) (m : Manager F) (run : Option ActiveRun)
      → m.active_run ≡ run
      → m.active_test_segment ≡ none
      → IsTimely now m
      → now ≤ ts
      → role_of node m ≡ some "test"
      → context_at node ts m ≡ none
  unfolding context_at role_of
  idle_test now ts node m none er es h le role = ground arith
  idle_test now ts node m (some run) er es h le role =
      elim (Option-cases (lookup node m.assignments)) [
        | inl unknown ↦ ground arith
        | inr (found, known) ↦ ground (
          arith,
          no_window now ts run m.store (rw (er, es) at h.timely) le,
          eq_iff found.1 "test",
          eq_iff found.1 "calibration",
          eq_iff "test" "calibration",
        )
      ]

  -- In every reached state, after `finish_test_segment` at a time that is not before the last
  -- request, no sample of that time or later of a node in the test role gets a storage context.
  pub finish_test_segment_closes :
      {now : ℕ} {m : Manager F} (cur ts : ℕ) (node : String)
      → Reach now m
      → now ≤ cur
      → cur ≤ ts
      → role_of node m ≡ some "test"
      → context_at node ts (Experiment.finish_test_segment cur m).1 ≡ none
  finish_test_segment_closes {now} {m} cur ts node reached le le' role =
      idle_test cur ts node (Experiment.finish_test_segment cur m).1 _ refl
        (unfold Experiment.finish_test_segment in ground arith)
        (finish_test_segment-IsTimely now cur m le (Reach-IsTimely reached)) le'
        (unfold Experiment.finish_test_segment role_of in ground arith)

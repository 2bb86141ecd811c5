-- ===== src/Experiment/Context/Discarded.antt =====
-- What `discard_test_segment` of backend/experiment.py leaves to the samples of its window.
use network_backend_article.Base.{
  ℕ, ◌≡◌, ◌≢◌, String, Bool, true, some, List, arith, eq_iff, All, All-of, All-update, update,
  if◌then◌else◌,
}
use network_backend_article.Base.Rows.{Within-All}
use network_backend_article.Store.Tables.{SegmentRow, SegmentStatus}
use network_backend_article.Store.Segments.{has_id, supersede, with_status}
use network_backend_article.Experiment
use network_backend_article.Experiment.State.{Manager, ActiveTestSegment}
use network_backend_article.Experiment.Context.{Context, context_at}
use network_backend_article.Experiment.Context.Laws.{IsOpenAt, context_at-test}

-- Rows of an id that are out of use.
abbrev is_out : String → SegmentRow → Bool
is_out id r = if has_id id r then r.superseded else true

superseded-out :
    (id : String) (rows : List SegmentRow)
    → All (λ r. is_out id r ≡ true) (update (has_id id) supersede rows)
superseded-out id rows =
    All-update (λ r. is_out id r ≡ true) (has_id id) supersede (λ r _. ground arith) rows
      (All-of {P = λ _. Unit {0}} (λ _. tt) rows)

out-untaken :
    (id run_id : String) (ts : ℕ) (r : SegmentRow)
    → is_out id r ≡ true
    → IsOpenAt run_id ts r
    → r.segment_id ≢ id
out-untaken id run_id ts r out open_at same =
    ground (arith, eq_iff r.segment_id id, open_at.current)

module _ {F : Type 0} where
  discarded-out :
      (now : ℕ) (m : Manager F) (seg : ActiveTestSegment)
      → m.active_test_segment ≡ some seg
      → All
          (λ r. is_out seg.segment_id r ≡ true)
          (Experiment.discard_test_segment now m).1.store.segments
  unfolding Experiment.discard_test_segment
  discarded-out now m seg active = rw active (
      superseded-out seg.segment_id (
        update (has_id seg.segment_id) (with_status SegmentStatus.discarded (some now))
          m.store.segments))

  -- After the active TestSegment is discarded, no sample of any time is stored as a test sample of
  -- that TestSegment.
  pub discard_test_segment-excludes :
      (now ts : ℕ) (node : String) (m : Manager F) (seg : ActiveTestSegment) (c : Context)
      → m.active_test_segment ≡ some seg
      → context_at node ts (Experiment.discard_test_segment now m).1 ≡ some c
      → c.point_role ≡ "test"
      → c.segment_id ≢ some seg.segment_id
  discard_test_segment-excludes now ts node m seg c active stored test same =
      let (run, r, running, listed, open_at, run_same, id_same, point_same) =
        context_at-test node ts (Experiment.discard_test_segment now m).1 c stored test in
      let out =
        Within-All (λ r. is_out seg.segment_id r ≡ true) r
          (Experiment.discard_test_segment now m).1.store.segments (discarded-out now m seg active)
          listed in
      out-untaken seg.segment_id run.run_id ts r out open_at (ground arith)

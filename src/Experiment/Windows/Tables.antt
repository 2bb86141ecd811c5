-- ===== src/Experiment/Windows/Tables.antt =====
-- The invariant under the statements on the two tables.
use network_backend_article.Base.{
  ℕ, ◌≤◌, ◌≡◌, refl, String, Bool, true, false, ◌||◌, Option, none, some, List, [], ◌∷◌, ◌++◌,
  arith, str_eq, eq_iff, All-map, All-update, All-of, All-append, any, update,
}
use network_backend_article.Store.Tables.{SegmentRow, SegmentStatus, RunRow}
use network_backend_article.Store.Segments.{
  has_id, is_open, with_status, interrupt, truncate, supersede,
}
use network_backend_article.Experiment.State.{ActiveRun, ActiveTestSegment}
use network_backend_article.Experiment.Windows.Order.{
  is_eligible, IsOrdered-update, IsOrdered-append,
}
use network_backend_article.Experiment.Windows.Invariant.{
  lists_run, is_timely, AllTimely, AllOwned, AllOrdered,
}

-- Time goes on.
pub AllTimely-later :
    (now t : ℕ) (run : Option ActiveRun) (seg : Option ActiveTestSegment) (rows : List SegmentRow)
    → now ≤ t
    → AllTimely now run seg rows
    → AllTimely t run seg rows
unfolding AllTimely
AllTimely-later now t none none rows le = All-map (λ r h. refl) rows
AllTimely-later now t none (some seg) rows le = All-map (λ r h. ground arith) rows
AllTimely-later now t (some run) none rows le = All-map (λ r h. ground arith) rows
AllTimely-later now t (some run) (some seg) rows le = All-map (λ r h. ground arith) rows

-- With nothing active there is nothing to keep.
pub AllTimely-idle : (now : ℕ) (rows : List SegmentRow) → AllTimely now none none rows
unfolding AllTimely
AllTimely-idle now rows = All-of (λ r. refl) rows

-- A Run that no row names has no window yet.
pub AllTimely-fresh :
    (now : ℕ) (run : ActiveRun) (runs : List RunRow) (rows : List SegmentRow)
    → lists_run runs run.run_id ≡ false
    → AllOwned runs rows
    → AllTimely now (some run) none rows
unfolding AllTimely AllOwned
AllTimely-fresh now run runs rows new =
    All-map (λ r h. ground (arith, eq_iff r.run_id run.run_id)) rows

pub lists_run-update :
    (p : RunRow → Bool) (f : RunRow → RunRow)
    → ((q : RunRow) → (f q).run_id ≡ q.run_id)
    → (runs : List RunRow) (id : String) → lists_run (update p f runs) id ≡ lists_run runs id
lists_run-update p f same [] id = refl
lists_run-update p f same (q ∷ runs) id = ground (arith, same q, lists_run-update p f same runs id)

pub lists_run-append :
    (runs : List RunRow) (new : RunRow) (id : String)
    → lists_run (runs ++ new ∷ []) id ≡ (lists_run runs id || str_eq new.run_id id)
lists_run-append [] new id = ground arith
lists_run-append (q ∷ runs) new id = ground (arith, lists_run-append runs new id)

pub AllOwned-update_runs :
    (p : RunRow → Bool) (f : RunRow → RunRow)
    → ((q : RunRow) → (f q).run_id ≡ q.run_id)
    → (runs : List RunRow) (rows : List SegmentRow) → AllOwned runs rows
    → AllOwned (update p f runs) rows
unfolding AllOwned
AllOwned-update_runs p f same runs rows =
    All-map (λ r h. ground (arith, lists_run-update p f same runs r.run_id)) rows

pub AllOwned-append_run :
    (runs : List RunRow) (new : RunRow) (rows : List SegmentRow)
    → AllOwned runs rows
    → AllOwned (runs ++ new ∷ []) rows
unfolding AllOwned
AllOwned-append_run runs new rows =
    All-map (λ r h. ground (arith, lists_run-append runs new r.run_id)) rows

pub AllOwned-update :
    (p : SegmentRow → Bool) (f : SegmentRow → SegmentRow)
    → ((r : SegmentRow) → (f r).run_id ≡ r.run_id)
    → (runs : List RunRow) (rows : List SegmentRow) → AllOwned runs rows
    → AllOwned runs (update p f rows)
unfolding AllOwned
AllOwned-update p f same runs rows = All-update _ p f (λ r h. ground (arith, same r)) rows

pub AllOwned-append :
    (runs : List RunRow) (rows : List SegmentRow) (new : SegmentRow)
    → lists_run runs new.run_id ≡ true
    → AllOwned runs rows
    → AllOwned runs (rows ++ new ∷ [])
unfolding AllOwned
AllOwned-append runs rows new known h =
    All-append (λ r. lists_run runs r.run_id ≡ true) rows (new ∷ []) h (known, tt)

-- The new row of `prepare_test_segment`.
pub AllTimely-prepare :
    (now : ℕ) (run : ActiveRun) (seg : ActiveTestSegment) (rows : List SegmentRow)
    (new : SegmentRow)
    → any (has_id seg.segment_id) rows ≡ false
    → new.segment_id ≡ seg.segment_id
    → is_eligible new ≡ true
    → new.recording_ended_at_ms ≡ seg.recording_ended_at_ms
    → AllTimely now (some run) none rows
    → AllTimely now (some run) (some seg) (rows ++ new ∷ [])
unfolding AllTimely
AllTimely-prepare now run seg [] new unique id live end h =
    (ground (arith, eq_iff new.segment_id seg.segment_id), tt)
AllTimely-prepare now run seg (r ∷ rows) new unique id live end h =
    (ground (arith, h.0), AllTimely-prepare now run seg rows new (ground arith) id live end h.1)

pub AllOrdered-prepare :
    (now : ℕ) (run : ActiveRun) (rows : List SegmentRow) (new : SegmentRow)
    → new.run_id ≡ run.run_id
    → now ≤ new.recording_started_at_ms
    → AllTimely now (some run) none rows
    → AllOrdered rows
    → AllOrdered (rows ++ new ∷ [])
unfolding AllTimely AllOrdered
AllOrdered-prepare now run rows new same le h =
    IsOrdered-append rows new (All-map (λ r t. rw same (ground arith)) rows h)

-- The rows under the four updates.
pub AllOrdered-interrupt :
    (t : ℕ) (rows : List SegmentRow)
    → AllOrdered rows
    → AllOrdered (update (λ r. is_open r.status) (interrupt t) rows)
unfolding AllOrdered
AllOrdered-interrupt t rows =
    IsOrdered-update (λ r. is_open r.status) (interrupt t) rows (All-of (λ r. ground arith) rows)

pub AllOrdered-truncate :
    (id : String) (t : ℕ) (rows : List SegmentRow)
    → AllOrdered rows
    → AllOrdered (update (has_id id) (truncate t) rows)
unfolding AllOrdered
AllOrdered-truncate id t rows =
    IsOrdered-update (has_id id) (truncate t) rows (All-of (λ r. ground arith) rows)

pub AllOrdered-supersede :
    (id : String) (rows : List SegmentRow)
    → AllOrdered rows
    → AllOrdered (update (has_id id) supersede rows)
unfolding AllOrdered
AllOrdered-supersede id rows =
    IsOrdered-update (has_id id) supersede rows (All-of (λ r. ground arith) rows)

pub AllOrdered-with_status :
    (now : ℕ) (run : Option ActiveRun) (seg : ActiveTestSegment) (status : SegmentStatus)
    (t : Option ℕ) (rows : List SegmentRow)
    → AllTimely now run (some seg) rows
    → AllOrdered rows
    → AllOrdered (update (has_id seg.segment_id) (with_status status t) rows)
unfolding AllOrdered AllTimely
AllOrdered-with_status now run seg status t rows timely =
    IsOrdered-update (has_id seg.segment_id) (with_status status t) rows
      (All-map (λ r h. ground (arith, h)) rows timely)

-- A cut window belongs to a segment that ends with it.
pub AllTimely-truncate :
    (now t : ℕ) (run : Option ActiveRun) (seg : ActiveTestSegment) (rows : List SegmentRow)
    → AllTimely now run (some seg) rows
    → AllTimely now run
        (some (record seg { recording_ended_at_ms = t }))
        (update (has_id seg.segment_id) (truncate t) rows)
unfolding AllTimely
AllTimely-truncate now t none seg rows =
    All-update (λ r. is_timely now none (some (record seg { recording_ended_at_ms = t })) r ≡ true)
      (has_id seg.segment_id) (truncate t) (λ r h. ground arith) rows
AllTimely-truncate now t (some run) seg rows =
    All-update
      (λ r. is_timely now (some run) (some (record seg { recording_ended_at_ms = t })) r ≡ true)
      (has_id seg.segment_id) (truncate t) (λ r h. ground arith) rows

-- A segment that has ended by `t` may be closed.
pub AllTimely-close :
    (now t : ℕ) (run : Option ActiveRun) (seg : ActiveTestSegment) (status : SegmentStatus)
    (at : Option ℕ) (rows : List SegmentRow)
    → now ≤ t
    → seg.recording_ended_at_ms ≤ t
    → AllTimely now run (some seg) rows
    → AllTimely t run none (update (has_id seg.segment_id) (with_status status at) rows)
unfolding AllTimely
AllTimely-close now t none seg status at rows le ended =
    λ h. AllTimely-idle t (update (has_id seg.segment_id) (with_status status at) rows)
AllTimely-close now t (some run) seg status at rows le ended =
    All-update (λ r. is_timely t (some run) none r ≡ true) (has_id seg.segment_id)
      (with_status status at) (λ r h. ground arith) rows

-- A discarded segment takes no more samples, whenever it would have ended.
pub AllTimely-discard :
    (now t : ℕ) (run : Option ActiveRun) (seg : ActiveTestSegment) (at : Option ℕ)
    (rows : List SegmentRow)
    → now ≤ t
    → AllTimely now run (some seg) rows
    → AllTimely t run none (
        update
          (has_id seg.segment_id)
          supersede
          (update (has_id seg.segment_id) (with_status SegmentStatus.discarded at) rows))
unfolding AllTimely
AllTimely-discard now t none seg at [] le h = tt
AllTimely-discard now t (some run) seg at [] le h = tt
AllTimely-discard now t none seg at (r ∷ rows) le h =
    (refl, AllTimely-discard now t none seg at rows le h.1)
AllTimely-discard now t (some run) seg at (r ∷ rows) le h =
    (ground (arith, h.0), AllTimely-discard now t (some run) seg at rows le h.1)

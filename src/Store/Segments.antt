-- ===== src/Store/Segments.antt =====
-- The statements of backend/store.py on TestSegments.
use network_backend_article.Base.{
  ℕ, String, Bool, true, false, not, ◌&&◌, ◌||◌, Option, none, some, List, [], ◌∷◌, ◌++◌, min, max,
  str_eq, leb, ltb, ◌==◌, if◌then◌else◌, filter, any, update, count, first, sort_by,
}
use network_backend_article.Base.Result.{Action, integrity_error, raise_if, modify, ◌>>◌}
use network_backend_article.Store.Tables.{Store, RunStatus, SegmentRow, SegmentStatus}
use network_backend_article.Store.Runs.{coalesce, is_running}

-- status IN ('stabilizing','recording')
abbrev pub is_open : SegmentStatus → Bool
is_open SegmentStatus.stabilizing = true
is_open SegmentStatus.recording = true
is_open _ = false

-- status NOT IN ('discarded', 'interrupted')
abbrev pub is_kept : SegmentStatus → Bool
is_kept SegmentStatus.discarded = false
is_kept SegmentStatus.interrupted = false
is_kept _ = true

-- The status update of `set_segment_status` on one row.
abbrev pub with_status : SegmentStatus → Option ℕ → SegmentRow → SegmentRow
with_status status actual_ended_at_ms r = record r {
  status = status;
  actual_ended_at_ms = coalesce actual_ended_at_ms r.actual_ended_at_ms;
}

abbrev pub interrupt : ℕ → SegmentRow → SegmentRow
interrupt ended_at_ms r = record r {
  status = SegmentStatus.interrupted;
  actual_ended_at_ms = some ended_at_ms;
}

abbrev pub truncate : ℕ → SegmentRow → SegmentRow
truncate ended_ms r = record r { recording_ended_at_ms = min r.recording_ended_at_ms ended_ms }

abbrev pub supersede : SegmentRow → SegmentRow
supersede r = record r { superseded = true }

abbrev pub has_id : String → SegmentRow → Bool
has_id segment_id r = str_eq r.segment_id segment_id

-- The WHERE clause of `segment_for_timestamp`, but for the run.
abbrev pub covers : ℕ → SegmentRow → Bool
covers server_ts_ms r =
    not r.superseded
    && is_kept r.status
    && leb r.recording_started_at_ms server_ts_ms
    && ltb server_ts_ms r.recording_ended_at_ms

-- `MAX(attempt_index)` over the rows of one point of one run, and 0 where there is none.
abbrev pub max_attempt : String → String → List SegmentRow → ℕ
max_attempt run_id point_id [] = 0
max_attempt run_id point_id (r ∷ rs) =
    if str_eq r.run_id run_id && str_eq r.point_id point_id
    then max r.attempt_index (max_attempt run_id point_id rs)
    else max_attempt run_id point_id rs

module _ {F : Type 0} where
  -- The two UPDATE statements, and their row counts (runs, segments).
  unfoldable pub mark_all_open_interrupted : ℕ → Store F → (ℕ × ℕ) × Store F
  mark_all_open_interrupted ended_at_ms s = (
    (count (λ r. is_running r.status) s.runs, count (λ r. is_open r.status) s.segments),
    record s {
      runs =
          update (λ r. is_running r.status)
            (λ r. record r { status = RunStatus.interrupted; ended_at_ms = some ended_at_ms })
            s.runs;
      segments = update (λ r. is_open r.status) (interrupt ended_at_ms) s.segments;
    },
  )

  unfoldable pub create_test_segment :
      String → String → String → ℕ → ℕ → ℕ → ℕ → ℕ → Option String → Action (Store F) Unit
  create_test_segment segment_id run_id point_id order_index attempt_index prepared_at_ms
        recording_started_at_ms recording_ended_at_ms note =
      (λ s. raise_if (any (has_id segment_id) s.segments) integrity_error s)
      >> modify λ s. record s {
        segments =
            s.segments
            ++ record {
              segment_id = segment_id;
              run_id = run_id;
              point_id = point_id;
              order_index = order_index;
              attempt_index = attempt_index;
              status = SegmentStatus.stabilizing;
              prepared_at_ms = prepared_at_ms;
              recording_started_at_ms = recording_started_at_ms;
              recording_ended_at_ms = recording_ended_at_ms;
              actual_ended_at_ms = none;
              superseded = false;
              note = note;
            }
              ∷ [];
      }

  unfoldable pub set_segment_status : String → SegmentStatus → Option ℕ → Store F → Store F
  set_segment_status segment_id status actual_ended_at_ms s = record s {
    segments = update (has_id segment_id) (with_status status actual_ended_at_ms) s.segments;
  }

  unfoldable pub supersede_segment : String → Store F → Store F
  supersede_segment segment_id s = record s {
    segments = update (has_id segment_id) supersede s.segments;
  }

  unfoldable pub truncate_segment_recording : String → ℕ → Store F → Store F
  truncate_segment_recording segment_id ended_ms s = record s {
    segments = update (has_id segment_id) (truncate ended_ms) s.segments;
  }

  unfoldable pub get_test_segment : String → Store F → Option SegmentRow
  get_test_segment segment_id s = first (filter (has_id segment_id) s.segments)

  unfoldable pub latest_attempt_index : String → String → Store F → ℕ
  latest_attempt_index run_id point_id s = max_attempt run_id point_id s.segments

  -- ORDER BY order_index, attempt_index
  unfoldable pub list_test_segments : String → Store F → List SegmentRow
  list_test_segments run_id s =
      sort_by
        (λ a b.
          ltb a.order_index b.order_index
          || (a.order_index == b.order_index && leb a.attempt_index b.attempt_index))
        (filter (λ r. str_eq r.run_id run_id) s.segments)

  -- ORDER BY recording_started_at_ms DESC LIMIT 1
  unfoldable pub segment_for_timestamp : String → ℕ → Store F → Option SegmentRow
  segment_for_timestamp run_id server_ts_ms s = first (
      sort_by (λ a b. leb b.recording_started_at_ms a.recording_started_at_ms)
        (filter (λ r. str_eq r.run_id run_id && covers server_ts_ms r) s.segments))

-- ===== src/Experiment/Windows/Invariant.antt =====
-- The invariant on Runs and TestSegments that holds between two requests.
use network_backend_article.Base.{
  ℕ, ◌≡◌, String, Bool, true, not, ◌&&◌, ◌||◌, Option, none, some, List, str_eq, leb, if◌then◌else◌,
  All, any,
}
use network_backend_article.Store.Tables.{SegmentRow, RunRow}
use network_backend_article.Store.Segments.{has_id}
use network_backend_article.Experiment.State.{Manager, ActiveRun, ActiveTestSegment}
use network_backend_article.Experiment.Windows.Order.{is_eligible, IsOrdered}

abbrev pub lists_run : List RunRow → String → Bool
lists_run runs id = any (λ q. str_eq q.run_id id) runs

-- An eligible row of the active Run has ended by `now`.
abbrev pub has_ended : ℕ → Option ActiveRun → SegmentRow → Bool
has_ended now none r = true
has_ended now (some run) r =
    not (is_eligible r) || not (str_eq r.run_id run.run_id) || leb r.recording_ended_at_ms now

-- The row of the active TestSegment is eligible, and ends when the manager says so at the latest.
abbrev pub is_timely : ℕ → Option ActiveRun → Option ActiveTestSegment → SegmentRow → Bool
is_timely now run none r = has_ended now run r
is_timely now run (some seg) r =
    if has_id seg.segment_id r
    then is_eligible r && leb r.recording_ended_at_ms seg.recording_ended_at_ms
    else has_ended now run r

unfoldable pub AllTimely :
    ℕ → Option ActiveRun → Option ActiveTestSegment → List SegmentRow → Type 0
AllTimely now run seg rows = All (λ r. is_timely now run seg r ≡ true) rows

unfoldable pub AllOwned : List RunRow → List SegmentRow → Type 0
AllOwned runs rows = All (λ r. lists_run runs r.run_id ≡ true) rows

unfoldable pub AllOrdered : List SegmentRow → Type 0
AllOrdered rows = IsOrdered rows

abbrev pub IsListed : List RunRow → Option ActiveRun → Type 0
IsListed runs none = Unit
IsListed runs (some run) = lists_run runs run.run_id ≡ true

pub record IsTimely {F : Type 0} (now : ℕ) (m : Manager F) : Type 0 where
  pub ordered : AllOrdered m.store.segments
  pub timely : AllTimely now m.active_run m.active_test_segment m.store.segments
  pub owned : AllOwned m.store.runs m.store.segments
  pub listed : IsListed m.store.runs m.active_run

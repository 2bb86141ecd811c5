-- ===== src/Store/Tests.antt =====
-- A store with a Run that was left open, and the theorem on it.
use network_backend_article.Base.{ℕ, none, [], ◌∷◌, ◌≡◌}
use network_backend_article.Store.Tables.{Store, RunStatus, empty}
use network_backend_article.Store.Runs.{list_open_runs}
use network_backend_article.Store.Segments.{mark_all_open_interrupted}
use network_backend_article.Store.Recovery.{mark_all_open_interrupted-settles}

abbrev left_open : Store ℕ
left_open = record (empty {F = ℕ}) {
  runs =
      record {
        run_id = "R";
        experiment_id = "E";
        direction = "forward";
        pass_index = 1;
        status = RunStatus.running;
        started_at_ms = 5;
        ended_at_ms = none;
        pre_offset_run_id = none;
        post_offset_run_id = none;
        note = none;
      }
      ∷ [];
}

mark_all_open_interrupted-settles_example :
    (list_open_runs "E" (mark_all_open_interrupted 9 left_open).1 ≡ [])
    × (mark_all_open_interrupted 12 (mark_all_open_interrupted 9 left_open).1
        ≡ ((0, 0), (mark_all_open_interrupted 9 left_open).1))
    × ((mark_all_open_interrupted 9 left_open).1.measurements ≡ left_open.measurements)
mark_all_open_interrupted-settles_example = mark_all_open_interrupted-settles "E" 9 12 left_open

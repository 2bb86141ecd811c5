-- ===== src/Store/Runs.antt =====
-- The statements of backend/store.py on experiments, OffsetRuns and Runs.
use network_backend_article.Base.{
  ℕ, String, Bool, true, false, ◌&&◌, Option, none, some, List, [], ◌∷◌, ◌++◌, str_eq, leb,
  if◌then◌else◌, filter, any, update, first, sort_by,
}
use network_backend_article.Base.Int.{ℤ}
use network_backend_article.Base.Result.{Action, integrity_error, raise_if, modify, ◌>>◌}
use network_backend_article.Store.Tables.{Store, ExperimentRow, OffsetRunRow, RunRow, RunStatus}

-- `COALESCE(?, column)`
abbrev pub coalesce {ℓ} : {A : Type ℓ} → Option A → Option A → Option A
coalesce none old = old
coalesce (some a) old = some a

-- The status tests of the WHERE clauses.
abbrev pub is_running : RunStatus → Bool
is_running RunStatus.running = true
is_running _ = false

abbrev pub is_completed : RunStatus → Bool
is_completed RunStatus.completed = true
is_completed _ = false

module _ {F : Type 0} where
  -- INSERT … ON CONFLICT(experiment_id) DO UPDATE: the start time of a known experiment stays.
  unfoldable pub create_experiment :
      String → ℕ → Option String → Option ℤ → Option String → Store F → Store F
  create_experiment experiment_id started_at_ms ap_bssid ap_channel note s = record s {
    experiments =
        (if any (λ r. str_eq r.experiment_id experiment_id) s.experiments
          then update (λ r. str_eq r.experiment_id experiment_id)
              (λ r. record r { ap_bssid = ap_bssid; ap_channel = ap_channel; note = note })
              s.experiments
          else s.experiments
            ++ record {
              experiment_id = experiment_id;
              started_at_ms = started_at_ms;
              ended_at_ms = none;
              ap_bssid = ap_bssid;
              ap_channel = ap_channel;
              note = note;
            }
              ∷ []);
  }

  unfoldable pub end_experiment : String → ℕ → Store F → Store F
  end_experiment experiment_id ended_at_ms s = record s {
    experiments =
        update (λ r. str_eq r.experiment_id experiment_id)
          (λ r. record r { ended_at_ms = some ended_at_ms }) s.experiments;
  }

  -- A second row with the same primary key raises `sqlite3.IntegrityError`.
  unfoldable pub create_run :
      String → String → String → ℕ → ℕ → Option String → Option String → Action (Store F) Unit
  create_run run_id experiment_id direction pass_index started_at_ms pre_offset_run_id note =
      (λ s. raise_if (any (λ r. str_eq r.run_id run_id) s.runs) integrity_error s)
      >> modify λ s. record s {
        runs =
            s.runs
            ++ record {
              run_id = run_id;
              experiment_id = experiment_id;
              direction = direction;
              pass_index = pass_index;
              status = RunStatus.running;
              started_at_ms = started_at_ms;
              ended_at_ms = none;
              pre_offset_run_id = pre_offset_run_id;
              post_offset_run_id = none;
              note = note;
            }
              ∷ [];
      }

  unfoldable pub set_run_offset_refs : String → Option String → Option String → Store F → Store F
  set_run_offset_refs run_id pre_offset_run_id post_offset_run_id s = record s {
    runs =
        update (λ r. str_eq r.run_id run_id)
          (λ r. record r {
            pre_offset_run_id = coalesce pre_offset_run_id r.pre_offset_run_id;
            post_offset_run_id = coalesce post_offset_run_id r.post_offset_run_id;
          })
          s.runs;
  }

  unfoldable pub set_run_status : String → RunStatus → Option ℕ → Store F → Store F
  set_run_status run_id status ended_at_ms s = record s {
    runs =
        update (λ r. str_eq r.run_id run_id)
          (λ r. record r { status = status; ended_at_ms = coalesce ended_at_ms r.ended_at_ms })
          s.runs;
  }

  unfoldable pub get_run : String → Store F → Option RunRow
  get_run run_id s = first (filter (λ r. str_eq r.run_id run_id) s.runs)

  -- ORDER BY started_at_ms
  unfoldable pub list_runs : String → Store F → List RunRow
  list_runs experiment_id s =
      sort_by (λ a b. leb a.started_at_ms b.started_at_ms)
        (filter (λ r. str_eq r.experiment_id experiment_id) s.runs)

  unfoldable pub list_open_runs : String → Store F → List RunRow
  list_open_runs experiment_id s =
      filter (λ r. str_eq r.experiment_id experiment_id && is_running r.status) s.runs

  unfoldable pub create_offset_run :
      String → String → String → ℕ → Option String → Action (Store F) Unit
  create_offset_run offset_run_id experiment_id phase started_at_ms note =
      (λ s.
        raise_if (any (λ r. str_eq r.offset_run_id offset_run_id) s.offset_runs) integrity_error s)
      >> modify λ s. record s {
        offset_runs =
            s.offset_runs
            ++ record {
              offset_run_id = offset_run_id;
              experiment_id = experiment_id;
              phase = phase;
              status = RunStatus.running;
              started_at_ms = started_at_ms;
              ended_at_ms = none;
              note = note;
            }
              ∷ [];
      }

  unfoldable pub set_offset_run_status : String → RunStatus → Option ℕ → Store F → Store F
  set_offset_run_status offset_run_id status ended_at_ms s = record s {
    offset_runs =
        update (λ r. str_eq r.offset_run_id offset_run_id)
          (λ r. record r { status = status; ended_at_ms = coalesce ended_at_ms r.ended_at_ms })
          s.offset_runs;
  }

  unfoldable pub list_offset_runs : String → Store F → List OffsetRunRow
  list_offset_runs experiment_id s =
      sort_by (λ a b. leb a.started_at_ms b.started_at_ms)
        (filter (λ r. str_eq r.experiment_id experiment_id) s.offset_runs)

  -- ORDER BY started_at_ms DESC LIMIT 1
  unfoldable pub latest_offset_run : String → String → Store F → Option OffsetRunRow
  latest_offset_run experiment_id phase s = first (
      sort_by (λ a b. leb b.started_at_ms a.started_at_ms)
        (filter
          (λ r.
            str_eq r.experiment_id experiment_id && str_eq r.phase phase && is_completed r.status)
          s.offset_runs))

unfoldable pub list_experiments : {F : Type 0} → Store F → List ExperimentRow
list_experiments s = sort_by (λ a b. leb b.started_at_ms a.started_at_ms) s.experiments

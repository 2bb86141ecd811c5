-- ===== src/Experiment/Requests.antt =====
-- The calls of the manager's methods as values, as the HTTP handlers and the background loop of
-- backend/main.py make them, and the restart of the process.
use network_backend_article.Base.{Bool, ℕ, String, Option, List, [], ◌∷◌, ◌++◌}
use network_backend_article.Base.Int.{ℤ}
use network_backend_article.Base.Result.{Result, ok, err}
use network_backend_article.Store.Tables.{Store, MeasurementRow}
use network_backend_article.Store.Points
use network_backend_article.Store.Measurements
use network_backend_article.Store.Segments.{mark_all_open_interrupted}
use network_backend_article.Experiment
use network_backend_article.Experiment.State.{Manager, init}

-- The numbers at the end of a request are its readings of the clock.
pub data Request : Type 0 where
  start_experiment : String → Option String → Option ℤ → Option String → ℕ → ℕ → Request
  end_experiment : ℕ → Request
  assign : String → String → String → ℕ → Request
  start_offset_run : String → Option String → ℕ → ℕ → ℕ → Request
  stop_offset_run : ℕ → Request
  start_run : String → ℤ → Option String → Option String → ℕ → Request
  attach_post_offset : String → Option String → Request
  end_run : ℕ → Request
  mark_run_interrupted : String → Request
  prepare_test_segment : String → ℤ → ℤ → ℤ → Option String → ℕ → Request
  finish_test_segment discard_test_segment auto_advance_segment restart : ℕ → Request

-- What is left of a call: its exception, if it raised one, and the state.
abbrev pub forget : {A : Type 0} → Result A → Result (Unit {0})
forget (ok _) = ok tt
forget (err e) = err e

abbrev pub outcome : {A F : Type 0} → Result A × Manager F → Result (Unit {0}) × Manager F
outcome x = (forget x.0, x.1)

-- The process starts anew on the same store (`lifespan`).
abbrev pub reboot : {F : Type 0} → ℕ → Manager F → Manager F
reboot now m = init (mark_all_open_interrupted now m.store).1

-- The writes of the other handlers and of the bridge to the store: they leave the Runs and the
-- TestSegments as they are, and the manager's own fields.
pub data Write (F : Type 0) : Type 0 where
  upsert_point :
      String → String → Option String → Option F → Option F → Option F → Option String → ℕ → Write F
  upsert_device_offset : String → String → String → Option F → Option F → ℕ → Option F → ℕ → Write F
  upsert_tx :
      String
      → String
      → Option F
      → Option F
      → Option F
      → Option ℤ
      → Option String
      → Option ℤ
      → Option String
      → Write F
  append_jsonl : Bool → String → String → ℕ → Option String → Option String → Write F
  append_measurements : List (MeasurementRow F) → Write F

module _ {F : Type 0} where
  unfoldable pub write : Write F → Store F → Store F
  unfolding Points.upsert_point Points.upsert_device_offset Points.upsert_tx
      Measurements.append_jsonl
  write (upsert_point exp id role x y z memo t) s = Points.upsert_point exp id role x y z memo t s
  write (upsert_device_offset run node exp median offset n std t) s =
      Points.upsert_device_offset run node exp median offset n std t s
  write (upsert_tx exp id x y z frequency bssid channel memo) s =
      Points.upsert_tx exp id x y z frequency bssid channel memo s
  write (append_jsonl written topic text t run point) s =
      Measurements.append_jsonl written topic text t run point s
  write (append_measurements rows) s = record s { measurements = s.measurements ++ rows }

  abbrev pub write_in : Write F → Manager F → Manager F
  write_in w m = record m { store = write w m.store }

  unfoldable pub perform : Request → Manager F → Result (Unit {0}) × Manager F
  perform (Request.start_experiment id bssid channel note t t') m =
      outcome (Experiment.start_experiment id bssid channel note t t' m)
  perform (Request.end_experiment t) m = outcome (Experiment.end_experiment t m)
  perform (Request.assign node point role t) m = outcome (Experiment.assign node point role t m)
  perform (Request.start_offset_run phase note t t' t'') m =
      outcome (Experiment.start_offset_run phase note t t' t'' m)
  perform (Request.stop_offset_run t) m = outcome (Experiment.stop_offset_run t m)
  perform (Request.start_run direction pass pre note t) m =
      outcome (Experiment.start_run direction pass pre note t m)
  perform (Request.attach_post_offset post run) m =
      outcome (Experiment.attach_post_offset post run m)
  perform (Request.end_run t) m = outcome (Experiment.end_run t m)
  perform (Request.mark_run_interrupted run) m = outcome (Experiment.mark_run_interrupted run m)
  perform (Request.prepare_test_segment point order stabilization recording note t) m =
      outcome (Experiment.prepare_test_segment point order stabilization recording note t m)
  perform (Request.finish_test_segment t) m = outcome (Experiment.finish_test_segment t m)
  perform (Request.discard_test_segment t) m = outcome (Experiment.discard_test_segment t m)
  perform (Request.auto_advance_segment t) m = outcome (Experiment.auto_advance_segment t m)
  perform (Request.restart t) m = (ok tt, reboot t m)

  -- Requests in turn; an exception ends only its own request.
  unfoldable pub serve : List Request → Manager F → Manager F
  serve [] m = m
  serve (r ∷ rs) m = serve rs (perform r m).1

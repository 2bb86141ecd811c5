-- ===== src/Service/Analysis.antt =====
-- The handlers of backend/main.py that compute device offsets and export an experiment.
use network_backend_article.Base.{ℕ, String, Option, none, some, if◌then◌else◌}
use network_backend_article.Base.Int.{ℤ, pos_part, eqb_ℤ, pos}
use network_backend_article.Base.Result.{Action, Result, ◌>>=◌}
use network_backend_article.Experiment.State.{Manager}
use network_backend_article.Experiment.Offsets.{OffsetAnswer, compute_device_offsets}
use network_backend_article.Export.Statistics.{Statistics}
use network_backend_article.Export.Bundle.{Bundle, export_experiment}
use network_backend_article.Service.{OffsetCompute, require_experiment, offsets_target}

-- The body and its `expected_samples` may be missing; 0 counts as missing.
abbrev pub expected_or : Option ℤ → ℕ → ℕ
expected_or none setting = setting
expected_or (some n) setting = if eqb_ℤ n (pos 0) then setting else pos_part n

module _ (st : Statistics) (number_of : String → Result (Option ℕ)) where
  open st use {Float}

  abbrev compute_in : String → String → ℕ → Action (Manager Float) (OffsetAnswer Float)
  compute_in exp offset_run_id now m =
      let (answer, store) = compute_device_offsets st exp offset_run_id now m.store in
      (answer, record m { store = store })

  unfoldable pub experiment_offsets :
      Option OffsetCompute → ℕ → Action (Manager Float) (OffsetAnswer Float)
  unfolding offsets_target require_experiment compute_device_offsets
  experiment_offsets body now = offsets_target body >>= λ offset_run_id.
      require_experiment >>= λ exp. compute_in exp offset_run_id now

  -- A negative number of expected samples finds no count low, as 0 does.
  unfoldable pub experiment_export : Option ℤ → ℕ → ℕ → ℕ → Action (Manager Float) (Bundle Float)
  unfolding require_experiment export_experiment
  experiment_export expected recording_seconds test_points calibration_nodes =
      require_experiment >>= λ exp. λ m. (
        export_experiment st number_of exp (expected_or expected recording_seconds) test_points
            calibration_nodes m.store,
        m,
      )

-- ===== src/Store/Migration/Tests.antt =====
-- A database file of version 0 and its migration (backend/store.py).
use network_backend_article.Base.{ℕ, ◌≡◌, refl, true, some, none, [], ◌∷◌}
use network_backend_article.Base.Result.{ok}
use network_backend_article.Store.Migration.{File, OldOffset, by_experiment, migrate}
use network_backend_article.Store.Migration.Current.{is_current, node_rows, migrate-is_current}

abbrev offset : OldOffset ℕ
offset = record {
  experiment_id = "E";
  node_id = "c1";
  offset_median_dbm = some 60;
  device_offset_db = some 1;
  sample_count = 5;
  std_db = none;
  calibrated_at_ms = 3;
}

abbrev first_file : File ℕ
first_file = record {
  user_version = 0;
  measurement = "experiment_id" ∷ "node_id" ∷ [];
  experiment_run = "run_id" ∷ "experiment_id" ∷ [];
  device_offset = by_experiment (offset ∷ []);
  device_offset_old = none;
  indexes = [];
}

first_file-migrated : (migrate first_file).0 ≡ ok tt
unfolding migrate
first_file-migrated = refl

migrate-is_current_example :
    (is_current (migrate first_file).1 ≡ true)
    × (node_rows (migrate first_file).1.device_offset ≡ node_rows first_file.device_offset)
    × (migrate (migrate first_file).1 ≡ (ok tt, (migrate first_file).1))
migrate-is_current_example = migrate-is_current first_file refl first_file-migrated

-- ===== src/Experiment/Offsets/Tests.antt =====
-- The offsets of a post measurement beside those of a pre measurement (backend/experiment.py).
use network_backend_article.Base.{ℕ, ◌≡◌, refl, true, none, some, [], ◌∷◌}
use network_backend_article.Base.Int.{pos}
use network_backend_article.Store.Tables.{Store, MeasurementRow, empty}
use network_backend_article.Store.Points.{upsert_device_offset, list_device_offsets}
use network_backend_article.Experiment.Offsets.{compute_device_offsets}
use network_backend_article.Experiment.Offsets.Kept.{compute_device_offsets-kept}
use network_backend_article.Samples.{numbers}

abbrev post_sample : ℕ → MeasurementRow ℕ
post_sample value = record {
  experiment_id = "E";
  session_id = "";
  run_id = some "post";
  segment_id = none;
  point_id = "offset-00";
  point_role = "offset";
  node_id = "c1";
  node_ts_ms = none;
  server_ts_ms = value;
  seq = none;
  rssi_raw_dbm = none;
  rssi_filtered_dbm = some value;
  sample_count = none;
  error_flags = pos 0;
  ap_bssid = none;
  ap_channel = none;
  valid = true;
  invalid_reason = none;
}

abbrev measured : Store ℕ
measured =
    upsert_device_offset "pre" "c1" "E" (some 60) (some 1) 5 none 3
      (record empty { measurements = post_sample 62 ∷ post_sample 64 ∷ [] })

compute_device_offsets-kept_example :
    list_device_offsets "pre" (compute_device_offsets numbers "E" "post" 9 measured).1
    ≡ list_device_offsets "pre" measured
compute_device_offsets-kept_example =
    compute_device_offsets-kept numbers "E" "post" "pre" 9 measured refl

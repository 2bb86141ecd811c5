-- ===== src/Parsing/Tests.antt =====
-- Payloads of backend/parsing.py, and the theorems on them.
use network_backend_article.Base.{◌≡◌, refl, ◌↔◌, ◌||◌, ◌&&◌, not, true, Option, none, some, arith}
use network_backend_article.Base.Int.{ℤ, pos, negsuc, ◌-ℤ◌, ◌+ℤ◌, ◌≤ℤ◌, abs}
use network_backend_article.Base.Result.{ok}
use network_backend_article.Base.Python.{Fields, end, field, int, str, null, has_key, get}
use network_backend_article.Samples.{python}
use network_backend_article.Parsing.{
  ParseConfig, Measurement, parse_measurement, parse_known, read_identity, read_float, read_int,
  build,
}
use network_backend_article.Parsing.Laws.{
  is_clean, parse-verdict, parse-timestamp, is_refused, is_converted, is_misnumbered, parse-none,
}

abbrev limits : ParseConfig (Option ℤ)
limits = record {
  rssi_min = some (negsuc 99);
  rssi_max = some (pos 0);
  timestamp_max_skew_ms = pos 1000;
  rssi_filtered_scale = some (pos 1);
}

abbrev payload : Fields (Option ℤ)
payload =
    field "node_id" (str "n1")
      (field "timestamp" (int (pos 5000)) (field "rssi" (int (negsuc 59)) end))

-- The clock of the node is off by four seconds.
abbrev parsed : Measurement (Option ℤ)
parsed = record {
  node_id = "n1";
  timestamp = pos 9000;
  ap_bssid = null;
  ap_channel = none;
  rssi = some (negsuc 59);
  rssi_filtered = some (some (negsuc 59));
  rssi_raw = none;
  sample_count = none;
  seq = none;
  status = pos 0;
  valid = true;
  invalid_reason = none;
  pos_x = none;
  pos_y = none;
  pos_z = none;
  rot_w = none;
  rot_x = none;
  rot_y = none;
  rot_z = none;
}

payload-parsed : parse_measurement python payload 9000 limits ≡ ok (some parsed)
unfolding parse_measurement parse_known build read_identity read_float read_int ◌-ℤ◌ ◌+ℤ◌
payload-parsed = refl

-- A node and a time are known, and `seq` is no number.
abbrev bad_seq : Fields (Option ℤ)
bad_seq =
    field "node_id" (str "n1") (field "timestamp" (int (pos 5000)) (field "seq" (str "x") end))

parse-verdict_example :
    (parsed.valid ≡ is_clean python limits parsed.rssi_filtered parsed.status)
    × ((parsed.valid ≡ true) ↔ (parsed.invalid_reason ≡ none))
parse-verdict_example = parse-verdict python payload 9000 limits parsed payload-parsed

parse-timestamp_example : pos (abs (pos 9000 -ℤ parsed.timestamp)) ≤ℤ limits.timestamp_max_skew_ms
parse-timestamp_example =
    parse-timestamp python payload 9000 limits parsed (omega arith) payload-parsed

parse-none_example : (parse_measurement python bad_seq 9000 limits ≡ ok none) ↔ (
    (not (has_key "node_id" bad_seq && has_key "timestamp" bad_seq)
      || is_refused python (python.int_of (get "timestamp" bad_seq))
      || is_converted python (python.int_of (get "timestamp" bad_seq))
        && is_misnumbered python bad_seq)
    ≡ true)
parse-none_example = parse-none python bad_seq 9000 limits

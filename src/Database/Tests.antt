-- ===== src/Database/Tests.antt =====
-- A queue of raw samples (backend/database.py), and the theorems on it.
use network_backend_article.Base.{
  ℕ, ◌≡◌, refl, true, false, none, some, List, [], ◌∷◌, ◌++◌, map, arith,
}
use network_backend_article.Base.Int.{pos}
use network_backend_article.Base.Python.{null}
use network_backend_article.Parsing.{Measurement}
use network_backend_article.Metrics
use network_backend_article.Database.{Database, enqueue_raw, raw_row, flush_raw}
use network_backend_article.Database.Queue.{
  Step, enqueued, flushed, closed, steps, pending, IsCounted, steps-IsCounted,
}
use network_backend_article.Database.Drain.{
  accepted, all_rows, steps-accepted, rounds, rounds-drain,
}

abbrev measurement : Measurement ℕ
measurement = record {
  node_id = "n1";
  timestamp = pos 5;
  ap_bssid = null;
  ap_channel = none;
  rssi = some (pos 1);
  rssi_filtered = none;
  rssi_raw = none;
  sample_count = none;
  seq = some (pos 7);
  status = pos 0;
  valid = true;
  invalid_reason = none;
  pos_x = none;
  pos_y = none;
  pos_z = none;
  rot_w = none;
  rot_x = none;
  rot_y = none;
  rot_z = none;
}

abbrev new : Database ℕ
new = record {
  connected = true;
  raw_queue = some [];
  tables = record { rssi_raw = []; frames = []; node_status = []; node_meta = [] };
  metrics = Metrics.init;
}

abbrev outage : List (Step ℕ)
outage =
    enqueued (measurement, 1)
    ∷ flushed false
    ∷ enqueued (measurement, 2)
    ∷ flushed true
    ∷ closed
    ∷ []

steps-IsCounted_example : IsCounted 0 (steps outage new)
steps-IsCounted_example =
    steps-IsCounted 0 outage new (record { room = omega arith; count = omega arith })

abbrev day : List (Step ℕ)
day = enqueued (measurement, 1) ∷ flushed true ∷ enqueued (measurement, 2) ∷ []

steps-accepted_example : all_rows (steps day new) ≡ all_rows new ++ map raw_row (accepted day new)
steps-accepted_example = steps-accepted day new refl (refl, (refl, (refl, tt)))

day-accepted : accepted day new ≡ (measurement, 1) ∷ (measurement, 2) ∷ []
unfolding accepted enqueue_raw flush_raw
day-accepted = refl

abbrev filled : Database ℕ
filled = record new { raw_queue = some ((measurement, 1) ∷ (measurement, 2) ∷ []) }

rounds-drain_example :
    (pending (rounds 1 filled) ≡ []) × ((rounds 1 filled).tables.rssi_raw ≡ all_rows filled)
rounds-drain_example = rounds-drain 1 filled refl (omega arith)

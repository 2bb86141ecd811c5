-- ===== src/Service/Loops/Tests.antt =====
-- A round of `flush_windows` in which the server refuses the second frame.
use network_backend_article.Base.{ℕ, ◌≡◌, refl, Bool, true, none, some, [], ◌∷◌}
use network_backend_article.Base.Int.{pos, ltb_ℤ, ◌-ℤ◌, mod_ℤ}
use network_backend_article.Base.Python.{null}
use network_backend_article.Base.Result.{err, driver_error}
use network_backend_article.Registry
use network_backend_article.Metrics
use network_backend_article.Realtime.Window.{
  Buffer, Frame, Sample, add, init, bucket_of, pop_ready, emit_ready, ready_before,
}
use network_backend_article.Database.{insert_frame}
use network_backend_article.Service.Loops.{Live, flush_round, send_frames}

abbrev sample : ℕ → Sample ℕ
sample ts = record {
  node_id = "n1";
  timestamp = some (pos ts);
  rssi = none;
  ap_bssid = null;
  seq = none;
  position = (none, none, none);
  rotation = (none, none, none, none);
}

abbrev buffer : Buffer ℕ
buffer = (add (sample 250) 260 (add (sample 10) 20 (init 200 none none)).1).1

abbrev live : Live ℕ
live = record {
  window_buffer = buffer;
  registry = Registry.init 3000;
  hub = record { clients = 1 ∷ 2 ∷ [] };
  database = record {
    connected = true;
    raw_queue = none;
    tables = record { rssi_raw = []; frames = []; node_status = []; node_meta = [] };
    metrics = Metrics.init;
  };
}

abbrev early : Frame ℕ → Bool
early f = ltb_ℤ f.window_ts (pos 100)

second_frame-refused : (flush_round (λ c. true) [] early 5000 live).0 ≡ err driver_error
unfolding flush_round send_frames insert_frame add bucket_of ◌-ℤ◌ mod_ℤ pop_ready emit_ready
    ready_before Registry.known_nodes
second_frame-refused = refl

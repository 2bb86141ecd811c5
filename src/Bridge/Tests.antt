-- ===== src/Bridge/Tests.antt =====
-- Messages of backend/mqtt_bridge.py, and the theorems on them.
use network_backend_article.Base.{
  ◌+◌, ◌≡◌, refl, String, true, false, Option, none, some, [], ◌∷◌, ◌++◌,
}
use network_backend_article.Base.Int.{ℤ, pos, negsuc}
use network_backend_article.Base.Result.{ok}
use network_backend_article.Base.Python.{Items, null, obj, nil, cons, end}
use network_backend_article.Samples.{python}
use network_backend_article.Store.Tables.{empty}
use network_backend_article.Experiment.State.{init}
use network_backend_article.Parsing.{ParseConfig, parse_measurement}
use network_backend_article.Registry
use network_backend_article.Metrics
use network_backend_article.Metrics.{DropRate, drop_rate}
use network_backend_article.Bridge.{Bridge, Services, handle_message, take_reading, readings_loop}
use network_backend_article.Bridge.Topic.{is_lwt}
use network_backend_article.Bridge.Raw.{lines, raw_line, handle_message-keeps_raw}
use network_backend_article.Bridge.Counters.{
  handled, size, readings_loop-handles_each, take_reading-drop_total,
}

abbrev limits : ParseConfig (Option ℤ)
limits = record {
  rssi_min = some (negsuc 99);
  rssi_max = some (pos 0);
  timestamp_max_skew_ms = pos 1000;
  rssi_filtered_scale = some (pos 1);
}

-- The payload is its text, and none of it is JSON.
abbrev services : Services (Option ℤ)
services = record {
  Payload = String;
  decode_replace = λ s. s;
  loads = λ _. ok none;
  appends = true;
  upsert = λ _. ok tt;
}

abbrev idle : Bridge (Option ℤ)
idle = record {
  manager = init empty;
  registry = Registry.init 5000;
  window_buffer = none;
  metrics = Metrics.init;
  calls = [];
}

rssi-direct : is_lwt "rssi/n1" ≡ false
unfolding is_lwt
rssi-direct = refl

handle_message-keeps_raw_example :
    lines (handle_message python services limits 100 100 "rssi/n1" "broken" idle).1
    ≡ lines idle ++ raw_line "rssi/n1" "broken" 100 idle ∷ []
handle_message-keeps_raw_example =
    handle_message-keeps_raw python services limits 100 100 "rssi/n1" "broken" idle rssi-direct

abbrev readings : Items (Option ℤ)
readings = cons null (cons (obj end) nil)

readings-ok : (readings_loop python services limits 100 100 null readings idle).0 ≡ ok tt
unfolding readings_loop take_reading parse_measurement
readings-ok = refl

readings_loop-handles_each_example :
    handled (readings_loop python services limits 100 100 null readings idle).1
    ≡ handled idle + size readings
readings_loop-handles_each_example =
    readings_loop-handles_each python services limits 100 100 null readings idle tt readings-ok

end-refused : parse_measurement python end 100 limits ≡ ok none
unfolding parse_measurement
end-refused = refl

take_reading-drop_total_example :
    drop_rate (take_reading python services limits 100 100 end idle).1.metrics
    ≡ record { dropped = 1; total = 2 }
take_reading-drop_total_example =
    take_reading-drop_total python services limits 100 100 end idle end-refused

-- ===== src/Bridge/Connection.antt =====
-- The broker connection of `MqttBridge` (backend/mqtt_bridge.py).
use network_backend_article.Base.{
  ℕ, ◌+◌, String, Bool, true, false, Option, none, some, List, [], ◌∷◌, ◌++◌,
}

-- `subscriptions` are the calls of `client.subscribe`.
pub record Connection : Type 0 where
  pub connected : Bool
  pub connect_count : ℕ
  pub disconnect_count : ℕ
  pub last_connected_ms : Option ℕ
  pub last_disconnected_ms : Option ℕ
  pub subscriptions : List String

abbrev pub init : Connection
init = record {
  connected = false;
  connect_count = 0;
  disconnect_count = 0;
  last_connected_ms = none;
  last_disconnected_ms = none;
  subscriptions = [];
}

abbrev pub on_connect : ℕ → Connection → Connection
on_connect now c = record c {
  connected = true;
  connect_count = c.connect_count + 1;
  last_connected_ms = some now;
  subscriptions = c.subscriptions ++ "rssi/#" ∷ "gateway/#" ∷ "status/+/lwt" ∷ [];
}

abbrev pub on_disconnect : ℕ → Connection → Connection
on_disconnect now c = record c {
  connected = false;
  disconnect_count = c.disconnect_count + 1;
  last_disconnected_ms = some now;
}

-- ===== src/Service/Hub.antt =====
-- `WebSocketHub` of backend/realtime/ws.py. A client is a number;
-- sending to it may fail, which the caller of the model decides. The set of
-- clients is a list whose order means nothing.
mod Tests
pub mod Broadcast
use network_backend_article.Base.{ℕ, Bool, not, List, [], ◌∷◌, filter, any, ◌==◌, if◌then◌else◌}

pub record WebSocketHub : Type 0 where
  pub clients : List ℕ

abbrev pub connect : ℕ → WebSocketHub → WebSocketHub
connect client h =
    if any (λ c. c == client) h.clients then h else record { clients = client ∷ h.clients }

abbrev pub disconnect : ℕ → WebSocketHub → WebSocketHub
disconnect client h = record { clients = filter (λ c. not (c == client)) h.clients }

unfoldable pub disconnect_each : List ℕ → WebSocketHub → WebSocketHub
disconnect_each [] h = h
disconnect_each (c ∷ cs) h = disconnect_each cs (disconnect c h)

-- What other tasks do to the hub while a broadcast waits for its sends.
pub data Change : Type 0 where
  connects disconnects : ℕ → Change

abbrev pub change : Change → WebSocketHub → WebSocketHub
change (connects c) h = connect c h
change (disconnects c) h = disconnect c h

unfoldable pub change_each : List Change → WebSocketHub → WebSocketHub
change_each [] h = h
change_each (c ∷ cs) h = change_each cs (change c h)

-- The text goes to the clients of the start, one by one, while others come and go. Those that did
-- not take it leave the hub as it is then. The first result are the clients that took it.
unfoldable pub broadcast : (ℕ → Bool) → List Change → WebSocketHub → List ℕ × WebSocketHub
unfolding disconnect_each change_each
broadcast accepts meanwhile h = (
  filter accepts h.clients,
  disconnect_each (filter (λ c. not (accepts c)) h.clients) (change_each meanwhile h),
)

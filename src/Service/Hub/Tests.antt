-- ===== src/Service/Hub/Tests.antt =====
-- A broadcast to three clients, of which one is gone and one more comes (backend/realtime/ws.py).
use network_backend_article.Base.{ℕ, ◌≡◌, Bool, not, ◌&&◌, List, [], ◌∷◌, ◌==◌}
use network_backend_article.Service.Hub.{WebSocketHub, Change, connects, change_each, broadcast}
use network_backend_article.Service.Hub.Broadcast.{is_client, broadcast-is_client}

abbrev hub : WebSocketHub
hub = record { clients = 1 ∷ 2 ∷ 3 ∷ [] }

abbrev is_there : ℕ → Bool
is_there c = not (c == 2)

abbrev one_comes : List Change
one_comes = connects 4 ∷ []

broadcast-is_client_example :
    is_client 4 (broadcast is_there one_comes hub).1
    ≡ (is_client 4 (change_each one_comes hub) && not (is_client 4 hub && not (is_there 4)))
broadcast-is_client_example = broadcast-is_client is_there one_comes hub 4

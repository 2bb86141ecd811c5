-- ===== src/Store/Points/Tests.antt =====
-- A node that is assigned twice (backend/store.py).
use network_backend_article.Base.{ℕ, ◌≡◌}
use network_backend_article.Store.Tables.{Store, empty}
use network_backend_article.Store.Points.{upsert_assignment}
use network_backend_article.Store.Points.Lookup.{assigned, assignment, put, upsert_assignment-put}

abbrev first_store : Store ℕ
first_store = upsert_assignment "E" "t1" "P1" "test" 1 empty

upsert_assignment-put_example :
    assigned (upsert_assignment "E" "t1" "P2" "test" 2 first_store) "E" "t1"
    ≡ put (assignment "E" "t1" "P2" "test" 2) (assigned first_store) "E" "t1"
upsert_assignment-put_example = upsert_assignment-put "E" "t1" "P2" "test" 2 first_store "E" "t1"

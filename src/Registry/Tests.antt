-- ===== src/Registry/Tests.antt =====
-- A node whose messages 6 and 7 are lost, and the theorem on it.
use network_backend_article.Base.{ℕ, some, List, [], ◌∷◌, ◌≡◌, refl, arith, length}
use network_backend_article.Base.Int.{ℤ, pos, ◌+ℤ◌, ◌-ℤ◌}
use network_backend_article.Base.Dict.{lookup}
use network_backend_article.Registry.{NodeRegistry, init, status_of, mark_seen, next_seq}
use network_backend_article.Registry.Lost.{mark_all, newest, mark_all-counts_lost}

abbrev seen_once : NodeRegistry
seen_once = (mark_seen "n1" (some (pos 5)) 100 (init 5000)).2

abbrev later : List (ℤ × ℕ)
later = (pos 8, 200) ∷ (pos 9, 300) ∷ []

seen_once-filed : (status_of "n1" seen_once).node_id ≡ "n1"
unfolding mark_seen
seen_once-filed = refl

seen_once-known : lookup "n1" seen_once.last_seq ≡ some (pos 5)
unfolding mark_seen next_seq
seen_once-known = refl

mark_all-counts_lost_example :
    (status_of "n1" (mark_all "n1" later seen_once)).lost_packets +ℤ pos (length later)
    ≡ (status_of "n1" seen_once).lost_packets +ℤ (newest (pos 5) later -ℤ pos 5)
mark_all-counts_lost_example =
    mark_all-counts_lost "n1" (pos 5) later seen_once seen_once-filed seen_once-known
      (omega arith, (omega arith, tt))

-- ===== src/Service/Hub/Broadcast.antt =====
-- Who is a client after a broadcast (backend/realtime/ws.py).
use network_backend_article.Base.{
  ℕ, ◌≡◌, refl, ◌∙◌, Bool, false, not, ◌&&◌, List, [], ◌∷◌, arith, filter, any, ◌==◌, inl, inr,
  Bool-cases,
}
use network_backend_article.Service.Hub.{
  WebSocketHub, Change, disconnect, disconnect_each, change_each, broadcast,
}

abbrev pub is_among : List ℕ → ℕ → Bool
is_among js c = any (λ j. j == c) js

abbrev pub is_client : ℕ → WebSocketHub → Bool
is_client c h = is_among h.clients c

-- A test of the value itself can be asked behind the search.
is_among-filter :
    (p : ℕ → Bool) (c : ℕ) (cs : List ℕ) → is_among (filter p cs) c ≡ (is_among cs c && p c)
is_among-filter p c [] = refl
is_among-filter p c (d ∷ cs) = elim (Bool-cases (d == c)) [
  | inr e ↦ elim (Bool-cases (p d)) [
    | inl t ↦ rw (t, e) (is_among-filter p c cs)
    | inr f ↦ rw (f, e) (is_among-filter p c cs)
  ]
  | inl e ↦ found (is_among-filter p c cs) (ground arith)
]
  where
    found :
        is_among (filter p cs) c ≡ (is_among cs c && p c)
        → d ≡ c
        → is_among (filter p (d ∷ cs)) c ≡ (is_among (d ∷ cs) c && p c)
    found ih same = elim (Bool-cases (p d)) [
      | inl t ↦ rw (t, ← same, t) (ground arith)
      | inr f ↦ let g : p c ≡ false = rw same at f in rw (f, g) (ground (arith, ih, g))
    ]

disconnect_each-is_client :
    (js : List ℕ) (h : WebSocketHub) (c : ℕ)
    → is_client c (disconnect_each js h) ≡ (is_client c h && not (is_among js c))
unfolding disconnect_each
disconnect_each-is_client [] h c = ground arith
disconnect_each-is_client (j ∷ js) h c =
    disconnect_each-is_client js (disconnect j h) c
    ∙ rw (is_among-filter (λ d. not (d == j)) c h.clients) (ground (arith, same_test))
  where
    same_test : (c == j) ≡ (j == c)
    same_test = ground arith

-- Whoever comes and goes during the sends: after a broadcast a client is connected exactly if that
-- leaves it connected and it is not one of the clients of the start that did not take the text.
pub broadcast-is_client :
    (accepts : ℕ → Bool) (meanwhile : List Change) (h : WebSocketHub) (c : ℕ)
    → is_client c (broadcast accepts meanwhile h).1
      ≡ (is_client c (change_each meanwhile h) && not (is_client c h && not (accepts c)))
unfolding broadcast
broadcast-is_client accepts meanwhile h c =
    disconnect_each-is_client (filter (λ d. not (accepts d)) h.clients) (change_each meanwhile h) c
    ∙ rw (is_among-filter (λ d. not (accepts d)) c h.clients) refl

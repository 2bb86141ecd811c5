-- ===== src/Relay/Producer/Stream.antt =====
-- A connection that carries frames and then ends (image_relay/server.py).
use network_backend_article.Base.{
  ℕ, zero, suc, ◌-◌, ◌<◌, ◌≡◌, refl, sym, ap, ◌∙◌, Bool, true, false, Option, none, some, List, [],
  ◌∷◌, ◌++◌, length, arith, ltb, if◌then◌else◌, All, choose_by,
}
use network_backend_article.Base.Result.{Result, ok}
use network_backend_article.Relay.Protocol.{
  Frame, Socket, encode_frame, raw, read_frame, read_exactly, from_header, header_size, fill,
  is_empty, max_frame_bytes,
}
use network_backend_article.Relay.Protocol.Stream.{IsSocket}
use network_backend_article.Relay.Protocol.RoundTrip.{read_frame-encode_frame}
use network_backend_article.Relay.Viewers.{RelayServer, relay_frame}
use network_backend_article.Relay.Producer.{handle_read, publish_raw, relay_loop}

-- A frame with the bytes that `encode_frame` makes of it.
abbrev pub IsEncoded : Frame × List ℕ → Type 0
IsEncoded (f, bytes) = encode_frame f.payload f.seq (some f.ts_ms) f.flags 0 ≡ ok bytes

abbrev pub joined : List (Frame × List ℕ) → List ℕ
joined [] = []
joined ((f, bytes) ∷ fs) = bytes ++ joined fs

-- Each frame is relayed, with its own bytes, in order.
unfoldable pub relay_all : List (Frame × List ℕ) → RelayServer → RelayServer
relay_all [] r = r
relay_all ((f, bytes) ∷ fs) r = relay_all fs (relay_frame f bytes r)

encoded-raw : (f : Frame) (bytes : List ℕ) → IsEncoded (f, bytes) → raw f ≡ ok bytes
unfolding encode_frame
encoded-raw f bytes e =
    choose_by {A = Result (List ℕ)} (λ r. r ≡ ok bytes → raw f ≡ ok bytes)
      (ltb max_frame_bytes (length f.payload)) _ _ (λ p q. ground arith) (λ p q. q) e

nothing_left : (c rest : List ℕ) → [] ≡ c ++ rest → (c ≡ []) × (rest ≡ [])
nothing_left [] rest e = (refl, sym e)
nothing_left (b ∷ c) rest e = ground arith

module _ (socket : Socket) (laws : IsSocket socket) where
  open socket use {State, to_come, recv}

  abbrev Ended : Option (List ℕ) × State → Type 0
  Ended r = (r.0 ≡ some []) × (to_come r.1 ≡ [])

  fill-Ended :
      (fuel n : ℕ) (s : State) → 0 < n → to_come s ≡ [] → Ended (fill socket (suc fuel) n [] s)
  unfolding fill
  fill-Ended fuel n s more e =
      let (c, left) =
        nothing_left (recv (n - 0) s).0 (to_come (recv (n - 0) s).1)
          (sym e ∙ laws.in_order (n - 0) s) in
      let empty = ap is_empty c in
      let next = fill socket fuel n (recv (n - 0) s).0 (recv (n - 0) s).1 in
      choose_by {A = Option (List ℕ) × State} Ended (ltb 0 n)
        (if is_empty (recv (n - 0) s).0 then (some [], (recv (n - 0) s).1) else next) (some [], s)
        (λ p.
          choose_by {A = Option (List ℕ) × State} Ended (is_empty (recv (n - 0) s).0)
            (some [], (recv (n - 0) s).1) next (λ q. (refl, left)) (λ q. ground arith))
        (λ p. (refl, e))

  read_exactly-Ended : (s : State) → to_come s ≡ [] → Ended (read_exactly socket header_size s)
  unfolding read_exactly
  read_exactly-Ended s e = fill-Ended 22 22 s (omega arith) e

  from_header-end :
      (r : Option (List ℕ) × State) → Ended r → (from_header socket r).0 ≡ some (ok none)
  from_header-end (none, s) (e, left) = ground arith
  from_header-end (some [], s) (e, left) = refl
  from_header-end (some (b ∷ bytes), s) (e, left) = ground arith

  read_frame-end : (s : State) → to_come s ≡ [] → (read_frame socket s).0 ≡ some (ok none)
  unfolding read_frame
  read_frame-end s e = from_header-end (read_exactly socket header_size s) (read_exactly-Ended s e)

  -- What the loop does behind a read.
  abbrev after : ℕ → State → Bool × RelayServer → RelayServer × State
  after fuel s handled = elim handled.0 [
    | false ↦ (handled.1, (read_frame socket s).1)
    | true ↦ relay_loop socket fuel (read_frame socket s).1 handled.1
  ]

  -- A stream of encoded frames that then ends is relayed frame by frame, each with its own bytes
  -- and in their order, by the loop on any fuel above the number of frames.
  pub relay_loop-relay_all :
      (fs : List (Frame × List ℕ)) (fuel : ℕ) (s : State) (r : RelayServer)
      → length fs < fuel
      → All IsEncoded fs
      → to_come s ≡ joined fs
      → (relay_loop socket fuel s r).0 ≡ relay_all fs r
  unfolding relay_loop relay_all
  relay_loop-relay_all fs zero s r enough h e = ground arith
  relay_loop-relay_all [] (suc fuel) s r enough h e =
      ap (λ o. (after fuel s (handle_read socket o r)).0) (read_frame-end s e)
  relay_loop-relay_all ((f, bytes) ∷ fs) (suc fuel) s r enough h e =
      let (got, left) =
        read_frame-encode_frame socket laws f.payload f.seq (some f.ts_ms) f.flags 0 bytes
          (joined fs) s h.0 e in
      ap (λ o. (after fuel s (handle_read socket o r)).0) got
      ∙ ap (λ b. (after fuel s (publish_raw socket f b r)).0) (encoded-raw f bytes h.0)
      ∙ relay_loop-relay_all fs fuel (read_frame socket s).1 (relay_frame f bytes r) (omega arith)
          h.1 left

-- ===== src/Relay/Producer.antt =====
-- `_handle_producer` of image_relay/server.py: the loop that reads frames from one connection and
-- offers them to the viewers, until the stream ends or is at fault.
pub mod Stream
use network_backend_article.Base.{
  ℕ, zero, suc, ◌+◌, ◌-◌, Bool, true, false, Option, none, some, List, [], ◌∷◌, length,
}
use network_backend_article.Base.Result.{Result, ok, err}
use network_backend_article.Relay.Protocol.{Frame, Socket, read_frame, raw}
use network_backend_article.Relay.Viewers.{RelayServer, relay_frame, count_frame}

abbrev pub join : RelayServer → RelayServer
join r = record r { stats = record r.stats { producers = r.stats.producers + 1 } }

abbrev pub leave : RelayServer → RelayServer
leave r = record r { stats = record r.stats { producers = r.stats.producers - 1 } }

module _ (socket : Socket) where
  open socket use {State}

  -- The body of the loop behind a read: whether it goes on, and the server. The frame is counted
  -- before its bytes are made, which may raise.
  abbrev pub publish_raw : Frame → Result (List ℕ) → RelayServer → Bool × RelayServer
  publish_raw f (err e) r = (false, count_frame (length f.payload) r)
  publish_raw f (ok bytes) r = (true, relay_frame f bytes r)

  abbrev pub handle_read : Option (Result (Option Frame)) → RelayServer → Bool × RelayServer
  handle_read none r = (false, r)
  handle_read (some (err e)) r = (false, r)
  handle_read (some (ok none)) r = (false, r)
  handle_read (some (ok (some f))) r = publish_raw f (raw f) r

  -- The loop, while the server is not being stopped; without fuel it stops as it is.
  unfoldable pub relay_loop : ℕ → State → RelayServer → RelayServer × State
  unfolding read_frame raw relay_frame
  relay_loop zero s r = (r, s)
  relay_loop (suc fuel) s r =
      let handled = handle_read (read_frame socket s).0 r in
      elim handled.0 [
        | false ↦ (handled.1, (read_frame socket s).1)
        | true ↦ relay_loop fuel (read_frame socket s).1 handled.1
      ]

  unfoldable pub handle_producer : ℕ → State → RelayServer → RelayServer × State
  unfolding relay_loop
  handle_producer fuel s r = let (r', s') = relay_loop fuel s (join r) in (leave r', s')

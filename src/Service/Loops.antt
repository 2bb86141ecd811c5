-- ===== src/Service/Loops.antt =====
-- One round of each loop that backend/main.py and backend/realtime/routes.py run in the
-- background. Whether the database carries a statement out, which clients take a text, and which
-- come and go while it is sent, are arguments. An exception in a round leaves the loop, since none of them catches it.
mod Tests
pub mod Frames
use network_backend_article.Base.{
  ℕ, String, Bool, true, false, Option, none, some, List, [], ◌∷◌, if◌then◌else◌, length,
}
use network_backend_article.Base.Result.{Action, Result, Error, ok, err}
use network_backend_article.Registry.{NodeRegistry, NodeStatus, expire_offline, known_nodes}
use network_backend_article.Realtime.Window.{Buffer, Frame, pop_ready}
use network_backend_article.Metrics.{Metrics, inc_frames}
use network_backend_article.Database.{Database, insert_frame, upsert_node_status}
use network_backend_article.Experiment.State.{Manager, ActiveTestSegment}
use network_backend_article.Experiment.{auto_advance_segment}
use network_backend_article.Service.Hub.{WebSocketHub, Change, broadcast}

pub record Live (F : Type 0) : Type 0 where
  pub window_buffer : Buffer F
  pub registry : NodeRegistry
  pub hub : WebSocketHub
  pub database : Database F

module _ {F : Type 0} (accepts : ℕ → Bool) (meanwhile : List Change) where
  -- The metrics are those of the database's loop as well; the latencies are left out.
  abbrev pub count_frames : ℕ → Live F → Live F
  count_frames n l = record l {
    database = record l.database { metrics = inc_frames n l.database.metrics };
  }

  abbrev pub broadcast_in : Live F → Live F
  broadcast_in l = record l { hub = (broadcast accepts meanwhile l.hub).1 }

  abbrev pub after_insert : Result (Unit {0}) × Database F → Live F → Result (Unit {0}) × Live F
  after_insert (err e, db) l = (err e, record l { database = db })
  after_insert (ok u, db) l = (ok tt, broadcast_in (record l { database = db }))

  abbrev pub proceed :
      Result (Unit {0}) × Live F
      → (Live F → Result (Unit {0}) × Live F)
      → Result (Unit {0}) × Live F
  proceed (err e, l) k = (err e, l)
  proceed (ok u, l) k = k l

  -- Each frame is stored and then sent to every client.
  unfoldable pub send_frames : (Frame F → Bool) → List (Frame F) → Action (Live F) Unit
  send_frames answers [] l = (ok tt, l)
  send_frames answers (f ∷ fs) l =
      proceed (after_insert (insert_frame (answers f) f l.database) l) (send_frames answers fs)

  abbrev pub flush_frames : (Frame F → Bool) → List (Frame F) → Action (Live F) Unit
  flush_frames answers [] l = (ok tt, l)
  flush_frames answers (f ∷ fs) l =
      proceed (send_frames answers (f ∷ fs) l) (λ l'. (ok tt, count_frames (length (f ∷ fs)) l'))

  -- A round of `flush_windows`.
  unfoldable pub flush_round : (Frame F → Bool) → ℕ → Action (Live F) Unit
  unfolding send_frames
  flush_round answers now l =
      let popped = pop_ready now (known_nodes l.registry) l.window_buffer in
      flush_frames answers popped.0 (record l { window_buffer = popped.1 })

  unfoldable pub send_statuses : (NodeStatus → Bool) → List NodeStatus → Action (Live F) Unit
  send_statuses answers [] l = (ok tt, l)
  send_statuses answers (s ∷ ss) l =
      proceed (after_insert (upsert_node_status (answers s) s l.database) l)
        (send_statuses answers ss)

  -- A round of `watch_heartbeats`.
  unfoldable pub heartbeat_round : (NodeStatus → Bool) → ℕ → Action (Live F) Unit
  unfolding send_statuses
  heartbeat_round answers now l =
      let expired = expire_offline now l.registry in
      send_statuses answers expired.0 (record l { registry = expired.1 })

  abbrev announce : Result (Option ActiveTestSegment) × Manager F → WebSocketHub → WebSocketHub
  announce (ok (some seg), m) h = (broadcast accepts meanwhile h).1
  announce (ok none, m) h = h
  announce (err e, m) h = h

  -- A round of `watch_segment_deadline`.
  unfoldable pub deadline_round : ℕ → Manager F × WebSocketHub → Manager F × WebSocketHub
  unfolding auto_advance_segment
  deadline_round now (m, h) =
      ((auto_advance_segment now m).1, announce (auto_advance_segment now m) h)

-- ===== src/Relay/Viewers.antt =====
-- `Stats`, `Viewer` and the fan-out of `RelayServer` (image_relay/server.py). One producer offers
-- at a time; a viewer's `get` in the middle of its `offer` is the same as one before it.
pub mod Fanout
use network_backend_article.Base.{
  ℕ, ◌+◌, ◌-◌, String, Bool, true, false, not, Option, none, some, List, [], ◌∷◌, ◌++◌, map, filter,
  ◌==◌, length,
}
use network_backend_article.Relay.Protocol.{Frame}

pub record Stats : Type 0 where
  pub frames_in : ℕ
  pub bytes_in : ℕ
  pub frames_out : ℕ
  pub frames_dropped : ℕ
  pub producers : ℕ
  pub viewers : ℕ

-- The queue of one place.
pub record Viewer : Type 0 where
  pub addr : ℕ
  pub queue : Option (List ℕ)

pub record RelayServer : Type 0 where
  pub stats : Stats
  pub viewers : List Viewer

abbrev pub add_in : ℕ → Stats → Stats
add_in n_bytes s = record s { frames_in = s.frames_in + 1; bytes_in = s.bytes_in + n_bytes }

abbrev pub add_drop : Stats → Stats
add_drop s = record s { frames_dropped = s.frames_dropped + 1 }

-- `put_nowait`, and on a full queue `get_nowait`, the count, and `put_nowait` again.
unfoldable pub offer : List ℕ → Viewer → Stats → Viewer × Stats
offer bytes v s = elim v.queue [
  | none ↦ (record v { queue = some bytes }, s)
  | some stale ↦ (record v { queue = some bytes }, add_drop s)
]

-- `Viewer.get`, with none where the wait times out.
unfoldable pub get : Viewer → Option (List ℕ) × Viewer
get v = (v.queue, record v { queue = none })

unfoldable pub offer_each : List ℕ → List Viewer → Stats → List Viewer × Stats
unfolding offer
offer_each bytes [] s = ([], s)
offer_each bytes (v ∷ vs) s =
    let (v', s') = offer bytes v s in let (vs', s'') = offer_each bytes vs s' in (v' ∷ vs', s'')

unfoldable pub publish : List ℕ → RelayServer → RelayServer
publish bytes r =
    let (viewers, stats) = offer_each bytes r.viewers r.stats in
    record { stats = stats; viewers = viewers }

abbrev pub count_frame : ℕ → RelayServer → RelayServer
count_frame n_bytes r = record r { stats = add_in n_bytes r.stats }

-- One round of `_handle_producer`, for a frame that was read and its bytes.
unfoldable pub relay_frame : Frame → List ℕ → RelayServer → RelayServer
unfolding publish
relay_frame frame raw r = publish raw (count_frame (length frame.payload) r)

unfoldable pub add_viewer : ℕ → RelayServer → RelayServer
add_viewer addr r = record {
  stats = record r.stats { viewers = r.stats.viewers + 1 };
  viewers = record { addr = addr; queue = none } ∷ r.viewers;
}

unfoldable pub remove_viewer : ℕ → RelayServer → RelayServer
remove_viewer addr r = record {
  stats = record r.stats { viewers = r.stats.viewers - 1 };
  viewers = filter (λ v. not (v.addr == addr)) r.viewers;
}

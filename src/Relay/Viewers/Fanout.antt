-- ===== src/Relay/Viewers/Fanout.antt =====
-- What the viewers of image_relay/server.py hold after a frame.
use network_backend_article.Base.{
  ℕ, ◌+◌, Bool, true, false, none, some, List, [], ◌∷◌, arith, ◌≡◌, refl, ap, if◌then◌else◌, All,
  count, map,
}
use network_backend_article.Relay.Protocol.{Frame}
use network_backend_article.Relay.Viewers.{
  Viewer, Stats, RelayServer, offer, offer_each, publish, relay_frame,
}

pub is_behind : Viewer → Bool
is_behind v = elim v.queue [ none ↦ false | some _ ↦ true ]

pub IsFresh : List ℕ → Viewer → Type 0
IsFresh bytes v = v.queue ≡ some bytes

offer-IsFresh : (bytes : List ℕ) (v : Viewer) (s : Stats) → IsFresh bytes (offer bytes v s).0
unfolding IsFresh offer
offer-IsFresh bytes v s = ground arith

offer-addr : (bytes : List ℕ) (v : Viewer) (s : Stats) → (offer bytes v s).0.addr ≡ v.addr
unfolding offer
offer-addr bytes v s = ground arith

offer-drops :
    (bytes : List ℕ) (v : Viewer) (s : Stats)
    → (offer bytes v s).1.frames_dropped ≡ s.frames_dropped + (if is_behind v then 1 else 0)
unfolding offer is_behind
offer-drops bytes v s = ground arith

offer_each-All :
    (bytes : List ℕ) (vs : List Viewer) (s : Stats) → All (IsFresh bytes) (offer_each bytes vs s).0
unfolding offer_each
offer_each-All bytes [] s = tt
offer_each-All bytes (v ∷ vs) s =
    (offer-IsFresh bytes v s, offer_each-All bytes vs (offer bytes v s).1)

offer_each-addr :
    (bytes : List ℕ) (vs : List Viewer) (s : Stats)
    → map (λ v. v.addr) (offer_each bytes vs s).0 ≡ map (λ v. v.addr) vs
unfolding offer_each
offer_each-addr bytes [] s = refl
offer_each-addr bytes (v ∷ vs) s =
    rw (offer-addr bytes v s) (ap (λ l. v.addr ∷ l) (offer_each-addr bytes vs (offer bytes v s).1))

offer_each-drops :
    (bytes : List ℕ) (vs : List Viewer) (s : Stats)
    → (offer_each bytes vs s).1.frames_dropped ≡ s.frames_dropped + count is_behind vs
unfolding offer_each
offer_each-drops bytes [] s = omega arith
offer_each-drops bytes (v ∷ vs) s =
    let h = offer-drops bytes v s in
    let rest = offer_each-drops bytes vs (offer bytes v s).1 in omega arith

-- After a frame each viewer that is connected holds that frame and no older one, no viewer is
-- added or lost, and the drops grow by one for each viewer that still held an older frame.
pub relay_frame-newest :
    (frame : Frame) (raw : List ℕ) (r : RelayServer)
    → All (IsFresh raw) (relay_frame frame raw r).viewers
      × (map (λ v. v.addr) (relay_frame frame raw r).viewers ≡ map (λ v. v.addr) r.viewers)
      × ((relay_frame frame raw r).stats.frames_dropped
          ≡ r.stats.frames_dropped + count is_behind r.viewers)
unfolding relay_frame publish
relay_frame-newest frame raw r = (
  offer_each-All raw r.viewers _,
  offer_each-addr raw r.viewers _,
  offer_each-drops raw r.viewers _,
)

-- ===== src/Registry.antt =====
-- `NodeRegistry` of backend/state.py: what is known of each node.
pub mod Lost
mod Tests
use network_backend_article.Base.{
  ℕ, ◌-◌, String, Bool, true, false, not, ◌&&◌, Option, none, some, List, [], ◌∷◌, ◌++◌, max, ltb,
  leb, if◌then◌else◌, length, sort_by,
}
use network_backend_article.Base.Int.{ℤ, pos, ◌+ℤ◌, ◌-ℤ◌, ltb_ℤ}
use network_backend_article.Base.Text.{text_leb}
use network_backend_article.Base.Dict.{Dict, lookup, assign_key, keys}

-- The rate is a number of messages over a number of milliseconds; the source divides the two and
-- rounds, in floating point. No messages are `0.0`.
pub record Rate : Type 0 where
  pub messages : ℕ
  pub elapsed_ms : ℕ

abbrev pub no_rate : Rate
no_rate = record { messages = 0; elapsed_ms = 1 }

pub record NodeStatus : Type 0 where
  pub node_id : String
  pub online : Bool
  pub last_seen : Option ℕ
  pub msg_rate : Rate
  pub lost_packets : ℤ

pub record NodeRegistry : Type 0 where
  pub timeout_ms : ℕ
  pub nodes : Dict NodeStatus
  pub last_seq : Dict ℤ
  pub receive_times : Dict (List ℕ)

abbrev pub init : ℕ → NodeRegistry
init timeout_ms = record { timeout_ms = timeout_ms; nodes = []; last_seq = []; receive_times = [] }

abbrev pub new_node : String → NodeStatus
new_node node_id = record {
  node_id = node_id;
  online = false;
  last_seen = none;
  msg_rate = no_rate;
  lost_packets = pos 0;
}

-- `_ensure`
abbrev pub status_of : String → NodeRegistry → NodeStatus
status_of node_id r = elim (lookup node_id r.nodes) [ none ↦ new_node node_id | some s ↦ s ]

abbrev pub write_status : NodeStatus → NodeRegistry → NodeRegistry
write_status s r = record r { nodes = assign_key s.node_id s r.nodes }

-- `deque(maxlen=200).append`
abbrev pub capacity : ℕ
capacity = 200

abbrev pub push : ℕ → List ℕ → List ℕ
push t [] = t ∷ []
push t (x ∷ xs) = if leb capacity (length (x ∷ xs)) then xs ++ t ∷ [] else x ∷ xs ++ t ∷ []

-- The samples of the last five seconds. `-` stops at 0, where the source's difference is negative
-- and no more than 5000 either.
abbrev pub drop_old : ℕ → List ℕ → List ℕ
drop_old current_ms [] = []
drop_old current_ms (t ∷ ts) = if ltb 5000 (current_ms - t) then drop_old current_ms ts else t ∷ ts

abbrev pub last_of : ℕ → List ℕ → ℕ
last_of t [] = t
last_of t (x ∷ xs) = last_of x xs

-- The rate of the samples that are left; `max(…, 0.001)` seconds is at least one millisecond.
abbrev pub rate_of : List ℕ → Rate
rate_of [] = no_rate
rate_of (t ∷ []) = no_rate
rate_of (t ∷ u ∷ ts) = record { messages = length (u ∷ ts); elapsed_ms = max (last_of u ts - t) 1 }

abbrev pub times_of : String → NodeRegistry → List ℕ
times_of node_id r = elim (lookup node_id r.receive_times) [ none ↦ [] | some ts ↦ ts ]

unfoldable pub mark_online : String → Bool → ℕ → NodeRegistry → NodeStatus × NodeRegistry
mark_online node_id online now r =
    let s = status_of node_id r in
    let s' : NodeStatus = record s {
      online = online;
      last_seen = if online then some now else s.last_seen;
    } in
    (s', write_status s' r)

-- The packets between the last number and this one.
unfoldable pub lost_between : Option ℤ → ℤ → ℤ
lost_between none seq = pos 0
lost_between (some prev) seq = if ltb_ℤ (prev +ℤ pos 1) seq then seq -ℤ prev -ℤ pos 1 else pos 0

unfoldable pub next_seq : Option ℤ → ℤ → ℤ
next_seq none seq = seq
next_seq (some prev) seq = if ltb_ℤ prev seq then seq else prev

-- The two steps on a sequence number, if the message has one.
abbrev pub count_seq : Option ℤ → NodeStatus × NodeRegistry → NodeStatus × NodeRegistry
count_seq none (s, r) = (s, r)
count_seq (some seq) (s, r) =
    let prev = lookup s.node_id r.last_seq in
    (
      record s { lost_packets = s.lost_packets +ℤ lost_between prev seq },
      record r { last_seq = assign_key s.node_id (next_seq prev seq) r.last_seq },
    )

abbrev finish_seen : NodeStatus × NodeRegistry → NodeStatus × NodeRegistry
finish_seen (s, r) = (s, write_status s r)

-- The status, whether the node was offline before, and the registry.
unfoldable pub mark_seen : String → Option ℤ → ℕ → NodeRegistry → NodeStatus × Bool × NodeRegistry
mark_seen node_id seq now r =
    let s = status_of node_id r in
    let times = drop_old now (push now (times_of node_id r)) in
    let s' : NodeStatus = record s {
      online = true;
      last_seen = some now;
      msg_rate = rate_of times;
    } in
    let r' : NodeRegistry = record r { receive_times = assign_key node_id times r.receive_times } in
    let (s'', r'') = finish_seen (count_seq seq (s', r')) in (s'', not s.online, r'')

abbrev pub is_expired : ℕ → ℕ → NodeStatus → Bool
is_expired timeout_ms now s = elim s.last_seen [
  | none ↦ false
  | some t ↦ ltb timeout_ms (now - t) && s.online
]

abbrev pub set_offline : NodeStatus → NodeStatus
set_offline s = record s { online = false }

-- The nodes in order; a node that was not seen for longer than the timeout goes offline.
abbrev pub expire_nodes : ℕ → ℕ → Dict NodeStatus → List NodeStatus × Dict NodeStatus
expire_nodes timeout_ms now [] = ([], [])
expire_nodes timeout_ms now ((k, s) ∷ d) =
    let (changed, d') = expire_nodes timeout_ms now d in
    if is_expired timeout_ms now s
    then (set_offline s ∷ changed, (k, set_offline s) ∷ d')
    else (changed, (k, s) ∷ d')

unfoldable pub expire_offline : ℕ → NodeRegistry → List NodeStatus × NodeRegistry
expire_offline now r =
    let (changed, nodes) = expire_nodes r.timeout_ms now r.nodes in
    (changed, record r { nodes = nodes })

unfoldable pub known_nodes : NodeRegistry → List String
known_nodes r = keys r.nodes

-- The rate in a snapshot is that of its own time; dropping the old samples is the write.
abbrev pub refresh : ℕ → Dict NodeStatus → NodeRegistry → List NodeStatus × NodeRegistry
refresh now [] r = ([], r)
refresh now ((k, s) ∷ d) r =
    let times = drop_old now (times_of k r) in
    let (rest, r') =
      refresh now d (record r { receive_times = assign_key k times r.receive_times }) in
    (record s { msg_rate = rate_of times } ∷ rest, r')

unfoldable pub snapshot : ℕ → NodeRegistry → List NodeStatus × NodeRegistry
snapshot now r =
    let (items, r') = refresh now r.nodes r in
    (sort_by (λ a b. text_leb a.node_id b.node_id) items, r')

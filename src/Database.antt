-- ===== src/Database.antt =====
-- `Database` of backend/database.py: the queue of raw samples, and the PostgreSQL tables that the
-- code's statements write. The server and its driver are outside the repository: each statement
-- comes with an answer, whether it was carried out, and one that was not changes nothing.
mod Tests
pub mod Queue
pub mod Drain
use network_backend_article.Base.{
  ℕ, zero, suc, ◌+◌, String, Bool, true, false, Option, none, some, List, [], ◌∷◌, ◌++◌, map,
  str_eq, ltb, if◌then◌else◌, length, sort_by,
}
use network_backend_article.Base.Int.{ℤ}
use network_backend_article.Base.Text.{text_leb}
use network_backend_article.Base.Result.{Error, Result, ok, err, driver_error}
use network_backend_article.Base.Python.{Value}
use network_backend_article.Parsing.{Measurement}
use network_backend_article.Registry.{NodeStatus}
use network_backend_article.Realtime.Window.{Frame}
use network_backend_article.Metrics.{Metrics, add_rows}
use network_backend_article.Store.Points.{upsert}

-- A row of `rssi_raw`, with its columns as they are given.
pub record RawRow (F : Type 0) : Type 0 where
  pub node_id : String
  pub ap_bssid : Value F
  pub rssi : Option ℤ
  pub rssi_raw : Option F
  pub seq : Option ℤ
  pub node_ts : ℤ
  pub status : ℤ
  pub pos : Option F × Option F × Option F
  pub rot : Option F × Option F × Option F × Option F
  pub server_ts : ℕ

pub record FrameRow (F : Type 0) : Type 0 where
  pub window_ts : ℤ
  pub payload : Frame F
  pub node_count : ℕ

pub record NodeMeta (F : Type 0) : Type 0 where
  pub node_id : String
  pub pos : Option F × Option F × Option F
  pub rot : Option F × Option F × Option F × Option F
  pub description : Option String

pub record Tables (F : Type 0) : Type 0 where
  pub rssi_raw : List (RawRow F)
  pub frames : List (FrameRow F)
  pub node_status : List NodeStatus
  pub node_meta : List (NodeMeta F)

abbrev pub Sampled : Type 0 → Type 0
Sampled F = Measurement F × ℕ

-- `connected` is `_pool is not None`.
pub record Database (F : Type 0) : Type 0 where
  pub connected : Bool
  pub raw_queue : Option (List (Sampled F))
  pub tables : Tables F
  pub metrics : Metrics

abbrev pub maxsize : ℕ
maxsize = 20000

-- The default of `max_batch`.
abbrev pub max_batch : ℕ
max_batch = 500

module _ {A : Type 0} where
  -- The loop of `get_nowait`: the batch, and what stays in the queue.
  abbrev pub take : ℕ → List A → List A
  take zero xs = []
  take (suc n) [] = []
  take (suc n) (x ∷ xs) = x ∷ take n xs

  abbrev pub drop : ℕ → List A → List A
  drop zero xs = xs
  drop (suc n) [] = []
  drop (suc n) (x ∷ xs) = drop n xs

module _ {F : Type 0} where
  -- `connect`, by the answers to `create_pool` and to the statement of `init_schema`, whose
  -- tables are made only where they are missing.
  unfoldable pub connect : Bool → Bool → Database F → Database F
  connect pooled schema db = record db {
    raw_queue = some [];
    connected = if pooled then schema else false;
  }

  unfoldable pub close : Database F → Database F
  close db = record db { connected = false }

  abbrev pub put_nowait : Sampled F → List (Sampled F) → List (Sampled F)
  put_nowait m queue = if ltb (length queue) maxsize then queue ++ m ∷ [] else queue

  abbrev pub enqueue_in : Option (List (Sampled F)) → Sampled F → Database F → Database F
  enqueue_in none m db = db
  enqueue_in (some queue) m db = record db { raw_queue = some (put_nowait m queue) }

  -- A full queue drops the measurement.
  unfoldable pub enqueue_raw : Sampled F → Database F → Database F
  enqueue_raw m db = enqueue_in db.raw_queue m db

  unfoldable pub raw_row : Sampled F → RawRow F
  raw_row (m, ts) = record {
    node_id = m.node_id;
    ap_bssid = m.ap_bssid;
    rssi = m.rssi;
    rssi_raw = m.rssi_raw;
    seq = m.seq;
    node_ts = m.timestamp;
    status = m.status;
    pos = (m.pos_x, m.pos_y, m.pos_z);
    rot = (m.rot_w, m.rot_x, m.rot_y, m.rot_z);
    server_ts = ts;
  }

  -- `executemany` writes all records or, where it raises, none.
  abbrev pub insert_raw : Bool → List (RawRow F) → Database F → Database F
  insert_raw false rows db = db
  insert_raw true rows db = record db {
    tables = record db.tables { rssi_raw = db.tables.rssi_raw ++ rows };
    metrics = add_rows (length rows) db.metrics;
  }

  -- A batch that is not empty has left the queue already when it is written, or lost.
  abbrev pub write_batch : Bool → List (Sampled F) → Database F → Database F
  write_batch answer [] db = db
  write_batch answer (m ∷ ms) db =
      if db.connected then insert_raw answer (map raw_row (m ∷ ms)) db else db

  abbrev pub flush_queue : Bool → Option (List (Sampled F)) → Database F → Database F
  flush_queue answer none db = db
  flush_queue answer (some queue) db =
      write_batch answer (take max_batch queue)
        (record db { raw_queue = some (drop max_batch queue) })

  -- One round of `flush_raw_loop`, after its sleep.
  unfoldable pub flush_raw : Bool → Database F → Database F
  flush_raw answer db = flush_queue answer db.raw_queue db

  -- A method that runs one statement; without a pool it does nothing.
  abbrev pub execute : Bool → (Tables F → Tables F) → Database F → Result (Unit {0}) × Database F
  execute answer f db =
      if db.connected
      then if answer then (ok tt, record db { tables = f db.tables }) else (err driver_error, db)
      else (ok tt, db)

  abbrev pub frame_row : Frame F → FrameRow F
  frame_row frame = record {
    window_ts = frame.window_ts;
    payload = frame;
    node_count = length frame.nodes;
  }

  unfoldable pub insert_frame : Bool → Frame F → Database F → Result (Unit {0}) × Database F
  insert_frame answer frame =
      execute answer λ t. record t { frames = t.frames ++ frame_row frame ∷ [] }

  unfoldable pub upsert_node_status :
      Bool → NodeStatus → Database F → Result (Unit {0}) × Database F
  upsert_node_status answer status = execute answer λ t. record t {
    node_status = upsert (λ r. str_eq r.node_id status.node_id) status t.node_status;
  }

  unfoldable pub upsert_node_meta : Bool → NodeMeta F → Database F → Result (Unit {0}) × Database F
  upsert_node_meta answer meta =
      execute answer
        λ t. record t { node_meta = upsert (λ r. str_eq r.node_id meta.node_id) meta t.node_meta }

  -- ORDER BY node_id
  unfoldable pub get_node_meta : Bool → Database F → Result (List (NodeMeta F))
  get_node_meta answer db =
      if db.connected
      then if answer
        then ok (sort_by (λ a b. text_leb a.node_id b.node_id) db.tables.node_meta)
        else err driver_error
      else ok []

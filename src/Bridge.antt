-- ===== src/Bridge.antt =====
-- `MqttBridge` (backend/mqtt_bridge.py): what one message does to the experiment store, the node
-- registry, the window buffer, the counters and the outside. As backend/main.py makes it, the
-- bridge always has a store and a manager; the window buffer is optional.
mod Tests
pub mod Topic
pub mod Connection
pub mod Raw
pub mod Counters
use network_backend_article.Base.{
  ℕ, String, Bool, true, false, not, ◌&&◌, Option, none, some, List, [], ◌∷◌, ◌++◌, if◌then◌else◌,
}
use network_backend_article.Base.Int.{ℤ, pos}
use network_backend_article.Base.Result.{
  Action, Result, Error, ok, err, attribute_error, pure, gets, lift, modify, ◌>>=◌, ◌>>◌,
}
use network_backend_article.Base.Python.{
  Python, Value, Items, Fields, null, bool, int, arr, obj, nil, cons, get, get_or, put, is_null,
  truthy,
}
use network_backend_article.Parsing.{ParseConfig, Measurement, parse_measurement}
use network_backend_article.Store.Measurements.{MeasurementInput, insert_measurements, append_jsonl}
use network_backend_article.Experiment.State.{
  Manager, ActiveRun, ActiveTestSegment, on_store, update_store,
}
use network_backend_article.Experiment.Context.{Context, offset_context, context_at}
use network_backend_article.Registry.{NodeRegistry, NodeStatus, mark_online, mark_seen}
use network_backend_article.Realtime.Window.{Buffer, Sample, add}
use network_backend_article.Metrics.{Metrics, inc_received, inc_dropped}
use network_backend_article.Bridge.Topic.{is_lwt, is_gateway, node_of_topic}

-- The calls that leave the process.
pub data Call (F : Type 0) : Type 0 where
  upsert_node_status : NodeStatus → Call F
  enqueue_raw : Measurement F → Call F
  broadcast : NodeStatus → Call F

-- The code outside the repository: a payload is decoded as UTF-8 with replacement characters, or
-- strictly and then as JSON: `none` where one of the two exceptions is raised that are caught, and
-- any other exception as it is. `appends` tells whether the backup file takes a line, and the
-- database takes a node's status or raises.
pub record Services (F : Type 0) : Type 1 where
  pub Payload : Type 0
  pub decode_replace : Payload → String
  pub loads : Payload → Result (Option (Value F))
  pub appends : Bool
  pub upsert : NodeStatus → Result (Unit {0})

pub record Bridge (F : Type 0) : Type 0 where
  pub manager : Manager F
  pub registry : NodeRegistry
  pub window_buffer : Option (Buffer F)
  pub metrics : Metrics
  pub calls : List (Call F)

abbrev pub run_of : Option ActiveRun → Option String
run_of none = none
run_of (some run) = some run.run_id

abbrev pub point_of_segment : Option ActiveTestSegment → Option String
point_of_segment none = none
point_of_segment (some seg) = some seg.point_id

-- `a or b` on the two contexts
abbrev pub or_context : Option Context → Option Context → Option Context
or_context none c = c
or_context (some a) c = some a

module _ {F : Type 0} where
  abbrev pub count_received : Bridge F → Bridge F
  count_received b = record b { metrics = inc_received b.metrics }

  abbrev pub count_dropped : Bridge F → Bridge F
  count_dropped b = record b { metrics = inc_dropped b.metrics }

  abbrev pub drop_message : Action (Bridge F) Unit
  drop_message = modify count_dropped

  abbrev pub log_call : Call F → Bridge F → Bridge F
  log_call c b = record b { calls = b.calls ++ c ∷ [] }

  -- The first step of `handle_message`: the raw line, whatever the payload is.
  unfoldable pub keep_raw : Bool → String → String → ℕ → Bridge F → Bridge F
  keep_raw written topic text receive_ms b =
      if not (is_lwt topic)
      then record b {
        manager = record b.manager {
          store =
              append_jsonl written topic text receive_ms (run_of b.manager.active_run)
                (point_of_segment b.manager.active_test_segment) b.manager.store;
        };
      }
      else b

  -- What the window buffer reads of a measurement.
  abbrev pub sample_of : Measurement F → Sample F
  sample_of m = record {
    node_id = m.node_id;
    timestamp = some m.timestamp;
    rssi = m.rssi;
    ap_bssid = m.ap_bssid;
    seq = m.seq;
    position = (m.pos_x, m.pos_y, m.pos_z);
    rotation = (m.rot_w, m.rot_x, m.rot_y, m.rot_z);
  }

  abbrev pub row_of : Option String → Context → Measurement F → ℕ → MeasurementInput F
  row_of experiment_id ctx m receive_ms = record {
    experiment_id = experiment_id;
    session_id = some ctx.run_id;
    run_id = some ctx.run_id;
    segment_id = ctx.segment_id;
    point_id = ctx.point_id;
    point_role = ctx.point_role;
    node_id = m.node_id;
    node_ts_ms = some m.timestamp;
    server_ts_ms = receive_ms;
    seq = m.seq;
    rssi_raw_dbm = m.rssi_raw;
    rssi_filtered_dbm = m.rssi_filtered;
    sample_count = m.sample_count;
    error_flags = some m.status;
    ap_bssid = m.ap_bssid;
    ap_channel = m.ap_channel;
    valid = m.valid;
    invalid_reason = m.invalid_reason;
  }

  unfoldable pub storage_context : String → ℕ → Manager F → Option Context
  storage_context node_id receive_ms m =
      or_context (offset_context node_id m) (context_at node_id receive_ms m)

  -- The reading of the registry.
  abbrev pub see : Measurement F → ℕ → Action (Bridge F) (NodeStatus × Bool)
  see m now b =
      let (status, became_online, r) = mark_seen m.node_id m.seq now b.registry in
      (ok (status, became_online), record b { registry = r })

  abbrev in_window : Bridge F → Result (Unit {0}) × Buffer F → Result (Unit {0}) × Bridge F
  in_window b (r, w) = (r, record b { window_buffer = some w })

  abbrev buffer : Option (Buffer F) → Measurement F → ℕ → Action (Bridge F) Unit
  buffer none m receive_ms b = (ok tt, b)
  buffer (some w) m receive_ms b = in_window b (add (sample_of m) receive_ms w)

  abbrev pub add_to_window : Measurement F → ℕ → Action (Bridge F) Unit
  add_to_window m receive_ms b = buffer b.window_buffer m receive_ms b

  abbrev pub announce : Bool → NodeStatus → Bridge F → Bridge F
  announce became_online status b = if became_online then log_call (broadcast status) b else b

  abbrev on_manager_result : Bridge F → Result (Unit {0}) × Manager F → Result (Unit {0}) × Bridge F
  on_manager_result b (r, m) = (r, record b { manager = m })

  abbrev pub on_manager : Action (Manager F) Unit → Action (Bridge F) Unit
  on_manager f b = on_manager_result b (f b.manager)

-- Two readings of the clock: that of `handle_message`, and that of the registry.
module _ (py : Python) (services : Services py.Float) (cfg : ParseConfig py.Float)
    (receive_ms now : ℕ) where
  open py use {Float, str_of}

  abbrev insert_for : Option Context → Measurement Float → Action (Manager Float) Unit
  insert_for none m mgr = (ok tt, mgr)
  insert_for (some ctx) m mgr =
      (on_store (insert_measurements py (row_of mgr.experiment_id ctx m receive_ms ∷ []))
          >> pure tt)
        mgr

  unfoldable pub record_experiment : Measurement Float → Action (Manager Float) Unit
  record_experiment m mgr = insert_for (storage_context m.node_id receive_ms mgr) m mgr

  -- The realtime part of `_ingest`, for a valid measurement.
  unfoldable pub accept : Measurement Float → Action (Bridge Float) Unit
  accept m = do
    (status, became_online) ← see m now
    add_to_window m receive_ms
    modify (log_call (enqueue_raw m))
    modify (log_call (upsert_node_status status))
    lift (services.upsert status)
    modify (announce became_online status)

  unfoldable pub ingest : Measurement Float → Action (Bridge Float) Unit
  ingest m = do
    on_manager (record_experiment m)
    (elim m.valid [ false ↦ drop_message | true ↦ accept m ])

  abbrev ingest_or_drop : Option (Measurement Float) → Action (Bridge Float) Unit
  ingest_or_drop none = drop_message
  ingest_or_drop (some m) = ingest m

  -- `inc_received`, the parser, and `_ingest` or `inc_dropped`.
  unfoldable pub take_reading : Fields Float → Action (Bridge Float) Unit
  take_reading d = do
    modify count_received
    m ← lift (parse_measurement py d receive_ms cfg)
    ingest_or_drop m

  -- A reading without a time takes that of its batch.
  abbrev pub with_batch_time : Value Float → Fields Float → Fields Float
  with_batch_time batch_ts d =
      if is_null (get "timestamp" d) && not (is_null batch_ts)
      then put "timestamp" batch_ts d
      else d

  abbrev pub batch_reading : Value Float → Value Float → Action (Bridge Float) Unit
  batch_reading batch_ts (obj d) = take_reading (with_batch_time batch_ts d)
  batch_reading batch_ts _ = drop_message

  unfoldable pub readings_loop : Value Float → Items Float → Action (Bridge Float) Unit
  readings_loop batch_ts nil = pure tt
  readings_loop batch_ts (cons v vs) = batch_reading batch_ts v >> readings_loop batch_ts vs

  abbrev pub gateway_readings : Value Float → Value Float → Action (Bridge Float) Unit
  gateway_readings batch_ts (arr vs) = readings_loop batch_ts vs
  gateway_readings batch_ts _ = drop_message

  abbrev pub handle_gateway_batch : Fields Float → Action (Bridge Float) Unit
  handle_gateway_batch d = gateway_readings (get "timestamp" d) (get "readings" d)

  -- `data.get("node_id") or topic.split("/")[1]`, as a text
  abbrev pub lwt_node : String → Fields Float → Result String
  lwt_node topic d =
      if truthy py (get "node_id" d) then ok (str_of (get "node_id" d)) else node_of_topic topic

  abbrev mark : String → Bool → Action (Bridge Float) NodeStatus
  mark node_id online b =
      let (status, r) = mark_online node_id online now b.registry in
      (ok status, record b { registry = r })

  unfoldable pub handle_lwt : String → Fields Float → Action (Bridge Float) Unit
  handle_lwt topic d = do
    node_id ← lift (lwt_node topic d)
    status ← mark node_id (truthy py (get_or "online" (bool false) d))
    modify (log_call (upsert_node_status status))
    lift (services.upsert status)
    modify (log_call (broadcast status))

  -- JSON that is no object has no `get` and no `keys`.
  abbrev pub dispatch_object : String → Fields Float → Action (Bridge Float) Unit
  dispatch_object topic d = elim (is_lwt topic) [
    | true ↦ handle_lwt topic d
    | false ↦ elim (is_gateway topic) [ true ↦ handle_gateway_batch d | false ↦ take_reading d ]
  ]

  -- `inc_received` comes before the parser finds that the payload is no object.
  abbrev pub count_direct : String → Bridge Float → Bridge Float
  count_direct topic b =
      if not (is_lwt topic) && not (is_gateway topic) then count_received b else b

  abbrev pub dispatch : String → Result (Option (Value Float)) → Action (Bridge Float) Unit
  dispatch topic (err e) = lift (err e)
  dispatch topic (ok none) = drop_message
  dispatch topic (ok (some (obj d))) = dispatch_object topic d
  dispatch topic (ok (some _)) = modify (count_direct topic) >> lift (err attribute_error)

  unfoldable pub handle_message : String → services.Payload → Action (Bridge Float) Unit
  handle_message topic payload = do
    modify (keep_raw services.appends topic (services.decode_replace payload) receive_ms)
    dispatch topic (services.loads payload)

-- ===== src/Realtime/Window.antt =====
-- `WindowBuffer` of backend/realtime/window.py: samples are gathered by the time at which they
-- were measured, and a window is emitted as one frame.
use network_backend_article.Base.{
  ℕ, ◌+◌, String, Bool, true, false, not, Option, none, some, List, [], ◌∷◌, map, str_eq, ◌==◌,
  if◌then◌else◌, filter, any, sort_by,
}
use network_backend_article.Base.Int.{ℤ, pos, ◌-ℤ◌, ltb_ℤ, leb_ℤ, eqb_ℤ, max_ℤ, mod_ℤ}
use network_backend_article.Base.Text.{text_leb}
use network_backend_article.Base.Dict.{Dict, lookup, assign_key, keys}
use network_backend_article.Base.Result.{Action, Result, ok, err, zero_division}
use network_backend_article.Base.Python.{Value}

-- What the buffer reads of a measurement. A position is (x, y, z), a rotation (w, x, y, z).
pub record Sample (F : Type 0) : Type 0 where
  pub node_id : String
  pub timestamp : Option ℤ
  pub rssi : Option ℤ
  pub ap_bssid : Value F
  pub seq : Option ℤ
  pub position : Option F × Option F × Option F
  pub rotation : Option F × Option F × Option F × Option F

pub record Item (F : Type 0) : Type 0 where
  pub sample : Sample F
  pub meas_ts : ℤ
  pub receive_ms : ℕ

abbrev pub Buckets : Type 0 → Type 0
Buckets F = List (ℤ × Dict (Item F))

pub record Buffer (F : Type 0) : Type 0 where
  pub window_size_ms : ℕ
  pub grace_ms : ℕ
  pub stall_flush_ms : ℕ
  pub buckets : Buckets F
  pub watermark : Option ℤ
  pub emitted_before : Option ℤ
  pub late_dropped : ℕ

pub record NodeFrame (F : Type 0) : Type 0 where
  pub rssi : Option ℤ
  pub ap_bssid : Value F
  pub seq : Option ℤ
  pub node_ts : Option ℤ
  pub server_receive_ms : ℕ
  pub position : Option F × Option F × Option F
  pub rotation : Option F × Option F × Option F × Option F

pub record Frame (F : Type 0) : Type 0 where
  pub window_ts : ℤ
  pub window_size_ms : ℕ
  pub grace_ms : ℕ
  pub nodes : List (String × NodeFrame F)
  pub missing : List String

abbrev pub or_default : Option ℕ → ℕ → ℕ
or_default none d = d
or_default (some n) d = n

-- `WindowBuffer(window_size_ms, grace_ms, stall_flush_ms)`
abbrev pub init : {F : Type 0} → ℕ → Option ℕ → Option ℕ → Buffer F
init window_size_ms grace_ms stall_flush_ms = record {
  window_size_ms = window_size_ms;
  grace_ms = or_default grace_ms window_size_ms;
  stall_flush_ms = or_default stall_flush_ms window_size_ms;
  buckets = [];
  watermark = none;
  emitted_before = none;
  late_dropped = 0;
}

-- `ts - (ts % window_size_ms)`
unfoldable pub bucket_of : ℕ → ℤ → Result ℤ
bucket_of window_size_ms ts =
    if window_size_ms == 0 then err zero_division else ok (ts -ℤ pos (mod_ℤ ts window_size_ms))

abbrev pub is_late : Option ℤ → ℤ → Bool
is_late none bucket_ts = false
is_late (some emitted) bucket_ts = leb_ℤ bucket_ts emitted

abbrev pub latest : Option ℤ → ℤ → ℤ
latest none ts = ts
latest (some w) ts = max_ℤ w ts

abbrev pub time_of : Option ℤ → ℕ → ℤ
time_of none receive_ms = pos receive_ms
time_of (some ts) receive_ms = ts

module _ {F : Type 0} where
  -- Of two samples of one node in one bucket the later one by its time stays.
  abbrev pub keep_newer : Item F → Dict (Item F) → Dict (Item F)
  keep_newer item bucket = elim (lookup item.sample.node_id bucket) [
    | none ↦ assign_key item.sample.node_id item bucket
    | some current ↦
        if leb_ℤ current.meas_ts item.meas_ts
        then assign_key item.sample.node_id item bucket
        else bucket
  ]

  -- `self.buckets[bucket_ts]`, which a `defaultdict` makes where it is missing.
  abbrev pub put_item : ℤ → Item F → Buckets F → Buckets F
  put_item ts item [] = (ts, keep_newer item []) ∷ []
  put_item ts item ((k, bucket) ∷ rest) =
      if eqb_ℤ k ts then (k, keep_newer item bucket) ∷ rest else (k, bucket) ∷ put_item ts item rest

  abbrev pub add_to : ℤ → Item F → Buffer F → Buffer F
  add_to bucket_ts item b =
      if is_late b.emitted_before bucket_ts
      then record b { late_dropped = b.late_dropped + 1 }
      else record b {
        watermark = some (latest b.watermark item.meas_ts);
        buckets = put_item bucket_ts item b.buckets;
      }

  abbrev pub add_in : Result ℤ → Item F → Buffer F → Result (Unit {0}) × Buffer F
  add_in (err e) item b = (err e, b)
  add_in (ok bucket_ts) item b = (ok tt, add_to bucket_ts item b)

  unfoldable pub add : Sample F → ℕ → Action (Buffer F) (Unit {0})
  add sample receive_ms b =
      let meas_ts = time_of sample.timestamp receive_ms in
      add_in (bucket_of b.window_size_ms meas_ts)
        (record { sample = sample; meas_ts = meas_ts; receive_ms = receive_ms }) b

  -- The time up to which buckets are ready: by the newest measurement, or by the clock of the
  -- server where the stream stands still.
  unfoldable pub ready_before : ℕ → Buffer F → ℤ
  ready_before current_ms b =
      let wall = pos current_ms -ℤ pos b.window_size_ms -ℤ pos b.grace_ms -ℤ pos b.stall_flush_ms in
      elim b.watermark [
        | none ↦ wall
        | some w ↦ max_ℤ (w -ℤ pos b.window_size_ms -ℤ pos b.grace_ms) wall
      ]

  abbrev pub node_frame : Item F → NodeFrame F
  node_frame item = record {
    rssi = item.sample.rssi;
    ap_bssid = item.sample.ap_bssid;
    seq = item.sample.seq;
    node_ts = item.sample.timestamp;
    server_receive_ms = item.receive_ms;
    position = item.sample.position;
    rotation = item.sample.rotation;
  }

  abbrev pub frame_nodes : Dict (Item F) → List (String × NodeFrame F)
  frame_nodes bucket = map (λ e. (e.0, node_frame e.1)) (sort_by (λ a b. text_leb a.0 b.0) bucket)

  -- The known nodes that the bucket lacks.
  abbrev pub missing_nodes : List String → Dict (Item F) → List String
  missing_nodes known bucket =
      sort_by text_leb (filter (λ k. not (any (λ j. str_eq j k) (keys bucket))) known)

  abbrev pub bucket_at : ℤ → Buckets F → Dict (Item F)
  bucket_at ts [] = []
  bucket_at ts ((k, bucket) ∷ rest) = if eqb_ℤ k ts then bucket else bucket_at ts rest

  abbrev pub remove_bucket : ℤ → Buckets F → Buckets F
  remove_bucket ts [] = []
  remove_bucket ts ((k, bucket) ∷ rest) =
      if eqb_ℤ k ts then rest else (k, bucket) ∷ remove_bucket ts rest

  abbrev pub bucket_keys : Buckets F → List ℤ
  bucket_keys [] = []
  bucket_keys ((k, bucket) ∷ rest) = k ∷ bucket_keys rest

  -- One bucket becomes a frame.
  abbrev pub emit : List String → ℤ → Buffer F → Frame F
  emit known ts b = record {
    window_ts = ts;
    window_size_ms = b.window_size_ms;
    grace_ms = b.grace_ms;
    nodes = frame_nodes (bucket_at ts b.buckets);
    missing = missing_nodes known (bucket_at ts b.buckets);
  }

  abbrev pub close_bucket : ℤ → Buffer F → Buffer F
  close_bucket ts b = record b {
    buckets = remove_bucket ts b.buckets;
    emitted_before = some (latest b.emitted_before ts);
  }

  -- The loop over the sorted keys.
  unfoldable pub emit_ready : List String → ℤ → List ℤ → Buffer F → List (Frame F) × Buffer F
  emit_ready known ready [] b = ([], b)
  emit_ready known ready (ts ∷ keys) b = elim (ltb_ℤ ready ts) [
    | true ↦ emit_ready known ready keys b
    | false ↦
        let (frames, b') = emit_ready known ready keys (close_bucket ts b) in
        (emit known ts b ∷ frames, b')
  ]

  unfoldable pub pop_ready : ℕ → List String → Buffer F → List (Frame F) × Buffer F
  unfolding emit_ready
  pop_ready current_ms known_nodes b =
      emit_ready known_nodes (ready_before current_ms b) (sort_by leb_ℤ (bucket_keys b.buckets)) b

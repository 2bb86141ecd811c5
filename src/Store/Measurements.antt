-- ===== src/Store/Measurements.antt =====
-- The statements of backend/store.py on measurements, and the raw backup file.
use network_backend_article.Base.{
  ℕ, ◌+◌, ◌^◌, String, Bool, false, ◌&&◌, ◌||◌, Option, none, some, List, [], ◌∷◌, ◌++◌, max,
  str_eq, ltb, ◌==◌, if◌then◌else◌, length, filter, first, sort_by, map,
}
use network_backend_article.Base.Int.{ℤ, pos, negsuc}
use network_backend_article.Base.Text.{is_empty, text_leb}
use network_backend_article.Base.Result.{
  Action, Result, ok, err, pure, lift, overflow_error, integrity_error, modify, ◌>>=◌, ◌>>◌,
}
use network_backend_article.Base.Python.{Python, Value}
use network_backend_article.Store.Tables.{
  Store, MeasurementRow, SegmentRow, RunRow, PointRow, DeviceOffsetRow,
}

-- A dict that `insert_measurements` takes; a key that `.get` may miss is optional.
pub record MeasurementInput (F : Type 0) : Type 0 where
  pub experiment_id : Option String
  pub session_id : Option String
  pub run_id : Option String
  pub segment_id : Option String
  pub point_id : String
  pub point_role : String
  pub node_id : String
  pub node_ts_ms : Option ℤ
  pub server_ts_ms : ℕ
  pub seq : Option ℤ
  pub rssi_raw_dbm : Option F
  pub rssi_filtered_dbm : Option F
  pub sample_count : Option ℤ
  pub error_flags : Option ℤ
  pub ap_bssid : Value F
  pub ap_channel : Option ℤ
  pub valid : Bool
  pub invalid_reason : Option String

-- `a or b` on optional texts: an empty text counts as absent.
abbrev pub or_text : Option String → Option String → Option String
or_text none b = b
or_text (some a) b = if is_empty a then b else some a

-- `session_id or run_id or ""`
abbrev pub session_or_run : Option String → Option String → String
session_or_run session_id run_id = elim (or_text session_id run_id) [ none ↦ "" | some a ↦ a ]

-- An int outside the 64-bit range cannot be bound to an INTEGER column.
abbrev pub bind_int : ℤ → Result ℤ
bind_int (pos n) = if ltb n (2 ^ 63) then ok (pos n) else err overflow_error
bind_int (negsuc n) = if ltb n (2 ^ 63) then ok (negsuc n) else err overflow_error

abbrev pub bind_optional_int : Option ℤ → Result (Option ℤ)
bind_optional_int none = ok none
bind_optional_int (some n) = elim (bind_int n) [ ok m ↦ ok (some m) | err e ↦ err e ]

-- NOT NULL
abbrev pub bind_required : Option String → Result String
bind_required none = err integrity_error
bind_required (some s) = ok s

abbrev pub int_or_zero : Option ℤ → ℤ
int_or_zero none = pos 0
int_or_zero (some n) = n

module _ (py : Python) where
  open py use {Float, is_nan, sql_text}

  -- SQLite stores a NaN as NULL.
  abbrev pub bind_real : Option Float → Option Float
  bind_real none = none
  bind_real (some x) = if is_nan x then none else some x

  -- One execution of the INSERT.
  pub insert_measurement : MeasurementInput Float → Action (Store Float) Unit
  insert_measurement r = do
    node_ts_ms ← lift (bind_optional_int r.node_ts_ms)
    seq ← lift (bind_optional_int r.seq)
    sample_count ← lift (bind_optional_int r.sample_count)
    error_flags ← lift (bind_int (int_or_zero r.error_flags))
    ap_bssid ← lift (sql_text r.ap_bssid)
    ap_channel ← lift (bind_optional_int r.ap_channel)
    experiment_id ← lift (bind_required r.experiment_id)
    modify λ s. record s {
      measurements =
          s.measurements
          ++ record {
            experiment_id = experiment_id;
            session_id = session_or_run r.session_id r.run_id;
            run_id = r.run_id;
            segment_id = r.segment_id;
            point_id = r.point_id;
            point_role = r.point_role;
            node_id = r.node_id;
            node_ts_ms = node_ts_ms;
            server_ts_ms = r.server_ts_ms;
            seq = seq;
            rssi_raw_dbm = bind_real r.rssi_raw_dbm;
            rssi_filtered_dbm = bind_real r.rssi_filtered_dbm;
            sample_count = sample_count;
            error_flags = error_flags;
            ap_bssid = ap_bssid;
            ap_channel = ap_channel;
            valid = r.valid;
            invalid_reason = r.invalid_reason;
          }
            ∷ [];
    }

  -- `executemany` runs the rows in order; the rows before a failing one stay in the connection.
  pub insert_each : List (MeasurementInput Float) → Action (Store Float) Unit
  insert_each [] = pure tt
  insert_each (r ∷ rs) = insert_measurement r >> insert_each rs

  unfoldable pub insert_measurements : List (MeasurementInput Float) → Action (Store Float) ℕ
  unfolding insert_each insert_measurement
  insert_measurements rows = insert_each rows >> pure (length rows)

module _ {F : Type 0} where
  -- The write of one line. Where the file does not take it, the `OSError` is caught and no line is
  -- written.
  unfoldable pub append_jsonl :
      Bool → String → String → ℕ → Option String → Option String → Store F → Store F
  append_jsonl written topic payload receive_ms session_id point_id s = record s {
    jsonl =
        if written
        then s.jsonl
          ++ record {
            recv_ms = receive_ms;
            topic = topic;
            session_id = session_id;
            point_id = point_id;
            payload = payload;
          }
            ∷ []
        else s.jsonl;
  }

abbrev pub has_run : {F : Type 0} → String → MeasurementRow F → Bool
has_run id m = elim m.run_id [ none ↦ false | some r ↦ str_eq r id ]

-- The samples and the last reception of one node.
pub record NodeStats : Type 0 where
  pub node_id : String
  pub samples : ℕ
  pub last_ms : ℕ

-- One row more in its group.
abbrev pub add_sample : String → ℕ → List NodeStats → List NodeStats
add_sample node ts [] = record { node_id = node; samples = 1; last_ms = ts } ∷ []
add_sample node ts (g ∷ gs) =
    if str_eq g.node_id node
    then record g { samples = g.samples + 1; last_ms = max g.last_ms ts } ∷ gs
    else g ∷ add_sample node ts gs

-- GROUP BY node_id, with COUNT(*) and MAX(server_ts_ms).
abbrev pub group_nodes : {F : Type 0} → List (MeasurementRow F) → List NodeStats → List NodeStats
group_nodes [] groups = groups
group_nodes (m ∷ ms) groups = group_nodes ms (add_sample m.node_id m.server_ts_ms groups)

unfoldable pub run_node_stats : {F : Type 0} → String → Store F → List NodeStats
run_node_stats run_id s = group_nodes (filter (has_run run_id) s.measurements) []

-- A row of `measurements_for_export`: a LEFT JOIN gives NULL columns where nothing matches.
pub record ExportRow (F : Type 0) : Type 0 where
  pub measurement : MeasurementRow F
  pub open measurement use *
  pub segment : Option SegmentRow
  pub run : Option RunRow
  pub point : Option (PointRow F)
  pub device_offset : Option (DeviceOffsetRow F)

-- `a.key = b` where the left column may be NULL.
abbrev pub matches : Option String → String → Bool
matches none b = false
matches (some a) b = str_eq a b

abbrev pub pre_offset_of : Option RunRow → Option String
pre_offset_of none = none
pre_offset_of (some r) = r.pre_offset_run_id

module _ {F : Type 0} where
  unfoldable pub join_row : Store F → MeasurementRow F → ExportRow F
  join_row s m =
      let run : Option RunRow = first (filter (λ r. matches m.run_id r.run_id) s.runs) in
      record {
        measurement = m;
        segment = first (filter (λ r. matches m.segment_id r.segment_id) s.segments);
        run = run;
        point = first (
            filter (λ p. str_eq p.experiment_id m.experiment_id && str_eq p.point_id m.point_id)
              s.points);
        device_offset = first (
            filter (λ d. matches (pre_offset_of run) d.offset_run_id && str_eq d.node_id m.node_id)
              s.device_offsets);
      }

  -- ORDER BY server_ts_ms, node_id
  unfoldable pub measurements_for_export : String → Store F → List (ExportRow F)
  unfolding join_row
  measurements_for_export experiment_id s =
      sort_by
        (λ a b.
          ltb a.server_ts_ms b.server_ts_ms
          || (a.server_ts_ms == b.server_ts_ms && text_leb a.node_id b.node_id))
        (map (join_row s) (filter (λ m. str_eq m.experiment_id experiment_id) s.measurements))

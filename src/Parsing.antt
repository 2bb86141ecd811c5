-- ===== src/Parsing.antt =====
-- `parse_measurement` of backend/parsing.py, over the conversions of a record `Python`.
pub mod Laws
mod Tests
use network_backend_article.Base.{
  ℕ, String, Bool, true, false, not, ◌&&◌, Option, none, some, List, [], ◌∷◌, if◌then◌else◌,
}
use Prim.Native.String.{◌++◌}
use network_backend_article.Base.Int.{ℤ, pos, ◌-ℤ◌, ltb_ℤ, eqb_ℤ, abs}
use network_backend_article.Base.Text.{decimal_ℤ}
use network_backend_article.Base.Result.{Result, ok, err}
use network_backend_article.Base.Raises.{◌>>=◌, catch_conversion}
use network_backend_article.Base.Python.{
  Python, Value, Fields, null, int, has_key, get, get_or, is_null, truthy,
}

pub record ParseConfig (F : Type 0) : Type 0 where
  pub rssi_min : F
  pub rssi_max : F
  pub timestamp_max_skew_ms : ℤ
  pub rssi_filtered_scale : F

-- The dict that the parser returns.
pub record Measurement (F : Type 0) : Type 0 where
  pub node_id : String
  pub timestamp : ℤ
  pub ap_bssid : Value F
  pub ap_channel : Option ℤ
  pub rssi : Option ℤ
  pub rssi_filtered : Option F
  pub rssi_raw : Option F
  pub sample_count : Option ℤ
  pub seq : Option ℤ
  pub status : ℤ
  pub valid : Bool
  pub invalid_reason : Option String
  pub pos_x : Option F
  pub pos_y : Option F
  pub pos_z : Option F
  pub rot_w : Option F
  pub rot_x : Option F
  pub rot_y : Option F
  pub rot_z : Option F

-- What the first `try` reads.
pub record Identity : Type 0 where
  pub node_id : String
  pub timestamp : ℤ
  pub seq : Option ℤ
  pub error_flags : ℤ

abbrev pub map_result {ℓ} : {A B : Type ℓ} → (A → B) → Result A → Result B
map_result f (ok a) = ok (f a)
map_result f (err e) = err e

module _ (py : Python) where
  open py use {Float, str_of, int_of, float_of, trunc, round, le, is_zero, is_one, divide, show}

  -- `int(v) if v is not None else None`
  abbrev pub optional_int : Value Float → Result (Option ℤ)
  optional_int v = if is_null v then ok none else map_result some (int_of v)

  -- `v or 0`
  abbrev pub or_zero : Value Float → Value Float
  or_zero v = if truthy py v then v else int (pos 0)

  unfoldable pub read_identity : Fields Float → Result Identity
  read_identity d = do
    timestamp ← int_of (get "timestamp" d)
    seq ← optional_int (get "seq" d)
    error_flags ← int_of (or_zero (get_or "error_flags" (get_or "status" (int (pos 0)) d) d))
    ok (record {
      node_id = str_of (get "node_id" d);
      timestamp = timestamp;
      seq = seq;
      error_flags = error_flags;
    })

  -- `_f`: the first key with a value decides, also where the value is no number.
  unfoldable pub read_float : List String → Fields Float → Result (Option Float)
  read_float [] d = ok none
  read_float (key ∷ keys) d =
      let rest = read_float keys d in
      if is_null (get key d) then rest else catch_conversion (float_of (get key d))

  abbrev pub truncate : Option Float → Result (Option ℤ)
  truncate none = ok none
  truncate (some x) = map_result some (trunc x)

  -- `_i`
  unfoldable pub read_int : List String → Fields Float → Result (Option ℤ)
  unfolding read_float
  read_int keys d = read_float keys d >>= truncate

  abbrev pub rescale : Float → Option Float → Option Float
  rescale scale none = none
  rescale scale (some x) =
      if not (is_zero scale) && not (is_one scale) then some (divide x scale) else some x

  abbrev pub reason : ParseConfig Float → Option Float → ℤ → Option String
  reason cfg none error_flags = some "rssi_missing"
  reason cfg (some x) error_flags =
      if not (le cfg.rssi_min x && le x cfg.rssi_max)
      then some ("rssi_out_of_range(" ++ show x ++ ")")
      else if not (eqb_ℤ error_flags (pos 0))
      then some ("error_flags(" ++ decimal_ℤ error_flags ++ ")")
      else none

  abbrev pub is_absent {ℓ} : {A : Type ℓ} → Option A → Bool
  is_absent none = true
  is_absent (some _) = false

  -- A clock that is off by more than the allowed skew is replaced by the time of reception.
  abbrev pub clamp_timestamp : ParseConfig Float → ℕ → ℤ → ℤ
  clamp_timestamp cfg receive_ms timestamp =
      if ltb_ℤ cfg.timestamp_max_skew_ms (pos (abs (pos receive_ms -ℤ timestamp)))
      then pos receive_ms
      else timestamp

  abbrev pub rounded : Option Float → Result (Option ℤ)
  rounded none = ok none
  rounded (some x) = map_result some (round x)

  -- The result, from the identity and the two readings.
  unfoldable pub build :
      Fields Float
      → ℕ
      → ParseConfig Float
      → Identity
      → Option Float
      → Option Float
      → Result (Measurement Float)
  build d receive_ms cfg who filtered raw = do
    ap_channel ← read_int ("ap_channel" ∷ "channel" ∷ []) d
    rssi ← rounded filtered
    sample_count ← read_int ("sample_count" ∷ []) d
    pos_x ← read_float ("pos_x" ∷ []) d
    pos_y ← read_float ("pos_y" ∷ []) d
    pos_z ← read_float ("pos_z" ∷ []) d
    rot_w ← read_float ("rot_w" ∷ []) d
    rot_x ← read_float ("rot_x" ∷ []) d
    rot_y ← read_float ("rot_y" ∷ []) d
    rot_z ← read_float ("rot_z" ∷ []) d
    ok (record {
      node_id = who.node_id;
      timestamp = clamp_timestamp cfg receive_ms who.timestamp;
      ap_bssid = get "ap_bssid" d;
      ap_channel = ap_channel;
      rssi = rssi;
      rssi_filtered = filtered;
      rssi_raw = raw;
      sample_count = sample_count;
      seq = who.seq;
      status = who.error_flags;
      valid = is_absent (reason cfg filtered who.error_flags);
      invalid_reason = reason cfg filtered who.error_flags;
      pos_x = pos_x;
      pos_y = pos_y;
      pos_z = pos_z;
      rot_w = rot_w;
      rot_x = rot_x;
      rot_y = rot_y;
      rot_z = rot_z;
    })

  unfoldable pub parse_known :
      Fields Float → ℕ → ParseConfig Float → Option Identity → Result (Option (Measurement Float))
  parse_known d receive_ms cfg none = ok none
  parse_known d receive_ms cfg (some who) = do
    filtered ← read_float ("rssi_filtered_dbm" ∷ "rssi_filtered" ∷ "rssi" ∷ []) d
    raw ← read_float ("rssi_raw_dbm" ∷ "rssi_raw" ∷ []) d
    map_result some (
        build d receive_ms cfg who (rescale cfg.rssi_filtered_scale filtered)
          (rescale cfg.rssi_filtered_scale raw))

  unfoldable pub parse_measurement :
      Fields Float → ℕ → ParseConfig Float → Result (Option (Measurement Float))
  unfolding parse_known
  parse_measurement d receive_ms cfg =
      if has_key "node_id" d && has_key "timestamp" d
      then (do who ← catch_conversion (read_identity d); parse_known d receive_ms cfg who)
      else ok none

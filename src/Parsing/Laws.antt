-- ===== src/Parsing/Laws.antt =====
-- What `parse_measurement` promises of each payload.
use network_backend_article.Base.{
  ℕ, ◌≡◌, refl, String, Bool, true, false, not, ◌&&◌, ◌||◌, inl, inr, Option, none, some, [], ◌∷◌,
  ◌↔◌, arith, Bool-cases,
}
use network_backend_article.Base.Int.{ℤ, pos, ◌-ℤ◌, ◌≤ℤ◌, abs, eqb_ℤ}
use network_backend_article.Base.Result.{Result, ok, err, type_error, value_error}
use network_backend_article.Base.Raises.{bind-ok, catch_conversion}
use network_backend_article.Base.Python.{Python, Fields, int, has_key, get, get_or, is_null}
use network_backend_article.Parsing.{
  ParseConfig, Measurement, Identity, read_identity, read_float, build, parse_known,
  parse_measurement, reason, or_zero, rescale, clamp_timestamp, is_absent,
}

module _ (py : Python) where
  open py use {Float, int_of, le}

  -- What makes a sample usable: a filtered RSSI in the range, and no error flag.
  abbrev pub is_clean : ParseConfig Float → Option Float → ℤ → Bool
  is_clean cfg none flags = false
  is_clean cfg (some x) flags = le cfg.rssi_min x && le x cfg.rssi_max && eqb_ℤ flags (pos 0)

  clean-reason :
      (cfg : ParseConfig Float) (f : Option Float) (flags : ℤ)
      → is_absent py (reason py cfg f flags) ≡ is_clean cfg f flags
  clean-reason cfg none flags = refl
  clean-reason cfg (some x) flags = ground arith

  reason_iff : (r : Option String) {b : Bool} → is_absent py r ≡ b → (b ≡ true) ↔ (r ≡ none)
  reason_iff none e = ground arith
  reason_iff (some why) e = ground arith

  clamp-le :
      (cfg : ParseConfig Float) (receive_ms : ℕ) (t : ℤ)
      → pos 0 ≤ℤ cfg.timestamp_max_skew_ms
      → pos (abs (pos receive_ms -ℤ clamp_timestamp py cfg receive_ms t))
        ≤ℤ cfg.timestamp_max_skew_ms
  unfolding ◌-ℤ◌
  clamp-le cfg receive_ms t nonneg = ground arith

  -- What `build` puts in the fields that the checks are about.
  record IsBuilt (cfg : ParseConfig Float) (receive_ms : ℕ) (who : Identity) (f : Option Float)
      (m : Measurement Float) : Type 0 where
    node : m.node_id ≡ who.node_id
    time : m.timestamp ≡ clamp_timestamp py cfg receive_ms who.timestamp
    filtered : m.rssi_filtered ≡ f
    flags : m.status ≡ who.error_flags
    why : m.invalid_reason ≡ reason py cfg f who.error_flags
    verdict : m.valid ≡ is_absent py (reason py cfg f who.error_flags)

  build-IsBuilt :
      (d : Fields Float) (receive_ms : ℕ) (cfg : ParseConfig Float) (who : Identity)
      (f raw : Option Float) (m : Measurement Float)
      → build py d receive_ms cfg who f raw ≡ ok m
      → IsBuilt cfg receive_ms who f m
  unfolding build
  build-IsBuilt d receive_ms cfg who f raw m h = ground arith

  -- The measurement of a parsed payload comes from `build`.
  parse_known-some :
      (d : Fields Float) (receive_ms : ℕ) (cfg : ParseConfig Float) (who : Option Identity)
      (m : Measurement Float)
      → parse_known py d receive_ms cfg who ≡ ok (some m)
      → (id : Identity) × (f : Option Float) × (raw : Option Float) × (build py d receive_ms cfg id
            f raw
          ≡ ok m)
  unfolding parse_known
  parse_known-some d receive_ms cfg none m h = cc
  parse_known-some d receive_ms cfg (some who) m h =
      let (f, ef, h') =
        bind-ok (read_float py ("rssi_filtered_dbm" ∷ "rssi_filtered" ∷ "rssi" ∷ []) d) _ h in
      let (raw, er, h'') = bind-ok (read_float py ("rssi_raw_dbm" ∷ "rssi_raw" ∷ []) d) _ h' in
      (
        who,
        rescale py cfg.rssi_filtered_scale f,
        rescale py cfg.rssi_filtered_scale raw,
        ground (arith, h''),
      )

  parse-some :
      (d : Fields Float) (receive_ms : ℕ) (cfg : ParseConfig Float) (m : Measurement Float)
      → parse_measurement py d receive_ms cfg ≡ ok (some m)
      → (id : Identity) × (f : Option Float) × (raw : Option Float) × (build py d receive_ms cfg id
            f raw
          ≡ ok m)
  unfolding parse_measurement
  parse-some d receive_ms cfg m h =
      elim (Bool-cases (has_key "node_id" d && has_key "timestamp" d)) [
        | inl known ↦
            let (who, e, h') = bind-ok (catch_conversion (read_identity py d)) _ (rw known at h) in
            parse_known-some d receive_ms cfg who m h'
        | inr missing ↦ cc (rw missing at h)
      ]

  -- A parsed payload is judged by the range and the flags alone: it is valid exactly when it is
  -- clean, and exactly the invalid ones carry a reason.
  pub parse-verdict :
      (d : Fields Float) (receive_ms : ℕ) (cfg : ParseConfig Float) (m : Measurement Float)
      → parse_measurement py d receive_ms cfg ≡ ok (some m)
      → (m.valid ≡ is_clean cfg m.rssi_filtered m.status)
        × ((m.valid ≡ true) ↔ (m.invalid_reason ≡ none))
  parse-verdict d receive_ms cfg m h =
      let (who, f, raw, e) = parse-some d receive_ms cfg m h in
      let b = build-IsBuilt d receive_ms cfg who f raw m e in verdict_of who f b
    where
      verdict_of :
          (who : Identity) (f : Option Float)
          → IsBuilt cfg receive_ms who f m
          → (m.valid ≡ is_clean cfg m.rssi_filtered m.status)
            × ((m.valid ≡ true) ↔ (m.invalid_reason ≡ none))
      verdict_of who f b =
          rw (b.filtered, b.flags, b.verdict, b.why, clean-reason cfg f who.error_flags)
            (
              refl,
              reason_iff (reason py cfg f who.error_flags) (clean-reason cfg f who.error_flags),
            )

  -- With an allowed skew that is not negative, the time of a returned measurement is no further
  -- from the time of reception than the skew.
  pub parse-timestamp :
      (d : Fields Float) (receive_ms : ℕ) (cfg : ParseConfig Float) (m : Measurement Float)
      → pos 0 ≤ℤ cfg.timestamp_max_skew_ms
      → parse_measurement py d receive_ms cfg ≡ ok (some m)
      → pos (abs (pos receive_ms -ℤ m.timestamp)) ≤ℤ cfg.timestamp_max_skew_ms
  parse-timestamp d receive_ms cfg m nonneg h =
      let (who, f, raw, e) = parse-some d receive_ms cfg m h in
      let b = build-IsBuilt d receive_ms cfg who f raw m e in
      rw b.time (clamp-le cfg receive_ms who.timestamp nonneg)

  -- A conversion raises one of the two exceptions that the parser catches.
  abbrev pub is_refused : Result ℤ → Bool
  is_refused (err type_error) = true
  is_refused (err value_error) = true
  is_refused _ = false

  abbrev pub is_converted : Result ℤ → Bool
  is_converted (ok n) = true
  is_converted (err e) = false

  -- `int` of a `seq` that is given, then of the error flags, or of the status where there are none
  -- and of 0 where the value is empty.
  abbrev pub is_misnumbered : Fields Float → Bool
  is_misnumbered d =
      not (is_null (get "seq" d)) && is_refused (int_of (get "seq" d))
      || (is_null (get "seq" d) || is_converted (int_of (get "seq" d)))
        && is_refused
            (int_of (or_zero py (get_or "error_flags" (get_or "status" (int (pos 0)) d) d)))

  -- A payload is dropped in these cases and in no other: it lacks `node_id` or `timestamp`; `int`
  -- of the timestamp raises TypeError or ValueError; or the timestamp is a number, and `int` of a
  -- `seq` that is given, or if that is converted or missing, `int` of the error flags, does.
  pub parse-none :
      (d : Fields Float) (receive_ms : ℕ) (cfg : ParseConfig Float)
      → (parse_measurement py d receive_ms cfg ≡ ok none) ↔ (
          (not (has_key "node_id" d && has_key "timestamp" d)
            || is_refused (int_of (get "timestamp" d))
            || is_converted (int_of (get "timestamp" d)) && is_misnumbered d)
          ≡ true)
  unfolding parse_measurement read_identity
  parse-none d receive_ms cfg = ground arith

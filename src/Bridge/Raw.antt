-- ===== src/Bridge/Raw.antt =====
-- The raw backup file under `handle_message` (backend/mqtt_bridge.py).
use network_backend_article.Base.{
  ℕ, String, Bool, true, false, Option, none, some, List, [], ◌∷◌, ◌++◌, arith, ◌≡◌, refl, sym, ◌∙◌,
  append_nil, if◌then◌else◌,
}
use network_backend_article.Base.Frame.{Keeps, bind-Keeps, then-Keeps}
use network_backend_article.Base.Result.{Result, Action, Error, ok, err, pure, lift, modify, ◌>>◌}
use network_backend_article.Base.Python.{
  Python, Value, Items, Fields, nil, cons, obj, null, bool, int, float, str, arr, get,
}
use network_backend_article.Parsing.{ParseConfig, Measurement}
use network_backend_article.Store.Tables.{JsonlLine}
use network_backend_article.Store.Measurements.{insert_measurements, append_jsonl}
use network_backend_article.Realtime.Window.{add}
use network_backend_article.Bridge.{
  Bridge, Services, run_of, point_of_segment, keep_raw, record_experiment, accept, ingest,
  take_reading, batch_reading, readings_loop, gateway_readings, count_direct, handle_gateway_batch,
  handle_lwt, dispatch, handle_message, with_batch_time, drop_message, count_received, on_manager,
  ingest_or_drop,
}
use network_backend_article.Bridge.Topic.{is_lwt, is_gateway}

pub lines : {F : Type 0} → Bridge F → List JsonlLine
lines b = b.manager.store.jsonl

abbrev pub raw_line : {F : Type 0} → String → String → ℕ → Bridge F → JsonlLine
raw_line topic text receive_ms b = record {
  recv_ms = receive_ms;
  topic = topic;
  session_id = run_of b.manager.active_run;
  point_id = point_of_segment b.manager.active_test_segment;
  payload = text;
}

module _ (py : Python) (services : Services py.Float) (cfg : ParseConfig py.Float)
    (receive_ms now : ℕ) where
  open py use {Float}

  abbrev Same : Action (Bridge Float) (Unit {0}) → Type 0
  Same f = Keeps (lines {F = Float}) f

  record-Keeps :
      (m : Measurement Float)
      → Same (on_manager (record_experiment py services cfg receive_ms now m))
  unfolding record_experiment insert_measurements lines Keeps
  record-Keeps m b = ground arith

  count-Keeps : Same (modify count_received)
  unfolding lines Keeps
  count-Keeps b = refl

  lift-Keeps : {A : Type 0} (r : Result A) → Keeps (lines {F = Float}) (lift r)
  unfolding lines Keeps
  lift-Keeps r b = refl

  done-Keeps : Same (pure tt)
  unfolding lines Keeps
  done-Keeps b = refl

  drop-Keeps : Same drop_message
  unfolding lines Keeps
  drop-Keeps b = refl

  accept-Keeps : (m : Measurement Float) → Same (accept py services cfg receive_ms now m)
  unfolding accept add Keeps lines
  accept-Keeps m b = ground arith

  valid-Keeps :
      (valid : Bool) (m : Measurement Float)
      → Same (elim valid as (λ _. Action (Bridge Float) (Unit {0})) [
        | false ↦ drop_message
        | true ↦ accept py services cfg receive_ms now m
      ])
  valid-Keeps true m = accept-Keeps m
  valid-Keeps false m = drop-Keeps

  ingest-Keeps : (m : Measurement Float) → Same (ingest py services cfg receive_ms now m)
  unfolding ingest
  ingest-Keeps m = then-Keeps lines _ _ (record-Keeps m) (valid-Keeps m.valid m)

  parsed-Keeps :
      (m : Option (Measurement Float)) → Same (ingest_or_drop py services cfg receive_ms now m)
  parsed-Keeps none = drop-Keeps
  parsed-Keeps (some m) = ingest-Keeps m

  reading-Keeps : (d : Fields Float) → Same (take_reading py services cfg receive_ms now d)
  unfolding take_reading
  reading-Keeps d =
      then-Keeps lines _ _ count-Keeps (bind-Keeps lines _ _ (lift-Keeps _) parsed-Keeps)

  batch-Keeps : (ts v : Value Float) → Same (batch_reading py services cfg receive_ms now ts v)
  batch-Keeps ts (obj d) = reading-Keeps (with_batch_time py services cfg receive_ms now ts d)
  batch-Keeps ts null = drop-Keeps
  batch-Keeps ts (bool _) = drop-Keeps
  batch-Keeps ts (int _) = drop-Keeps
  batch-Keeps ts (float _) = drop-Keeps
  batch-Keeps ts (str _) = drop-Keeps
  batch-Keeps ts (arr _) = drop-Keeps

  loop-Keeps :
      (ts : Value Float) (vs : Items Float)
      → Same (readings_loop py services cfg receive_ms now ts vs)
  unfolding readings_loop
  loop-Keeps ts nil = done-Keeps
  loop-Keeps ts (cons v vs) = then-Keeps lines _ _ (batch-Keeps ts v) (loop-Keeps ts vs)

  gateway-Keeps : (ts v : Value Float) → Same (gateway_readings py services cfg receive_ms now ts v)
  gateway-Keeps ts (arr vs) = loop-Keeps ts vs
  gateway-Keeps ts null = drop-Keeps
  gateway-Keeps ts (bool _) = drop-Keeps
  gateway-Keeps ts (int _) = drop-Keeps
  gateway-Keeps ts (float _) = drop-Keeps
  gateway-Keeps ts (str _) = drop-Keeps
  gateway-Keeps ts (obj _) = drop-Keeps

  lwt-Keeps :
      (topic : String) (d : Fields Float) → Same (handle_lwt py services cfg receive_ms now topic d)
  unfolding Keeps lines handle_lwt
  lwt-Keeps topic d b = ground arith

  direct-Keeps :
      (gateway : Bool) (d : Fields Float)
      → Same (elim gateway as (λ _. Action (Bridge Float) (Unit {0})) [
        | true ↦ handle_gateway_batch py services cfg receive_ms now d
        | false ↦ take_reading py services cfg receive_ms now d
      ])
  direct-Keeps true d = gateway-Keeps (get "timestamp" d) (get "readings" d)
  direct-Keeps false d = reading-Keeps d

  object-Keeps :
      (lwt : Bool) (topic : String) (d : Fields Float)
      → Same (elim lwt as (λ _. Action (Bridge Float) (Unit {0})) [
        | true ↦ handle_lwt py services cfg receive_ms now topic d
        | false ↦ elim (is_gateway topic) as (λ _. Action (Bridge Float) (Unit {0})) [
          | true ↦ handle_gateway_batch py services cfg receive_ms now d
          | false ↦ take_reading py services cfg receive_ms now d
        ]
      ])
  object-Keeps true topic d = lwt-Keeps topic d
  object-Keeps false topic d = direct-Keeps (is_gateway topic) d

  refuse-Keeps :
      (topic : String) (e : Error)
      → Same (modify (count_direct py services cfg receive_ms now topic) >> lift (err e))
  unfolding Keeps lines
  refuse-Keeps topic e b = ground arith

  dispatch-Keeps :
      (topic : String) (json : Result (Option (Value Float)))
      → Same (dispatch py services cfg receive_ms now topic json)
  dispatch-Keeps topic (err e) = lift-Keeps (err e)
  dispatch-Keeps topic (ok none) = drop-Keeps
  dispatch-Keeps topic (ok (some (obj d))) = object-Keeps (is_lwt topic) topic d
  dispatch-Keeps topic (ok (some null)) = refuse-Keeps topic _
  dispatch-Keeps topic (ok (some (bool _))) = refuse-Keeps topic _
  dispatch-Keeps topic (ok (some (int _))) = refuse-Keeps topic _
  dispatch-Keeps topic (ok (some (float _))) = refuse-Keeps topic _
  dispatch-Keeps topic (ok (some (str _))) = refuse-Keeps topic _
  dispatch-Keeps topic (ok (some (arr _))) = refuse-Keeps topic _

  kept :
      (written : Bool) (topic text : String) (b : Bridge Float)
      → is_lwt topic ≡ false
      → lines (keep_raw written topic text receive_ms b)
        ≡ lines b ++ (if written then raw_line topic text receive_ms b ∷ [] else [])
  unfolding lines keep_raw append_jsonl
  kept true topic text b direct = simp direct
  kept false topic text b direct = rw direct (sym (append_nil b.manager.store.jsonl))

  -- Whatever a message holds whose topic does not end in /lwt, and also where its handling raises,
  -- the backup file is changed in one way only: where it takes a line, the one with the topic and
  -- the text of the message and the active Run and point stands at its end.
  pub handle_message-keeps_raw :
      (topic : String) (payload : services.Payload) (b : Bridge Float)
      → is_lwt topic ≡ false
      → lines (handle_message py services cfg receive_ms now topic payload b).1
        ≡ lines b
          ++ (if services.appends
              then raw_line topic (services.decode_replace payload) receive_ms b ∷ []
              else [])
  unfolding Keeps handle_message
  handle_message-keeps_raw topic payload b direct =
      dispatch-Keeps topic (services.loads payload) _
      ∙ kept services.appends topic (services.decode_replace payload) b direct

-- ===== src/Bridge/Counters.antt =====
-- The counters under a reading and a gateway batch (backend/mqtt_bridge.py).
use network_backend_article.Base.{
  ℕ, ◌+◌, Bool, true, false, Option, none, some, List, [], ◌∷◌, ◌++◌, arith, ◌≡◌,
}
use network_backend_article.Base.Frame.{Adds, bind-Adds, then-Adds}
use network_backend_article.Base.Result.{Result, Action, ok, pure, lift, modify}
use network_backend_article.Base.Python.{
  Python, Value, Items, Fields, nil, cons, obj, null, bool, int, float, str, arr,
}
use network_backend_article.Parsing.{ParseConfig, Measurement, parse_measurement}
use network_backend_article.Realtime.Window.{add}
use network_backend_article.Metrics.{drop_rate}
use network_backend_article.Bridge.{
  Bridge, Services, Call, enqueue_raw, upsert_node_status, broadcast, record_experiment, accept,
  ingest, take_reading, batch_reading, readings_loop, with_batch_time, drop_message, count_received,
  on_manager, ingest_or_drop, see, add_to_window, log_call, announce,
}
use network_backend_article.Registry.{NodeStatus}

-- The measurements that were passed on to the database's queue.
unfoldable queued : {F : Type 0} → List (Call F) → ℕ
queued [] = 0
queued (enqueue_raw m ∷ cs) = queued cs + 1
queued (upsert_node_status s ∷ cs) = queued cs
queued (broadcast s ∷ cs) = queued cs

queued-append : {F : Type 0} (cs ds : List (Call F)) → queued (cs ++ ds) ≡ queued cs + queued ds
unfolding queued
queued-append [] ds = omega arith
queued-append (enqueue_raw m ∷ cs) ds = let h = queued-append cs ds in omega arith
queued-append (upsert_node_status s ∷ cs) ds = queued-append cs ds
queued-append (broadcast s ∷ cs) ds = queued-append cs ds

-- The readings that were dropped or passed on.
pub handled : {F : Type 0} → Bridge F → ℕ
handled b = b.metrics.messages_dropped + queued b.calls

pub received : {F : Type 0} → Bridge F → ℕ
received b = b.metrics.messages_received

pub size : {F : Type 0} → Items F → ℕ
size nil = 0
size (cons v vs) = size vs + 1

module _ (py : Python) (services : Services py.Float) (cfg : ParseConfig py.Float)
    (receive_ms now : ℕ) where
  open py use {Float}

  abbrev Handles : {A : Type 0} → ℕ → Action (Bridge Float) A → Type 0
  Handles n f = Adds (handled {F = Float}) n f

  count-Handles : Handles 0 (modify count_received)
  unfolding handled Adds
  count-Handles b a e = omega arith

  lift-Handles : {A : Type 0} (r : Result A) → Handles 0 (lift r)
  unfolding handled Adds
  lift-Handles r b a e = omega arith

  done-Handles : Handles 0 (pure tt)
  unfolding handled Adds
  done-Handles b a e = omega arith

  drop-Handles : Handles 1 drop_message
  unfolding handled Adds
  drop-Handles b a e = omega arith

  record-Handles :
      (m : Measurement Float)
      → Handles 0 (on_manager (record_experiment py services cfg receive_ms now m))
  unfolding handled Adds
  record-Handles m b a e = omega arith

  see-Handles : (m : Measurement Float) → Handles 0 (see m now)
  unfolding handled Adds
  see-Handles m b a e = omega arith

  window-Handles : (m : Measurement Float) → Handles 0 (add_to_window m receive_ms)
  unfolding handled Adds add
  window-Handles m b a e = ground arith

  enqueue-Handles : (m : Measurement Float) → Handles 1 (modify (log_call (enqueue_raw m)))
  unfolding handled Adds queued
  enqueue-Handles m b a e = let h = queued-append b.calls (enqueue_raw m ∷ []) in omega arith

  upsert-Handles : (s : NodeStatus) → Handles 0 (modify (log_call (upsert_node_status s)))
  unfolding handled Adds queued
  upsert-Handles s b a e = let h = queued-append b.calls (upsert_node_status s ∷ []) in omega arith

  announce-Handles : (new : Bool) (s : NodeStatus) → Handles 0 (modify (announce new s))
  unfolding handled Adds queued
  announce-Handles true s b a e = let h = queued-append b.calls (broadcast s ∷ []) in omega arith
  announce-Handles false s b a e = omega arith

  accept-Handles : (m : Measurement Float) → Handles 1 (accept py services cfg receive_ms now m)
  unfolding accept
  accept-Handles m = bind-Adds handled 0 1 _ _ (see-Handles m) λ (s, new).
      then-Adds handled 0 1 _ _ (window-Handles m) (
        then-Adds handled 1 0 _ _ (enqueue-Handles m) (
          then-Adds handled 0 0 _ _ (upsert-Handles s) (
            then-Adds handled 0 0 _ _ (lift-Handles (services.upsert s)) (announce-Handles new s))))

  valid-Handles :
      (valid : Bool) (m : Measurement Float)
      → Handles 1 (elim valid as (λ _. Action (Bridge Float) (Unit {0})) [
        | false ↦ drop_message
        | true ↦ accept py services cfg receive_ms now m
      ])
  valid-Handles true m = accept-Handles m
  valid-Handles false m = drop-Handles

  ingest-Handles : (m : Measurement Float) → Handles 1 (ingest py services cfg receive_ms now m)
  unfolding ingest
  ingest-Handles m = then-Adds handled 0 1 _ _ (record-Handles m) (valid-Handles m.valid m)

  parsed-Handles :
      (m : Option (Measurement Float)) → Handles 1 (ingest_or_drop py services cfg receive_ms now m)
  parsed-Handles none = drop-Handles
  parsed-Handles (some m) = ingest-Handles m

  reading-Handles : (d : Fields Float) → Handles 1 (take_reading py services cfg receive_ms now d)
  unfolding take_reading
  reading-Handles d =
      then-Adds handled 0 1 _ _ count-Handles
        (bind-Adds handled 0 1 _ _ (lift-Handles _) parsed-Handles)

  batch-Handles :
      (ts v : Value Float) → Handles 1 (batch_reading py services cfg receive_ms now ts v)
  batch-Handles ts (obj d) = reading-Handles (with_batch_time py services cfg receive_ms now ts d)
  batch-Handles ts null = drop-Handles
  batch-Handles ts (bool _) = drop-Handles
  batch-Handles ts (int _) = drop-Handles
  batch-Handles ts (float _) = drop-Handles
  batch-Handles ts (str _) = drop-Handles
  batch-Handles ts (arr _) = drop-Handles

  -- Of the readings of a gateway batch that is handled without an exception, each is either
  -- dropped and counted as such, or passed on to the database's queue: none is lost and none
  -- counts twice.
  pub readings_loop-handles_each :
      (batch_ts : Value Float) (readings : Items Float) (b : Bridge Float) (a : Unit {0})
      → (readings_loop py services cfg receive_ms now batch_ts readings b).0 ≡ ok a
      → handled (readings_loop py services cfg receive_ms now batch_ts readings b).1
        ≡ handled b + size readings
  unfolding readings_loop Adds size
  readings_loop-handles_each ts nil b a e = omega arith
  readings_loop-handles_each ts (cons v vs) b a e =
      let h =
        then-Adds handled 1 (size vs) _ _ (batch-Handles ts v) (readings_loop-handles_each ts vs) b
          a e in
      omega arith

  -- A reading that the parser refuses is counted once as received and once as dropped, and the
  -- drop rate divides by the sum of the two counts: the one reading adds two to the total.
  pub take_reading-drop_total :
      (d : Fields Float) (b : Bridge Float)
      → parse_measurement py d receive_ms cfg ≡ ok none
      → drop_rate (take_reading py services cfg receive_ms now d b).1.metrics ≡ record {
        dropped = b.metrics.messages_dropped + 1;
        total = b.metrics.messages_received + b.metrics.messages_dropped + 2;
      }
  unfolding take_reading drop_rate
  take_reading-drop_total d b refused = ground arith

-- ===== src/Experiment/Windows/Reach.antt =====
-- The states that the manager reaches from an empty store, by requests in the order of time.
use network_backend_article.Base.{ℕ, ◌≤◌, ◌≡◌, ◌≢◌, String, subst, ap, arith, count}
use network_backend_article.Base.Result.{err, integrity_error}
use network_backend_article.Store.Tables.{empty}
use network_backend_article.Experiment
use network_backend_article.Experiment.State.{Manager, init}
use network_backend_article.Experiment.Requests.{
  Request, Write, upsert_point, upsert_device_offset, upsert_tx, append_jsonl, append_measurements,
  write, write_in, perform, forget,
}
use network_backend_article.Experiment.Windows.Order.{takes, count-takes-le}
use network_backend_article.Experiment.Windows.Invariant.{IsTimely, AllTimely, AllOrdered, AllOwned}
use network_backend_article.Experiment.Windows.Steps.{
  IsTimely-later, start_experiment-IsTimely, reboot-IsTimely, end_experiment-IsTimely,
  assign-IsTimely, start_offset_run-IsTimely, stop_offset_run-IsTimely, start_run-IsTimely,
  prepare_test_segment-IsTimely,
}
use network_backend_article.Experiment.Windows.Closing.{
  attach_post_offset-IsTimely, mark_run_interrupted-IsTimely, end_run-IsTimely,
  finish_test_segment-IsTimely, auto_advance_segment-IsTimely, discard_test_segment-IsTimely,
}

-- `t` is the last reading of the clock by the request, or any time where it reads none.
abbrev pub Reads : ℕ → Request → Type 0
Reads t (Request.start_experiment id bssid channel memo t' t'') = t'' ≡ t
Reads t (Request.end_experiment t') = t' ≡ t
Reads t (Request.assign node point role t') = t' ≡ t
Reads t (Request.start_offset_run phase memo t' t'' t''') = t''' ≡ t
Reads t (Request.stop_offset_run t') = t' ≡ t
Reads t (Request.start_run direction pass pre memo t') = t' ≡ t
Reads t (Request.attach_post_offset post run) = Unit
Reads t (Request.end_run t') = t' ≡ t
Reads t (Request.mark_run_interrupted run) = Unit
Reads t (Request.prepare_test_segment point order stab rec memo t') = t' ≡ t
Reads t (Request.finish_test_segment t') = t' ≡ t
Reads t (Request.discard_test_segment t') = t' ≡ t
Reads t (Request.auto_advance_segment t') = t' ≡ t
Reads t (Request.restart t') = t' ≡ t

-- Requests in the order of time, with other writes between them, none of which writes a row under an id that is taken. A request
-- may fail with any other exception.
pub data Reach {F : Type 0} : ℕ → Manager F → Type 0 where
  here : (now : ℕ) → Reach now (init empty)
  next :
      {now : ℕ} {m : Manager F}
      → Reach now m
      → (r : Request) (t : ℕ) → now ≤ t
      → Reads t r
      → (perform r m).0 ≢ err integrity_error
      → Reach t (perform r m).1
  written : {now : ℕ} {m : Manager F} → Reach now m → (w : Write F) → Reach now (write_in w m)

module _ {F : Type 0} where
  perform-IsTimely :
      (r : Request) (now t : ℕ) (m : Manager F)
      → now ≤ t
      → Reads t r
      → (perform r m).0 ≢ err integrity_error
      → IsTimely now m
      → IsTimely t (perform r m).1
  unfolding perform
  perform-IsTimely (Request.start_experiment id bssid channel memo t' t'') now t m le read new h =
      IsTimely-later now t _ le (start_experiment-IsTimely id bssid channel memo t' t'' now m h)
  perform-IsTimely (Request.end_experiment t') now t m le read new h =
      IsTimely-later now t _ le (end_experiment-IsTimely t' now m h)
  perform-IsTimely (Request.assign node point role t') now t m le read new h =
      IsTimely-later now t _ le (assign-IsTimely node point role t' now m h)
  perform-IsTimely (Request.start_offset_run phase memo t' t'' t''') now t m le read new h =
      IsTimely-later now t _ le (start_offset_run-IsTimely phase memo t' t'' t''' now m h)
  perform-IsTimely (Request.stop_offset_run t') now t m le read new h =
      IsTimely-later now t _ le (stop_offset_run-IsTimely t' now m h)
  perform-IsTimely (Request.start_run direction pass pre memo t') now t m le read new h =
      IsTimely-later now t _ le
        (start_run-IsTimely direction pass pre memo t' now m (λ q. new (ap forget q)) h)
  perform-IsTimely (Request.attach_post_offset post run) now t m le read new h =
      IsTimely-later now t _ le (attach_post_offset-IsTimely post run now m h)
  perform-IsTimely (Request.end_run t') now t m le read new h =
      IsTimely-later now t _ le (end_run-IsTimely t' now m h)
  perform-IsTimely (Request.mark_run_interrupted run) now t m le read new h =
      IsTimely-later now t _ le (mark_run_interrupted-IsTimely run now m h)
  perform-IsTimely (Request.prepare_test_segment point order stab rec memo t') now t m le read new
        h =
      subst (λ u. IsTimely u (Experiment.prepare_test_segment point order stab rec memo t' m).1)
        read
        (prepare_test_segment-IsTimely point order stab rec memo now t' m (omega arith)
          (λ q. new (ap forget q)) h)
  perform-IsTimely (Request.finish_test_segment t') now t m le read new h =
      rw read (finish_test_segment-IsTimely now t m le h)
  perform-IsTimely (Request.discard_test_segment t') now t m le read new h =
      rw read (discard_test_segment-IsTimely now t m le h)
  perform-IsTimely (Request.auto_advance_segment t') now t m le read new h =
      rw read (auto_advance_segment-IsTimely now t m le h)
  perform-IsTimely (Request.restart t') now t m le read new h =
      IsTimely-later now t _ le (reboot-IsTimely t' now m h)

  write-IsTimely :
      (w : Write F) (now : ℕ) (m : Manager F) → IsTimely now m → IsTimely now (write_in w m)
  unfolding write
  write-IsTimely (upsert_point a b c d e f g t) now m h = record {
    ordered = h.ordered;
    timely = h.timely;
    owned = h.owned;
    listed = h.listed;
  }
  write-IsTimely (upsert_device_offset a b c d e f g t) now m h = record {
    ordered = h.ordered;
    timely = h.timely;
    owned = h.owned;
    listed = h.listed;
  }
  write-IsTimely (upsert_tx a b c d e f g i j) now m h = record {
    ordered = h.ordered;
    timely = h.timely;
    owned = h.owned;
    listed = h.listed;
  }
  write-IsTimely (append_jsonl w a b c d e) now m h = record {
    ordered = h.ordered;
    timely = h.timely;
    owned = h.owned;
    listed = h.listed;
  }
  write-IsTimely (append_measurements rows) now m h = record {
    ordered = h.ordered;
    timely = h.timely;
    owned = h.owned;
    listed = h.listed;
  }

  start-IsTimely : (now : ℕ) → IsTimely {F = F} now (init empty)
  unfolding AllTimely AllOwned AllOrdered
  start-IsTimely now = record { ordered = tt; timely = tt; owned = tt; listed = tt }

  pub Reach-IsTimely : {now : ℕ} {m : Manager F} → Reach now m → IsTimely now m
  Reach-IsTimely (here now) = start-IsTimely now
  Reach-IsTimely (next {now = now} {m = m} reached r t le read new) =
      perform-IsTimely r now t m le read new (Reach-IsTimely reached)
  Reach-IsTimely (written {now = now} {m = m} reached w) =
      write-IsTimely w now m (Reach-IsTimely reached)

  -- In every state that is reached, a time of the server lies in the window of at most one
  -- TestSegment of a Run that may take samples.
  pub Reach-one_window :
      {now : ℕ} {m : Manager F}
      → Reach now m
      → (run_id : String) (server_ts_ms : ℕ)
      → count (takes run_id server_ts_ms) m.store.segments ≤ 1
  unfolding AllOrdered
  Reach-one_window {m = m} reached run_id server_ts_ms =
      count-takes-le run_id server_ts_ms m.store.segments (Reach-IsTimely reached).ordered

-- ===== src/Realtime/Tests.antt =====
-- Samples and calls on one window buffer (backend/realtime/window.py), and the theorems on them.
use network_backend_article.Base.{ℕ, ◌≡◌, refl, none, some, List, [], ◌∷◌, String}
use network_backend_article.Base.Int.{pos, ◌-ℤ◌, mod_ℤ}
use network_backend_article.Base.Python.{null}
use network_backend_article.Realtime.Window.{
  Buffer, Sample, init, add, bucket_of, ready_before, emit_ready, pop_ready, bucket_keys,
}
use network_backend_article.Realtime.Emission.{IsAscending, window_times}
use network_backend_article.Realtime.Calls.{
  Call, added, popped, run, run-IsAscending, run-IsEmission, new-IsFresh,
}
use network_backend_article.Realtime.Reference.{due_windows, waiting_windows, pop_ready-filter}

abbrev sample : String → ℕ → Sample ℕ
sample node ts = record {
  node_id = node;
  timestamp = some (pos ts);
  rssi = none;
  ap_bssid = null;
  seq = none;
  position = (none, none, none);
  rotation = (none, none, none, none);
}

abbrev calls : List (Call ℕ)
calls =
    added (sample "n1" 450) 500
    ∷ added (sample "n2" 10) 501
    ∷ added (sample "n1" 230) 502
    ∷ popped 510 ("n1" ∷ "n2" ∷ [])
    ∷ added (sample "n2" 20) 511
    ∷ popped 2000 ("n1" ∷ [])
    ∷ []

calls-windows : window_times (run calls (init 200 none none)).0 ≡ pos 0 ∷ pos 200 ∷ pos 400 ∷ []
unfolding run add bucket_of ◌-ℤ◌ mod_ℤ pop_ready emit_ready ready_before
calls-windows = refl

run-IsAscending_example : IsAscending none (window_times (run calls (init 200 none none)).0)
run-IsAscending_example = run-IsAscending 200 none none calls

abbrev two_windows : Buffer ℕ
two_windows =
    (run (added (sample "n1" 450) 500 ∷ added (sample "n2" 10) 501 ∷ []) (init 200 none none)).1

pop_ready-filter_example :
    (window_times (pop_ready 510 [] two_windows).0 ≡ due_windows 510 two_windows)
    × (bucket_keys (pop_ready 510 [] two_windows).1.buckets ≡ waiting_windows 510 two_windows)
pop_ready-filter_example =
    pop_ready-filter 510 [] two_windows
      (run-IsEmission (added (sample "n1" 450) 500 ∷ added (sample "n2" 10) 501 ∷ [])
        (init 200 none none) (new-IsFresh 200 none none)).fresh

-- ===== src/Realtime/Calls.antt =====
-- Sequences of calls on one `WindowBuffer` of backend/realtime/window.py.
use network_backend_article.Base.{
  ℕ, ◌≡◌, refl, ap, sym, subst, ◌∙◌, String, true, Option, none, List, [], ◌∷◌, ◌++◌, arith, inl,
  inr, Bool-cases,
}
use network_backend_article.Base.Int.{ℤ}
use network_backend_article.Base.Result.{Result, ok, err}
use network_backend_article.Realtime.Window.{
  Item, Buffer, Frame, Sample, init, is_late, pop_ready, add_to, add_in, add,
}
use network_backend_article.Realtime.Emission.{
  is_after, IsAscending, last_of, IsAscending-append, last_of-append, IsFresh, IsEmission,
  window_times, put_item-All, put_item-Pairwise, pop_ready-IsEmission,
}

-- The calls on one buffer, by the bridge and by the loop that flushes the windows.
pub data Call (F : Type 0) : Type 0 where
  added : Sample F → ℕ → Call F
  popped : ℕ → List String → Call F

module _ {F : Type 0} where
  -- One call; an exception of `add` ends the call.
  abbrev pub answer : Call F → Buffer F → List (Frame F) × Buffer F
  answer (added sample receive_ms) b = ([], (add sample receive_ms b).1)
  answer (popped current_ms known) b = pop_ready current_ms known b

  -- All frames of a sequence of calls, in order.
  unfoldable pub run : List (Call F) → Buffer F → List (Frame F) × Buffer F
  run [] b = ([], b)
  run (c ∷ cs) b =
      let (frames, b') = answer c b in let (more, b'') = run cs b' in (frames ++ more, b'')

module _ {F : Type 0} where
  add_to-IsFresh : (k : ℤ) (item : Item F) (b : Buffer F) → IsFresh b → IsFresh (add_to k item b)
  add_to-IsFresh k item b fresh = elim (Bool-cases (is_late b.emitted_before k)) [
    | inl e ↦ rw e (record { after = fresh.after; distinct = fresh.distinct })
    | inr e ↦ rw e (record {
      after =
          put_item-All k (λ j. is_after b.emitted_before j ≡ true) item b.buckets (ground arith)
            fresh.after;
      distinct = put_item-Pairwise k item b.buckets fresh.distinct;
    })
  ]

  add_in-IsFresh :
      (r : Result ℤ) (item : Item F) (b : Buffer F) → IsFresh b → IsFresh (add_in r item b).1
  add_in-IsFresh (err e) item b fresh = fresh
  add_in-IsFresh (ok k) item b fresh = add_to-IsFresh k item b fresh

  add_in-kept :
      (r : Result ℤ) (item : Item F) (b : Buffer F)
      → (add_in r item b).1.emitted_before ≡ b.emitted_before
  add_in-kept (err e) item b = refl
  add_in-kept (ok k) item b = elim (Bool-cases (is_late b.emitted_before k)) [
    | inl e ↦ rw e refl
    | inr e ↦ rw e refl
  ]

  answer-IsEmission : (c : Call F) (b : Buffer F) → IsFresh b → IsEmission b (answer c b)
  unfolding add
  answer-IsEmission (added sample receive_ms) b fresh = record {
    ascending = tt;
    last = add_in-kept _ _ b;
    fresh = add_in-IsFresh _ _ b fresh;
  }
  answer-IsEmission (popped current_ms known) b fresh =
      (pop_ready-IsEmission current_ms known b fresh).0

  window_times-append :
      (xs ys : List (Frame F)) → window_times (xs ++ ys) ≡ window_times xs ++ window_times ys
  window_times-append [] ys = refl
  window_times-append (x ∷ xs) ys = ap (λ l. x.window_ts ∷ l) (window_times-append xs ys)

  pub new-IsFresh :
      (window_size_ms : ℕ) (grace_ms stall_flush_ms : Option ℕ)
      → IsFresh {F = F} (init window_size_ms grace_ms stall_flush_ms)
  new-IsFresh window_size_ms grace_ms stall_flush_ms = record { after = tt; distinct = tt }

  pub run-IsEmission : (cs : List (Call F)) (b : Buffer F) → IsFresh b → IsEmission b (run cs b)
  unfolding run
  run-IsEmission [] b fresh = record { ascending = tt; last = refl; fresh = fresh }
  run-IsEmission (c ∷ cs) b fresh =
      let one = answer-IsEmission c b fresh in
      let rest = run-IsEmission cs (answer c b).1 one.fresh in
      let joined = window_times-append (answer c b).0 (run cs (answer c b).1).0 in
      let more =
        last_of-append b.emitted_before (window_times (answer c b).0)
          (window_times (run cs (answer c b).1).0) in
      record {
        ascending = rw joined (
            IsAscending-append b.emitted_before (window_times (answer c b).0) _ one.ascending (
              subst (λ e. IsAscending e (window_times (run cs (answer c b).1).0)) one.last
                rest.ascending));
        last =
            rest.last
            ∙ ap (λ e. last_of e (window_times (run cs (answer c b).1).0)) one.last
            ∙ sym more
            ∙ ap (λ l. last_of b.emitted_before l) (sym joined);
        fresh = rest.fresh;
      }

  -- Over any calls on a new buffer, with samples in any order and with any times, the windows of
  -- the frames are strictly ascending: no window is emitted twice or behind a later one.
  pub run-IsAscending :
      (window_size_ms : ℕ) (grace_ms stall_flush_ms : Option ℕ) (cs : List (Call F))
      → IsAscending none (window_times (run cs (init window_size_ms grace_ms stall_flush_ms)).0)
  run-IsAscending window_size_ms grace_ms stall_flush_ms cs =
      (run-IsEmission cs (init window_size_ms grace_ms stall_flush_ms)
        (new-IsFresh window_size_ms grace_ms stall_flush_ms)).ascending

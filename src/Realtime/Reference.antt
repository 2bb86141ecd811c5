-- ===== src/Realtime/Reference.antt =====
-- `pop_ready` of backend/realtime/window.py against two filters of the windows that it holds.
use network_backend_article.Base.{
  ℕ, ◌+◌, ◌≡◌, Option, none, some, ◌||◌, ◌&&◌, leb, refl, ap, sym, ◌∙◌, String, Bool, true, false,
  not, List, [], ◌∷◌, arith, inl, inr, All, Bool-cases, filter, sort_by,
}
use network_backend_article.Base.Int.{
  ℤ, pos, pos_part, neg_part, ◌-ℤ◌, -ℤ_parts, ltb_ℤ, leb_ℤ, max_ℤ,
}
use network_backend_article.Realtime.Window.{
  Buckets, Buffer, emit_ready, remove_bucket, bucket_keys, close_bucket, pop_ready, ready_before,
}
use network_backend_article.Realtime.Emission.{IsFresh, window_times, pop_ready-IsEmission}

filter-all : (p : ℤ → Bool) (ks : List ℤ) → All (λ k. p k ≡ true) ks → filter p ks ≡ ks
filter-all p [] h = refl
filter-all p (k ∷ ks) h = rw h.0 (ap (λ l. k ∷ l) (filter-all p ks h.1))

module _ {F : Type 0} (known : List String) (ready : ℤ) where
  emit_ready-times :
      (ks : List ℤ) (b : Buffer F)
      → window_times (emit_ready known ready ks b).0 ≡ filter (λ k. not (ltb_ℤ ready k)) ks
  unfolding emit_ready
  emit_ready-times [] b = refl
  emit_ready-times (ts ∷ ks) b = elim (Bool-cases (ltb_ℤ ready ts)) [
    | inl e ↦ rw (e, emit_ready) (emit_ready-times ks b)
    | inr e ↦ rw (e, emit_ready) (ap (λ l. ts ∷ l) (emit_ready-times ks (close_bucket ts b)))
  ]

  filter-remove_bucket :
      (ts : ℤ) (bs : Buckets F)
      → ltb_ℤ ready ts ≡ false
      → filter (ltb_ℤ ready) (bucket_keys (remove_bucket ts bs))
        ≡ filter (ltb_ℤ ready) (bucket_keys bs)
  filter-remove_bucket ts [] e = refl
  filter-remove_bucket ts ((k, bucket) ∷ bs) e = ground (arith, filter-remove_bucket ts bs e)

  emit_ready-rest :
      (ks : List ℤ) (b : Buffer F)
      → filter (ltb_ℤ ready) (bucket_keys (emit_ready known ready ks b).1.buckets)
        ≡ filter (ltb_ℤ ready) (bucket_keys b.buckets)
  unfolding emit_ready
  emit_ready-rest [] b = refl
  emit_ready-rest (ts ∷ ks) b = elim (Bool-cases (ltb_ℤ ready ts)) [
    | inl e ↦ rw (e, emit_ready) (emit_ready-rest ks b)
    | inr e ↦
        rw (e, emit_ready)
          (emit_ready-rest ks (close_bucket ts b) ∙ filter-remove_bucket ts b.buckets e)
  ]

-- A window may be emitted: its end and the grace lie behind the newest time that was measured, or
-- those and the time after which a stream counts as still lie behind the clock. Both sides are
-- sums of numbers, with the negative part of a time on the other side.
abbrev pub is_behind : ℤ → ℕ → Option ℤ → Bool
is_behind k span none = false
is_behind k span (some w) = leb (pos_part k + span + neg_part w) (pos_part w + neg_part k)

abbrev pub is_due : {F : Type 0} → ℕ → Buffer F → ℤ → Bool
is_due current_ms b k =
    is_behind k (b.window_size_ms + b.grace_ms) b.watermark
    || leb (pos_part k + b.window_size_ms + b.grace_ms + b.stall_flush_ms) (current_ms + neg_part k)

-- The windows that are due, in ascending order.
abbrev pub due_windows : {F : Type 0} → ℕ → Buffer F → List ℤ
due_windows current_ms b = filter (is_due current_ms b) (sort_by leb_ℤ (bucket_keys b.buckets))

-- The windows that are not, in their order.
abbrev pub waiting_windows : {F : Type 0} → ℕ → Buffer F → List ℤ
waiting_windows current_ms b = filter (λ k. not (is_due current_ms b k)) (bucket_keys b.buckets)

filter-same : (p q : ℤ → Bool) (ks : List ℤ) → ((k : ℤ) → p k ≡ q k) → filter p ks ≡ filter q ks
filter-same p q [] same = refl
filter-same p q (k ∷ ks) same = rw (same k, filter-same p q ks same) refl

after_wall :
    (current window grace stall : ℕ) (k : ℤ)
    → ltb_ℤ (pos current -ℤ pos window -ℤ pos grace -ℤ pos stall) k
      ≡ not (leb (pos_part k + window + grace + stall) (current + neg_part k))
after_wall current window grace stall k =
    let a = pos current -ℤ pos window in
    let b = a -ℤ pos grace in
    let e = -ℤ_parts (pos current) (pos window) in
    let f = -ℤ_parts a (pos grace) in let g = -ℤ_parts b (pos stall) in ground (arith, e, f, g)

after_stream :
    (w : ℤ) (window grace : ℕ) (k : ℤ)
    → ltb_ℤ (w -ℤ pos window -ℤ pos grace) k ≡ not (is_behind k (window + grace) (some w))
after_stream w window grace k =
    let a = w -ℤ pos window in
    let e = -ℤ_parts w (pos window) in let f = -ℤ_parts a (pos grace) in ground (arith, e, f)

not-not : (b : Bool) → not (not b) ≡ b
not-not b = ground arith

neither : {a b : Bool} (x y : Bool) → a ≡ not x → b ≡ not y → (a && b) ≡ not (x || y)
neither x y e f = ground (arith, e, f)

later : (a b k : ℤ) → ltb_ℤ (max_ℤ a b) k ≡ (ltb_ℤ a k && ltb_ℤ b k)
later a b k = ground arith

module _ {F : Type 0} where
  ready_before-due :
      (current_ms : ℕ) (b : Buffer F) (k : ℤ)
      → ltb_ℤ (ready_before current_ms b) k ≡ not (is_due current_ms b k)
  unfolding ready_before
  ready_before-due current_ms b k = due b.watermark refl
    where
      due :
          (w : Option ℤ)
          → b.watermark ≡ w
          → ltb_ℤ (ready_before current_ms b) k ≡ not (is_due current_ms b k)
      due none e = rw e (after_wall current_ms b.window_size_ms b.grace_ms b.stall_flush_ms k)
      due (some w) e = rw e (
          later (w -ℤ pos b.window_size_ms -ℤ pos b.grace_ms)
            (pos current_ms -ℤ pos b.window_size_ms -ℤ pos b.grace_ms -ℤ pos b.stall_flush_ms) k
          ∙ neither (is_behind k (b.window_size_ms + b.grace_ms) (some w)) _
              (after_stream w b.window_size_ms b.grace_ms k)
              (after_wall current_ms b.window_size_ms b.grace_ms b.stall_flush_ms k))

  -- On a buffer with no two buckets of one window and none of an emitted one, `pop_ready` emits
  -- exactly the windows that are due, in ascending order, and keeps exactly the others: those
  -- whose end and grace lie no later than the newest time that was measured, or with the time
  -- after which a stream counts as still, no later than the clock.
  pub pop_ready-filter :
      (current_ms : ℕ) (known : List String) (b : Buffer F)
      → IsFresh b
      → (window_times (pop_ready current_ms known b).0 ≡ due_windows current_ms b)
        × (bucket_keys (pop_ready current_ms known b).1.buckets ≡ waiting_windows current_ms b)
  unfolding pop_ready
  pop_ready-filter current_ms known b fresh =
      let ready = ready_before current_ms b in
      let ks = sort_by leb_ℤ (bucket_keys b.buckets) in
      (
        emit_ready-times known ready ks b
            ∙ filter-same (λ k. not (ltb_ℤ ready k)) (is_due current_ms b) ks
                (λ k. rw (ready_before-due current_ms b k) (not-not (is_due current_ms b k))),
        sym (
              filter-all (ltb_ℤ ready) (bucket_keys (emit_ready known ready ks b).1.buckets)
                (pop_ready-IsEmission current_ms known b fresh).1)
            ∙ emit_ready-rest known ready ks b
            ∙ filter-same (ltb_ℤ ready) (λ k. not (is_due current_ms b k)) (bucket_keys b.buckets)
                (ready_before-due current_ms b),
      )

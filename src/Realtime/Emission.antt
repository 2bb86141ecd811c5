-- ===== src/Realtime/Emission.antt =====
-- The order in which `WindowBuffer` of backend/realtime/window.py emits its windows.
use network_backend_article.Base.{
  ℕ, ◌≡◌, refl, ap, subst, ◌∙◌, String, Bool, true, false, not, ◌||◌, Option, none, some, List, [],
  ◌∷◌, ◌++◌, arith, inl, inr, All, All-map, any, sort_by, Bool-cases,
}
use network_backend_article.Base.Int.{ℤ, ltb_ℤ, leb_ℤ, eqb_ℤ}
use network_backend_article.Base.Sorting.{
  Pairwise, IsOrder, sort_by-Pairwise, Pairwise-sort_by, Pairwise-both, All-both, All-sort_by,
  any-sort_by,
}
use network_backend_article.Realtime.Window.{
  Item, Buckets, Buffer, Frame, is_late, latest, put_item, remove_bucket, bucket_keys, close_bucket,
  emit, emit_ready, pop_ready, ready_before,
}

-- The window begins after everything that was emitted.
abbrev pub is_after : Option ℤ → ℤ → Bool
is_after emitted k = not (is_late emitted k)

abbrev apart : ℤ → ℤ → Bool
apart a b = not (eqb_ℤ a b)

-- Each time is later than the one before, the first later than `emitted`.
abbrev pub IsAscending : Option ℤ → List ℤ → Type 0
IsAscending emitted [] = Unit
IsAscending emitted (k ∷ ks) = (is_after emitted k ≡ true) × IsAscending (some k) ks

abbrev pub last_of : Option ℤ → List ℤ → Option ℤ
last_of emitted [] = emitted
last_of emitted (k ∷ ks) = last_of (some k) ks

pub IsAscending-append :
    (emitted : Option ℤ) (ks js : List ℤ)
    → IsAscending emitted ks
    → IsAscending (last_of emitted ks) js
    → IsAscending emitted (ks ++ js)
IsAscending-append emitted [] js h g = g
IsAscending-append emitted (k ∷ ks) js h g = (h.0, IsAscending-append (some k) ks js h.1 g)

pub last_of-append :
    (emitted : Option ℤ) (ks js : List ℤ)
    → last_of emitted (ks ++ js) ≡ last_of (last_of emitted ks) js
last_of-append emitted [] js = refl
last_of-append emitted (k ∷ ks) js = last_of-append (some k) ks js

leb_ℤ-IsOrder : IsOrder leb_ℤ
leb_ℤ-IsOrder = record { total = λ x y h. ground arith; transitive = λ x y z h k. ground arith }

All-is_among : (ks : List ℤ) → All (λ k. any (eqb_ℤ k) ks ≡ true) ks
All-is_among [] = tt
All-is_among (k ∷ ks) = (ground arith, All-map (λ j h. ground arith) ks (All-is_among ks))

later_among :
    (ts k : ℤ) (ks : List ℤ)
    → All (λ j. ltb_ℤ ts j ≡ true) ks
    → any (eqb_ℤ k) ks ≡ true
    → is_after (some ts) k ≡ true
later_among ts k [] h e = ground arith
later_among ts k (j ∷ ks) h e = elim (Bool-cases (eqb_ℤ k j)) [
  | inl p ↦ let q = h.0 in ground arith
  | inr p ↦ later_among ts k ks h.1 (ground arith)
]

latest-after : (emitted : Option ℤ) (k : ℤ) → is_after emitted k ≡ true → latest emitted k ≡ k
latest-after none k h = refl
latest-after (some e) k h = ground arith

module _ {F : Type 0} (ts : ℤ) where
  remove_bucket-All :
      (P : ℤ → Type 0) (bs : Buckets F)
      → All P (bucket_keys bs)
      → All P (bucket_keys (remove_bucket ts bs))
  remove_bucket-All P [] h = tt
  remove_bucket-All P ((k, bucket) ∷ bs) h = elim (Bool-cases (eqb_ℤ k ts)) [
    | inl e ↦ rw e h.1
    | inr e ↦ rw e (h.0, remove_bucket-All P bs h.1)
  ]

  remove_bucket-Pairwise :
      (bs : Buckets F)
      → Pairwise apart (bucket_keys bs)
      → Pairwise apart (bucket_keys (remove_bucket ts bs))
  remove_bucket-Pairwise [] h = tt
  remove_bucket-Pairwise ((k, bucket) ∷ bs) h = elim (Bool-cases (eqb_ℤ k ts)) [
    | inl e ↦ rw e h.1
    | inr e ↦ rw e (remove_bucket-All (λ j. apart k j ≡ true) bs h.0, remove_bucket-Pairwise bs h.1)
  ]

  remove_bucket-apart :
      (bs : Buckets F)
      → Pairwise apart (bucket_keys bs)
      → All (λ k. apart ts k ≡ true) (bucket_keys (remove_bucket ts bs))
  remove_bucket-apart [] h = tt
  remove_bucket-apart ((k, bucket) ∷ bs) h = elim (Bool-cases (eqb_ℤ k ts)) [
    | inl e ↦ rw e (All-map (λ j p. ground arith) (bucket_keys bs) h.0)
    | inr e ↦ rw e (ground arith, remove_bucket-apart bs h.1)
  ]

  pub put_item-All :
      (P : ℤ → Type 0) (item : Item F) (bs : Buckets F)
      → P ts
      → All P (bucket_keys bs)
      → All P (bucket_keys (put_item ts item bs))
  put_item-All P item [] p h = (p, tt)
  put_item-All P item ((k, bucket) ∷ bs) p h = elim (Bool-cases (eqb_ℤ k ts)) [
    | inl e ↦ rw e h
    | inr e ↦ rw e (h.0, put_item-All P item bs p h.1)
  ]

  pub put_item-Pairwise :
      (item : Item F) (bs : Buckets F)
      → Pairwise apart (bucket_keys bs)
      → Pairwise apart (bucket_keys (put_item ts item bs))
  put_item-Pairwise item [] h = (tt, tt)
  put_item-Pairwise item ((k, bucket) ∷ bs) h = elim (Bool-cases (eqb_ℤ k ts)) [
    | inl e ↦ rw e h
    | inr e ↦ rw e (
      put_item-All (λ j. apart k j ≡ true) item bs (ground arith) h.0,
      put_item-Pairwise item bs h.1,
    )
  ]

-- No two buckets are of one window, and none is of a window that was emitted.
pub record IsFresh {F : Type 0} (b : Buffer F) : Type 0 where
  pub after : All (λ k. is_after b.emitted_before k ≡ true) (bucket_keys b.buckets)
  pub distinct : Pairwise apart (bucket_keys b.buckets)

abbrev pub window_times : {F : Type 0} → List (Frame F) → List ℤ
window_times [] = []
window_times (f ∷ fs) = f.window_ts ∷ window_times fs

-- What the frames of a step say of the buffer before and after it.
pub record IsEmission {F : Type 0} (b : Buffer F) (r : List (Frame F) × Buffer F) : Type 0 where
  pub ascending : IsAscending b.emitted_before (window_times r.0)
  pub last : r.1.emitted_before ≡ last_of b.emitted_before (window_times r.0)
  pub fresh : IsFresh r.1

after_pending :
    (ready ts : ℤ) (ks : List ℤ)
    → ltb_ℤ ready ts ≡ false
    → All (λ j. ltb_ℤ ts j ≡ true) ks
    → (k : ℤ) → (ltb_ℤ ready k || any (eqb_ℤ k) ks) ≡ true
    → is_after (some ts) k ≡ true
after_pending ready ts ks e later k p = elim (Bool-cases (any (eqb_ℤ k) ks)) [
  | inl q ↦ later_among ts k ks later q
  | inr q ↦ ground arith
]

module _ {F : Type 0} (known : List String) (ready : ℤ) where
  -- A bucket that is ready is still among the keys of the loop.
  abbrev IsPending : List ℤ → Buffer F → Type 0
  IsPending ks b = All (λ k. (ltb_ℤ ready k || any (eqb_ℤ k) ks) ≡ true) (bucket_keys b.buckets)

  -- What the loop leaves is not ready.
  abbrev AllWait : Buffer F → Type 0
  AllWait b = All (λ k. ltb_ℤ ready k ≡ true) (bucket_keys b.buckets)

  still-IsPending :
      (ts : ℤ) (ks : List ℤ) (b : Buffer F)
      → IsPending (ts ∷ ks) b
      → IsFresh b
      → IsPending ks (close_bucket ts b)
  still-IsPending ts ks b pending fresh =
      All-both (λ k p q. ground arith) (bucket_keys (remove_bucket ts b.buckets))
        (remove_bucket-All ts (λ k. (ltb_ℤ ready k || any (eqb_ℤ k) (ts ∷ ks)) ≡ true) b.buckets
          pending)
        (remove_bucket-apart ts b.buckets fresh.distinct)

  close_bucket-IsFresh :
      (ts : ℤ) (ks : List ℤ) (b : Buffer F)
      → ltb_ℤ ready ts ≡ false
      → is_after b.emitted_before ts ≡ true
      → All (λ j. ltb_ℤ ts j ≡ true) ks
      → IsPending ks (close_bucket ts b)
      → IsFresh b
      → IsFresh (close_bucket ts b)
  close_bucket-IsFresh ts ks b e new later pending fresh = record {
    after = rw (latest-after b.emitted_before ts new) (
        All-map (after_pending ready ts ks e later) (bucket_keys (remove_bucket ts b.buckets))
          pending);
    distinct = remove_bucket-Pairwise ts b.buckets fresh.distinct;
  }

  emit-IsEmission :
      (ts : ℤ) (b : Buffer F) (r : List (Frame F) × Buffer F)
      → is_after b.emitted_before ts ≡ true
      → IsEmission (close_bucket ts b) r
      → IsEmission b (emit known ts b ∷ r.0, r.1)
  emit-IsEmission ts b r new h = record {
    ascending = (
      new,
      subst (λ k. IsAscending (some k) (window_times r.0)) (latest-after b.emitted_before ts new)
          h.ascending,
    );
    last =
        h.last
        ∙ ap (λ k. last_of (some k) (window_times r.0)) (latest-after b.emitted_before ts new);
    fresh = h.fresh;
  }

  emit_ready-IsEmission :
      (ks : List ℤ) (b : Buffer F)
      → Pairwise ltb_ℤ ks
      → All (λ k. is_after b.emitted_before k ≡ true) ks
      → IsPending ks b
      → IsFresh b
      → IsEmission b (emit_ready known ready ks b) × AllWait (emit_ready known ready ks b).1
  unfolding emit_ready
  emit_ready-IsEmission [] b sorted later pending fresh = (
    record { ascending = tt; last = refl; fresh = fresh },
    All-map (λ k p. ground arith) (bucket_keys b.buckets) pending,
  )
  emit_ready-IsEmission (ts ∷ ks) b sorted later pending fresh =
      elim (Bool-cases (ltb_ℤ ready ts)) [
        | inl e ↦
            rw (e, emit_ready)
              (emit_ready-IsEmission ks b sorted.1 later.1
                (All-map (λ k p. ground arith) (bucket_keys b.buckets) pending) fresh)
        | inr e ↦
            let rest = still-IsPending ts ks b pending fresh in
            let fresh' = close_bucket-IsFresh ts ks b e later.0 sorted.0 rest fresh in
            let (more, wait) =
              emit_ready-IsEmission ks (close_bucket ts b) sorted.1
                (rw (latest-after b.emitted_before ts later.0)
                  (All-map (λ k p. ground arith) ks sorted.0))
                rest fresh' in
            rw (e, emit_ready)
              (
                emit-IsEmission ts b (emit_ready known ready ks (close_bucket ts b)) later.0 more,
                wait,
              )
      ]

module _ {F : Type 0} where
  pub pop_ready-IsEmission :
      (current_ms : ℕ) (known : List String) (b : Buffer F)
      → IsFresh b
      → IsEmission b (pop_ready current_ms known b)
        × All
            (λ k. ltb_ℤ (ready_before current_ms b) k ≡ true)
            (bucket_keys (pop_ready current_ms known b).1.buckets)
  unfolding pop_ready
  pop_ready-IsEmission current_ms known b fresh =
      let ks = bucket_keys b.buckets in
      emit_ready-IsEmission known (ready_before current_ms b) (sort_by leb_ℤ ks) b
        (Pairwise-both leb_ℤ apart ltb_ℤ (λ x y p q. ground arith) (sort_by leb_ℤ ks)
          (sort_by-Pairwise leb_ℤ leb_ℤ-IsOrder ks)
          (Pairwise-sort_by leb_ℤ apart (λ x y p. ground arith) ks fresh.distinct))
        (All-sort_by leb_ℤ (λ k. is_after b.emitted_before k ≡ true) ks fresh.after)
        (All-map {P = λ k. any (eqb_ℤ k) ks ≡ true}
          {Q = λ k.
            (ltb_ℤ (ready_before current_ms b) k || any (eqb_ℤ k) (sort_by leb_ℤ ks)) ≡ true}
          (λ k p. rw (any-sort_by leb_ℤ (eqb_ℤ k) ks, p) (ground arith)) ks (All-is_among ks))
        fresh

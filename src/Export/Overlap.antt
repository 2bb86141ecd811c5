-- ===== src/Export/Overlap.antt =====
-- The check of backend/export.py for windows that overlap, on the states that the manager reaches.
use network_backend_article.Base.{
  ℕ, ◌≡◌, refl, String, Bool, true, false, not, ◌&&◌, ◌||◌, List, [], ◌∷◌, map, arith, str_eq,
  eq_iff, filter, ltb, leb, ◌==◌, All, All-map, sort_by, Bool-cases, inl, inr,
}
use network_backend_article.Base.Sorting.{
  Pairwise, Pairwise-sort_by, Pairwise-filter, Pairwise-map, All-filter_self, All-sort_by,
  All-of_map, IsOrder, sort_by-Pairwise,
}
use network_backend_article.Store.Tables.{SegmentRow}
use network_backend_article.Store.Segments.{list_test_segments}
use network_backend_article.Experiment.State.{Manager}
use network_backend_article.Experiment.Windows.Order.{IsOrdered, follows}
use network_backend_article.Experiment.Windows.Invariant.{AllOrdered}
use network_backend_article.Experiment.Windows.Reach.{Reach, Reach-IsTimely}
use network_backend_article.Export.Rows.{is_counted}
use network_backend_article.Export.Checks.{earlier, overlaps, span, has_overlap}

earlier-IsOrder : IsOrder earlier
earlier-IsOrder = record { total = λ x y h. ground arith; transitive = λ x y z h k. ground arith }

-- One of two spans has ended when the other begins.
abbrev apart : ℕ × ℕ → ℕ × ℕ → Bool
apart a b = leb a.1 b.0 || leb b.1 a.0

-- Of the counted windows of one Run.
abbrev are_apart : SegmentRow → SegmentRow → Bool
are_apart a b =
    not (str_eq a.run_id b.run_id)
    || not (is_counted a)
    || not (is_counted b)
    || apart (span a) (span b)

follows-apart : (a b : SegmentRow) → follows a b ≡ true → are_apart a b ≡ true
follows-apart a b h = ground arith

are_apart_comm : (a b : SegmentRow) → are_apart a b ≡ true → are_apart b a ≡ true
are_apart_comm a b h = ground (arith, eq_iff a.run_id b.run_id, eq_iff b.run_id a.run_id)

IsOrdered-apart : (rows : List SegmentRow) → IsOrdered rows → Pairwise are_apart rows
IsOrdered-apart [] h = tt
IsOrdered-apart (a ∷ rows) h =
    (All-map (λ b k. follows-apart a b k) rows h.0, IsOrdered-apart rows h.1)

-- Spans that are not empty, and apart, do not overlap once they are sorted.
abbrev is_proper : ℕ × ℕ → Bool
is_proper a = ltb a.0 a.1

sorted_apart :
    (a b : ℕ × ℕ) → earlier a b ≡ true → apart a b ≡ true → is_proper b ≡ true → ltb b.0 a.1 ≡ false
sorted_apart a b e p q = ground arith

overlaps-sorted :
    (spans : List (ℕ × ℕ))
    → Pairwise earlier spans
    → Pairwise apart spans
    → All (λ s. is_proper s ≡ true) spans
    → overlaps spans ≡ false
overlaps-sorted [] e p q = refl
overlaps-sorted (a ∷ []) e p q = refl
overlaps-sorted (a ∷ b ∷ spans) e p q =
    rw (sorted_apart a b e.0.0 p.0.0 q.1.0) (overlaps-sorted (b ∷ spans) e.1 p.1 q.1)

abbrev is_of : String → SegmentRow → Bool
is_of run_id s = str_eq s.run_id run_id && is_counted s

-- The counted windows of the Run are not empty.
abbrev pub has_time : String → SegmentRow → Bool
has_time run_id s = not (is_of run_id s) || is_proper (span s)

apart_of :
    (run_id : String) (a b : SegmentRow)
    → is_of run_id a ≡ true
    → is_of run_id b ≡ true
    → are_apart a b ≡ true
    → apart (span a) (span b) ≡ true
apart_of run_id a b p q h =
    ground (arith, eq_iff a.run_id run_id, eq_iff b.run_id run_id, eq_iff a.run_id b.run_id)

module _ (run_id : String) where
  near :
      (a : SegmentRow) (rows : List SegmentRow)
      → is_of run_id a ≡ true
      → All (λ b. are_apart a b ≡ true) rows
      → All (λ b. apart (span a) (span b) ≡ true) (filter (is_of run_id) rows)
  near a [] p h = tt
  near a (b ∷ rows) p h = elim (Bool-cases (is_of run_id b)) [
    | inl e ↦ rw e (apart_of run_id a b p e h.0, near a rows p h.1)
    | inr e ↦ rw e (near a rows p h.1)
  ]

  chosen_apart :
      (rows : List SegmentRow)
      → Pairwise are_apart rows
      → Pairwise (λ a b. apart (span a) (span b)) (filter (is_of run_id) rows)
  chosen_apart [] h = tt
  chosen_apart (a ∷ rows) h = elim (Bool-cases (is_of run_id a)) [
    | inl e ↦ rw e (near a rows e h.0, chosen_apart rows h.1)
    | inr e ↦ rw e (chosen_apart rows h.1)
  ]

  chosen_proper :
      (rows : List SegmentRow)
      → All (λ s. has_time run_id s ≡ true) rows
      → All (λ s. is_proper (span s) ≡ true) (filter (is_of run_id) rows)
  chosen_proper [] h = tt
  chosen_proper (a ∷ rows) h = elim (Bool-cases (is_of run_id a)) [
    | inl e ↦ rw e (ground arith, chosen_proper rows h.1)
    | inr e ↦ rw e (chosen_proper rows h.1)
  ]

pub has_overlap-apart :
    (run_id : String) (rows : List SegmentRow)
    → Pairwise are_apart rows
    → All (λ s. has_time run_id s ≡ true) rows
    → has_overlap run_id rows ≡ false
unfolding has_overlap
has_overlap-apart run_id rows h t =
    overlaps-sorted (sort_by earlier (map span (filter (is_of run_id) rows)))
      (sort_by-Pairwise earlier earlier-IsOrder (map span (filter (is_of run_id) rows)))
      (Pairwise-sort_by earlier apart (λ x y k. ground arith)
        (map span (filter (is_of run_id) rows))
        (Pairwise-map span apart (filter (is_of run_id) rows) (chosen_apart run_id rows h)))
      (All-sort_by earlier (λ s. is_proper s ≡ true) (map span (filter (is_of run_id) rows))
        (All-of_map span (λ s. is_proper s ≡ true) (filter (is_of run_id) rows)
          (chosen_proper run_id rows t)))

-- ORDER BY order_index, attempt_index
abbrev by_order : SegmentRow → SegmentRow → Bool
by_order a b =
    ltb a.order_index b.order_index
    || (a.order_index == b.order_index && leb a.attempt_index b.attempt_index)

module _ {F : Type 0} where
  -- In every state that is reached, if no window of a Run that counts is empty, the windows of the
  -- Run that the store lists do not overlap by the check of the export.
  pub Reach-has_overlap :
      {now : ℕ} {m : Manager F}
      → Reach now m
      → (run_id : String) → All (λ s. has_time run_id s ≡ true) m.store.segments
      → has_overlap run_id (list_test_segments run_id m.store) ≡ false
  unfolding list_test_segments AllOrdered
  Reach-has_overlap {m = m} reached run_id t =
      has_overlap-apart run_id (list_test_segments run_id m.store)
        (Pairwise-sort_by by_order are_apart are_apart_comm
          (filter (λ r. str_eq r.run_id run_id) m.store.segments)
          (Pairwise-filter (λ r. str_eq r.run_id run_id) are_apart m.store.segments
            (IsOrdered-apart m.store.segments (Reach-IsTimely reached).ordered)))
        (All-sort_by by_order (λ s. has_time run_id s ≡ true)
          (filter (λ r. str_eq r.run_id run_id) m.store.segments)
          (All-filter_self (λ r. str_eq r.run_id run_id) (λ s. has_time run_id s ≡ true)
            m.store.segments t))

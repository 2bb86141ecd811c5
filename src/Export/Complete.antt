-- ===== src/Export/Complete.antt =====
-- The rows of the summaries by window, and their TestSegments (backend/export.py).
use network_backend_article.Base.{
  ◌≡◌, refl, String, Bool, true, false, ◌&&◌, ◌||◌, Option, none, some, List, [], ◌∷◌, arith, inl,
  inr, str_eq, eq_iff, All, All-map, Bool-cases, sort_by,
}
use network_backend_article.Base.Dict.{Dict, lookup, assign_key, lookup-assign_key}
use network_backend_article.Base.Result.{Result, ok}
use network_backend_article.Base.Rows.{Within}
use network_backend_article.Base.Sorting.{
  Pairwise, Pairwise-sort_by, All-sort_by, All-of_map, Pairwise-under_map, All-under_map,
}
use network_backend_article.Store.Tables.{SegmentRow, SegmentStatus}
use network_backend_article.Export.Statistics.{Statistics}
use network_backend_article.Export.Groups.{pair_eq}
use network_backend_article.Export.Rows.{
  Row, Repr, WindowPoint, completed_segment_ids, in_kept, is_counted, is_completed, by_id,
  is_test_in, is_calibration_in, segment_key, id_or_empty,
}
use network_backend_article.Export.Summaries.{repr_rows}
use network_backend_article.Export.Windows.{
  group_point, by_start_and_point, by_start, meta_point, window_point, represented, test_groups,
  calibration_groups, summarize_test_points, summarize_calibration_by_window,
}
use network_backend_article.Export.Keys.{
  differ, All-Sublist, Pairwise-Sublist, Outcome, Collected, collect-Returns, Outcome, AllKeys,
  group_from-AllKeys, group_from-AreDistinct,
}

abbrev is_found : Option SegmentRow → Bool
is_found none = false
is_found (some s) = true

abbrev or_found : Bool → Option SegmentRow → Bool
or_found b o = b || is_found o

assign_found :
    (id : String) (s : SegmentRow) (d : Dict SegmentRow)
    → is_found (lookup id (assign_key s.segment_id s d))
      ≡ (str_eq s.segment_id id || is_found (lookup id d))
assign_found id s d =
    rw (lookup-assign_key s.segment_id id s d)
      (elim (Bool-cases (str_eq s.segment_id id)) [ inl e ↦ rw e refl | inr e ↦ rw e refl ])

is_found-kept :
    (id : String) (segments : List SegmentRow) (d : Dict SegmentRow)
    → (in_kept (completed_segment_ids segments) (some id) || is_found (lookup id d)) ≡ true
    → is_found (lookup id (by_id segments d)) ≡ true
is_found-kept id [] d h = h
is_found-kept id (s ∷ segments) d h =
    is_found-kept id segments (assign_key s.segment_id s d)
      (rw (assign_found id s d) (ground arith))

differ_comm : (a b : String) → differ a b ≡ true → differ b a ≡ true
differ_comm a b h = ground (arith, eq_iff a b, eq_iff b a)

-- A TestSegment of the id is completed and not superseded.
pub record HasWindow (segments : List SegmentRow) (id : String) : Type 0 where
  pub segment : SegmentRow
  pub listed : Within segment segments
  pub named : segment.segment_id ≡ id
  pub completed : segment.status ≡ SegmentStatus.completed
  pub current : segment.superseded ≡ false

abbrev behind :
    {s : SegmentRow} {segments : List SegmentRow} {id : String}
    → HasWindow segments id
    → HasWindow (s ∷ segments) id
behind w = record {
  segment = w.segment;
  listed = inr w.listed;
  named = w.named;
  completed = w.completed;
  current = w.current;
}

is_completed-status : (s : SegmentStatus) → is_completed s ≡ true → s ≡ SegmentStatus.completed
is_completed-status s h = ground arith

kept-HasWindow :
    (segments : List SegmentRow) (id : String)
    → in_kept (completed_segment_ids segments) (some id) ≡ true
    → HasWindow segments id
kept-HasWindow [] id h = ground arith
kept-HasWindow (s ∷ segments) id h = elim (Bool-cases (is_counted s && str_eq s.segment_id id)) [
  | inl e ↦ record {
    segment = s;
    listed = inl refl;
    named = ground (arith, eq_iff s.segment_id id);
    completed = is_completed-status s.status (ground arith);
    current = ground arith;
  }
  | inr e ↦ behind (kept-HasWindow segments id (ground arith))
]

module _ (st : Statistics) where
  open st use {Float}

  abbrev IsKeptId : List SegmentRow → String → Type 0
  IsKeptId segments id = in_kept (completed_segment_ids segments) (some id) ≡ true

  meta_point-Outcome :
      (id : String) (s : Option SegmentRow) (row : Row Float) (rep : Repr Float)
      → is_found s ≡ true
      → Outcome (λ b. b.segment_id) id (meta_point st id s row rep)
  meta_point-Outcome id none row rep h = ground arith
  meta_point-Outcome id (some s) row rep h = (some (window_point st id s row rep), refl, refl)

  represented-Outcome :
      (meta : Dict SegmentRow) (id : String) (row : Row Float) (rep : Option (Repr Float))
      → is_found (lookup id meta) ≡ true
      → Outcome (λ b. b.segment_id) id (represented st meta id row rep)
  represented-Outcome meta id row none h = (none, refl, tt)
  represented-Outcome meta id row (some rep) h = meta_point-Outcome id (lookup id meta) row rep h

  group_point-Outcome :
      (segments : List SegmentRow) (id : String) (rows : List (Row Float))
      → IsKeptId segments id
      → Outcome (λ b. b.segment_id) id (group_point st (by_id segments []) id rows)
  group_point-Outcome segments id [] h = (none, refl, tt)
  group_point-Outcome segments id (r ∷ rs) h =
      represented-Outcome (by_id segments []) id r (repr_rows st (r ∷ rs))
        (is_found-kept id segments [] (rw h refl))

  kept_key :
      (keep : List String) (b : Bool) (id : Option String)
      → (b && in_kept keep id) ≡ true
      → in_kept keep (some (id_or_empty id)) ≡ true
  kept_key keep b none h = ground arith
  kept_key keep b (some id) h = ground arith

  kept_groups :
      (rows : List (Row Float)) (segments : List SegmentRow)
      → AllKeys str_eq (IsKeptId segments) (test_groups st rows segments)
  kept_groups rows segments =
      group_from-AllKeys str_eq (IsKeptId segments) (is_test_in (completed_segment_ids segments))
        segment_key
        (λ r h.
          kept_key (completed_segment_ids segments) (str_eq r.point_role "test") r.segment_id h)
        rows [] tt

  abbrev test_point :
      List SegmentRow → String × List (Row Float) → Result (Option (WindowPoint Float))
  test_point segments g = group_point st (by_id segments []) g.0 g.1

  collected :
      (rows : List (Row Float)) (segments : List SegmentRow)
      → Collected
          (test_point segments)
          (λ g. g.0)
          (λ b. b.segment_id)
          (test_groups st rows segments)
  collected rows segments =
      collect-Returns (test_point segments) (λ g. g.0) (λ b. b.segment_id)
        (test_groups st rows segments)
        (All-map (λ g h. group_point-Outcome segments g.0 g.1 h) (test_groups st rows segments)
          (kept_groups rows segments))

  -- One row for each window, and only of windows that count.
  abbrev pub AreRows : List SegmentRow → List (WindowPoint Float) → Type 0
  AreRows segments out =
      All (λ t. HasWindow segments t.segment_id) out
      × Pairwise (λ a b. differ a.segment_id b.segment_id) out

  -- `summarize_test_points` raises nothing, whatever the rows and the TestSegments are; each row
  -- that it returns is of a TestSegment that is completed and not superseded, and no two rows
  -- are of one TestSegment.
  pub summarize_test_points-AreRows :
      (rows : List (Row Float)) (segments : List SegmentRow)
      → (out : List (WindowPoint Float)) × (summarize_test_points st rows segments ≡ ok out)
        × AreRows segments out
  unfolding summarize_test_points
  summarize_test_points-AreRows rows segments =
      let (bs, e, s) = collected rows segments in
      let kept =
        All-of_map (λ g. g.0) (IsKeptId segments) (test_groups st rows segments)
          (kept_groups rows segments) in
      let apart =
        group_from-AreDistinct (is_test_in (completed_segment_ids segments)) segment_key rows []
          tt in
      (
        sort_by (by_start st) bs,
        rw e refl,
        (
          All-sort_by (by_start st) (λ t. HasWindow segments t.segment_id) bs
              (All-map (λ t k. kept-HasWindow segments t.segment_id k) bs
                (All-under_map (λ b. b.segment_id) (IsKeptId segments) bs
                  (All-Sublist (IsKeptId segments) s kept))),
          Pairwise-sort_by (by_start st) (λ a b. differ a.segment_id b.segment_id)
              (λ x y h. differ_comm x.segment_id y.segment_id h) bs
              (Pairwise-under_map (λ b. b.segment_id) differ bs (Pairwise-Sublist differ s apart)),
        ),
      )

  abbrev calibration_point :
      List SegmentRow → (String × String) × List (Row Float) → Result (Option (WindowPoint Float))
  calibration_point segments g = group_point st (by_id segments []) g.0.0 g.1

  -- `summarize_calibration_by_window` raises nothing either.
  pub summarize_calibration_by_window-ok :
      (rows : List (Row Float)) (segments : List SegmentRow)
      → (out : List (WindowPoint Float)) × (summarize_calibration_by_window st rows segments
          ≡ ok out)
  unfolding summarize_calibration_by_window
  summarize_calibration_by_window-ok rows segments =
      let kept =
        group_from-AllKeys pair_eq (λ k. IsKeptId segments k.0)
          (is_calibration_in (completed_segment_ids segments)) (λ r. (segment_key r, r.node_id))
          (λ r h.
            kept_key (completed_segment_ids segments) (str_eq r.point_role "calibration")
              r.segment_id h)
          rows [] tt in
      let (bs, e, s) =
        collect-Returns (calibration_point segments) (λ g. g.0.0) (λ b. b.segment_id)
          (calibration_groups st rows segments)
          (All-map (λ g h. group_point-Outcome segments g.0.0 g.1 h)
            (calibration_groups st rows segments) kept) in
      (sort_by (by_start_and_point st) bs, rw e refl)

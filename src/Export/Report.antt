-- ===== src/Export/Report.antt =====
-- What a report without problems says of the TestSegments of an export (backend/export.py).
use network_backend_article.Base.{
  ℕ, ◌≤◌, ◌<◌, any, ◌≡◌, refl, sym, ◌∙◌, subst, String, Bool, true, false, not, Option, List, [],
  ◌∷◌, ◌++◌, arith, inl, inr, str_eq, eq_iff, All, All-map, Bool-cases, filter, count, length,
}
use network_backend_article.Base.Result.{Result, ok}
use network_backend_article.Base.Raises.{bind-ok}
use network_backend_article.Base.Rows.{Within, Within-All}
use network_backend_article.Base.Sorting.{Pairwise}
use network_backend_article.Store.Tables.{Store, SegmentRow, SegmentStatus}
use network_backend_article.Export.Statistics.{Statistics}
use network_backend_article.Export.Rows.{WindowPoint, Summary, is_counted}
use network_backend_article.Export.Checks.{
  Problem, no_pre_offset, no_test_samples, each, none_given, run_problems, is_checked, when,
  calibration_problems, add_node,
}
use network_backend_article.Export.Quality.{
  Input, data_problems, problems, is_ok, segment_problems, has_test, nodes_of, warnings,
}
use network_backend_article.Export.Bundle.{
  Bundle, Report, bundle_of, input_of, export_experiment, quality_check, export_rows,
  export_segments,
}
use network_backend_article.Export.Summaries.{summarize}
use network_backend_article.Export.Windows.{summarize_test_points, summarize_calibration_by_window}
use network_backend_article.Export.Keys.{differ}
use network_backend_article.Export.Complete.{summarize_test_points-AreRows}

is_ok-left : (ps qs : List Problem) → is_ok (ps ++ qs) ≡ true → is_ok ps ≡ true
is_ok-left [] qs h = refl
is_ok-left (p ∷ ps) qs h = ground arith

is_ok-right : (ps qs : List Problem) → is_ok (ps ++ qs) ≡ true → is_ok qs ≡ true
is_ok-right [] qs h = h
is_ok-right (p ∷ ps) qs h = ground arith

is_ok-each :
    {A : Type 0} (f : A → List Problem) (xs : List A)
    → is_ok (each f xs) ≡ true
    → All (λ x. is_ok (f x) ≡ true) xs
is_ok-each f [] h = tt
is_ok-each f (x ∷ xs) h =
    (is_ok-left (f x) (each f xs) h, is_ok-each f xs (is_ok-right (f x) (each f xs) h))

count_of :
    (has : Bool) (n expected c : ℕ) (id : String)
    → (has ≡ true → c ≡ 1)
    → is_ok (when (not has) (no_test_samples id) ++ calibration_problems id n expected) ≡ true
    → (c ≡ 1) × (expected ≤ n) × (0 < n)
count_of false n expected c id f h = absurd (ground arith)
count_of true n expected c id f h = (f refl, ground arith, ground arith)

counted :
    (s : SegmentRow)
    → s.status ≡ SegmentStatus.completed
    → s.superseded ≡ false
    → is_counted s ≡ true
counted s e f = rw (e, f) refl

fresh_node :
    (n : String) (ns : List String)
    → any (λ k. str_eq k n) ns ≡ false
    → All (λ k. differ n k ≡ true) ns
fresh_node n [] h = tt
fresh_node n (k ∷ ns) h = (ground (arith, eq_iff k n, eq_iff n k), fresh_node n ns (ground arith))

module _ {F : Type 0} where
  abbrev of_segment : String → WindowPoint F → Bool
  of_segment id t = str_eq t.segment_id id

  count-apart :
      (id : String) (t : WindowPoint F) (ts : List (WindowPoint F))
      → of_segment id t ≡ true
      → All (λ u. differ t.segment_id u.segment_id ≡ true) ts
      → count (of_segment id) ts ≡ 0
  count-apart id t [] e h = refl
  count-apart id t (u ∷ ts) e h = ground (
    arith,
    count-apart id t ts e h.1,
    h.0,
    eq_iff t.segment_id id,
    eq_iff u.segment_id id,
    eq_iff t.segment_id u.segment_id,
  )

  -- A row that is there is there once.
  count-one :
      (id : String) (ts : List (WindowPoint F))
      → Pairwise (λ a b. differ a.segment_id b.segment_id) ts
      → has_test ts id ≡ true
      → count (of_segment id) ts ≡ 1
  count-one id [] h e = ground arith
  count-one id (t ∷ ts) h e = elim (Bool-cases (of_segment id t)) [
    | inl p ↦ rw (p, count-apart id t ts p h.0) (omega arith)
    | inr p ↦ rw p (omega (arith, count-one id ts h.1 (ground arith)))
  ]

  -- A row of the table of calibration windows has the TestSegment and the node.
  abbrev pub HasSample : String → List (WindowPoint F) → String → Type 0
  HasSample id cal_window node =
      (c : WindowPoint F) × (Within c cal_window) × (c.segment_id ≡ id) × (c.node_id ≡ node)

  -- The data of one TestSegment: one row of its own, and calibration nodes that are all different,
  -- as many as are expected and one at least.
  pub record IsFilled (expected : ℕ) (test_points cal_window : List (WindowPoint F)) (id : String)
      : Type 0 where
    pub row : count (of_segment id) test_points ≡ 1
    pub nodes : List String
    pub distinct : Pairwise differ nodes
    pub sampled : All (HasSample id cal_window) nodes
    pub enough : expected ≤ length nodes
    pub some_node : 0 < length nodes

  abbrev AreNodes : String → List (WindowPoint F) → List String → Type 0
  AreNodes id cs ns = Pairwise differ ns × All (HasSample id cs) ns

  add_node-AreNodes :
      (id : String) (c : WindowPoint F) (cs : List (WindowPoint F)) (ns : List String)
      → c.segment_id ≡ id
      → AreNodes id (c ∷ cs) ns
      → AreNodes id (c ∷ cs) (add_node c.node_id ns)
  add_node-AreNodes id c cs ns e h = elim (Bool-cases (any (λ k. str_eq k c.node_id) ns)) [
    | inl known ↦ rw known h
    | inr new ↦ rw new ((fresh_node c.node_id ns new, h.0), ((c, inl refl, e, refl), h.1))
  ]

  later :
      (id : String) (c : WindowPoint F) (cs : List (WindowPoint F)) (ns : List String)
      → AreNodes id cs ns
      → AreNodes id (c ∷ cs) ns
  later id c cs ns h = (h.0, All-map (λ n p. let (d, w, e, f) = p in (d, inr w, e, f)) ns h.1)

  nodes_of-AreNodes : (id : String) (cs : List (WindowPoint F)) → AreNodes id cs (nodes_of id cs)
  nodes_of-AreNodes id [] = (tt, tt)
  nodes_of-AreNodes id (c ∷ cs) =
      let ih = later id c cs (nodes_of id cs) (nodes_of-AreNodes id cs) in
      elim (Bool-cases (str_eq c.segment_id id)) [
        | inl e ↦
            rw e (
              add_node-AreNodes id c cs (nodes_of id cs) (ground (arith, eq_iff c.segment_id id))
                ih)
        | inr e ↦ rw e ih
      ]

  segment_data :
      (expected : ℕ) (test_points cal_window : List (WindowPoint F)) (s : SegmentRow)
      → is_counted s ≡ true
      → Pairwise (λ a b. differ a.segment_id b.segment_id) test_points
      → is_ok (segment_problems test_points cal_window expected s) ≡ true
      → IsFilled expected test_points cal_window s.segment_id
  unfolding segment_problems
  segment_data expected test_points cal_window s c apart h =
      let (one, enough, some_node) =
        count_of (has_test test_points s.segment_id) (length (nodes_of s.segment_id cal_window))
          expected (count (of_segment s.segment_id) test_points) s.segment_id
          (count-one s.segment_id test_points apart) (rw c at h) in
      let nodes = nodes_of-AreNodes s.segment_id cal_window in
      record {
        row = one;
        nodes = nodes_of s.segment_id cal_window;
        distinct = nodes.0;
        sampled = nodes.1;
        enough = enough;
        some_node = some_node;
      }

  segment_checks :
      (i : Input F)
      → is_ok (problems i) ≡ true
      → All
          (λ s.
            is_ok (segment_problems i.test_points i.cal_window i.expected_calibration_nodes s)
            ≡ true)
          i.segments
  unfolding problems
  segment_checks i h =
      let start = none_given i.pre_offsets no_pre_offset in
      let runs = each (run_problems i.expected_test_points i.segments) (filter is_checked i.runs) in
      let check = segment_problems i.test_points i.cal_window i.expected_calibration_nodes in
      is_ok-each check i.segments (
        is_ok-right (start ++ runs) (each check i.segments)
          (is_ok-left (start ++ runs ++ each check i.segments) (data_problems i) h))

module _ (st : Statistics) (number_of : String → Result (Option ℕ)) where
  open st use {Float}

  quality_check-is_ok :
      (i : Input Float) (qc : Report Float)
      → quality_check st number_of i ≡ ok qc
      → qc.ok ≡ is_ok (problems i)
  unfolding quality_check
  quality_check-is_ok i qc h =
      let (given, e, h') = bind-ok (warnings number_of i) _ h in ground (arith, h')

  report-IsFilled :
      (i : Input Float) (summary : List (Summary Float)) (qc : Report Float) (b : Bundle Float)
      (g : SegmentRow)
      → quality_check st number_of i ≡ ok qc
      → bundle_of st number_of i summary qc ≡ b
      → Pairwise (λ x y. differ x.segment_id y.segment_id) i.test_points
      → is_counted g ≡ true
      → b.qc.ok ≡ true
      → Within g b.segments
      → IsFilled i.expected_calibration_nodes b.test_points b.cal_window g.segment_id
  report-IsFilled i summary qc b g q made apart c =
      subst
        (λ b.
          b.qc.ok ≡ true
          → Within g b.segments
          → IsFilled i.expected_calibration_nodes b.test_points b.cal_window g.segment_id)
        made
        (λ good listed.
          segment_data i.expected_calibration_nodes i.test_points i.cal_window g c apart (
            Within-All _ g i.segments (segment_checks i (sym (quality_check-is_ok i qc q) ∙ good))
              listed))

  -- Of an export that returns with a report without problems: each TestSegment that is completed
  -- and not superseded has exactly one row in the table of test points, and different calibration
  -- nodes, one at least and as many as are expected, each with a row of that TestSegment in the
  -- table of calibration windows.
  pub export_experiment-is_sound :
      (experiment_id : String) (samples points nodes : ℕ) (s : Store Float) (b : Bundle Float)
      (g : SegmentRow)
      → export_experiment st number_of experiment_id samples points nodes s ≡ ok b
      → b.qc.ok ≡ true
      → Within g b.segments
      → g.status ≡ SegmentStatus.completed
      → g.superseded ≡ false
      → IsFilled nodes b.test_points b.cal_window g.segment_id
  unfolding export_experiment
  export_experiment-is_sound experiment_id samples points nodes s b g h good listed done current =
      let rows = export_rows experiment_id s in
      let segments = export_segments experiment_id s in
      let (summary, e0, h1) = bind-ok (summarize st rows) _ h in
      let (tests, e1, h2) = bind-ok (summarize_test_points st rows segments) _ h1 in
      let (cal, e2, h3) = bind-ok (summarize_calibration_by_window st rows segments) _ h2 in
      let i = input_of st number_of s experiment_id samples points nodes tests cal in
      let (qc, q, made) = bind-ok (quality_check st number_of i) _ h3 in
      let (out, same, are_rows) = summarize_test_points-AreRows st rows segments in
      report-IsFilled i summary qc b g q (cc made)
        (subst (Pairwise (λ x y. differ x.segment_id y.segment_id)) (cc (same, e1)) are_rows.1)
        (counted g done current) good listed

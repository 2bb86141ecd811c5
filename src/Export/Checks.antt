-- ===== src/Export/Checks.antt =====
-- The parts of `quality_check` of backend/export.py, with its messages as values.
use network_backend_article.Base.{
  ℕ, ◌-◌, String, Bool, true, false, not, ◌&&◌, ◌||◌, Option, none, some, List, [], ◌∷◌, ◌++◌, map,
  filter, any, sort_by, max, str_eq, ltb, leb, ◌==◌, if◌then◌else◌, length,
}
use network_backend_article.Base.Text.{is_empty}
use network_backend_article.Base.Result.{Result, ok}
use network_backend_article.Base.Raises.{◌>>=◌}
use network_backend_article.Store.Tables.{SegmentRow, RunRow, RunStatus}
use network_backend_article.Export.Groups.{group_from}
use network_backend_article.Export.Rows.{Row, is_counted, collect}

pub data Problem : Type 0 where
  no_pre_offset no_tx : Problem
  few_points : String → ℕ → Problem
  overlap : String → Problem
  no_test_samples no_calibration : String → Problem
  few_calibration : String → ℕ → Problem
  no_coordinates mixed_bssid : List String → Problem
  few_samples : List (String × ℕ) → Problem

pub data Warning : Type 0 where
  no_post_offset no_channel : Warning
  many_points : String → ℕ → Warning
  not_ascending not_descending : String → Warning
  beyond_run : String → String → Warning
  some_channels_missing : ℕ → Warning
  long_gaps : List (String × ℕ) → Warning

-- `max((b - a for a, b in zip(ts, ts[1:])), default=0)` on sorted times
abbrev pub largest_gap : List ℕ → ℕ
largest_gap [] = 0
largest_gap (a ∷ []) = 0
largest_gap (a ∷ b ∷ ts) = max (b - a) (largest_gap (b ∷ ts))

abbrev gap_of : String × List ℕ → String × ℕ
gap_of (node, ts) = (node, largest_gap (sort_by leb ts))

abbrev row_times : {F : Type 0} → List (Row F) → List ℕ
row_times [] = []
row_times (r ∷ rs) = r.server_ts_ms ∷ row_times rs

abbrev node_times : {F : Type 0} → String × List (Row F) → String × List ℕ
node_times (node, rows) = (node, row_times rows)

unfoldable pub max_receive_gap : {F : Type 0} → List (Row F) → List (String × ℕ)
max_receive_gap rows =
    map gap_of (map node_times (group_from str_eq (λ _. true) (λ r. r.node_id) rows []))

-- The windows of one Run, sorted as pairs; an overlap is a start before the end of the one before.
abbrev pub earlier : ℕ × ℕ → ℕ × ℕ → Bool
earlier (a, b) (c, d) = ltb a c || (a == c && leb b d)

abbrev pub overlaps : List (ℕ × ℕ) → Bool
overlaps [] = false
overlaps (a ∷ []) = false
overlaps (a ∷ b ∷ spans) = if ltb b.0 a.1 then true else overlaps (b ∷ spans)

abbrev pub run_segments : String → List SegmentRow → List SegmentRow
run_segments run_id segments = filter (λ s. str_eq s.run_id run_id && is_counted s) segments

abbrev pub span : SegmentRow → ℕ × ℕ
span s = (s.recording_started_at_ms, s.recording_ended_at_ms)

unfoldable pub has_overlap : String → List SegmentRow → Bool
has_overlap run_id segments = overlaps (sort_by earlier (map span (run_segments run_id segments)))

-- The points of a Run in the order of measurement.
unfoldable pub points_in_order : String → List SegmentRow → List String
points_in_order run_id segments =
    map (λ s. s.point_id)
      (sort_by (λ a b. leb a.order_index b.order_index) (run_segments run_id segments))

-- The segments whose window ends after their Run; an end of 0 counts as none.
abbrev pub exceeds : Option ℕ → SegmentRow → Bool
exceeds none s = false
exceeds (some t) s = not (t == 0) && ltb t s.recording_ended_at_ms

unfoldable pub exceeding : RunRow → List SegmentRow → List String
exceeding run segments =
    map (λ s. s.segment_id) (filter (exceeds run.ended_at_ms) (run_segments run.run_id segments))

-- The numbers at the ends of the points' names. `re.search(r"\d+$", p)` and `int` are `number_of`, which
-- raises where `int` does, as on too many digits.
unfoldable pub trailing : (String → Result (Option ℕ)) → List String → Result (List ℕ)
unfolding collect
trailing number_of = collect number_of

-- `nums == sorted(nums)` and `nums == sorted(nums, reverse=True)`
abbrev list_eq : List ℕ → List ℕ → Bool
list_eq [] [] = true
list_eq (a ∷ xs) (b ∷ ys) = a == b && list_eq xs ys
list_eq [] (b ∷ ys) = false
list_eq (a ∷ xs) [] = false

abbrev ascends : List ℕ → Bool
ascends nums = list_eq nums (sort_by leb nums)

abbrev descends : List ℕ → Bool
descends nums = list_eq nums (sort_by (λ a b. leb b a) nums)

abbrev pub when : {A : Type 0} → Bool → A → List A
when false a = []
when true a = a ∷ []

abbrev is_checked_status : RunStatus → Bool
is_checked_status RunStatus.running = true
is_checked_status RunStatus.completed = true
is_checked_status _ = false

abbrev pub is_checked : RunRow → Bool
is_checked r =
    (str_eq r.direction "forward" || str_eq r.direction "reverse") && is_checked_status r.status

abbrev pub each : {A B : Type 0} → (A → List B) → List A → List B
each f [] = []
each f (a ∷ as') = f a ++ each f as'

-- The same where the list of one item may raise.
unfoldable pub each_of : {A B : Type 0} → (A → Result (List B)) → List A → Result (List B)
each_of f [] = ok []
each_of f (a ∷ as') = f a >>= λ b. each_of f as' >>= λ bs. ok (b ++ bs)

-- The checks of one Run.
unfoldable pub run_problems : ℕ → List SegmentRow → RunRow → List Problem
unfolding has_overlap points_in_order
run_problems expected segments run =
    when (ltb (length (points_in_order run.run_id segments)) expected)
      (few_points run.run_id (length (points_in_order run.run_id segments)))
    ++ when (has_overlap run.run_id segments) (overlap run.run_id)

unfoldable pub run_warnings :
    (String → Result (Option ℕ)) → ℕ → List SegmentRow → RunRow → Result (List Warning)
unfolding exceeding points_in_order trailing
run_warnings number_of expected segments run =
    let pts = points_in_order run.run_id segments in
    trailing number_of pts >>= λ nums. ok (
      when (ltb expected (length pts)) (many_points run.run_id (length pts))
      ++ when (str_eq run.direction "forward" && not (ascends nums)) (not_ascending run.run_id)
      ++ when (str_eq run.direction "reverse" && not (descends nums)) (not_descending run.run_id)
      ++ map (beyond_run run.run_id) (exceeding run segments))

-- The size of the set of the nodes of one window.
abbrev pub add_node : String → List String → List String
add_node n ns = if any (λ k. str_eq k n) ns then ns else n ∷ ns

abbrev pub calibration_problems : String → ℕ → ℕ → List Problem
calibration_problems id n expected =
    if n == 0 then no_calibration id ∷ [] else when (ltb n expected) (few_calibration id n)

abbrev pub add_text : String → List String → List String
add_text n ns = if any (λ k. str_eq k n) ns then ns else n ∷ ns

-- `{r["ap_bssid"] for r in rows if r["ap_bssid"]}`
abbrev pub add_bssid : Option String → List String → List String
add_bssid none ns = ns
add_bssid (some b) ns = if is_empty b then ns else add_text b ns

abbrev pub is_given : Option String → Bool
is_given none = false
is_given (some id) = not (is_empty id)

abbrev pub channel_warnings : ℕ → ℕ → List Warning
channel_warnings used n =
    if not (used == 0) && n == used
    then no_channel ∷ []
    else when (not (n == 0)) (some_channels_missing n)

abbrev pub nonempty : {A B : Type 0} → List A → (List A → B) → List B
nonempty [] f = []
nonempty (a ∷ as') f = f (a ∷ as') ∷ []

abbrev pub none_given : {A B : Type 0} → List A → B → List B
none_given [] b = b ∷ []
none_given (a ∷ as') b = []

abbrev pub is_big : String × ℕ → Bool
is_big g = ltb 5000 g.1

-- ===== src/Service/Current.antt =====
-- `run_current` of backend/main.py: the state that the page polls.
use network_backend_article.Base.{
  ℕ, String, Bool, true, false, not, ◌&&◌, Option, none, some, List, [], ◌∷◌, map, filter, first,
  sort_by, str_eq, ◌==◌, if◌then◌else◌,
}
use network_backend_article.Base.Int.{ℤ, pos, ◌-ℤ◌}
use network_backend_article.Base.Text.{text_leb}
use network_backend_article.Store.Tables.{SegmentRow, SegmentStatus}
use network_backend_article.Store.Segments.{list_test_segments}
use network_backend_article.Store.Measurements.{NodeStats, run_node_stats}
use network_backend_article.Registry.{NodeRegistry, NodeStatus, Rate, no_rate, snapshot}
use network_backend_article.Experiment.State.{
  Manager, ActiveRun, ActiveOffsetRun, SegmentView, to_dict,
}

pub record Entry : Type 0 where
  pub node_id : String
  pub point_id : String
  pub online : Bool
  pub msg_rate : Rate
  pub samples : ℕ
  pub last_seen_ms : Option ℕ
  pub gap_ms : Option ℤ

pub record CompletedPoint : Type 0 where
  pub point_id : String
  pub attempt_index : ℕ
  pub order_index : ℕ

-- The answer; the part of `mqtt_bridge.status()` is that of Bridge/Connection.
pub record RunCurrent : Type 0 where
  pub experiment_id : Option String
  pub ap_bssid : Option String
  pub ap_channel : Option ℤ
  pub offset_run : Option ActiveOffsetRun
  pub run : Option ActiveRun
  pub test_segment : Option SegmentView
  pub calibration_nodes : List Entry
  pub test_node : Option Entry
  pub completed_points : List CompletedPoint

-- `a or b`: a last time of 0 counts as none.
abbrev or_last_seen : Option ℕ → Option ℕ → Option ℕ
or_last_seen none b = b
or_last_seen (some a) b = if a == 0 then b else some a

abbrev pub gap : ℕ → Option ℕ → Option ℤ
gap cur none = none
gap cur (some t) = if t == 0 then none else some (pos cur -ℤ pos t)

abbrev last_time : Option NodeStats → Option ℕ
last_time none = none
last_time (some g) = some g.last_ms

abbrev sample_total : Option NodeStats → ℕ
sample_total none = 0
sample_total (some g) = g.samples

abbrev seen_time : Option NodeStatus → Option ℕ
seen_time none = none
seen_time (some s) = s.last_seen

abbrev is_online : Option NodeStatus → Bool
is_online none = false
is_online (some s) = s.online

abbrev rate : Option NodeStatus → Rate
rate none = no_rate
rate (some s) = s.msg_rate

abbrev pub entry_of : ℕ → String → String → Option NodeStatus → Option NodeStats → Entry
entry_of cur node point rs st =
    let last_ms = or_last_seen (last_time st) (seen_time rs) in
    record {
      node_id = node;
      point_id = point;
      online = is_online rs;
      msg_rate = rate rs;
      samples = sample_total st;
      last_seen_ms = last_ms;
      gap_ms = gap cur last_ms;
    }

abbrev entry_in : ℕ → List NodeStatus → List NodeStats → String × (String × String) → Entry
entry_in cur snap stats (node, (point, role)) =
    entry_of cur node point (first (filter (λ s. str_eq s.node_id node) snap))
      (first (filter (λ g. str_eq g.node_id node) stats))

abbrev has_role : String → String × (String × String) → Bool
has_role r (node, (point, role)) = str_eq role r

abbrev last_entry : List Entry → Option Entry
last_entry [] = none
last_entry (e ∷ es) = elim (last_entry es) [ none ↦ some e | some l ↦ some l ]

abbrev is_completed : SegmentStatus → Bool
is_completed SegmentStatus.completed = true
is_completed _ = false

abbrev is_done : SegmentRow → Bool
is_done s = is_completed s.status && not s.superseded

abbrev completed_point : SegmentRow → CompletedPoint
completed_point s = record {
  point_id = s.point_id;
  attempt_index = s.attempt_index;
  order_index = s.order_index;
}

module _ {F : Type 0} where
  -- The entries of the nodes, in order, with their roles kept apart.
  unfoldable pub run_current : ℕ → ℕ → Manager F → NodeRegistry → RunCurrent × NodeRegistry
  run_current cur now m registry =
      let (snap, registry') = snapshot now registry in
      let stats : List NodeStats = elim m.active_run [
        | none ↦ []
        | some run ↦ run_node_stats run.run_id m.store
      ] in
      let nodes = sort_by (λ a b. text_leb a.0 b.0) m.assignments in
      (
        record {
          experiment_id = m.experiment_id;
          ap_bssid = m.ap_bssid;
          ap_channel = m.ap_channel;
          offset_run = m.active_offset;
          run = m.active_run;
          test_segment = elim m.active_test_segment [
            | none ↦ none
            | some seg ↦ some (to_dict seg (some cur) cur)
          ];
          calibration_nodes = map (entry_in cur snap stats) (filter (has_role "calibration") nodes);
          test_node = last_entry (map (entry_in cur snap stats) (filter (has_role "test") nodes));
          completed_points = elim m.active_run [
            | none ↦ []
            | some run ↦
                map completed_point (filter is_done (list_test_segments run.run_id m.store))
          ];
        },
        registry',
      )

-- ===== src/Experiment/Offsets.antt =====
-- `compute_device_offsets` of backend/experiment.py: the deviation of each device from the
-- reference, from the samples of one OffsetRun.
mod Tests
pub mod Kept
use network_backend_article.Base.{
  ℕ, ◌≡◌, refl, sym, ◌∙◌, String, Bool, true, false, not, ◌&&◌, ◌||◌, Option, none, some, List, [],
  ◌∷◌, ◌++◌, map, arith, str_eq, eq_iff, filter, sort_by, if◌then◌else◌, length, any, update, inl,
  inr, Bool-cases, ap,
}
use network_backend_article.Base.Text.{text_leb}
use network_backend_article.Base.Result.{Action, Result, ok, err}
use network_backend_article.Store.Tables.{Store, MeasurementRow, DeviceOffsetRow}
use network_backend_article.Store.Measurements.{ExportRow, measurements_for_export, matches}
use network_backend_article.Store.Points.{upsert_device_offset, list_device_offsets}
use network_backend_article.Export.Statistics.{Statistics, spread}
use network_backend_article.Export.Groups.{group_from}

pub record NodeOffset (F : Type 0) : Type 0 where
  pub node_id : String
  pub offset_median_dbm : F
  pub device_offset_db : F
  pub sample_count : ℕ
  pub std_db : F
  pub calibrated_at_ms : ℕ

-- The answer: `reference_median_dbm` is none where `ok` is False.
pub record OffsetAnswer (F : Type 0) : Type 0 where
  pub ok : Bool
  pub reference_median_dbm : Option F
  pub nodes : List (NodeOffset F)

module _ {F : Type 0} where
  abbrev has_value : Option F → Bool
  has_value none = false
  has_value (some x) = true

  abbrev pub is_offset_sample : String → ExportRow F → Bool
  is_offset_sample offset_run_id r =
      str_eq r.point_role "offset"
      && r.valid
      && has_value r.rssi_filtered_dbm
      && matches r.run_id offset_run_id

  abbrev value_of : Option F → List F → List F
  value_of none xs = xs
  value_of (some x) xs = x ∷ xs

  abbrev values : List (ExportRow F) → List F
  values [] = []
  values (r ∷ rs) = value_of r.rssi_filtered_dbm (values rs)

  abbrev node_values : String × List (ExportRow F) → String × List F
  node_values (node, rows) = (node, values rows)

  -- `by_node`
  unfoldable pub by_node : String → List (ExportRow F) → List (String × List F)
  by_node offset_run_id rows =
      map node_values (group_from str_eq (is_offset_sample offset_run_id) (λ r. r.node_id) rows [])

module _ (st : Statistics) where
  open st use {Float, sub, round3, median, zero}

  -- `round(stdev, 3)`, with 0.0 for a single value.
  abbrev pub rounded_std : List Float → Result Float
  rounded_std [] = ok (round3 zero)
  rounded_std (x ∷ []) = ok (round3 zero)
  rounded_std (x ∷ y ∷ xs) = spread st (x ∷ y ∷ xs)

  abbrev pub node_offset : Float → ℕ → String × List Float → Float → NodeOffset Float
  node_offset reference now (node, vals) std = record {
    node_id = node;
    offset_median_dbm = round3 (median vals);
    device_offset_db = round3 (sub reference (median vals));
    sample_count = length vals;
    std_db = std;
    calibrated_at_ms = now;
  }

  abbrev pub save_offset : String → String → NodeOffset Float → Store Float → Store Float
  save_offset experiment_id offset_run_id n =
      upsert_device_offset offset_run_id n.node_id experiment_id (some n.offset_median_dbm)
        (some n.device_offset_db) n.sample_count (some n.std_db) n.calibrated_at_ms

  abbrev pub add_answer :
      NodeOffset Float
      → Result (List (NodeOffset Float)) × Store Float
      → Result (List (NodeOffset Float)) × Store Float
  add_answer n (ok ns, s) = (ok (n ∷ ns), s)
  add_answer n (err e, s) = (err e, s)

  -- The loop over the nodes: what is saved before a raise stays.
  unfoldable pub save_offsets :
      String
      → String
      → Float
      → ℕ
      → List (String × List Float)
      → Action (Store Float) (List (NodeOffset Float))
  save_offsets experiment_id offset_run_id reference now [] s = (ok [], s)
  save_offsets experiment_id offset_run_id reference now (g ∷ gs) s = elim (rounded_std g.1) [
    | err e ↦ (err e, s)
    | ok std ↦
        let n = node_offset reference now g std in
        add_answer n (
          save_offsets experiment_id offset_run_id reference now gs
            (save_offset experiment_id offset_run_id n s))
  ]

  abbrev pub reference : List (String × List Float) → Float
  reference gs = median (map (λ h. median h.1) gs)

  abbrev pub sorted_nodes : List (String × List Float) → List (String × List Float)
  sorted_nodes gs = sort_by (λ a b. text_leb a.0 b.0) gs

  abbrev pub answer :
      Float
      → Result (List (NodeOffset Float)) × Store Float
      → Result (OffsetAnswer Float) × Store Float
  answer r (err e, s) = (err e, s)
  answer r (ok ns, s) =
      (ok (record { ok = true; reference_median_dbm = some (round3 r); nodes = ns }), s)

  abbrev pub store_offsets :
      String → String → ℕ → List (String × List Float) → Action (Store Float) (OffsetAnswer Float)
  store_offsets experiment_id offset_run_id now [] s =
      (ok (record { ok = false; reference_median_dbm = none; nodes = [] }), s)
  store_offsets experiment_id offset_run_id now (g ∷ gs) s =
      answer (reference (g ∷ gs)) (
        save_offsets experiment_id offset_run_id (reference (g ∷ gs)) now (sorted_nodes (g ∷ gs)) s)

  unfoldable pub compute_device_offsets :
      String → String → ℕ → Action (Store Float) (OffsetAnswer Float)
  unfolding by_node save_offsets
  compute_device_offsets experiment_id offset_run_id now s =
      store_offsets experiment_id offset_run_id now
        (by_node offset_run_id (measurements_for_export experiment_id s)) s

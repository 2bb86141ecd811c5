-- ===== src/Store/Progress.antt =====
-- `session_progress` of backend/store.py: what has come of each node in a session. SQLite's AVG of
-- values that are not NULL is a parameter.
use network_backend_article.Base.{
  ℕ, String, Option, none, some, List, [], ◌∷◌, map, str_eq, max, count, length, sort_by,
}
use network_backend_article.Base.Text.{text_leb}
use network_backend_article.Store.Tables.{Store, MeasurementRow}
use network_backend_article.Export.Groups.{group_from}

pub record NodeProgress (F : Type 0) : Type 0 where
  pub node_id : String
  pub total : ℕ
  pub valid : ℕ
  pub last_ms : ℕ
  pub avg_filtered : Option F

module _ {F : Type 0} (average : F → List F → F) where
  abbrev newest : List (MeasurementRow F) → ℕ
  newest [] = 0
  newest (m ∷ ms) = max m.server_ts_ms (newest ms)

  abbrev value_of : Option F → List F → List F
  value_of none xs = xs
  value_of (some x) xs = x ∷ xs

  abbrev values : List (MeasurementRow F) → List F
  values [] = []
  values (m ∷ ms) = value_of m.rssi_filtered_dbm (values ms)

  -- AVG is NULL where all values are.
  abbrev avg : List F → Option F
  avg [] = none
  avg (x ∷ xs) = some (average x xs)

  abbrev pub progress_of : String × List (MeasurementRow F) → NodeProgress F
  progress_of (node, ms) = record {
    node_id = node;
    total = length ms;
    valid = count (λ m. m.valid) ms;
    last_ms = newest ms;
    avg_filtered = avg (values ms);
  }

  -- GROUP BY node_id ORDER BY node_id
  unfoldable pub session_progress : String → Store F → List (NodeProgress F)
  session_progress session_id s = map progress_of (
      sort_by (λ a b. text_leb a.0 b.0)
        (group_from str_eq (λ m. str_eq m.session_id session_id) (λ m. m.node_id) s.measurements
          []))

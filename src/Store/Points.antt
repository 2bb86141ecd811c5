-- ===== src/Store/Points.antt =====
-- The statements of backend/store.py on node assignments, points, device offsets and TX.
mod Tests
pub mod Lookup
use network_backend_article.Base.{
  ℕ, String, Bool, ◌&&◌, Option, List, [], ◌∷◌, ◌++◌, str_eq, if◌then◌else◌, filter, any, update,
  sort_by,
}
use network_backend_article.Base.Int.{ℤ}
use network_backend_article.Base.Text.{text_leb}
use network_backend_article.Store.Tables.{Store, AssignmentRow, PointRow, DeviceOffsetRow, TxRow}

-- INSERT … ON CONFLICT(key) DO UPDATE with a row that gives all its columns.
abbrev pub upsert {ℓ} : {A : Type ℓ} → (A → Bool) → A → List A → List A
upsert same row rows = if any same rows then update same (λ _. row) rows else rows ++ row ∷ []

module _ {F : Type 0} where
  unfoldable pub upsert_assignment : String → String → String → String → ℕ → Store F → Store F
  upsert_assignment experiment_id node_id point_id point_role updated_at_ms s = record s {
    assignments =
        upsert (λ r. str_eq r.experiment_id experiment_id && str_eq r.node_id node_id)
          (record {
            experiment_id = experiment_id;
            node_id = node_id;
            point_id = point_id;
            point_role = point_role;
            updated_at_ms = updated_at_ms;
          })
          s.assignments;
  }

  -- ORDER BY node_id
  unfoldable pub list_assignments : String → Store F → List AssignmentRow
  list_assignments experiment_id s =
      sort_by (λ a b. text_leb a.node_id b.node_id)
        (filter (λ r. str_eq r.experiment_id experiment_id) s.assignments)

  unfoldable pub upsert_point :
      String
      → String
      → Option String
      → Option F
      → Option F
      → Option F
      → Option String
      → ℕ
      → Store F
      → Store F
  upsert_point experiment_id point_id point_role pos_x pos_y pos_z note updated_at_ms s = record s {
    points =
        upsert (λ r. str_eq r.experiment_id experiment_id && str_eq r.point_id point_id)
          (record {
            experiment_id = experiment_id;
            point_id = point_id;
            point_role = point_role;
            pos_x = pos_x;
            pos_y = pos_y;
            pos_z = pos_z;
            note = note;
            updated_at_ms = updated_at_ms;
          })
          s.points;
  }

  unfoldable pub list_points : String → Store F → List (PointRow F)
  list_points experiment_id s =
      sort_by (λ a b. text_leb a.point_id b.point_id)
        (filter (λ r. str_eq r.experiment_id experiment_id) s.points)

  -- On a conflict the experiment of the row stays; the other columns are replaced.
  unfoldable pub upsert_device_offset :
      String → String → String → Option F → Option F → ℕ → Option F → ℕ → Store F → Store F
  upsert_device_offset offset_run_id node_id experiment_id offset_median_dbm device_offset_db
        sample_count std_db calibrated_at_ms s =
      record s {
        device_offsets =
            (let same = λ (r : DeviceOffsetRow F).
                str_eq r.offset_run_id offset_run_id && str_eq r.node_id node_id in
              if any same s.device_offsets
              then update same
                  (λ r. record r {
                    offset_median_dbm = offset_median_dbm;
                    device_offset_db = device_offset_db;
                    sample_count = sample_count;
                    std_db = std_db;
                    calibrated_at_ms = calibrated_at_ms;
                  })
                  s.device_offsets
              else s.device_offsets
                ++ record {
                  offset_run_id = offset_run_id;
                  node_id = node_id;
                  experiment_id = experiment_id;
                  offset_median_dbm = offset_median_dbm;
                  device_offset_db = device_offset_db;
                  sample_count = sample_count;
                  std_db = std_db;
                  calibrated_at_ms = calibrated_at_ms;
                }
                  ∷ []);
      }

  -- `list_device_offsets` with an OffsetRun given, which is how the code calls it.
  unfoldable pub list_device_offsets : String → Store F → List (DeviceOffsetRow F)
  list_device_offsets offset_run_id s =
      sort_by (λ a b. text_leb a.node_id b.node_id)
        (filter (λ r. str_eq r.offset_run_id offset_run_id) s.device_offsets)

  unfoldable pub upsert_tx :
      String
      → String
      → Option F
      → Option F
      → Option F
      → Option ℤ
      → Option String
      → Option ℤ
      → Option String
      → Store F
      → Store F
  upsert_tx experiment_id tx_id pos_x pos_y pos_z frequency_hz ap_bssid ap_channel note s =
      record s {
        tx =
            upsert (λ r. str_eq r.experiment_id experiment_id && str_eq r.tx_id tx_id)
              (record {
                experiment_id = experiment_id;
                tx_id = tx_id;
                pos_x = pos_x;
                pos_y = pos_y;
                pos_z = pos_z;
                frequency_hz = frequency_hz;
                ap_bssid = ap_bssid;
                ap_channel = ap_channel;
                note = note;
              })
              s.tx;
      }

  unfoldable pub list_tx : String → Store F → List (TxRow F)
  list_tx experiment_id s =
      sort_by (λ a b. text_leb a.tx_id b.tx_id)
        (filter (λ r. str_eq r.experiment_id experiment_id) s.tx)

-- ===== src/Store/Migration.antt =====
-- `_migrate` of backend/store.py: what a database file of an older version becomes. Of the tables
-- that it changes, the columns, and of `device_offset` the rows.
pub mod Current
mod Tests
use network_backend_article.Base.{
  ℕ, String, Bool, true, false, not, ◌&&◌, Option, none, some, List, [], ◌∷◌, ◌++◌, map, str_eq,
  ltb, leb, any, if◌then◌else◌,
}
use Prim.Native.String.{◌++◌ as text_append}
use network_backend_article.Base.Result.{
  Action, Error, Result, ok, err, integrity_error, driver_error, modify, ◌>>◌,
}
use network_backend_article.Store.Tables.{DeviceOffsetRow}

-- A row of `device_offset` before version 2, where its key was the experiment and the node.
pub record OldOffset (F : Type 0) : Type 0 where
  pub experiment_id : String
  pub node_id : String
  pub offset_median_dbm : Option F
  pub device_offset_db : Option F
  pub sample_count : ℕ
  pub std_db : Option F
  pub calibrated_at_ms : ℕ

pub data OffsetTable (F : Type 0) : Type 0 where
  by_experiment : List (OldOffset F) → OffsetTable F
  by_run : List (DeviceOffsetRow F) → OffsetTable F

pub record File (F : Type 0) : Type 0 where
  pub user_version : ℕ
  pub measurement : List String
  pub experiment_run : List String
  pub device_offset : OffsetTable F
  pub device_offset_old : Option (List (OldOffset F))
  pub indexes : List String

abbrev pub schema_version : ℕ
schema_version = 2

abbrev pub has_col : List String → String → Bool
has_col cols name = any (λ c. str_eq c name) cols

abbrev pub add_col : String → List String → List String
add_col name cols = if has_col cols name then cols else cols ++ name ∷ []

abbrev pub add_run_cols : List String → List String
add_run_cols cols =
    if has_col cols "run_id" && not (has_col cols "pre_offset_run_id")
    then cols ++ "pre_offset_run_id" ∷ "post_offset_run_id" ∷ []
    else cols

abbrev pub add_index : String → List String → List String
add_index = add_col

module _ {F : Type 0} where
  -- `'legacy:'||experiment_id`
  abbrev pub legacy_row : OldOffset F → DeviceOffsetRow F
  legacy_row r = record {
    offset_run_id = text_append "legacy:" r.experiment_id;
    node_id = r.node_id;
    experiment_id = r.experiment_id;
    offset_median_dbm = r.offset_median_dbm;
    device_offset_db = r.device_offset_db;
    sample_count = r.sample_count;
    std_db = r.std_db;
    calibrated_at_ms = r.calibrated_at_ms;
  }

  abbrev same_key : DeviceOffsetRow F → DeviceOffsetRow F → Bool
  same_key a b = str_eq a.offset_run_id b.offset_run_id && str_eq a.node_id b.node_id

  -- The primary key of the new table.
  abbrev pub have_keys : List (DeviceOffsetRow F) → Bool
  have_keys [] = true
  have_keys (r ∷ rs) = not (any (same_key r) rs) && have_keys rs

  -- Version 0 to 1.
  abbrev pub to_first : File F → File F
  to_first d = record d {
    measurement =
        if ltb d.user_version 1
        then add_col "segment_id" (add_col "run_id" d.measurement)
        else d.measurement;
  }

  -- The table is renamed, made anew and filled; a key that comes twice leaves the new table empty
  -- and the old one under its other name.
  abbrev pub fill : List (OldOffset F) → File F → Result (Unit {0}) × File F
  fill rows d =
      if have_keys (map legacy_row rows)
      then (
        ok tt,
        record d { device_offset = by_run (map legacy_row rows); device_offset_old = none },
      )
      else (
        err integrity_error,
        record d { device_offset = by_run []; device_offset_old = some rows },
      )

  abbrev pub rebuild_from :
      OffsetTable F → Option (List (OldOffset F)) → File F → Result (Unit {0}) × File F
  rebuild_from (by_run rows) old d = (ok tt, d)
  rebuild_from (by_experiment rows) (some old) d = (err driver_error, d)
  rebuild_from (by_experiment rows) none d = fill rows d

  abbrev pub with_run_cols : File F → File F
  with_run_cols d = record d { experiment_run = add_run_cols d.experiment_run }

  -- Version 1 to 2.
  abbrev pub to_second : File F → Result (Unit {0}) × File F
  to_second d = rebuild_from d.device_offset d.device_offset_old (with_run_cols d)

  abbrev pub finish : File F → File F
  finish d = record d {
    indexes =
        add_index "idx_test_segment_run" (
          add_index "idx_measurement_segment_node"
            (add_index "idx_measurement_run_time" d.indexes));
    user_version = schema_version;
  }

  abbrev pub complete : Result (Unit {0}) × File F → Result (Unit {0}) × File F
  complete (err e, d) = (err e, d)
  complete (ok u, d) = (ok tt, finish d)

  -- The tests read the version that the file had at the start; below 2 the second step is taken.
  unfoldable pub migrate : Action (File F) Unit
  migrate d =
      if leb schema_version d.user_version then (ok tt, d) else complete (to_second (to_first d))

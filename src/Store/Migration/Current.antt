-- ===== src/Store/Migration/Current.antt =====
-- A migrated database file has the current columns and the rows from before (backend/store.py).
use network_backend_article.Base.{
  ◌≡◌, refl, sym, ap, String, Bool, true, false, not, ◌&&◌, ◌||◌, Option, none, some, List, [], ◌∷◌,
  ◌++◌, map, arith, str_eq, eq_iff, ltb, leb, inl, inr, Bool-cases, choose_by,
}
use network_backend_article.Base.Result.{Result, ok, err}
use network_backend_article.Store.Tables.{DeviceOffsetRow}
use network_backend_article.Store.Migration.{
  File, OffsetTable, OldOffset, by_experiment, by_run, schema_version, has_col, add_col,
  add_run_cols, legacy_row, have_keys, to_first, to_second, rebuild_from, with_run_cols, finish,
  complete, migrate,
}

abbrev is_by_run : {F : Type 0} → OffsetTable F → Bool
is_by_run (by_run rows) = true
is_by_run (by_experiment rows) = false

-- The rows without the key of the OffsetRun.
abbrev pub forget : {F : Type 0} → DeviceOffsetRow F → OldOffset F
forget r = record {
  experiment_id = r.experiment_id;
  node_id = r.node_id;
  offset_median_dbm = r.offset_median_dbm;
  device_offset_db = r.device_offset_db;
  sample_count = r.sample_count;
  std_db = r.std_db;
  calibrated_at_ms = r.calibrated_at_ms;
}

abbrev pub node_rows : {F : Type 0} → OffsetTable F → List (OldOffset F)
node_rows (by_experiment rows) = rows
node_rows (by_run rows) = map forget rows

-- The columns that a version promises.
abbrev pub has_first : {F : Type 0} → File F → Bool
has_first d = has_col d.measurement "run_id" && has_col d.measurement "segment_id"

abbrev pub has_second : {F : Type 0} → File F → Bool
has_second d =
    has_col d.experiment_run "pre_offset_run_id"
    && has_col d.experiment_run "post_offset_run_id"
    && is_by_run d.device_offset

-- The two columns come together.
abbrev pub has_pair : List String → Bool
has_pair cols = not (has_col cols "pre_offset_run_id") || has_col cols "post_offset_run_id"

abbrev pub is_versioned : {F : Type 0} → File F → Bool
is_versioned d =
    (ltb d.user_version 1 || has_first d)
    && (ltb d.user_version 2 || has_second d)
    && has_col d.experiment_run "run_id"
    && has_pair d.experiment_run

abbrev pub is_current : {F : Type 0} → File F → Bool
is_current d = leb schema_version d.user_version && has_first d && has_second d

has_col-append :
    (cols more : List String) (name : String)
    → has_col cols name ≡ true
    → has_col (cols ++ more) name ≡ true
has_col-append [] more name h = ground arith
has_col-append (c ∷ cols) more name h = elim (Bool-cases (str_eq c name)) [
  | inl e ↦ rw e refl
  | inr e ↦ rw e (has_col-append cols more name (ground arith))
]

has_col-last :
    (cols : List String) (name : String) (more : List String)
    → has_col (cols ++ name ∷ more) name ≡ true
has_col-last [] name more = ground (arith, eq_iff name name)
has_col-last (c ∷ cols) name more = rw (has_col-last cols name more) (ground arith)

has_col-second :
    (cols : List String) (one name : String) → has_col (cols ++ one ∷ name ∷ []) name ≡ true
has_col-second [] one name = ground (arith, eq_iff name name)
has_col-second (c ∷ cols) one name = rw (has_col-second cols one name) (ground arith)

add_col-has : (name : String) (cols : List String) → has_col (add_col name cols) name ≡ true
add_col-has name cols =
    choose_by (λ cs. has_col cs name ≡ true) (has_col cols name) cols (cols ++ name ∷ []) (λ e. e)
      (λ e. has_col-last cols name [])

add_col-keeps :
    (name other : String) (cols : List String)
    → has_col cols other ≡ true
    → has_col (add_col name cols) other ≡ true
add_col-keeps name other cols h =
    choose_by (λ cs. has_col cs other ≡ true) (has_col cols name) cols (cols ++ name ∷ []) (λ e. h)
      (λ e. has_col-append cols (name ∷ []) other h)

add_run_cols-has :
    (cols : List String)
    → (has_col cols "run_id" && has_pair cols) ≡ true
    → (has_col (add_run_cols cols) "pre_offset_run_id" ≡ true)
      × (has_col (add_run_cols cols) "post_offset_run_id" ≡ true)
add_run_cols-has cols h =
    choose_by
      (λ cs. (has_col cs "pre_offset_run_id" ≡ true) × (has_col cs "post_offset_run_id" ≡ true))
      (has_col cols "run_id" && not (has_col cols "pre_offset_run_id"))
      (cols ++ "pre_offset_run_id" ∷ "post_offset_run_id" ∷ []) cols
      (λ e. (
        has_col-last cols "pre_offset_run_id" ("post_offset_run_id" ∷ []),
        has_col-second cols "pre_offset_run_id" "post_offset_run_id",
      ))
      (λ e. (ground arith, ground arith))

module _ {F : Type 0} where
  forget-legacy_row : (rows : List (OldOffset F)) → map forget (map legacy_row rows) ≡ rows
  forget-legacy_row [] = refl
  forget-legacy_row (r ∷ rows) = ap (λ l. r ∷ l) (forget-legacy_row rows)

  to_first-has :
      (d : File F) → (ltb d.user_version 1 || has_first d) ≡ true → has_first (to_first d) ≡ true
  to_first-has d h =
      choose_by (λ cs. (has_col cs "run_id" && has_col cs "segment_id") ≡ true)
        (ltb d.user_version 1) (add_col "segment_id" (add_col "run_id" d.measurement)) d.measurement
        (λ e.
          both
            (add_col-keeps "segment_id" "run_id" (add_col "run_id" d.measurement)
              (add_col-has "run_id" d.measurement))
            (add_col-has "segment_id" (add_col "run_id" d.measurement)))
        (λ e. ground arith)
    where
      both : {a b : Bool} → a ≡ true → b ≡ true → (a && b) ≡ true
      both p q = ground arith

  -- What the rebuilding of the offsets does, where it succeeds.
  record IsRebuilt (d : File F) (t : OffsetTable F) (d' : File F) : Type 0 where
    by_runs : is_by_run d'.device_offset ≡ true
    rows : node_rows d'.device_offset ≡ node_rows t
    first : d'.measurement ≡ d.measurement
    second : d'.experiment_run ≡ d.experiment_run

  rebuild_from-IsRebuilt :
      (t : OffsetTable F) (old : Option (List (OldOffset F))) (d : File F)
      → t ≡ d.device_offset
      → (rebuild_from t old d).0 ≡ ok tt
      → IsRebuilt d t (rebuild_from t old d).1
  rebuild_from-IsRebuilt (by_run rows) old d same h = record {
    by_runs = ap is_by_run (sym same);
    rows = ap node_rows (sym same);
    first = refl;
    second = refl;
  }
  rebuild_from-IsRebuilt (by_experiment rows) (some old) d same h = ground arith
  rebuild_from-IsRebuilt (by_experiment rows) none d same h =
      choose_by {A = Result (Unit {0}) × File F}
        (λ r. r.0 ≡ ok tt → IsRebuilt d (by_experiment rows) r.1) (have_keys (map legacy_row rows))
        _ _
        (λ e h'. record {
          by_runs = refl;
          rows = forget-legacy_row rows;
          first = refl;
          second = refl;
        })
        (λ e h'. ground arith) h

  -- The columns of a version, and the rows of the file at the start.
  abbrev pub IsMigrated : File F → File F → Type 0
  IsMigrated d d' =
      (is_current d' ≡ true) × (node_rows d'.device_offset ≡ node_rows d.device_offset)

  finish-IsMigrated :
      (d d' : File F) (t : OffsetTable F)
      → has_first d ≡ true
      → (has_col d.experiment_run "pre_offset_run_id" ≡ true)
        × (has_col d.experiment_run "post_offset_run_id" ≡ true)
      → IsRebuilt d t d'
      → (is_current (finish d') ≡ true) × (node_rows (finish d').device_offset ≡ node_rows t)
  finish-IsMigrated d d' t f s r = (rw (r.first, r.second, r.by_runs) (ground arith), r.rows)

  complete-ok :
      (P : File F → Type 0) (r : Result (Unit {0}) × File F)
      → (r.0 ≡ ok tt → P (finish r.1))
      → (complete r).0 ≡ ok tt
      → P (complete r).1
  complete-ok P (err e, d) f h = ground arith
  complete-ok P (ok u, d) f h = f refl

  old_file :
      (d : File F)
      → is_versioned d ≡ true
      → (complete (to_second (to_first d))).0 ≡ ok tt
      → IsMigrated d (complete (to_second (to_first d))).1
  old_file d v h =
      let e = to_first d in
      complete-ok (IsMigrated d) (to_second e)
        (λ h'.
          finish-IsMigrated (with_run_cols e) (to_second e).1 d.device_offset
            (to_first-has d (ground arith)) (add_run_cols-has e.experiment_run (ground arith))
            (rebuild_from-IsRebuilt e.device_offset e.device_offset_old (with_run_cols e) refl h'))
        h

  migrate_again : (d : File F) → is_current d ≡ true → migrate d ≡ (ok tt, d)
  unfolding migrate
  migrate_again d c =
      choose_by {A = Result (Unit {0}) × File F} (λ r. r ≡ (ok tt, d))
        (leb schema_version d.user_version) (ok tt, d) (complete (to_second (to_first d)))
        (λ e. refl) (λ e. ground arith)

  -- A file that has the columns of its version, or of any later one, and no
  -- `pre_offset_run_id` without `post_offset_run_id`, is of the current version after a migration
  -- that raises nothing: it has the columns, the two of the Runs among them, the rows of
  -- `device_offset` are those from before, but for the key of the OffsetRun, and a second
  -- migration changes nothing.
  pub migrate-is_current :
      (d : File F)
      → is_versioned d ≡ true
      → (migrate d).0 ≡ ok tt
      → (is_current (migrate d).1 ≡ true)
        × (node_rows (migrate d).1.device_offset ≡ node_rows d.device_offset)
        × (migrate (migrate d).1 ≡ (ok tt, (migrate d).1))
  unfolding migrate
  migrate-is_current d v h =
      let (current, rows) =
        choose_by {A = Result (Unit {0}) × File F} (λ r. r.0 ≡ ok tt → IsMigrated d r.1)
          (leb schema_version d.user_version) (ok tt, d) (complete (to_second (to_first d)))
          (λ e h'. (ground arith, refl)) (λ e h'. old_file d v h') h in
      (current, rows, migrate_again (migrate d).1 current)

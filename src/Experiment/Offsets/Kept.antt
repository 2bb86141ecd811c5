-- ===== src/Experiment/Offsets/Kept.antt =====
-- What computing the offsets of one OffsetRun leaves as it was (backend/experiment.py).
use network_backend_article.Base.{
  ℕ, ◌≡◌, refl, ◌∙◌, ap, String, Bool, true, false, ◌&&◌, Option, List, [], ◌∷◌, arith, str_eq,
  eq_iff, filter, sort_by, any, choose,
}
use network_backend_article.Base.Rows.{filter-update, filter-append_none}
use network_backend_article.Base.Text.{text_leb}
use network_backend_article.Base.Result.{Result, ok, err}
use network_backend_article.Store.Tables.{Store, DeviceOffsetRow}
use network_backend_article.Store.Measurements.{measurements_for_export}
use network_backend_article.Store.Points.{upsert_device_offset, list_device_offsets}
use network_backend_article.Export.Statistics.{Statistics}
use network_backend_article.Experiment.Offsets.{
  NodeOffset, add_answer, answer, node_offset, rounded_std, reference, sorted_nodes, save_offset,
  save_offsets, store_offsets, by_node, compute_device_offsets,
}

apart_run :
    (id other run : String) (b : Bool)
    → str_eq id other ≡ false
    → (str_eq run id && b) ≡ true
    → str_eq run other ≡ false
apart_run id other run b e h = ground (arith, eq_iff run id, eq_iff run other, eq_iff id other)

module _ (st : Statistics) where
  open st use {Float}

  abbrev of_run : String → DeviceOffsetRow Float → Bool
  of_run id r = str_eq r.offset_run_id id

  upsert-of_run :
      (id other node experiment_id : String) (m d sd : Option Float) (n t : ℕ) (s : Store Float)
      → str_eq id other ≡ false
      → filter
          (of_run other)
          (upsert_device_offset id node experiment_id m d n sd t s).device_offsets
        ≡ filter (of_run other) s.device_offsets
  unfolding upsert_device_offset
  upsert-of_run id other node experiment_id m d sd n t s e =
      let same =
        λ (r : DeviceOffsetRow Float). str_eq r.offset_run_id id && str_eq r.node_id node in
      let other_run = λ (r : DeviceOffsetRow Float) (h : same r ≡ true).
        apart_run id other r.offset_run_id (str_eq r.node_id node) e h in
      choose (λ rows. filter (of_run other) rows ≡ filter (of_run other) s.device_offsets)
        (any same s.device_offsets) _ _
        (filter-update (of_run other) same _ other_run other_run s.device_offsets)
        (filter-append_none (of_run other) s.device_offsets _ e)

  abbrev kept_rows : String → Store Float → List (DeviceOffsetRow Float)
  kept_rows other s = filter (of_run other) s.device_offsets

  add_answer-store :
      (n : NodeOffset Float) (r : Result (List (NodeOffset Float)) × Store Float)
      → (add_answer st n r).1 ≡ r.1
  add_answer-store n (ok ns, s) = refl
  add_answer-store n (err e, s) = refl

  answer-store :
      (x : Float) (r : Result (List (NodeOffset Float)) × Store Float) → (answer st x r).1 ≡ r.1
  answer-store x (ok ns, s) = refl
  answer-store x (err e, s) = refl

  save_offsets-kept :
      (experiment_id id other : String) (x : Float) (now : ℕ) (gs : List (String × List Float))
      (s : Store Float)
      → str_eq id other ≡ false
      → kept_rows other (save_offsets st experiment_id id x now gs s).1 ≡ kept_rows other s
  unfolding save_offsets
  save_offsets-kept experiment_id id other x now [] s e = refl
  save_offsets-kept experiment_id id other x now (g ∷ gs) s e =
      saved (λ s'. save_offsets-kept experiment_id id other x now gs s' e) (rounded_std st g.1)
    where
      saved :
          ((s' : Store Float)
            → kept_rows other (save_offsets st experiment_id id x now gs s').1 ≡ kept_rows other s')
          → (r : Result Float)
          → kept_rows other
              (elim r as (λ _. Result (List (NodeOffset Float)) × Store Float) [
                | err e ↦ (err e, s)
                | ok std ↦ add_answer st (node_offset st x now g std) (
                    save_offsets st experiment_id id x now gs
                      (save_offset st experiment_id id (node_offset st x now g std) s))
              ]).1
            ≡ kept_rows other s
      saved ih (err r) = refl
      saved ih (ok std) =
          let n = node_offset st x now g std in
          let s' = save_offset st experiment_id id n s in
          ap (kept_rows other) (add_answer-store n (save_offsets st experiment_id id x now gs s'))
          ∙ ih s'
          ∙ upsert-of_run id other n.node_id experiment_id _ _ _ n.sample_count n.calibrated_at_ms s
              e

  -- Computing the offsets of one OffsetRun, on any samples, leaves those of every other OffsetRun
  -- as they were: the post measurement does not change what the pre measurement gave.
  pub compute_device_offsets-kept :
      (experiment_id offset_run_id other : String) (now : ℕ) (s : Store Float)
      → str_eq offset_run_id other ≡ false
      → list_device_offsets other (compute_device_offsets st experiment_id offset_run_id now s).1
        ≡ list_device_offsets other s
  unfolding list_device_offsets compute_device_offsets
  compute_device_offsets-kept experiment_id offset_run_id other now s e =
      ap (λ rows. sort_by (λ a b. text_leb a.node_id b.node_id) rows)
        (kept (by_node offset_run_id (measurements_for_export experiment_id s)))
    where
      kept :
          (gs : List (String × List Float))
          → filter
              (of_run other)
              (store_offsets st experiment_id offset_run_id now gs s).1.device_offsets
            ≡ filter (of_run other) s.device_offsets
      kept [] = refl
      kept (g ∷ gs) =
          let x = reference st (g ∷ gs) in
          let ns = sorted_nodes st (g ∷ gs) in
          ap (kept_rows other)
            (answer-store x (save_offsets st experiment_id offset_run_id x now ns s))
          ∙ save_offsets-kept experiment_id offset_run_id other x now ns s e

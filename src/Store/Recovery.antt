-- ===== src/Store/Recovery.antt =====
-- The store after a restart (`mark_all_open_interrupted` of backend/store.py).
use network_backend_article.Base.{
  ℕ, String, Bool, false, ◌&&◌, List, [], ◌∷◌, arith, ◌≡◌, refl, count, update, filter,
  if◌then◌else◌, str_eq, some,
}
use network_backend_article.Store.Tables.{Store, RunRow, RunStatus, SegmentRow}
use network_backend_article.Store.Runs.{is_running, list_open_runs}
use network_backend_article.Store.Segments.{is_open, interrupt, mark_all_open_interrupted}

-- An UPDATE after which no row passes its own test.
module _ {A : Type 0} (p : A → Bool) (f : A → A) (ends : (a : A) → p (f a) ≡ false) where
  changed : (a : A) → p (if p a then f a else a) ≡ false
  changed a = let h = ends a in ground arith

  count-update : (xs : List A) → count p (update p f xs) ≡ 0
  count-update [] = refl
  count-update (x ∷ xs) = let h = changed x in let rest = count-update xs in ground arith

  update-update : (g : A → A) (xs : List A) → update p g (update p f xs) ≡ update p f xs
  update-update g [] = refl
  update-update g (x ∷ xs) = let h = changed x in let rest = update-update g xs in ground arith

  filter-update :
      (q : A → Bool)
      → ((a : A) → p a ≡ false → q a ≡ false)
      → (xs : List A) → filter q (update p f xs) ≡ []
  filter-update q only [] = refl
  filter-update q only (x ∷ xs) =
      let h = only (if p x then f x else x) (changed x) in
      let rest = filter-update q only xs in ground arith

abbrev runs_open : RunRow → Bool
runs_open r = is_running r.status

abbrev segments_open : SegmentRow → Bool
segments_open r = is_open r.status

abbrev stop_run : ℕ → RunRow → RunRow
stop_run now r = record r { status = RunStatus.interrupted; ended_at_ms = some now }

abbrev listed : String → RunRow → Bool
listed exp r = str_eq r.experiment_id exp && is_running r.status

module _ {F : Type 0} where
  -- After the marking no Run of any experiment is listed as open, a second marking finds nothing
  -- to do and changes nothing, and the measurements are those from before.
  pub mark_all_open_interrupted-settles :
      (exp : String) (now later : ℕ) (s : Store F)
      → (list_open_runs exp (mark_all_open_interrupted now s).1 ≡ [])
        × (mark_all_open_interrupted later (mark_all_open_interrupted now s).1
            ≡ ((0, 0), (mark_all_open_interrupted now s).1))
        × ((mark_all_open_interrupted now s).1.measurements ≡ s.measurements)
  unfolding mark_all_open_interrupted list_open_runs
  mark_all_open_interrupted-settles exp now later s = (
    filter-update runs_open (stop_run now) (λ r. refl) (listed exp) (λ r e. ground arith) s.runs,
    rw (count-update runs_open (stop_run now) (λ r. refl) s.runs) (
        rw (count-update segments_open (interrupt now) (λ r. refl) s.segments) (
          rw (update-update runs_open (stop_run now) (λ r. refl) (stop_run later) s.runs) (
            rw
              (update-update segments_open (interrupt now) (λ r. refl) (interrupt later) s.segments)
              refl))),
    refl,
  )

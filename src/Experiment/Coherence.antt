-- ===== src/Experiment/Coherence.antt =====
-- What is active at one time fits together, whatever the requests and their failures.
use network_backend_article.Base.{Option, none, some, ◌≡◌, List, [], ◌∷◌, arith}
use network_backend_article.Experiment.{
  start_experiment, end_experiment, assign, start_offset_run, stop_offset_run, start_run, plan_run,
  begin_run, plan_segment, begin_segment, attach_target, attach_post_offset, end_run,
  mark_run_interrupted, prepare_test_segment, finish_test_segment, discard_test_segment,
  auto_advance_segment,
}
use network_backend_article.Experiment.State.{
  Manager, ActiveRun, ActiveTestSegment, ActiveOffsetRun,
}
use network_backend_article.Experiment.Requests.{Request, perform, serve}

-- A TestSegment is active only within the active Run that it names, and an OffsetRun and a Run
-- are not active together.
abbrev pub Fits : Option ActiveRun → Option ActiveTestSegment → Option ActiveOffsetRun → Type 0
Fits none none offset = Unit
Fits none (some seg) offset = ⊥
Fits (some run) segment (some offset) = ⊥
Fits (some run) none none = Unit
Fits (some run) (some seg) none = seg.run_id ≡ run.run_id

abbrev pub IsCoherent : {F : Type 0} → Manager F → Type 0
IsCoherent m = Fits m.active_run m.active_test_segment m.active_offset

module _ {F : Type 0} where
  perform-IsCoherent : (r : Request) (m : Manager F) → IsCoherent m → IsCoherent (perform r m).1
  unfolding perform start_experiment end_experiment assign start_offset_run stop_offset_run
      start_run plan_run begin_run attach_target attach_post_offset end_run mark_run_interrupted
      prepare_test_segment plan_segment begin_segment finish_test_segment discard_test_segment
      auto_advance_segment
  perform-IsCoherent (Request.start_experiment id bssid channel memo t t') m h = tt
  perform-IsCoherent (Request.end_experiment t) m h = tt
  perform-IsCoherent (Request.restart t) m h = tt
  perform-IsCoherent (Request.prepare_test_segment point order stabilization recording memo t) m h =
      ground arith
  perform-IsCoherent (Request.start_run direction pass pre memo t) m h = ground arith
  perform-IsCoherent _ m h = ground arith

  -- From a state in which an active TestSegment belongs to the active Run and no OffsetRun is
  -- active beside a Run, any requests, failing or not, lead to such a state.
  pub serve-IsCoherent :
      (rs : List Request) (m : Manager F) → IsCoherent m → IsCoherent (serve rs m)
  unfolding serve
  serve-IsCoherent [] m h = h
  serve-IsCoherent (r ∷ rs) m h = serve-IsCoherent rs (perform r m).1 (perform-IsCoherent r m h)

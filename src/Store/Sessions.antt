-- ===== src/Store/Sessions.antt =====
-- The statements of backend/store.py on the legacy table of single sessions.
use network_backend_article.Base.{
  ℕ, String, Bool, true, false, not, ◌&&◌, Option, none, some, List, [], ◌∷◌, ◌++◌, str_eq, leb,
  filter, any, update, first, sort_by, count, map,
}
use network_backend_article.Base.Result.{Action, integrity_error, raise_if, modify, ◌>>◌}
use network_backend_article.Store.Tables.{Store, SessionRow, MeasurementRow}

-- The sessions of one point of one experiment.
abbrev pub at_point : String → String → SessionRow → Bool
at_point experiment_id point_id r =
    str_eq r.experiment_id experiment_id && str_eq r.point_id point_id

abbrev pub with_superseded : Bool → SessionRow → SessionRow
with_superseded b r = record r { superseded = b }

abbrev pub is_session : String → SessionRow → Bool
is_session session_id r = str_eq r.session_id session_id

module _ {F : Type 0} where
  -- The UPDATE of the older sessions stays in the open transaction where the INSERT raises.
  unfoldable pub create_session :
      String → String → String → String → ℕ → ℕ → Option String → Action (Store F) Unit
  create_session session_id experiment_id point_id point_role started_at_ms planned_seconds note =
      modify (λ s. record s {
        sessions =
            update (λ r. at_point experiment_id point_id r && not r.superseded)
              (with_superseded true) s.sessions;
      })
      >> (λ s. raise_if (any (is_session session_id) s.sessions) integrity_error s)
      >> modify λ s. record s {
        sessions =
            s.sessions
            ++ record {
              session_id = session_id;
              experiment_id = experiment_id;
              point_id = point_id;
              point_role = point_role;
              started_at_ms = started_at_ms;
              ended_at_ms = none;
              planned_seconds = planned_seconds;
              superseded = false;
              note = note;
            }
              ∷ [];
      }

  unfoldable pub end_session : String → ℕ → Store F → Store F
  end_session session_id ended_at_ms s = record s {
    sessions =
        update (is_session session_id) (λ r. record r { ended_at_ms = some ended_at_ms })
          s.sessions;
  }

-- The newest other session of the point of `row`.
abbrev pub previous_session : SessionRow → List SessionRow → Option SessionRow
previous_session row sessions = first (
    sort_by (λ a b. leb b.started_at_ms a.started_at_ms)
      (filter
        (λ r. at_point row.experiment_id row.point_id r && not (str_eq r.session_id row.session_id))
        sessions))

abbrev pub revive : Option SessionRow → List SessionRow → List SessionRow
revive none sessions = sessions
revive (some prev) sessions = update (is_session prev.session_id) (with_superseded false) sessions

abbrev pub discard_row : Option SessionRow → List SessionRow → List SessionRow
discard_row none sessions = sessions
discard_row (some row) sessions =
    let lowered : List SessionRow =
      update (is_session row.session_id) (with_superseded true) sessions in
    revive (previous_session row lowered) lowered

module _ {F : Type 0} where
  unfoldable pub discard_session : String → Store F → Store F
  discard_session session_id s = record s {
    sessions = discard_row (first (filter (is_session session_id) s.sessions)) s.sessions;
  }

-- A row of `list_sessions`, with its two counts.
pub record SessionCounts : Type 0 where
  pub session : SessionRow
  pub valid_samples : ℕ
  pub total_samples : ℕ

abbrev of_session : {F : Type 0} → SessionRow → MeasurementRow F → Bool
of_session r m = str_eq m.session_id r.session_id

abbrev pub with_counts : {F : Type 0} → Store F → SessionRow → SessionCounts
with_counts s r = record {
  session = r;
  valid_samples =
      count (λ m. of_session r m && (m.valid && str_eq m.point_id r.point_id)) s.measurements;
  total_samples = count (of_session r) s.measurements;
}

unfoldable pub list_sessions : {F : Type 0} → String → Store F → List SessionCounts
list_sessions experiment_id s = map (with_counts s) (
    sort_by (λ a b. leb a.started_at_ms b.started_at_ms)
      (filter (λ r. str_eq r.experiment_id experiment_id) s.sessions))

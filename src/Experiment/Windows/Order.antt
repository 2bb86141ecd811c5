-- ===== src/Experiment/Windows/Order.antt =====
-- Lists of TestSegments in which a later row of a Run begins after an earlier one has ended.
use network_backend_article.Base.{
  ℕ, ◌≤◌, ◌≡◌, refl, inl, inr, String, Bool, true, not, ◌&&◌, ◌||◌, List, [], ◌∷◌, ◌++◌, arith,
  str_eq, eq_iff, leb, if◌then◌else◌, All, update, count, Bool-cases,
}
use network_backend_article.Store.Tables.{SegmentRow}
use network_backend_article.Store.Segments.{is_kept, covers}

-- The row may still be given samples.
abbrev pub is_eligible : SegmentRow → Bool
is_eligible r = not r.superseded && is_kept r.status

-- `b` begins no earlier than `a` ends, where the two are of one Run and `a` is eligible.
abbrev pub follows : SegmentRow → SegmentRow → Bool
follows a b =
    not (str_eq a.run_id b.run_id)
    || not (is_eligible a)
    || leb a.recording_ended_at_ms b.recording_started_at_ms

abbrev pub IsOrdered : List SegmentRow → Type 0
IsOrdered [] = Unit
IsOrdered (a ∷ rows) = All (λ b. follows a b ≡ true) rows × IsOrdered rows

-- A change of a row that can only take samples from it.
pub record Shrinks (a b : SegmentRow) : Type 0 where
  pub run : b.run_id ≡ a.run_id
  pub start : b.recording_started_at_ms ≡ a.recording_started_at_ms
  pub ended : b.recording_ended_at_ms ≤ a.recording_ended_at_ms
  pub eligible : (not (is_eligible b) || is_eligible a) ≡ true

pub follows-Shrinks :
    {a b a' b' : SegmentRow}
    → Shrinks a a'
    → Shrinks b b'
    → follows a b ≡ true
    → follows a' b' ≡ true
follows-Shrinks {a} {b} {a'} {b'} p q h = rw (p.run, q.run) (ground arith)

pub Shrinks-refl : (a : SegmentRow) → Shrinks a a
Shrinks-refl a = ground arith

module _ (p : SegmentRow → Bool) (f : SegmentRow → SegmentRow) where
  abbrev step_row : SegmentRow → SegmentRow
  step_row r = if p r then f r else r

  All-follows-update :
      (a a' : SegmentRow) (rows : List SegmentRow)
      → Shrinks a a'
      → All (λ r. Shrinks r (step_row r)) rows
      → All (λ b. follows a b ≡ true) rows
      → All (λ b. follows a' b ≡ true) (update p f rows)
  All-follows-update a a' [] s all h = tt
  All-follows-update a a' (b ∷ rows) s all h =
      (follows-Shrinks s all.0 h.0, All-follows-update a a' rows s all.1 h.1)

  pub IsOrdered-update :
      (rows : List SegmentRow)
      → All (λ r. Shrinks r (step_row r)) rows
      → IsOrdered rows
      → IsOrdered (update p f rows)
  IsOrdered-update [] all h = tt
  IsOrdered-update (a ∷ rows) all h =
      (All-follows-update a (step_row a) rows all.0 all.1 h.0, IsOrdered-update rows all.1 h.1)

pub IsOrdered-append :
    (rows : List SegmentRow) (new : SegmentRow)
    → All (λ r. follows r new ≡ true) rows
    → IsOrdered rows
    → IsOrdered (rows ++ new ∷ [])
IsOrdered-append [] new all h = (tt, tt)
IsOrdered-append (a ∷ rows) new all h = (extend rows all.0 h.0, IsOrdered-append rows new all.1 h.1)
  where
    extend :
        (rs : List SegmentRow)
        → follows a new ≡ true
        → All (λ b. follows a b ≡ true) rs
        → All (λ b. follows a b ≡ true) (rs ++ new ∷ [])
    extend [] x y = (x, tt)
    extend (r ∷ rs) x y = (y.0, extend rs x y.1)

-- The rows of a Run that are given a sample of this time.
abbrev pub takes : String → ℕ → SegmentRow → Bool
takes run_id server_ts_ms r = str_eq r.run_id run_id && covers server_ts_ms r

count-takes-zero :
    (run_id : String) (ts : ℕ) (a : SegmentRow) (rows : List SegmentRow)
    → takes run_id ts a ≡ true
    → All (λ b. follows a b ≡ true) rows
    → count (takes run_id ts) rows ≡ 0
count-takes-zero run_id ts a [] t h = refl
count-takes-zero run_id ts a (b ∷ rows) t h = ground (
  arith,
  count-takes-zero run_id ts a rows t h.1,
  eq_iff a.run_id run_id,
  eq_iff b.run_id run_id,
  eq_iff a.run_id b.run_id,
  h.0,
)

pub count-takes-le :
    (run_id : String) (ts : ℕ) (rows : List SegmentRow)
    → IsOrdered rows
    → count (takes run_id ts) rows ≤ 1
count-takes-le run_id ts [] h = omega arith
count-takes-le run_id ts (a ∷ rows) h = elim (Bool-cases (takes run_id ts a)) [
  | inl taken ↦ rw (taken, count-takes-zero run_id ts a rows taken h.0) (omega arith)
  | inr other ↦ rw other (omega (arith, count-takes-le run_id ts rows h.1))
]

-- ===== src/Store/Points/Lookup.antt =====
-- The tables that backend/store.py writes by `INSERT … ON CONFLICT … DO UPDATE`, as maps from keys
-- to rows.
use network_backend_article.Base.{
  ℕ, ◌≡◌, refl, ap, String, Bool, true, false, ◌&&◌, Option, some, List, [], ◌∷◌, ◌++◌, arith,
  str_eq, eq_iff, filter, first, any, update, if◌then◌else◌, inl, inr, Bool-cases, choose_by,
}
use network_backend_article.Base.Rows.{filter-update, filter-append_none}
use network_backend_article.Store.Tables.{Store, AssignmentRow}
use network_backend_article.Store.Points.{upsert, upsert_assignment}

-- The row of a key.
abbrev pub find : {A : Type 0} → (A → Bool) → List A → Option A
find p rows = first (filter p rows)

module _ {A : Type 0} (p same : A → Bool) (row : A) where
  find-update :
      (rows : List A)
      → ((a : A) → p a ≡ same a)
      → p row ≡ true
      → any same rows ≡ true
      → find p (update same (λ a. row) rows) ≡ some row
  find-update [] agree r h = ground arith
  find-update (a ∷ rows) agree r h = elim (Bool-cases (same a)) [
    | inl e ↦ rw (e, r) refl
    | inr e ↦
        let q = agree a in
        let e' : p a ≡ false = ground arith in rw (e, e') (find-update rows agree r (ground arith))
  ]

  find-append :
      (rows : List A)
      → ((a : A) → p a ≡ same a)
      → p row ≡ true
      → any same rows ≡ false
      → find p (rows ++ row ∷ []) ≡ some row
  find-append [] agree r h = rw r refl
  find-append (a ∷ rows) agree r h =
      let q = agree a in
      let e' : p a ≡ false = ground arith in rw e' (find-append rows agree r (ground arith))

  -- Where the two tests are one, the row is found.
  find-upsert :
      (rows : List A)
      → ((a : A) → p a ≡ same a)
      → p row ≡ true
      → find p (upsert same row rows) ≡ some row
  find-upsert rows agree r =
      choose_by (λ l. find p l ≡ some row) (any same rows) (update same (λ a. row) rows)
        (rows ++ row ∷ []) (find-update rows agree r) (find-append rows agree r)

  -- Where no row passes both, nothing changes.
  find-upsert_other :
      (rows : List A)
      → ((a : A) → same a ≡ true → p a ≡ false)
      → p row ≡ false
      → find p (upsert same row rows) ≡ find p rows
  find-upsert_other rows apart r =
      choose_by (λ l. find p l ≡ find p rows) (any same rows) (update same (λ a. row) rows)
        (rows ++ row ∷ []) (λ e. ap first (filter-update p same (λ a. row) apart (λ a h. r) rows))
        (λ e. ap first (filter-append_none p rows row r))

-- The assignment of a node in an experiment.
abbrev pub is_of : String → String → AssignmentRow → Bool
is_of experiment_id node_id r = str_eq r.experiment_id experiment_id && str_eq r.node_id node_id

abbrev pub assigned : {F : Type 0} → Store F → String → String → Option AssignmentRow
assigned s experiment_id node_id = find (is_of experiment_id node_id) s.assignments

abbrev pub AssignmentMap : Type 0
AssignmentMap = String → String → Option AssignmentRow

-- The abstract update of a map at one key.
abbrev pub put : AssignmentRow → AssignmentMap → AssignmentMap
put row m experiment_id node_id =
    if is_of experiment_id node_id row then some row else m experiment_id node_id

abbrev pub assignment : String → String → String → String → ℕ → AssignmentRow
assignment experiment_id node_id point_id point_role updated_at_ms = record {
  experiment_id = experiment_id;
  node_id = node_id;
  point_id = point_id;
  point_role = point_role;
  updated_at_ms = updated_at_ms;
}

same_key :
    (e n e' n' : String) (a : AssignmentRow)
    → (str_eq e e' && str_eq n n') ≡ true
    → is_of e' n' a ≡ is_of e n a
same_key e n e' n' a h = ground (arith, eq_iff e e', eq_iff n n')

other_key :
    (e n e' n' : String) (a : AssignmentRow)
    → (str_eq e e' && str_eq n n') ≡ false
    → is_of e n a ≡ true
    → is_of e' n' a ≡ false
other_key e n e' n' a h k = ground (
  arith,
  eq_iff e e',
  eq_iff n n',
  eq_iff a.experiment_id e,
  eq_iff a.node_id n,
  eq_iff a.experiment_id e',
  eq_iff a.node_id n',
)

module _ {F : Type 0} where
  -- The table of assignments refines a map from experiments and nodes to rows: after
  -- `upsert_assignment` every look-up gives what it gives after the update of the map at its key.
  pub upsert_assignment-put :
      (experiment_id node_id point_id point_role : String) (updated_at_ms : ℕ) (s : Store F)
      (e n : String)
      → assigned (upsert_assignment experiment_id node_id point_id point_role updated_at_ms s) e n
        ≡ put (assignment experiment_id node_id point_id point_role updated_at_ms) (assigned s) e n
  unfolding upsert_assignment
  upsert_assignment-put x y point_id point_role t s e n =
      let row = assignment x y point_id point_role t in
      elim (Bool-cases (str_eq x e && str_eq y n)) [
        | inl q ↦
            rw q
              (find-upsert (is_of e n) (is_of x y) row s.assignments (λ a. same_key x y e n a q) q)
        | inr q ↦ rw q (
            find-upsert_other (is_of e n) (is_of x y) row s.assignments
              (λ a k. other_key x y e n a q k) q)
      ]

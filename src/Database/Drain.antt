-- ===== src/Database/Drain.antt =====
-- What `flush_raw_loop` of backend/database.py writes while the server answers.
use network_backend_article.Base.{
  ℕ, zero, suc, ◌-◌, ◌*◌, ◌≤◌, ◌≡◌, refl, ap, sym, ◌∙◌, Bool, true, false, Option, none, some, List,
  [], ◌∷◌, ◌++◌, map, arith, inl, inr, ltb, if◌then◌else◌, length, All, Bool-cases, append_assoc,
  append_nil, map-append, choose,
}
use network_backend_article.Database.{
  RawRow, Database, Sampled, maxsize, max_batch, take, drop, put_nowait, enqueue_in, enqueue_raw,
  flush_queue, raw_row, insert_raw, write_batch, flush_raw,
}
use network_backend_article.Database.Queue.{
  Step, enqueued, flushed, closed, step, steps, queue_of, pending, length-drop,
}

if_same : {A : Type 0} (c : Bool) (x y : A) → c ≡ true → (if c then x else y) ≡ x
if_same true x y e = refl
if_same false x y e = ground arith

take-drop : {A : Type 0} (n : ℕ) (xs : List A) → take n xs ++ drop n xs ≡ xs
take-drop zero xs = refl
take-drop (suc n) [] = refl
take-drop (suc n) (x ∷ xs) = ap (λ l. x ∷ l) (take-drop n xs)

abbrev pub is_answered : {F : Type 0} → Step F → Bool
is_answered (enqueued m) = true
is_answered (flushed answer) = answer
is_answered closed = false

module _ {F : Type 0} where
  abbrev room_for : Option (List (Sampled F)) → Sampled F → List (Sampled F)
  room_for none m = []
  room_for (some queue) m = if ltb (length queue) maxsize then m ∷ [] else []

  -- The samples that find room in the queue.
  abbrev pub accepted_by : Step F → Database F → List (Sampled F)
  accepted_by (enqueued m) db = room_for db.raw_queue m
  accepted_by (flushed answer) db = []
  accepted_by closed db = []

  unfoldable pub accepted : List (Step F) → Database F → List (Sampled F)
  accepted [] db = []
  accepted (s ∷ ss) db = accepted_by s db ++ accepted ss (step s db)

  -- The rows of the table and, behind them, those that the queue will give.
  abbrev pub all_rows : Database F → List (RawRow F)
  all_rows db = db.tables.rssi_raw ++ map raw_row (pending db)

  -- A step of a connected database with an answer: the rows grow by those of the new samples.
  record Grows (db db' : Database F) (new : List (Sampled F)) : Type 0 where
    connected : db'.connected ≡ true
    rows : all_rows db' ≡ all_rows db ++ map raw_row new

  same : (db : Database F) → db.connected ≡ true → Grows db db []
  same db c = record { connected = c; rows = sym (append_nil (all_rows db)) }

  grows_by :
      (rows : List (RawRow F)) (queue new : List (Sampled F))
      → rows ++ map raw_row (queue ++ new) ≡ rows ++ map raw_row queue ++ map raw_row new
  grows_by rows queue new =
      ap (λ l. rows ++ l) (map-append raw_row queue new)
      ∙ sym (append_assoc rows (map raw_row queue) (map raw_row new))

  put_nowait-room :
      (m : Sampled F) (queue : List (Sampled F))
      → put_nowait m queue ≡ queue ++ room_for (some queue) m
  put_nowait-room m queue = elim (Bool-cases (ltb (length queue) maxsize)) [
    | inl p ↦ rw p refl
    | inr p ↦ rw p (sym (append_nil queue))
  ]

  abbrev with_queue : Database F → Option (List (Sampled F)) → List (RawRow F)
  with_queue db q = db.tables.rssi_raw ++ map raw_row (queue_of q)

  enqueue_in-Grows :
      (db : Database F) (q : Option (List (Sampled F))) (m : Sampled F)
      → db.connected ≡ true
      → db.raw_queue ≡ q
      → Grows db (enqueue_in q m db) (room_for q m)
  enqueue_in-Grows db none m c e = same db c
  enqueue_in-Grows db (some queue) m c e = record {
    connected = c;
    rows =
        ap (λ l. db.tables.rssi_raw ++ map raw_row l) (put_nowait-room m queue)
        ∙ grows_by db.tables.rssi_raw queue (room_for (some queue) m)
        ∙ ap (λ q. with_queue db q ++ map raw_row (room_for (some queue) m)) (sym e);
  }

  -- Writing a batch changes neither the pool nor the queue.
  abbrev Leaves : Database F → Database F → Type 0
  Leaves db db' = (db'.connected ≡ db.connected) × (db'.raw_queue ≡ db.raw_queue)

  insert_raw-Leaves :
      (answer : Bool) (rows : List (RawRow F)) (db : Database F)
      → Leaves db (insert_raw answer rows db)
  insert_raw-Leaves false rows db = (refl, refl)
  insert_raw-Leaves true rows db = (refl, refl)

  write_batch-Leaves :
      (answer : Bool) (batch : List (Sampled F)) (db : Database F)
      → Leaves db (write_batch answer batch db)
  write_batch-Leaves answer [] db = (refl, refl)
  write_batch-Leaves answer (m ∷ ms) db =
      choose (Leaves db) db.connected (insert_raw answer (map raw_row (m ∷ ms)) db) db
        (insert_raw-Leaves answer (map raw_row (m ∷ ms)) db) (refl, refl)

  write_batch-rows :
      (batch rest : List (Sampled F)) (db : Database F)
      → db.connected ≡ true
      → db.raw_queue ≡ some rest
      → all_rows (write_batch true batch db) ≡ db.tables.rssi_raw ++ map raw_row (batch ++ rest)
  write_batch-rows [] rest db c e = ap (with_queue db) e
  write_batch-rows (m ∷ ms) rest db c e =
      ap all_rows (if_same db.connected (insert_raw true (map raw_row (m ∷ ms)) db) db c)
      ∙ ap (λ q. (db.tables.rssi_raw ++ map raw_row (m ∷ ms)) ++ map raw_row (queue_of q)) e
      ∙ sym (grows_by db.tables.rssi_raw (m ∷ ms) rest)

  flush_queue-Grows :
      (db : Database F) (q : Option (List (Sampled F)))
      → db.connected ≡ true
      → db.raw_queue ≡ q
      → Grows db (flush_queue true q db) []
  flush_queue-Grows db none c e = same db c
  flush_queue-Grows db (some queue) c e =
      let db' = record db { raw_queue = some (drop max_batch queue) } in
      record {
        connected = (write_batch-Leaves true (take max_batch queue) db').0 ∙ c;
        rows =
            write_batch-rows (take max_batch queue) (drop max_batch queue) db' c refl
            ∙ ap (λ l. db.tables.rssi_raw ++ map raw_row l) (take-drop max_batch queue)
            ∙ ap (with_queue db) (sym e)
            ∙ sym (append_nil (all_rows db));
      }

  step-Grows :
      (s : Step F) (db : Database F)
      → is_answered s ≡ true
      → db.connected ≡ true
      → Grows db (step s db) (accepted_by s db)
  unfolding enqueue_raw flush_raw
  step-Grows (enqueued m) db a c = enqueue_in-Grows db db.raw_queue m c refl
  step-Grows (flushed true) db a c = flush_queue-Grows db db.raw_queue c refl
  step-Grows (flushed false) db a c = ground arith
  step-Grows closed db a c = ground arith

  -- Over any sequence of samples and rounds of the loop on a connected database whose server
  -- answers, the rows of the table with those of the queue behind them are the ones of the
  -- start and then one for each sample that found room, in the order in which they came.
  pub steps-accepted :
      (ss : List (Step F)) (db : Database F)
      → db.connected ≡ true
      → All (λ s. is_answered s ≡ true) ss
      → all_rows (steps ss db) ≡ all_rows db ++ map raw_row (accepted ss db)
  unfolding steps accepted
  steps-accepted [] db c h = sym (append_nil (all_rows db))
  steps-accepted (s ∷ ss) db c h =
      let one = step-Grows s db h.0 c in
      steps-accepted ss (step s db) one.connected h.1
      ∙ ap (λ l. l ++ map raw_row (accepted ss (step s db))) one.rows
      ∙ append_assoc (all_rows db) (map raw_row (accepted_by s db))
          (map raw_row (accepted ss (step s db)))
      ∙ ap (λ l. all_rows db ++ l)
          (sym (map-append raw_row (accepted_by s db) (accepted ss (step s db))))

  -- `n` rounds of the loop with an answer.
  unfoldable pub rounds : ℕ → Database F → Database F
  rounds zero db = db
  rounds (suc n) db = rounds n (flush_raw true db)

  flush_queue-length :
      (db : Database F) (q : Option (List (Sampled F)))
      → db.raw_queue ≡ q
      → length (pending (flush_queue true q db)) ≡ length (queue_of q) - max_batch
  flush_queue-length db none e = ap (λ q. length (queue_of q)) e
  flush_queue-length db (some queue) e =
      ap (λ q. length (queue_of q))
        (write_batch-Leaves true (take max_batch queue)
          (record db { raw_queue = some (drop max_batch queue) })).1
      ∙ length-drop max_batch queue

  written_all :
      (queue : List (Sampled F)) (rows : List (RawRow F))
      → length queue ≤ 0
      → (queue ≡ []) × (rows ≡ rows ++ map raw_row queue)
  written_all [] rows le = (refl, sym (append_nil rows))
  written_all (m ∷ ms) rows le = ground arith

  -- On a connected database whose server answers, n rounds empty a queue of at most 500 n
  -- samples; the table then has a row for each of them behind its rows, in their order.
  pub rounds-drain :
      (n : ℕ) (db : Database F)
      → db.connected ≡ true
      → length (pending db) ≤ n * max_batch
      → (pending (rounds n db) ≡ []) × ((rounds n db).tables.rssi_raw ≡ all_rows db)
  unfolding rounds flush_raw
  rounds-drain zero db c le = written_all (pending db) db.tables.rssi_raw (omega (arith, le))
  rounds-drain (suc n) db c le =
      let one = flush_queue-Grows db db.raw_queue c refl in
      let size = flush_queue-length db db.raw_queue refl in
      let (empty, rows) =
        rounds-drain n (flush_raw true db) one.connected (omega (arith, size, le)) in
      (empty, rows ∙ one.rows ∙ append_nil (all_rows db))

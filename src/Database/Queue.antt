-- ===== src/Database/Queue.antt =====
-- The queue of raw samples between `enqueue_raw` and `flush_raw_loop` (backend/database.py).
use network_backend_article.Base.{
  ℕ, zero, suc, ◌+◌, ◌-◌, ◌≤◌, ◌≡◌, Bool, true, false, Option, none, some, List, [], ◌∷◌, map,
  arith, length, length-append, choose,
}
use network_backend_article.Database.{
  RawRow, Database, Sampled, maxsize, max_batch, take, drop, put_nowait, enqueue_in, enqueue_raw,
  flush_queue, raw_row, insert_raw, write_batch, flush_raw, close,
}

pub data Step (F : Type 0) : Type 0 where
  enqueued : Sampled F → Step F
  flushed : Bool → Step F
  closed : Step F

module _ {F : Type 0} where
  abbrev pub step : Step F → Database F → Database F
  step (enqueued m) db = enqueue_raw m db
  step (flushed answer) db = flush_raw answer db
  step closed db = close db

  unfoldable pub steps : List (Step F) → Database F → Database F
  steps [] db = db
  steps (s ∷ ss) db = steps ss (step s db)

  abbrev pub queue_of : Option (List (Sampled F)) → List (Sampled F)
  queue_of none = []
  queue_of (some queue) = queue

  abbrev pub pending : Database F → List (Sampled F)
  pending db = queue_of db.raw_queue

  -- The queue has room, and the counter of `Metrics` counts the rows of the table.
  pub record IsCounted (written : ℕ) (db : Database F) : Type 0 where
    pub room : length (pending db) ≤ maxsize
    pub count : db.metrics.raw_rows_written ≡ written + length db.tables.rssi_raw

pub length-drop : {A : Type 0} (n : ℕ) (xs : List A) → length (drop n xs) ≡ length xs - n
length-drop zero xs = omega arith
length-drop (suc n) [] = omega arith
length-drop (suc n) (x ∷ xs) = omega (arith, length-drop n xs)

module _ {F : Type 0} (written : ℕ) where
  insert_raw-IsCounted :
      (answer : Bool) (rows : List (RawRow F)) (db : Database F)
      → IsCounted written db
      → IsCounted written (insert_raw answer rows db)
  insert_raw-IsCounted false rows db h = h
  insert_raw-IsCounted true rows db h = record {
    room = h.room;
    count =
        let size = length-append db.tables.rssi_raw rows in
        let c = h.count in omega (arith, size, c);
  }

  write_batch-IsCounted :
      (answer : Bool) (batch : List (Sampled F)) (db : Database F)
      → IsCounted written db
      → IsCounted written (write_batch answer batch db)
  write_batch-IsCounted answer [] db h = h
  write_batch-IsCounted answer (m ∷ ms) db h =
      choose (IsCounted written) db.connected (insert_raw answer (map raw_row (m ∷ ms)) db) db
        (insert_raw-IsCounted answer (map raw_row (m ∷ ms)) db h) h

  put_nowait-le :
      (m : Sampled F) (queue : List (Sampled F))
      → length queue ≤ maxsize
      → length (put_nowait m queue) ≤ maxsize
  put_nowait-le m queue le = ground (arith, length-append queue (m ∷ []))

  enqueue_in-IsCounted :
      (q : Option (List (Sampled F))) (m : Sampled F) (db : Database F)
      → length (queue_of q) ≤ maxsize
      → IsCounted written db
      → IsCounted written (enqueue_in q m db)
  enqueue_in-IsCounted none m db le h = h
  enqueue_in-IsCounted (some queue) m db le h = record {
    room = put_nowait-le m queue le;
    count = h.count;
  }

  flush_queue-IsCounted :
      (answer : Bool) (q : Option (List (Sampled F))) (db : Database F)
      → length (queue_of q) ≤ maxsize
      → IsCounted written db
      → IsCounted written (flush_queue answer q db)
  flush_queue-IsCounted answer none db le h = h
  flush_queue-IsCounted answer (some queue) db le h =
      write_batch-IsCounted answer (take max_batch queue)
        (record db { raw_queue = some (drop max_batch queue) })
        (record { room = omega (arith, length-drop max_batch queue, le); count = h.count })

  step-IsCounted :
      (s : Step F) (db : Database F) → IsCounted written db → IsCounted written (step s db)
  unfolding enqueue_raw flush_raw close
  step-IsCounted (enqueued m) db h = enqueue_in-IsCounted db.raw_queue m db h.room h
  step-IsCounted (flushed answer) db h = flush_queue-IsCounted answer db.raw_queue db h.room h
  step-IsCounted closed db h = record { room = h.room; count = h.count }

  -- Over any sequence of samples, rounds of the loop, whether the server answers or not, and
  -- closings: the queue never holds more than 20,000 samples, and `raw_rows_written` counts the
  -- rows of the table, given that it does at the start, up to the rows written before it.
  pub steps-IsCounted :
      (ss : List (Step F)) (db : Database F)
      → IsCounted written db
      → IsCounted written (steps ss db)
  unfolding steps
  steps-IsCounted [] db h = h
  steps-IsCounted (s ∷ ss) db h = steps-IsCounted ss (step s db) (step-IsCounted s db h)

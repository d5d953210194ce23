-- ===== src/LogQueue.antt =====
-- The queue of logging/service.py between the requests and the task that writes the log. Writing a
-- batch is an argument of the events: it succeeds or raises.
pub mod Kept
use ai_proxy.Common.{
  ℕ, zero, suc, Bool, true, false, List, [], ◌∷◌, ◌++◌, if◌then◌else◌, ltb, length,
}

abbrev pub maxsize : ℕ
maxsize = 10000

-- The entries that wait, those that were written, those that a full queue turned away, and those of a
-- batch whose writing raised.
pub record Queue (A : Type 0) : Type 0 where
  pub waiting : List A
  pub written : List A
  pub dropped : List A
  pub failed : List A

module _ {A : Type 0} where
  -- `enqueue_log`
  unfoldable pub enqueue_log : A → Queue A → Queue A
  enqueue_log entry q =
      if ltb (length q.waiting) maxsize
      then record q { waiting = q.waiting ++ entry ∷ [] }
      else record q { dropped = q.dropped ++ entry ∷ [] }

  -- The loop that fills a batch: at most `n` more entries, and what is left in the queue.
  unfoldable pub drain : ℕ → List A → List A × List A
  drain zero waiting = ([], waiting)
  drain (suc n) [] = ([], [])
  drain (suc n) (entry ∷ waiting) = let (entries, left) = drain n waiting in (entry ∷ entries, left)

  abbrev pub settle : Bool → List A → Queue A → Queue A
  settle true entries q = record q { written = q.written ++ entries }
  settle false entries q = record q { failed = q.failed ++ entries }

  -- A batch of the entries that were taken: the first one is taken whatever the size of the batch.
  abbrev pub batch : ℕ → List A → List A × List A
  batch batch_size [] = ([], [])
  batch zero (entry ∷ waiting) = (entry ∷ [], waiting)
  batch (suc n) (entry ∷ waiting) = let (entries, left) = drain n waiting in (entry ∷ entries, left)

  -- One turn of `_flush_loop`: without an entry it waits on.
  unfoldable pub flush : ℕ → Bool → Queue A → Queue A
  unfolding drain
  flush batch_size success q =
      let (entries, left) = batch batch_size q.waiting in
      settle success entries (record q { waiting = left })

  -- What the loop does when it is cancelled while it waits: the rest is one batch.
  unfoldable pub shutdown : Bool → Queue A → Queue A
  shutdown success q = settle success q.waiting (record q { waiting = [] })

-- A request logs an entry, or the loop makes a turn, whose writing succeeds or raises. A turn that is
-- cancelled while it writes has written nothing, and is no turn here.
pub data Event (A : Type 0) : Type 0 where
  log : A → Event A
  turn : (success : Bool) → Event A

module _ {A : Type 0} where
  unfoldable pub run_queue : ℕ → List (Event A) → Queue A → Queue A
  unfolding enqueue_log flush
  run_queue batch_size [] q = q
  run_queue batch_size (log entry ∷ events) q = run_queue batch_size events (enqueue_log entry q)
  run_queue batch_size (turn success ∷ events) q =
      run_queue batch_size events (flush batch_size success q)

-- ===== src/LogQueue/Kept.antt =====
-- What becomes of an entry.
use mathlib.Core.List.{append_assoc, append-nil}
use ai_proxy.Common.{
  ℕ, zero, suc, ◌+◌, ◌≤◌, ◌≡◌, refl, sym, ap, ◌∙◌, true, List, [], ◌∷◌, ◌++◌, arith, ltb, length,
  length-append,
}
use ai_proxy.LogQueue.{
  Queue, Event, log, turn, maxsize, enqueue_log, drain, batch, flush, shutdown, run_queue,
}

module _ {A : Type 0} where
  drain-append : (n : ℕ) (xs : List A) → (drain n xs).0 ++ (drain n xs).1 ≡ xs
  unfolding drain
  drain-append zero xs = refl
  drain-append (suc n) [] = refl
  drain-append (suc n) (x ∷ xs) = ap (λ (l : List A). x ∷ l) (drain-append n xs)

  -- A turn takes the oldest entries and leaves the others in their order.
  batch-append : (n : ℕ) (xs : List A) → (batch n xs).0 ++ (batch n xs).1 ≡ xs
  batch-append n [] = refl
  batch-append zero (x ∷ xs) = refl
  batch-append (suc n) (x ∷ xs) = ap (λ (l : List A). x ∷ l) (drain-append n xs)

  abbrev pub empty : Queue A
  empty = record { waiting = []; written = []; dropped = []; failed = [] }

  -- The entries that were logged, in their order.
  abbrev pub entries : List (Event A) → List A
  entries [] = []
  entries (log entry ∷ events) = entry ∷ entries events
  entries (turn success ∷ events) = entries events

  -- No turn fails to write.
  abbrev pub AllWritten : List (Event A) → Type 0
  AllWritten [] = Unit
  AllWritten (log entry ∷ events) = AllWritten events
  AllWritten (turn success ∷ events) = (success ≡ true) × AllWritten events

  run_queue-kept :
      (n : ℕ) (events : List (Event A)) (q : Queue A)
      → AllWritten events
      → length q.waiting + length (entries events) ≤ maxsize
      → ((run_queue n events q).written ++ (run_queue n events q).waiting
          ≡ (q.written ++ q.waiting) ++ entries events)
        × ((run_queue n events q).dropped ≡ q.dropped)
  unfolding run_queue enqueue_log flush
  run_queue-kept n [] q good h = (sym (append-nil _), refl)
  run_queue-kept n (log entry ∷ events) q good h =
      let room : ltb (length q.waiting) maxsize ≡ true = ground arith in
      let q' : Queue A = record q { waiting = q.waiting ++ entry ∷ [] } in
      let rest =
        run_queue-kept n events q' good (omega (arith, length-append q.waiting (entry ∷ []))) in
      rw (room, run_queue)
        (
          rest.0
              ∙ ap (λ (l : List A). l ++ entries events)
                  (sym (append_assoc q.written q.waiting (entry ∷ [])))
              ∙ append_assoc (q.written ++ q.waiting) (entry ∷ []) (entries events),
          rest.1,
        )
  run_queue-kept n (turn success ∷ events) q (e, good) h =
      let taken = batch-append n q.waiting in
      let q' : Queue A = record q {
        written = q.written ++ (batch n q.waiting).0;
        waiting = (batch n q.waiting).1;
      } in
      let rest = run_queue-kept n events q' good (
        omega
          (arith, length-append (batch n q.waiting).0 (batch n q.waiting).1, ap length taken)) in
      rw (e, run_queue)
        (
          rest.0
              ∙ ap (λ (l : List A). l ++ entries events)
                  (append_assoc q.written (batch n q.waiting).0 (batch n q.waiting).1
                    ∙ ap (λ (l : List A). q.written ++ l) taken),
          rest.1,
        )

  -- Where no more entries are logged than the queue holds and every write succeeds, the log has
  -- after the shutdown every entry once, in the order in which they were logged, however the
  -- turns of the loop fell and whatever the size of a batch, and none was turned away.
  pub shutdown-run_queue :
      (n : ℕ) (events : List (Event A))
      → AllWritten events
      → length (entries events) ≤ maxsize
      → (let done = shutdown true (run_queue n events empty) in
          (done.written ≡ entries events) × (done.waiting ≡ []) × (done.dropped ≡ []))
  unfolding shutdown
  shutdown-run_queue n events good h =
      let kept = run_queue-kept n events empty good (omega arith) in (kept.0, refl, kept.1)

-- ===== src/RateLimiter/Queue.antt =====
-- How many coroutines wait: `apply_rate_limit` turns a request away while the queue is full.
use ai_proxy.Common.{ℕ, suc, ◌+◌, ◌-◌, ◌≤◌, ◌<◌, ◌≡◌, false, Option, none, some, arith}
use ai_proxy.Json.{pos}
use ai_proxy.RateLimiter.{Limiter, acquire_round, begin_acquire, abandon, is_queue_full}

-- The coroutines that still wait after a round of one of them: one less where it got its slot.
abbrev pub left : ℕ → Option ℕ → ℕ
left n none = n - 1
left n (some wait) = n

-- What the requests at one limiter do, with how many of them wait, which the limiter is not asked for:
-- one is let into the queue, a waiting one makes a round, a waiting one is cancelled.
pub data Step (l : Limiter) (n : ℕ) : Limiter → ℕ → Type 0 where
  admit : is_queue_full l ≡ false → Step l n (begin_acquire l) (suc n)
  attempt : (now : ℕ) → 0 < n → Step l n (acquire_round now l).0 (left n (acquire_round now l).1)
  leave : 0 < n → Step l n (abandon l) (n - 1)

pub data Reach (l : Limiter) (n : ℕ) : Limiter → ℕ → Type 0 where
  start : Reach l n l n
  next : {m k : Limiter} {i j : ℕ} → Reach l n m i → Step m i k j → Reach l n k j

-- The limiter has a limit and counts those that wait, of which there are at most one more than the
-- configured size of the queue.
pub record IsBounded (q : ℕ) (l : Limiter) (n : ℕ) : Type 0 where
  pub limited : 0 < l.rpm
  pub size : l.max_queue ≡ pos q
  pub counted : l.waiting ≡ n
  pub bounded : n ≤ q + 1

Step-IsBounded :
    (q : ℕ) {l m : Limiter} {i j : ℕ} → Step l i m j → IsBounded q l i → IsBounded q m j
unfolding begin_acquire acquire_round abandon is_queue_full
Step-IsBounded q (admit open_queue) h = record {
  limited = ground (arith, h.limited);
  size = ground (arith, h.size, h.limited);
  counted = ground (arith, h.counted, h.limited);
  bounded = ground (arith, h.counted, h.limited, h.size, open_queue);
}
Step-IsBounded q {l} {m} {i} (attempt now some_wait) h = record {
  limited = ground (arith, h.limited);
  size = ground (arith, h.size);
  counted = ground (arith, h.counted, some_wait);
  bounded = ground (arith, h.bounded);
}
Step-IsBounded q (leave some_wait) h = record {
  limited = h.limited;
  size = h.size;
  counted = ground (arith, h.counted);
  bounded = ground (arith, h.bounded);
}

-- Whatever the order of the requests at a limiter with a limit: where it counts those that wait and
-- they are at most `max_queue + 1`, it goes on counting them and they never get more, where
-- `max_queue` is not negative.
pub Reach-IsBounded :
    (q : ℕ) {l : Limiter} {i : ℕ} {m : Limiter} {j : ℕ}
    → IsBounded q l i
    → Reach l i m j
    → IsBounded q m j
Reach-IsBounded q h start = h
Reach-IsBounded q h (next r s) = Step-IsBounded q s (Reach-IsBounded q h r)

-- ===== src/RateLimiter/Window.antt =====
-- The sliding window: no 60 seconds see more than `rpm` requests, and a request that sleeps as long
-- as it is told gets its slot.
use ai_proxy.Common.{
  ℕ, ◌+◌, ◌-◌, ◌≤◌, ◌<◌, ◌≡◌, refl, ◌&&◌, none, some, List, [], ◌∷◌, ◌++◌, arith, if◌then◌else◌,
  length, ltb, leb, Bool-cases, inl, inr,
}
use mathlib.Core.List.{append-nil}
use ai_proxy.Config.{RateLimitConfig}
use ai_proxy.RateLimiter.{
  Event, enter, round, cancel, run, begin_acquire, abandon, new_limiter, rpm_of, Limiter, window,
  prune, wait_time, acquire_round,
}

-- How many times lie in the window of 60 seconds that begins just after `w`.
unfoldable pub count_window : ℕ → List ℕ → ℕ
count_window w [] = 0
count_window w (t ∷ ts) = (if ltb w t && leb t (w + window) then 1 else 0) + count_window w ts

-- How many times lie after `w`.
count_after : ℕ → List ℕ → ℕ
count_after w [] = 0
count_after w (t ∷ ts) = (if ltb w t then 1 else 0) + count_after w ts

count_after-append :
    (w : ℕ) (ts us : List ℕ) → count_after w (ts ++ us) ≡ count_after w ts + count_after w us
unfolding count_after
count_after-append w [] us = omega arith
count_after-append w (t ∷ ts) us = omega (arith, count_after-append w ts us)

count_window-append :
    (w : ℕ) (ts us : List ℕ) → count_window w (ts ++ us) ≡ count_window w ts + count_window w us
unfolding count_window
count_window-append w [] us = omega arith
count_window-append w (t ∷ ts) us = omega (arith, count_window-append w ts us)

count_window-le-count_after : (w : ℕ) (ts : List ℕ) → count_window w ts ≤ count_after w ts
unfolding count_window count_after
count_window-le-count_after w [] = omega arith
count_window-le-count_after w (t ∷ ts) = ground (arith, count_window-le-count_after w ts)

count_after-le-length : (w : ℕ) (ts : List ℕ) → count_after w ts ≤ length ts
unfolding count_after
count_after-le-length w [] = omega arith
count_after-le-length w (t ∷ ts) = ground (arith, count_after-le-length w ts)

-- What is pruned lies before the window that ends now.
count_after-prune :
    (w now : ℕ) (ts : List ℕ) → now ≤ w + window → count_after w (prune now ts) ≡ count_after w ts
unfolding count_after prune
count_after-prune w now [] h = refl
count_after-prune w now (t ∷ ts) h = ground (arith, count_after-prune w now ts)

-- The granted requests in their order, the limiter, and the time of the last round hang together.
record Tracks (rpm : ℕ) (granted ts : List ℕ) (last : ℕ) : Type 0 where
  bounded : (w : ℕ) → count_window w granted ≤ rpm
  kept : (w : ℕ) → last ≤ w + window → count_after w granted ≤ count_after w ts

Tracks-grant :
    (rpm : ℕ) (granted ts : List ℕ) (last now : ℕ)
    → Tracks rpm granted ts last
    → last ≤ now
    → length (prune now ts) < rpm
    → Tracks rpm (granted ++ now ∷ []) (prune now ts ++ now ∷ []) now
unfolding count_window
Tracks-grant rpm granted ts last now t later room = record {
  bounded = λ w. bound w;
  kept = λ w h. omega (
    arith,
    count_after-append w granted (now ∷ []),
    count_after-append w (prune now ts) (now ∷ []),
    count_after-prune w now ts h,
    t.kept w (omega arith),
  );
}
  where
    bound : (w : ℕ) → count_window w (granted ++ now ∷ []) ≤ rpm
    bound w = ground (
      arith,
      count_window-append w granted (now ∷ []),
      t.bounded w,
      t.kept w,
      count_window-le-count_after w granted,
      count_after-prune w now ts,
      count_after-le-length w (prune now ts),
    )

Tracks-empty : (rpm : ℕ) → Tracks rpm [] [] 0
unfolding count_window count_after
Tracks-empty rpm = record { bounded = λ w. omega arith; kept = λ w h. omega arith }

Tracks-wait :
    (rpm : ℕ) (granted ts : List ℕ) (last now : ℕ)
    → Tracks rpm granted ts last
    → last ≤ now
    → Tracks rpm granted (prune now ts) now
Tracks-wait rpm granted ts last now t later = record {
  bounded = t.bounded;
  kept = λ w h. omega (arith, count_after-prune w now ts h, t.kept w (omega arith));
}

-- The times of the rounds ascend.
abbrev pub IsAscending : ℕ → List Event → Type 0
IsAscending last [] = Unit
IsAscending last (round now ∷ events) = (last ≤ now) × IsAscending now events
IsAscending last (enter ∷ events) = IsAscending last events
IsAscending last (cancel ∷ events) = IsAscending last events

run-bounded :
    (events : List Event) (l : Limiter) (granted : List ℕ) (last w : ℕ)
    → Tracks l.rpm granted l.timestamps last
    → IsAscending last events
    → count_window w (run events l granted).1 ≤ l.rpm
unfolding run begin_acquire abandon acquire_round
run-bounded [] l granted last w t h = t.bounded w
run-bounded (enter ∷ events) l granted last w t h = elim (Bool-cases (ltb 0 l.rpm)) [
  | inl limited ↦
      rw (limited, run)
        (run-bounded events (record l { waiting = l.waiting + 1 }) granted last w t h)
  | inr free ↦ rw (free, run) (run-bounded events l granted last w t h)
]
run-bounded (cancel ∷ events) l granted last w t h =
    run-bounded events (record l { waiting = l.waiting - 1 }) granted last w t h
run-bounded (round now ∷ events) l granted last w t h =
    elim (Bool-cases (ltb (length (prune now l.timestamps)) l.rpm)) [
      | inl room ↦
          rw (room, run)
            (run-bounded events
              (record l {
                timestamps = prune now l.timestamps ++ now ∷ [];
                waiting = l.waiting - 1;
              })
              (granted ++ now ∷ []) now w
              (Tracks-grant l.rpm granted l.timestamps last now t h.0 (ground arith)) h.1)
      | inr full ↦
          rw (full, run, append-nil)
            (run-bounded events (record l { timestamps = prune now l.timestamps }) granted now w
              (Tracks-wait l.rpm granted l.timestamps last now t h.0) h.1)
    ]

-- However the coroutines that enter, try, give up and get a slot are interleaved, as time
-- ascends, no window of 60 seconds holds more than `rpm` of the requests that a new limiter with
-- a positive limit lets through.
pub run-count_window-le-rpm :
    (config : RateLimitConfig) (events : List Event) (w : ℕ)
    → 0 < rpm_of config.rpm
    → IsAscending 0 events
    → count_window w (run events (new_limiter config) []).1 ≤ rpm_of config.rpm
unfolding new_limiter
run-count_window-le-rpm config events w limited h =
    run-bounded events _ [] 0 w (Tracks-empty (rpm_of config.rpm)) h

length-prune : (now : ℕ) (ts : List ℕ) → length (prune now ts) ≤ length ts
unfolding prune
length-prune now [] = omega arith
length-prune now (t ∷ ts) = ground (arith, length-prune now ts)

-- A later prune drops at least the oldest of what an earlier one kept, once it has left the window.
length-prune-later :
    (now later : ℕ) (ts : List ℕ)
    → now + wait_time now ts ≤ later
    → length (prune later ts) ≤ length ts - 1
unfolding prune wait_time
length-prune-later now later [] h = omega arith
length-prune-later now later (t ∷ ts) h = ground (arith, length-prune later ts)

-- A coroutine that sleeps as long as a round told it, or longer, gets its slot in its next round, if
-- no other coroutine had a round in between. The limiter holds at most `rpm` times, and its limit is
-- positive.
pub acquire_round-after_wait :
    (now later wait : ℕ) (l l' : Limiter)
    → 0 < l.rpm
    → length l.timestamps ≤ l.rpm
    → acquire_round now l ≡ (l', some wait)
    → now + wait ≤ later
    → (acquire_round later l').1 ≡ none
unfolding acquire_round
acquire_round-after_wait now later wait l l' positive_rpm held h late =
    ground
      (arith, length-prune now l.timestamps, length-prune-later now later (prune now l.timestamps))

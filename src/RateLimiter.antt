-- ===== src/RateLimiter.antt =====
-- core/rate_limiter.py. Time is counted in milliseconds from the start of the monotonic clock, which
-- is taken to have no fractions: `60.0` is 60000 and `0.05` is 50. What a coroutine does while it
-- holds the lock is one function; what happens between two of them is a step of RateLimiter/Queue.
pub mod Window
pub mod Queue
pub mod Reload
use ai_proxy.Common.{
  ℕ, zero, suc, ◌+◌, ◌-◌, ◌≤◌, String, Bool, true, false, Option, none, some, List, [], ◌∷◌, ◌++◌,
  ◌==◌, ◌&&◌, if◌then◌else◌, length, ltb, leb, nat_eq,
}
use Prim.Native.Nat.{max}
use ai_proxy.Dict
use ai_proxy.Dict.{Dict}
use ai_proxy.Json.{ℤ, pos, negsuc}
use ai_proxy.Config.{ProviderConfig, RateLimitConfig}

-- `ProviderRateLimiter`: `rpm` is the number of requests in a window, and `waiting` is `_pending`.
pub record Limiter : Type 0 where
  pub rpm : ℕ
  pub max_queue : ℤ
  pub timestamps : List ℕ
  pub waiting : ℕ

abbrev pub window : ℕ
window = 60000

-- `while self._timestamps and self._timestamps[0] <= window_start: popleft()`
unfoldable pub prune : ℕ → List ℕ → List ℕ
prune now [] = []
prune now (t ∷ ts) = let rest = prune now ts in if leb (t + window) now then rest else t ∷ ts

abbrev oldest : List ℕ → ℕ
oldest [] = 0
oldest (t ∷ ts) = t

-- How long the round asks to sleep: until the oldest request leaves the window, and 50 at least.
unfoldable pub wait_time : ℕ → List ℕ → ℕ
wait_time now ts = max (oldest ts + window - now) 50

-- One round of the loop in `acquire`, under the lock: `none` where a slot is taken, else the time to
-- sleep.
unfoldable pub acquire_round : ℕ → Limiter → Limiter × Option ℕ
unfolding prune wait_time
acquire_round now l =
    let live = prune now l.timestamps in
    if ltb (length live) l.rpm
    then (record l { timestamps = live ++ now ∷ []; waiting = l.waiting - 1 }, none)
    else (record l { timestamps = live }, some (wait_time now live))

-- `self._pending += 1`, unless there is no limit: then `acquire` returns at once.
unfoldable pub begin_acquire : Limiter → Limiter
begin_acquire l = if ltb 0 l.rpm then record l { waiting = l.waiting + 1 } else l

-- `except BaseException: self._pending -= 1`
unfoldable pub abandon : Limiter → Limiter
abandon l = record l { waiting = l.waiting - 1 }

-- What the coroutines that call `acquire` do, one at a time: come in, make a round at a time, or be
-- cancelled while they wait.
pub data Event : Type 0 where
  enter : Event
  round : (now : ℕ) → Event
  cancel : Event

-- The slot that a round took, if it took one.
abbrev pub grant : ℕ → Option ℕ → List ℕ
grant now none = now ∷ []
grant now (some wait) = []

-- The limiter after the events, with the times that got a slot, in their order.
unfoldable pub run : List Event → Limiter → List ℕ → Limiter × List ℕ
unfolding begin_acquire abandon acquire_round
run [] l granted = (l, granted)
run (enter ∷ events) l granted = run events (begin_acquire l) granted
run (cancel ∷ events) l granted = run events (abandon l) granted
run (round now ∷ events) l granted =
    let (l', result) = acquire_round now l in run events l' (granted ++ grant now result)

-- `self._pending > self.max_queue`
unfoldable pub is_queue_full : Limiter → Bool
is_queue_full l = elim l.max_queue [ pos n ↦ ltb n l.waiting | negsuc n ↦ true ]

abbrev pub positive : ℤ → ℕ
positive (pos n) = n
positive (negsuc n) = 0

-- `config.rpm or 0`; a limit that is not positive is no limit, like 0.
abbrev pub rpm_of : Option ℤ → ℕ
rpm_of none = 0
rpm_of (some n) = positive n

unfoldable pub new_limiter : RateLimitConfig → Limiter
new_limiter config = record {
  rpm = rpm_of config.rpm;
  max_queue = config.max_queue;
  timestamps = [];
  waiting = 0;
}

-- The limiter that is in place, if its limit is still the same.
abbrev pub reuse : ℕ → Limiter → Option Limiter → Limiter
reuse rpm fresh none = fresh
reuse rpm fresh (some old) = if nat_eq old.rpm rpm then old else fresh

-- One round of the loop of `build_rate_limiters`.
unfoldable pub build_limiter : Dict Limiter → String → ProviderConfig → Dict Limiter → Dict Limiter
build_limiter limiters name prov_config new_limiters =
    let rate_cfg = prov_config.rate_limit in
    if ltb 0 (rpm_of rate_cfg.rpm)
    then Dict.set new_limiters name
        (reuse (rpm_of rate_cfg.rpm) (new_limiter rate_cfg) (Dict.get limiters name))
    else new_limiters

build_limiters_from : Dict Limiter → Dict ProviderConfig → Dict Limiter → Dict Limiter
build_limiters_from limiters [] new_limiters = new_limiters
build_limiters_from limiters ((name, prov_config) ∷ providers) new_limiters =
    build_limiters_from limiters providers (build_limiter limiters name prov_config new_limiters)

-- The limiters after a start or a reload, from those in place.
unfoldable pub build_rate_limiters : Dict Limiter → Dict ProviderConfig → Dict Limiter
unfolding build_limiters_from
build_rate_limiters limiters providers = build_limiters_from limiters providers []

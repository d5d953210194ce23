-- ===== src/Tests/Limits.antt =====
-- The theorems on the limiters at small ones.
use ai_proxy.Common.{◌≤◌, ◌≡◌, refl, none, List, [], ◌∷◌, arith}
use ai_proxy.Dict
use ai_proxy.Dict.{Dict}
use ai_proxy.Json.{pos}
use ai_proxy.RateLimiter.{
  Limiter, Event, enter, round, run, new_limiter, acquire_round, begin_acquire, prune, wait_time,
  is_queue_full, build_rate_limiters,
}
use ai_proxy.RateLimiter.Window.{count_window, run-count_window-le-rpm, acquire_round-after_wait}
use ai_proxy.RateLimiter.Queue.{start, next, admit, IsBounded, Reach-IsBounded}
use ai_proxy.RateLimiter.Reload.{limiter_for, get-build_rate_limiters}
use ai_proxy.Tests.{limits, router}

-- Three requests come in at once, and the third one has to wait.
abbrev events : List Event
events = enter ∷ enter ∷ enter ∷ round 1000 ∷ round 1001 ∷ round 1002 ∷ round 61000 ∷ []

run-count_window-le-rpm_example : count_window 1000 (run events (new_limiter limits) []).1 ≤ 2
run-count_window-le-rpm_example =
    run-count_window-le-rpm limits events 1000 (omega arith)
      (omega arith, (omega arith, (omega arith, (omega arith, tt))))

-- A limiter with two requests in its window.
abbrev full : Limiter
full = record { rpm = 2; max_queue = pos 1; timestamps = 1000 ∷ 1001 ∷ []; waiting = 1 }

acquire_round-after_wait_example : (acquire_round 61000 full).1 ≡ none
unfolding acquire_round prune wait_time
acquire_round-after_wait_example =
    acquire_round-after_wait 1002 61000 59998 full full (omega arith) (omega arith) refl
      (omega arith)

Reach-IsBounded_example : IsBounded 1 (begin_acquire (new_limiter limits)) 1
unfolding new_limiter is_queue_full
Reach-IsBounded_example =
    Reach-IsBounded 1 {l = new_limiter limits} {i = 0}
      (record { limited = omega arith; size = refl; counted = refl; bounded = omega arith })
      (next start (admit refl))

get-build_rate_limiters_example :
    Dict.get (build_rate_limiters [] (("router", router) ∷ [])) "router"
    ≡ limiter_for (Dict.get [] "router") (Dict.get (("router", router) ∷ []) "router")
unfolding Dict.get
get-build_rate_limiters_example =
    get-build_rate_limiters [] (("router", router) ∷ []) "router" (refl, tt)

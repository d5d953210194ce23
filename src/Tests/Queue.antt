-- ===== src/Tests/Queue.antt =====
-- The theorem on the queue of the log, with two entries and a turn between them.
use ai_proxy.Common.{ℕ, ◌≡◌, refl, true, List, [], ◌∷◌, arith}
use ai_proxy.LogQueue.{Event, log, turn, shutdown, run_queue}
use ai_proxy.LogQueue.Kept.{empty, shutdown-run_queue}

abbrev events : List (Event ℕ)
events = log 1 ∷ turn true ∷ log 2 ∷ []

shutdown-run_queue_example :
    ((shutdown true (run_queue 50 events empty)).written ≡ 1 ∷ 2 ∷ [])
    × ((shutdown true (run_queue 50 events empty)).waiting ≡ [])
    × ((shutdown true (run_queue 50 events empty)).dropped ≡ [])
shutdown-run_queue_example = shutdown-run_queue 50 events (refl, tt) (omega arith)

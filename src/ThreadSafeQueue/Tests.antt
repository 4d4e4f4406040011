-- ===== src/ThreadSafeQueue/Tests.antt =====
-- Two threads on the queue.
use quickstructs.Prelude.{ℕ, ◌≡◌, refl, true, List, [], ◌∷◌, ◌++◌}
use quickstructs.ThreadSafeQueue.{
  idle, Event, push_event, notify_event, pop_event, spurious_event, wake, push, notify_one,
  wait_and_pop, wake_up, start, step, run, empty,
}
use quickstructs.ThreadSafeQueue.Order.{run-pushed}
use quickstructs.ThreadSafeQueue.Wakeups.{NoneLost, run-NoneLost}

-- Thread 1 sleeps, wakes for nothing and sleeps again, and is woken for the first of two elements.
abbrev events : List (Event ℕ)
events =
    pop_event 1
    ∷ spurious_event 1
    ∷ pop_event 1
    ∷ push_event 0 7
    ∷ notify_event 0 0
    ∷ push_event 0 8
    ∷ pop_event 1
    ∷ notify_event 0 1
    ∷ []

events-run :
    run events (start ℕ 2)
    ≡ record { queue = 8 ∷ []; threads = idle ∷ idle ∷ []; pushed = 7 ∷ 8 ∷ []; popped = 7 ∷ [] }
unfolding run step push notify_one wait_and_pop wake_up wake
events-run = refl

empty-run : empty (start ℕ 2) ≡ true
unfolding empty
empty-run = refl

run-pushed_example :
    (run events (start ℕ 2)).pushed
    ≡ (run events (start ℕ 2)).popped ++ (run events (start ℕ 2)).queue
run-pushed_example = run-pushed 2 events

run-NoneLost_example : NoneLost (run events (start ℕ 2))
run-NoneLost_example = run-NoneLost 2 events

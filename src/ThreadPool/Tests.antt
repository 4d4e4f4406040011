-- ===== src/ThreadPool/Tests.antt =====
-- A pool of one worker.
use quickstructs.Prelude.{ℕ, ◌++◌, ◌≡◌, refl, true, List, [], ◌∷◌}
use quickstructs.ThreadPool.{
  finished, Event, work_event, emplace_event, release_event, stopping_event, wake_event,
  request_event, start, work, step, run, get_num_active_tasks,
}
use quickstructs.ThreadPool.Tasks.{tally, added}
use quickstructs.ThreadPool.Order.{begun, run-begun}
use quickstructs.ThreadPool.Permits.{Served, run-Served}
use quickstructs.Sums.{sum_by}

-- The worker runs task 8; then task 9 is enqueued, and the pool destroyed.
abbrev events : List Event
events =
    emplace_event 8
    ∷ release_event
    ∷ work_event 0
    ∷ work_event 0
    ∷ work_event 0
    ∷ work_event 0
    ∷ work_event 0
    ∷ emplace_event 9
    ∷ release_event
    ∷ stopping_event
    ∷ wake_event
    ∷ request_event 0
    ∷ work_event 0
    ∷ []

-- Task 9 stays in the queue when the worker has left its loop.
events-run : run events (start 1) ≡ record {
  tasks = 9 ∷ [];
  semaphore = 2;
  stopping = true;
  workers = record { position = finished; stop_requested = true } ∷ [];
  enqueuing = 0;
  ran = 8 ∷ [];
}
unfolding run step work
events-run = refl

active-run : get_num_active_tasks (run events (start 1)) ≡ 1
unfolding run step work get_num_active_tasks
active-run = refl

begun-run : begun events (start 1) ≡ 8 ∷ []
unfolding begun step work
begun-run = refl

run-begun_example :
    ((t : ℕ) → tally t (run events (start 1)) ≡ sum_by (added t) events)
    × (8 ∷ 9 ∷ [] ≡ begun events (start 1) ++ (run events (start 1)).tasks)
run-begun_example = run-begun 1 events

-- Task 9 stays with a permit of its own.
run-Served_example : Served (run events (start 1))
run-Served_example = run-Served 1 events

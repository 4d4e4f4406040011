-- ===== src/ThreadPool/Tasks.antt =====
-- Each task is in the queue, with a worker, or has run.
use quickstructs.Prelude.{
  ℕ, zero, suc, ◌+◌, ◌≡◌, refl, Bool, true, false, List, [], ◌∷◌, get_elem?, replicate, ◌==◌,
  if◌then◌else◌, arith, Bool-cases, Option-cases, inl, inr,
}
use quickstructs.Sums.{sum_by, sum_by-append, sum_by-set}
use quickstructs.ThreadPool.{
  Position, at_condition, before_acquire, before_test, before_mutex, running, finished, Worker,
  ThreadPool, start, take_task, work, Event, work_event, emplace_event, release_event,
  stopping_event, wake_event, request_event, step, run,
}

abbrev pub is_task : ℕ → ℕ → ℕ
is_task t u = if u == t then 1 else 0

abbrev pub runs : ℕ → Position → ℕ
runs t at_condition = 0
runs t before_acquire = 0
runs t before_test = 0
runs t before_mutex = 0
runs t (running u) = is_task t u
runs t finished = 0

abbrev pub worker_runs : ℕ → Worker → ℕ
worker_runs t w = runs t w.position

-- How often the task `t` is in the queue or has run, and with the workers.
abbrev resting : ℕ → ThreadPool → ℕ
resting t p = sum_by (is_task t) p.tasks + sum_by (is_task t) p.ran

abbrev pub tally : ℕ → ThreadPool → ℕ
tally t p = resting t p + sum_by (worker_runs t) p.workers

take_task-tally :
    (t : ℕ) (ts : List ℕ)
    → runs t (take_task ts).0 + sum_by (is_task t) (take_task ts).1 ≡ sum_by (is_task t) ts
take_task-tally t [] = refl
take_task-tally t (u ∷ us) = refl

outside :
    (t : ℕ) (b : Bool) (x y : Position)
    → runs t x ≡ 0
    → runs t y ≡ 0
    → runs t (if b then x else y) ≡ 0
outside t true x y e f = e
outside t false x y e f = f

work-tally :
    (t : ℕ) (x : Position) (stop : Bool) (p : ThreadPool)
    → runs t (work x stop p).0 + resting t (work x stop p).1 ≡ runs t x + resting t p
unfolding work
work-tally t at_condition stop p = omega (arith, outside t _ finished before_acquire refl refl)
work-tally t before_acquire stop p = elim (Bool-cases (p.semaphore == 0)) [
  | inl e ↦ rw e refl
  | inr e ↦ rw e refl
]
work-tally t before_test stop p = omega (arith, outside t _ finished before_mutex refl refl)
work-tally t before_mutex stop p = omega (arith, take_task-tally t p.tasks)
work-tally t (running u) stop p = omega arith
work-tally t finished stop p = refl

-- The tasks that an event adds.
abbrev pub added : ℕ → Event → ℕ
added t (work_event i) = 0
added t (emplace_event u) = is_task t u
added t release_event = 0
added t stopping_event = 0
added t wake_event = 0
added t (request_event i) = 0

step-tally : (t : ℕ) (e : Event) (p : ThreadPool) → tally t (step e p) ≡ tally t p + added t e
unfolding step
step-tally t (work_event i) p = elim (Option-cases (get_elem? p.workers i)) [
  | inl n ↦ rw (n, step) (omega arith)
  | inr (w, s) ↦
      rw (s, step)
        (omega (
          arith,
          work-tally t w.position w.stop_requested p,
          sum_by-set (worker_runs t) p.workers i w
              (record w { position = (work w.position w.stop_requested p).0 }) s,
        ))
]
step-tally t (emplace_event u) p = omega (arith, sum_by-append (is_task t) p.tasks u)
step-tally t release_event p = elim (Bool-cases (p.enqueuing == 0)) [
  | inl n ↦ rw n (omega arith)
  | inr n ↦ rw n (omega arith)
]
step-tally t wake_event p = omega arith
step-tally t stopping_event p = omega arith
step-tally t (request_event i) p = elim (Option-cases (get_elem? p.workers i)) [
  | inl n ↦ rw (n, step) (omega arith)
  | inr (w, s) ↦
      rw (s, step)
        (omega
          (arith, sum_by-set (worker_runs t) p.workers i w (record w { stop_requested = true }) s))
]

idle_workers :
    (t n : ℕ)
    → sum_by
        (worker_runs t)
        (replicate n (record { position = at_condition; stop_requested = false }))
      ≡ 0
idle_workers t zero = refl
idle_workers t (suc n) = omega (arith, idle_workers t n)

run-adds :
    (t : ℕ) (es : List Event) (p : ThreadPool)
    → tally t (run es p) ≡ tally t p + sum_by (added t) es
unfolding run
run-adds t [] p = omega arith
run-adds t (e ∷ es) p = omega (arith, run-adds t es (step e p), step-tally t e p)

-- Under every interleaving of the workers, the calls of `enqueue` and the destructor, each task that
-- was enqueued is in the queue, with one worker, or has run, and only once.
pub run-enqueued :
    (num_threads t : ℕ) (es : List Event)
    → tally t (run es (start num_threads)) ≡ sum_by (added t) es
run-enqueued n t es = omega (arith, run-adds t es (start n), idle_workers t n)

-- ===== src/ThreadPool/Permits.antt =====
-- The permits of the semaphore against the tasks in the queue.
use quickstructs.Prelude.{
  ℕ, ◌+◌, ◌-◌, ◌≤◌, some, ◌≡◌, refl, Bool, true, List, [], ◌∷◌, length, length-append, get_elem?,
  set, arith, Bool-cases, Option-cases, inl, inr, ◌==◌, ◌<◌,
}
use quickstructs.Sums.{sum_by, sum_by-set, sum_by_ge}
use quickstructs.ThreadPool.{
  Position, at_condition, before_acquire, before_test, before_mutex, running, finished, Worker,
  ThreadPool, start, work, Event, work_event, emplace_event, release_event, stopping_event,
  wake_event, request_event, step, run,
}

-- A worker between its acquire and the queue.
abbrev pub comes : Position → ℕ
comes at_condition = 0
comes before_acquire = 0
comes before_test = 1
comes before_mutex = 1
comes (running t) = 0
comes finished = 0

abbrev pub worker_comes : Worker → ℕ
worker_comes w = comes w.position

abbrev pub coming : ThreadPool → ℕ
coming p = sum_by worker_comes p.workers

-- One step of a worker, in which `c` others are on their way.
work_permits :
    (x : Position) (stop : Bool) (p : ThreadPool) (c : ℕ)
    → length p.tasks ≤ p.semaphore + (comes x + c)
    → let (y, q) = work x stop p in length q.tasks ≤ q.semaphore + (comes y + c)
unfolding work
work_permits at_condition stop p c h = ground arith
work_permits before_acquire stop p c h = ground arith
work_permits before_test stop p c h = ground arith
work_permits before_mutex stop p c h = ground arith
work_permits (running t) stop p c h = ground arith
work_permits finished stop p c h = ground arith

-- Each task in the queue has a permit, a worker on its way, or an `enqueue` that will release one.
abbrev pub Served : ThreadPool → Type 0
Served p = length p.tasks ≤ p.semaphore + coming p + p.enqueuing

work-enqueuing :
    (x : Position) (stop : Bool) (p : ThreadPool) → (work x stop p).1.enqueuing ≡ p.enqueuing
unfolding work
work-enqueuing at_condition stop p = refl
work-enqueuing before_acquire stop p = elim (Bool-cases (p.semaphore == 0)) [
  | inl e ↦ rw e refl
  | inr e ↦ rw e refl
]
work-enqueuing before_test stop p = refl
work-enqueuing before_mutex stop p = refl
work-enqueuing (running t) stop p = refl
work-enqueuing finished stop p = refl

work-Served :
    (i : ℕ) (w : Worker) (p : ThreadPool)
    → get_elem? p.workers i ≡ some w
    → Served p
    → let (y, q) = work w.position w.stop_requested p in
      Served (record q { workers = set p.workers i (record w { position = y }) })
work-Served i w p e h =
    let y = (work w.position w.stop_requested p).0 in
    omega (
      arith,
      work_permits w.position w.stop_requested p (coming p - worker_comes w + p.enqueuing)
          (omega (arith, h, sum_by_ge worker_comes p.workers i w e)),
      work-enqueuing w.position w.stop_requested p,
      sum_by_ge worker_comes p.workers i w e,
      sum_by-set worker_comes p.workers i w (record w { position = y }) e,
    )

step-Served : (e : Event) (p : ThreadPool) → Served p → Served (step e p)
unfolding step
step-Served (work_event i) p h = elim (Option-cases (get_elem? p.workers i)) [
  | inl f ↦ rw (f, step) h
  | inr (w, f) ↦ rw (f, step) (work-Served i w p f h)
]
step-Served (emplace_event t) p h = omega (arith, h, length-append p.tasks (t ∷ []))
step-Served release_event p h = elim (Bool-cases (p.enqueuing == 0)) [
  | inl e ↦ rw e h
  | inr e ↦ rw e (let some_call : 0 < p.enqueuing = ground arith in omega (arith, h))
]
step-Served stopping_event p h = h
step-Served wake_event p h = omega (arith, h)
step-Served (request_event i) p h = elim (Option-cases (get_elem? p.workers i)) [
  | inl f ↦ rw (f, step) h
  | inr (w, f) ↦
      rw (f, step)
        (omega
          (arith, h, sum_by-set worker_comes p.workers i w (record w { stop_requested = true }) f))
]

run_keeps : (es : List Event) (p : ThreadPool) → Served p → Served (run es p)
unfolding run
run_keeps [] p h = h
run_keeps (e ∷ es) p h = run_keeps es (step e p) (step-Served e p h)

-- Under every interleaving of the workers, the calls of `enqueue` and the destructor, there is for each
-- task in the queue a permit of the semaphore, a worker that has acquired one and has not looked into
-- the queue since, or an `enqueue` that has put its task into the queue and will release one.
pub run-Served : (num_threads : ℕ) (es : List Event) → Served (run es (start num_threads))
run-Served n es = run_keeps es (start n) (omega arith)

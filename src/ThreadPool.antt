-- ===== src/ThreadPool.antt =====
-- include/quick/thread/ThreadPool.hpp. A task is known by a number. Every access of the shared state
-- is one step of a worker or of the thread that owns the pool, and the steps interleave in any order;
-- what stands under the mutex is one step. A worker that finds the semaphore at 0 stays where it is.
pub mod Tasks
pub mod Order
pub mod Permits
mod Tests
use quickstructs.Prelude.{
  ℕ, ◌+◌, ◌-◌, Bool, true, false, ◌&&◌, ◌||◌, Option, none, some, List, [], ◌∷◌, ◌++◌, get_elem?,
  length, set, replicate, ◌==◌, if◌then◌else◌,
}

-- Where a worker is in its loop: at the condition, before `acquire`, before the test of the stop
-- token, before the mutex, running a task, or behind the loop.
pub data Position : Type 0 where
  at_condition : Position
  before_acquire : Position
  before_test : Position
  before_mutex : Position
  running : ℕ → Position
  finished : Position

-- A worker, and whether its stop token was asked to stop.
pub record Worker : Type 0 where
  pub position : Position
  pub stop_requested : Bool

-- `ThreadPool`, with the number of calls of `enqueue` that have put their task into the queue and not
-- released the semaphore yet, and the tasks that have run, the last one first.
pub record ThreadPool : Type 0 where
  pub tasks : List ℕ
  pub semaphore : ℕ
  pub stopping : Bool
  pub workers : List Worker
  pub enqueuing : ℕ
  pub ran : List ℕ

-- `ThreadPool::ThreadPool`
abbrev pub start : ℕ → ThreadPool
start num_threads = record {
  tasks = [];
  semaphore = 0;
  stopping = false;
  workers = replicate num_threads (record { position = at_condition; stop_requested = false });
  enqueuing = 0;
  ran = [];
}

abbrev is_empty : List ℕ → Bool
is_empty [] = true
is_empty (t ∷ ts) = false

-- The worker takes the first task under the mutex, or goes on with the loop.
abbrev pub take_task : List ℕ → Position × List ℕ
take_task [] = (at_condition, [])
take_task (t ∷ ts) = (running t, ts)

-- One step of a worker: where it is then, and the pool without the change of the worker.
pub work : Position → Bool → ThreadPool → Position × ThreadPool
work at_condition stop p = (if stop || p.stopping then finished else before_acquire, p)
work before_acquire stop p =
    if p.semaphore == 0
    then (before_acquire, p)
    else (before_test, record p { semaphore = p.semaphore - 1 })
work before_test stop p = (if stop && is_empty p.tasks then finished else before_mutex, p)
work before_mutex stop p =
    let (position, tasks) = take_task p.tasks in (position, record p { tasks = tasks })
work (running t) stop p = (at_condition, record p { ran = t ∷ p.ran })
work finished stop p = (finished, p)

-- The steps: of a worker; the two of `enqueue`, of which the release is of a call that has put its task
-- into the queue; and those of the destructor, which stores the flag, and for each worker releases the
-- semaphore and asks its token to stop.
pub data Event : Type 0 where
  work_event : ℕ → Event
  emplace_event : ℕ → Event
  release_event : Event
  stopping_event : Event
  wake_event : Event
  request_event : ℕ → Event

pub step : Event → ThreadPool → ThreadPool
step (work_event i) p = elim (get_elem? p.workers i) [
  | some w ↦
      let (position, p') = work w.position w.stop_requested p in
      record p' { workers = set p.workers i (record w { position = position }) }
  | none ↦ p
]
step (emplace_event t) p = record p { tasks = p.tasks ++ t ∷ []; enqueuing = p.enqueuing + 1 }
step release_event p =
    if p.enqueuing == 0
    then p
    else record p { semaphore = p.semaphore + 1; enqueuing = p.enqueuing - 1 }
step stopping_event p = record p { stopping = true }
step wake_event p = record p { semaphore = p.semaphore + 1 }
step (request_event i) p = elim (get_elem? p.workers i) [
  | some w ↦ record p { workers = set p.workers i (record w { stop_requested = true }) }
  | none ↦ p
]

pub run : List Event → ThreadPool → ThreadPool
run [] p = p
run (e ∷ es) p = run es (step e p)

-- `get_num_active_tasks`
pub get_num_active_tasks : ThreadPool → ℕ
get_num_active_tasks p = length p.tasks

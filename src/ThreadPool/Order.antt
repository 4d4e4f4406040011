-- ===== src/ThreadPool/Order.antt =====
-- The order in which the workers take the tasks.
use quickstructs.Prelude.{
  ℕ, ◌≡◌, refl, sym, ap, ◌∙◌, Bool, Option, none, some, List, [], ◌∷◌, ◌++◌, append_assoc,
  append-nil, get_elem?, ◌==◌, Bool-cases, Option-cases, inl, inr,
}
use quickstructs.Sums.{sum_by}
use quickstructs.ThreadPool.{
  Position, at_condition, before_acquire, before_test, before_mutex, running, finished, Worker,
  ThreadPool, start, work, Event, work_event, emplace_event, release_event, stopping_event,
  wake_event, request_event, step, run,
}
use quickstructs.ThreadPool.Tasks.{tally, added, run-enqueued}

-- The task that a worker takes from the queue in its next step.
abbrev taken : Position → List ℕ → List ℕ
taken at_condition ts = []
taken before_acquire ts = []
taken before_test ts = []
taken before_mutex [] = []
taken before_mutex (t ∷ ts) = t ∷ []
taken (running u) ts = []
taken finished ts = []

abbrev taken_by : Option Worker → List ℕ → List ℕ
taken_by none ts = []
taken_by (some w) ts = taken w.position ts

abbrev begins : Event → ThreadPool → List ℕ
begins (work_event i) p = taken_by (get_elem? p.workers i) p.tasks
begins (emplace_event t) p = []
begins release_event p = []
begins stopping_event p = []
begins wake_event p = []
begins (request_event i) p = []

-- The tasks that the workers begin, in their order, and those that are enqueued.
unfoldable pub begun : List Event → ThreadPool → List ℕ
begun [] p = []
begun (e ∷ es) p = begins e p ++ begun es (step e p)

abbrev arriving : Event → List ℕ
arriving (work_event i) = []
arriving (emplace_event t) = t ∷ []
arriving release_event = []
arriving stopping_event = []
arriving wake_event = []
arriving (request_event i) = []

abbrev pub enqueued : List Event → List ℕ
enqueued [] = []
enqueued (e ∷ es) = arriving e ++ enqueued es

work-taken :
    (x : Position) (stop : Bool) (p : ThreadPool) (ts : List ℕ)
    → p.tasks ≡ ts
    → ts ≡ taken x ts ++ (work x stop p).1.tasks
unfolding work
work-taken at_condition stop p ts e = sym e
work-taken before_acquire stop p ts e = elim (Bool-cases (p.semaphore == 0)) [
  | inl z ↦ rw z (sym e)
  | inr z ↦ rw z (sym e)
]
work-taken before_test stop p ts e = sym e
work-taken before_mutex stop p [] e = rw e refl
work-taken before_mutex stop p (t ∷ ts) e = rw e refl
work-taken (running u) stop p ts e = sym e
work-taken finished stop p ts e = sym e

step-begins : (e : Event) (p : ThreadPool) → p.tasks ++ arriving e ≡ begins e p ++ (step e p).tasks
unfolding step
step-begins (work_event i) p = append-nil p.tasks ∙ elim (Option-cases (get_elem? p.workers i)) [
  | inl n ↦ rw (n, step, taken_by) refl
  | inr (w, s) ↦ rw (s, step, taken_by) (work-taken w.position w.stop_requested p p.tasks refl)
]
step-begins (emplace_event t) p = refl
step-begins release_event p =
    append-nil p.tasks
    ∙ elim (Bool-cases (p.enqueuing == 0)) [ inl n ↦ rw n refl | inr n ↦ rw n refl ]
step-begins wake_event p = append-nil p.tasks
step-begins stopping_event p = append-nil p.tasks
step-begins (request_event i) p = append-nil p.tasks ∙ elim (Option-cases (get_elem? p.workers i)) [
  | inl n ↦ rw (n, step) refl
  | inr (w, s) ↦ rw (s, step) refl
]

run_begins :
    (es : List Event) (p : ThreadPool) → p.tasks ++ enqueued es ≡ begun es p ++ (run es p).tasks
unfolding run begun
run_begins [] p = append-nil p.tasks
run_begins (e ∷ es) p =
    sym (append_assoc p.tasks (arriving e) (enqueued es))
    ∙ ap (λ ts. ts ++ enqueued es) (step-begins e p)
    ∙ append_assoc (begins e p) (step e p).tasks (enqueued es)
    ∙ ap (λ ts. begins e p ++ ts) (run_begins es (step e p))
    ∙ sym (append_assoc (begins e p) (begun es (step e p)) (run es (step e p)).tasks)

-- Under every interleaving of the workers, the calls of `enqueue` and the destructor, each task that
-- was enqueued is in the queue, with one worker, or has run, and only once; the workers begin the
-- tasks in the order in which they were enqueued, and those not begun are the queue.
pub run-begun :
    (num_threads : ℕ) (es : List Event)
    → ((t : ℕ) → tally t (run es (start num_threads)) ≡ sum_by (added t) es)
      × (enqueued es ≡ begun es (start num_threads) ++ (run es (start num_threads)).tasks)
run-begun n es = (λ t. run-enqueued n t es, run_begins es (start n))

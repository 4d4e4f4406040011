-- ===== src/ThreadSafeQueue/Wakeups.antt =====
-- No wakeup is lost.
use quickstructs.Prelude.{
  ℕ, ◌+◌, ◌≤◌, ◌≡◌, refl, ap, Option, none, some, List, [], ◌∷◌, length, length-append, get_elem?,
  set, arith, inl, inr, ◌⊎◌,
}
use quickstructs.Sums.{sum_by, sum_by-set}
use quickstructs.ThreadSafeQueue.{
  Position, idle, notifying, asleep, woken, ThreadSafeQueue, start, Event, push_event, notify_event,
  pop_event, spurious_event, wake_first, wake_at, wake, push, notify_one, take_front, wait_and_pop,
  wake_up, step, run,
}

abbrev pub is_asleep : Position → ℕ
is_asleep asleep = 1
is_asleep idle = 0
is_asleep notifying = 0
is_asleep woken = 0

-- A thread that will notify, or that will look at the queue.
abbrev pub is_coming : Position → ℕ
is_coming notifying = 1
is_coming woken = 1
is_coming idle = 0
is_coming asleep = 0

abbrev pub sleepers : List Position → ℕ
sleepers ps = sum_by is_asleep ps

abbrev pub coming : List Position → ℕ
coming ps = sum_by is_coming ps

-- One sleeping thread more is woken, if there is one.
abbrev Woken : List Position → List Position → Type 0
Woken ps ps' =
    ((sleepers ps ≡ 0) × (sleepers ps' ≡ 0))
    ⊎ ((coming ps' ≡ coming ps + 1) × (sleepers ps' + 1 ≡ sleepers ps))

wake_first-Woken : (ps : List Position) → Woken ps (wake_first ps)
wake_first-Woken [] = inl (refl, refl)
wake_first-Woken (asleep ∷ ps) = inr (omega arith, omega arith)
wake_first-Woken (idle ∷ ps) = ground (arith, wake_first-Woken ps)
wake_first-Woken (notifying ∷ ps) = ground (arith, wake_first-Woken ps)
wake_first-Woken (woken ∷ ps) = ground (arith, wake_first-Woken ps)

wake_at-Woken :
    (o : Option Position) (i : ℕ) (ps : List Position)
    → get_elem? ps i ≡ o
    → Woken ps (wake_at o i ps)
wake_at-Woken (some asleep) i ps e = inr (
  omega (arith, sum_by-set is_coming ps i asleep woken e),
  omega (arith, sum_by-set is_asleep ps i asleep woken e),
)
wake_at-Woken (some idle) i ps e = wake_first-Woken ps
wake_at-Woken (some notifying) i ps e = wake_first-Woken ps
wake_at-Woken (some woken) i ps e = wake_first-Woken ps
wake_at-Woken none i ps e = wake_first-Woken ps

module _ {A : Type 0} where
  -- When a thread sleeps, no more elements wait than threads are coming.
  abbrev pub NoneLost : ThreadSafeQueue A → Type 0
  NoneLost q = (sleepers q.threads ≡ 0) ⊎ (length q.queue ≤ coming q.threads)

  push-NoneLost :
      (o : Option Position) (i : ℕ) (x : A) (q : ThreadSafeQueue A)
      → get_elem? q.threads i ≡ o
      → NoneLost q
      → NoneLost (push o i x q)
  unfolding push
  push-NoneLost (some idle) i x q e h = ground (
    arith,
    h,
    sum_by-set is_coming q.threads i idle notifying e,
    sum_by-set is_asleep q.threads i idle notifying e,
    length-append q.queue (x ∷ []),
  )
  push-NoneLost (some notifying) i x q e h = h
  push-NoneLost (some asleep) i x q e h = h
  push-NoneLost (some woken) i x q e h = h
  push-NoneLost none i x q e h = h

  notify_one-NoneLost :
      (o : Option Position) (i j : ℕ) (q : ThreadSafeQueue A)
      → get_elem? q.threads i ≡ o
      → NoneLost q
      → NoneLost (notify_one o i j q)
  unfolding notify_one wake
  notify_one-NoneLost (some notifying) i j q e h = ground (
    arith,
    h,
    sum_by-set is_coming q.threads i notifying idle e,
    sum_by-set is_asleep q.threads i notifying idle e,
    wake_at-Woken (get_elem? (set q.threads i idle) j) j (set q.threads i idle) refl,
  )
  notify_one-NoneLost (some idle) i j q e h = h
  notify_one-NoneLost (some asleep) i j q e h = h
  notify_one-NoneLost (some woken) i j q e h = h
  notify_one-NoneLost none i j q e h = h

  take_front-NoneLost :
      (xs : List A) (p : Position) (i : ℕ) (q : ThreadSafeQueue A)
      → q.queue ≡ xs
      → get_elem? q.threads i ≡ some p
      → is_asleep p ≡ 0
      → is_coming p ≤ 1
      → NoneLost q
      → NoneLost (take_front xs i q)
  take_front-NoneLost [] p i q c e a b h = inr (omega (arith, ap length c))
  take_front-NoneLost (x ∷ xs) p i q c e a b h = ground (
    arith,
    h,
    ap length c,
    sum_by-set is_coming q.threads i p idle e,
    sum_by-set is_asleep q.threads i p idle e,
  )

  wait_and_pop-NoneLost :
      (o : Option Position) (i : ℕ) (q : ThreadSafeQueue A)
      → get_elem? q.threads i ≡ o
      → NoneLost q
      → NoneLost (wait_and_pop o i q)
  unfolding wait_and_pop
  wait_and_pop-NoneLost (some idle) i q e h =
      take_front-NoneLost q.queue idle i q refl e refl (omega arith) h
  wait_and_pop-NoneLost (some woken) i q e h =
      take_front-NoneLost q.queue woken i q refl e refl (omega arith) h
  wait_and_pop-NoneLost (some notifying) i q e h = h
  wait_and_pop-NoneLost (some asleep) i q e h = h
  wait_and_pop-NoneLost none i q e h = h

  wake_up-NoneLost :
      (o : Option Position) (i : ℕ) (q : ThreadSafeQueue A)
      → get_elem? q.threads i ≡ o
      → NoneLost q
      → NoneLost (wake_up o i q)
  unfolding wake_up
  wake_up-NoneLost (some asleep) i q e h = ground (
    arith,
    h,
    sum_by-set is_coming q.threads i asleep woken e,
    sum_by-set is_asleep q.threads i asleep woken e,
  )
  wake_up-NoneLost (some idle) i q e h = h
  wake_up-NoneLost (some notifying) i q e h = h
  wake_up-NoneLost (some woken) i q e h = h
  wake_up-NoneLost none i q e h = h

  step-NoneLost : (e : Event A) (q : ThreadSafeQueue A) → NoneLost q → NoneLost (step e q)
  unfolding step
  step-NoneLost (push_event i x) q h = push-NoneLost (get_elem? q.threads i) i x q refl h
  step-NoneLost (notify_event i j) q h = notify_one-NoneLost (get_elem? q.threads i) i j q refl h
  step-NoneLost (pop_event i) q h = wait_and_pop-NoneLost (get_elem? q.threads i) i q refl h
  step-NoneLost (spurious_event i) q h = wake_up-NoneLost (get_elem? q.threads i) i q refl h

  run_keeps : (es : List (Event A)) (q : ThreadSafeQueue A) → NoneLost q → NoneLost (run es q)
  unfolding run
  run_keeps [] q h = h
  run_keeps (e ∷ es) q h = run_keeps es (step e q) (step-NoneLost e q h)

  -- Under every interleaving of any number of threads, when some thread sleeps in `wait_and_pop`, there
  -- are as many threads that will notify one or that were woken as the queue has elements, or more.
  pub run-NoneLost : (n : ℕ) (es : List (Event A)) → NoneLost (run es (start A n))
  run-NoneLost n es = run_keeps es (start A n) (inr (omega arith))

-- ===== src/ThreadSafeQueue/Order.antt =====
-- The queue against the list of what was pushed.
use quickstructs.Prelude.{
  ℕ, ◌≡◌, refl, sym, ap, ◌∙◌, Option, none, some, List, [], ◌∷◌, ◌++◌, append_assoc, get_elem?,
}
use quickstructs.ThreadSafeQueue.{
  Position, idle, notifying, asleep, woken, ThreadSafeQueue, start, Event, push_event, notify_event,
  pop_event, spurious_event, push, notify_one, take_front, wait_and_pop, wake_up, step, run,
}

module _ {A : Type 0} where
  abbrev InOrder : ThreadSafeQueue A → Type 0
  InOrder q = q.pushed ≡ q.popped ++ q.queue

  push-InOrder :
      (o : Option Position) (i : ℕ) (x : A) (q : ThreadSafeQueue A)
      → InOrder q
      → InOrder (push o i x q)
  unfolding push
  push-InOrder (some idle) i x q h =
      ap (λ l. l ++ x ∷ []) h ∙ append_assoc q.popped q.queue (x ∷ [])
  push-InOrder (some notifying) i x q h = h
  push-InOrder (some asleep) i x q h = h
  push-InOrder (some woken) i x q h = h
  push-InOrder none i x q h = h

  notify_one-InOrder :
      (o : Option Position) (i j : ℕ) (q : ThreadSafeQueue A)
      → InOrder q
      → InOrder (notify_one o i j q)
  unfolding notify_one
  notify_one-InOrder (some notifying) i j q h = h
  notify_one-InOrder (some idle) i j q h = h
  notify_one-InOrder (some asleep) i j q h = h
  notify_one-InOrder (some woken) i j q h = h
  notify_one-InOrder none i j q h = h

  take_front-InOrder :
      (xs : List A) (i : ℕ) (q : ThreadSafeQueue A)
      → q.queue ≡ xs
      → InOrder q
      → InOrder (take_front xs i q)
  take_front-InOrder [] i q e h = h
  take_front-InOrder (x ∷ xs) i q e h =
      h ∙ ap (◌++◌ q.popped) e ∙ sym (append_assoc q.popped (x ∷ []) xs)

  wait_and_pop-InOrder :
      (o : Option Position) (i : ℕ) (q : ThreadSafeQueue A)
      → InOrder q
      → InOrder (wait_and_pop o i q)
  unfolding wait_and_pop
  wait_and_pop-InOrder (some idle) i q h = take_front-InOrder q.queue i q refl h
  wait_and_pop-InOrder (some woken) i q h = take_front-InOrder q.queue i q refl h
  wait_and_pop-InOrder (some notifying) i q h = h
  wait_and_pop-InOrder (some asleep) i q h = h
  wait_and_pop-InOrder none i q h = h

  wake_up-InOrder :
      (o : Option Position) (i : ℕ) (q : ThreadSafeQueue A) → InOrder q → InOrder (wake_up o i q)
  unfolding wake_up
  wake_up-InOrder (some asleep) i q h = h
  wake_up-InOrder (some idle) i q h = h
  wake_up-InOrder (some notifying) i q h = h
  wake_up-InOrder (some woken) i q h = h
  wake_up-InOrder none i q h = h

  step-InOrder : (e : Event A) (q : ThreadSafeQueue A) → InOrder q → InOrder (step e q)
  unfolding step
  step-InOrder (push_event i x) q h = push-InOrder (get_elem? q.threads i) i x q h
  step-InOrder (notify_event i j) q h = notify_one-InOrder (get_elem? q.threads i) i j q h
  step-InOrder (pop_event i) q h = wait_and_pop-InOrder (get_elem? q.threads i) i q h
  step-InOrder (spurious_event i) q h = wake_up-InOrder (get_elem? q.threads i) i q h

  run-InOrder : (es : List (Event A)) (q : ThreadSafeQueue A) → InOrder q → InOrder (run es q)
  unfolding run
  run-InOrder [] q h = h
  run-InOrder (e ∷ es) q h = run-InOrder es (step e q) (step-InOrder e q h)

  -- Under every interleaving of any number of threads, what was popped, in this order, and then what
  -- is in the queue, is what was pushed in its order.
  pub run-pushed :
      (n : ℕ) (es : List (Event A))
      → (run es (start A n)).pushed ≡ (run es (start A n)).popped ++ (run es (start A n)).queue
  run-pushed n es = run-InOrder es (start A n) refl

-- ===== src/ThreadSafeQueue.antt =====
-- include/quick/structs/ThreadSafeQueue.hh. Any number of threads call `push` and `wait_and_pop`. What
-- stands under the mutex is one step; the condition variable wakes one sleeping thread of the
-- scheduler's choice when it is notified, and any sleeping thread at any time.
pub mod Order
pub mod Wakeups
mod Tests
use quickstructs.Prelude.{
  ℕ, Bool, true, false, Option, none, some, List, [], ◌∷◌, ◌++◌, get_elem?, set, replicate,
}

-- Where a thread is: outside of the calls, before `notify_one`, asleep in `wait`, or woken in it.
pub data Position : Type 0 where
  idle : Position
  notifying : Position
  asleep : Position
  woken : Position

-- `ThreadSafeQueue`, its threads, and all that was pushed and popped, the first one first.
pub record ThreadSafeQueue (A : Type 0) : Type 0 where
  pub queue : List A
  pub threads : List Position
  pub pushed : List A
  pub popped : List A

abbrev pub start : (A : Type 0) → ℕ → ThreadSafeQueue A
start A n = record { queue = []; threads = replicate n idle; pushed = []; popped = [] }

-- The steps: of a thread that calls `push`, up to the end of the block with the lock; its
-- `notify_one`, which wakes the thread of the second number if that sleeps, or else some other; of a
-- thread that calls `wait_and_pop` or was woken in it; and a wakeup without a notification.
pub data Event (A : Type 0) : Type 0 where
  push_event : ℕ → A → Event A
  notify_event : ℕ → ℕ → Event A
  pop_event : ℕ → Event A
  spurious_event : ℕ → Event A

abbrev pub wake_first : List Position → List Position
wake_first [] = []
wake_first (asleep ∷ ps) = woken ∷ ps
wake_first (idle ∷ ps) = idle ∷ wake_first ps
wake_first (notifying ∷ ps) = notifying ∷ wake_first ps
wake_first (woken ∷ ps) = woken ∷ wake_first ps

abbrev pub wake_at : Option Position → ℕ → List Position → List Position
wake_at (some asleep) i ps = set ps i woken
wake_at (some idle) i ps = wake_first ps
wake_at (some notifying) i ps = wake_first ps
wake_at (some woken) i ps = wake_first ps
wake_at none i ps = wake_first ps

pub wake : ℕ → List Position → List Position
wake i ps = wake_at (get_elem? ps i) i ps

module _ {A : Type 0} where
  abbrev pub move : ℕ → Position → ThreadSafeQueue A → ThreadSafeQueue A
  move i p q = record q { threads = set q.threads i p }

  -- `push`
  pub push : Option Position → ℕ → A → ThreadSafeQueue A → ThreadSafeQueue A
  push (some idle) i x q = record {
    queue = q.queue ++ x ∷ [];
    threads = set q.threads i notifying;
    pushed = q.pushed ++ x ∷ [];
    popped = q.popped;
  }
  push (some notifying) i x q = q
  push (some asleep) i x q = q
  push (some woken) i x q = q
  push none i x q = q

  pub notify_one : Option Position → ℕ → ℕ → ThreadSafeQueue A → ThreadSafeQueue A
  notify_one (some notifying) i j q = record q { threads = wake j (set q.threads i idle) }
  notify_one (some idle) i j q = q
  notify_one (some asleep) i j q = q
  notify_one (some woken) i j q = q
  notify_one none i j q = q

  -- `wait_and_pop`, from the test of the queue under the lock.
  abbrev pub take_front : List A → ℕ → ThreadSafeQueue A → ThreadSafeQueue A
  take_front [] i q = move i asleep q
  take_front (x ∷ xs) i q = record {
    queue = xs;
    threads = set q.threads i idle;
    pushed = q.pushed;
    popped = q.popped ++ x ∷ [];
  }

  pub wait_and_pop : Option Position → ℕ → ThreadSafeQueue A → ThreadSafeQueue A
  wait_and_pop (some idle) i q = take_front q.queue i q
  wait_and_pop (some woken) i q = take_front q.queue i q
  wait_and_pop (some notifying) i q = q
  wait_and_pop (some asleep) i q = q
  wait_and_pop none i q = q

  pub wake_up : Option Position → ℕ → ThreadSafeQueue A → ThreadSafeQueue A
  wake_up (some asleep) i q = move i woken q
  wake_up (some idle) i q = q
  wake_up (some notifying) i q = q
  wake_up (some woken) i q = q
  wake_up none i q = q

  unfoldable pub step : Event A → ThreadSafeQueue A → ThreadSafeQueue A
  step (push_event i x) q = push (get_elem? q.threads i) i x q
  step (notify_event i j) q = notify_one (get_elem? q.threads i) i j q
  step (pop_event i) q = wait_and_pop (get_elem? q.threads i) i q
  step (spurious_event i) q = wake_up (get_elem? q.threads i) i q

  unfoldable pub run : List (Event A) → ThreadSafeQueue A → ThreadSafeQueue A
  run [] q = q
  run (e ∷ es) q = run es (step e q)

  -- `empty`, which reads the queue without the lock.
  pub empty : ThreadSafeQueue A → Bool
  empty q = elim q.queue [ [] ↦ true | _ ∷ _ ↦ false ]

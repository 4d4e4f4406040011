-- ===== src/SpscQueue/Calls.antt =====
-- `emplace` and `pop` as whole calls are their atomic steps run with no step of the other thread
-- between them, where the loads give the newest stores.
use quickstructs.Prelude.{
  ℕ, ◌≡◌, Option, List, [], ◌∷◌, ◌++◌, if◌then◌else◌, replicate, ◌==◌, Bool-cases, inl, inr,
}
use quickstructs.SpscQueue.{
  Queue, Stores, waiting, resting, Producer, Consumer, produce, consume, step, run, emplace, pop,
  diff, capacity, inc, produce_event, consume_event, value_at, see_tail, see_head, store_head,
  store_tail,
}

-- A call of `emplace` takes four steps, or three where the queue is full.
pub emplace-run :
    {A : Type 0} (k : ℕ) (x : A) (q : Queue A) (m : Stores) (c : Consumer A) (us : List A)
    (vs : List (Option A))
    → let seen = see_tail 0 m in
      value_at seen.tails seen.seen_tail ≡ q.tail
      → let (done, q') = emplace k q x in
        run k (replicate (if done then 4 else 3) (produce_event x 0)) (record {
          queue = q;
          stores = m;
          producer = waiting;
          consumer = c;
          pushed = us;
          popped = vs;
        })
        ≡ record {
          queue = q';
          stores = if done then store_head (inc q.head) seen else seen;
          producer = waiting;
          consumer = c;
          pushed = if done then us ++ x ∷ [] else us;
          popped = vs;
        }
unfolding run step produce emplace
emplace-run k x q m c us vs new = elim (Bool-cases (diff q.head q.tail == capacity k)) [
  | inl full ↦ rw full (rw new (rw full))
  | inr free ↦ rw free (rw new (rw free))
]

-- A call of `pop` takes five steps, or three where the queue is empty, and returns what it moved out.
pub pop-run :
    {A : Type 0} (k : ℕ) (q : Queue A) (m : Stores) (p : Producer A) (us : List A)
    (vs : List (Option A))
    → let seen = see_head 0 m in
      value_at seen.heads seen.seen_head ≡ q.head
      → let (done, out, q') = pop k q in
        run k (replicate (if done then 5 else 3) (consume_event 0)) (record {
          queue = q;
          stores = m;
          producer = p;
          consumer = resting;
          pushed = us;
          popped = vs;
        })
        ≡ record {
          queue = q';
          stores = if done then store_tail (inc q.tail) seen else seen;
          producer = p;
          consumer = resting;
          pushed = us;
          popped = if done then vs ++ out ∷ [] else vs;
        }
unfolding run step consume pop
pop-run k q m p us vs new = elim (Bool-cases (q.head == q.tail)) [
  | inl e ↦ rw e (rw new (rw e))
  | inr e ↦ rw e (rw new (rw e))
]

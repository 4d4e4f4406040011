-- ===== src/SpscQueue/Fifo.antt =====
-- What the queue promises under every interleaving of its two threads.
use quickstructs.Prelude.{
  ℕ, ◌+◌, ◌≤◌, ◌<◌, ◌≡◌, refl, some, List, [], ◌∷◌, length, arith, Bool-cases, inl, inr, ◌==◌, map,
  take, prefix_of_get_elem?,
}
use quickstructs.SpscQueue.{
  diff, capacity, Producer, waiting, loaded_head, loaded_tail, constructed, Consumer, resting,
  read_tail, read_head, moved, destroyed, System, produce, consume, step, run, start, size, Event,
  produce_event, consume_event, see_tail, see_head, value_at,
}
use quickstructs.SpscQueue.Words.{diff-word, capacity-lt-word}
use quickstructs.SpscQueue.Views.{see_tail-IsSeen, see_head-IsSeen}
use quickstructs.SpscQueue.Invariant.{
  order, room, Inv, IsSafe, start-IsSafe, with_producer, with_consumer,
}
use quickstructs.SpscQueue.Producing.{construct-Inv, publish-Inv}
use quickstructs.SpscQueue.Consuming.{take-Inv, destroy-Inv, release-Inv}

module _ {A : Type 0} (k : ℕ) (small : k < 64) where
  produce-IsSafe :
      (x : A) (age : ℕ) (p : Producer A) (s : System A)
      → Inv k s.queue s.stores p s.consumer s.pushed s.popped
      → IsSafe k (produce k x age p s)
  unfolding produce
  produce-IsSafe x age waiting s v =
      with_producer v s.stores.seen_tail (loaded_head x s.queue.head) v.seen refl v.head_is
  produce-IsSafe x age (loaded_head y h) s v =
      let m = see_tail age s.stores in
      let n = see_tail-IsSeen v.seen age in
      with_producer v m.seen_tail (loaded_tail y h (value_at m.tails m.seen_tail)) n refl
        (v.producing, n.tails_are.values m.seen_tail n.tail_le)
  produce-IsSafe x age (loaded_tail y h t) s v = elim (Bool-cases (diff h t == capacity k)) [
    | inl full ↦ rw full (with_producer v s.stores.seen_tail waiting v.seen refl tt)
    | inr free ↦ rw free (construct-Inv k small y h t v free)
  ]
  produce-IsSafe x age (constructed y h) s v = publish-Inv k small y h v

  consume-IsSafe :
      (age : ℕ) (c : Consumer A) (s : System A)
      → Inv k s.queue s.stores s.producer c s.pushed s.popped
      → IsSafe k (consume k age c s)
  unfolding consume
  consume-IsSafe age resting s v =
      with_consumer v s.stores.seen_head (read_tail s.queue.tail) v.seen refl v.tail_is
  consume-IsSafe age (read_tail t) s v =
      let m = see_head age s.stores in
      let n = see_head-IsSeen v.seen age in
      with_consumer v m.seen_head (read_head t (value_at m.heads m.seen_head)) n refl
        (v.consuming, n.heads_are.values m.seen_head n.head_le)
  consume-IsSafe age (read_head t h) s v = elim (Bool-cases (h == t)) [
    | inl none_left ↦ rw none_left (with_consumer v s.stores.seen_head resting v.seen refl tt)
    | inr more ↦ rw more (take-Inv k small t h v more)
  ]
  consume-IsSafe age (moved t o) s v = destroy-Inv k small t o v
  consume-IsSafe age (destroyed t o) s v = release-Inv k small t o v

  pub step-IsSafe : (e : Event A) (s : System A) → IsSafe k s → IsSafe k (step k e s)
  unfolding step
  step-IsSafe (produce_event x age) s v = produce-IsSafe x age s.producer s v
  step-IsSafe (consume_event age) s v = consume-IsSafe age s.consumer s v

  run-IsSafe : (es : List (Event A)) (s : System A) → IsSafe k s → IsSafe k (run k es s)
  unfolding run
  run-IsSafe [] s v = v
  run-IsSafe (e ∷ es) s v = run-IsSafe es (step k e s) (step-IsSafe e s v)

  pub reached : (es : List (Event A)) → IsSafe k (run k es (start A))
  reached es = run-IsSafe es (start A) (start-IsSafe A k)

-- Under every interleaving, and however old the counters are that the loads give, the consumer gets
-- what the producer pushed, in order, without loss or
-- repetition, and between them are never more elements than the capacity, which is below `2 ^ 64`.
pub run_fifo :
    {A : Type 0} (k : ℕ) (es : List (Event A))
    → k < 64
    → let s = run k es (start A) in
      (s.popped ≡ map some (take (length s.popped) s.pushed))
      × (length s.popped ≤ length s.pushed)
      × (length s.pushed ≤ length s.popped + capacity k)
run_fifo {A} k es small =
    let v = reached k small es in (prefix_of_get_elem? _ _ (order v) v.fifo, order v, room v)

-- Under every interleaving, and however old the counter of the other thread is that it loads: the
-- producer, whose load gives its own newest head, gets a `size` that is at least the number of the
-- elements pushed and not yet popped, and at most the capacity; the consumer gets at most that number.
pub run-size :
    {A : Type 0} (k age : ℕ) (es : List (Event A))
    → k < 64
    → let s = run k es (start A) in
      let p = see_tail age s.stores in
      let c = see_head age s.stores in
      let produced = size s.queue.head (value_at p.tails p.seen_tail) in
      let consumed = size (value_at c.heads c.seen_head) s.queue.tail in
      (length s.pushed ≤ length s.popped + produced)
      × (produced ≤ capacity k)
      × (length s.popped + consumed ≤ length s.pushed)
unfolding size
run-size {A} k age es small =
    let s = run k es (start A) in
    let v = reached k small es in
    let n = see_tail-IsSeen v.seen age in
    let m = see_head-IsSeen v.seen age in
    let w = capacity-lt-word k small in
    let i = (see_tail age s.stores).seen_tail in
    let j = (see_head age s.stores).seen_head in
    rw (v.head_is, v.tail_is, n.tails_are.values i n.tail_le, m.heads_are.values j m.head_le)
      (
        omega (arith, n, diff-word _ i (capacity k) (omega (arith, n, order v)) n.pushed_le w),
        omega (arith, n, diff-word _ i (capacity k) (omega (arith, n, order v)) n.pushed_le w),
        omega (arith, m, diff-word j _ (capacity k) m.popped_le (omega (arith, m, room v)) w),
      )

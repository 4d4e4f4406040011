-- ===== src/SpscQueue/Races.antt =====
-- The two threads never use a slot at the same time.
use quickstructs.Prelude.{
  ℕ, ◌+◌, ◌<◌, ◌≡◌, ◌≢◌, subst, ==_iff, get_elem?_of_lt, ◌∙◌, ap, none, some, List, length,
  get_elem?, arith, ◌==◌, false,
}
use quickstructs.SpscQueue.{Event, diff, capacity, slot_index, loaded_tail, read_head, run, start}
use quickstructs.SpscQueue.Words.{slot_index-word}
use quickstructs.SpscQueue.Fifo.{reached}
use quickstructs.SpscQueue.Invariant.{Inv}
use quickstructs.SpscQueue.Slots.{low_le}
use quickstructs.SpscQueue.Producing.{has_room}
use quickstructs.SpscQueue.Consuming.{has_element}

-- Under every interleaving and all ages of loads, where the producer is about to construct an element,
-- the slot holds no object, and the pop that emptied it, if there was one, is among the pops whose
-- stores the producer has acquired.
pub run_constructs_free :
    {A : Type 0} (k : ℕ) (es : List (Event A)) (x : A) (h t : ℕ)
    → k < 64
    → let s = run k es (start A) in
      s.producer ≡ loaded_tail x h t
      → diff h t ≢ capacity k
      → (s.queue.slots (slot_index k h) ≡ none)
        × (length s.pushed < s.stores.seen_tail + capacity k)
run_constructs_free {A} k es x h t small e ne =
    let s = run k es (start A) in
    let v =
      subst (λ p. Inv k s.queue s.stores p s.consumer s.pushed s.popped) e (reached k small es) in
    let place = ap (slot_index k) v.producing.0 ∙ slot_index-word k small (length s.pushed) in
    let free : (diff h t == capacity k) ≡ false = ground (arith, ==_iff (diff h t) (capacity k)) in
    let room = has_room k small x h t v free in
    (
      ap s.queue.slots place
          ∙ v.freed (length s.pushed) (omega arith)
              (omega (arith, room, v.seen, low_le s.consumer (length s.popped))),
      room,
    )

-- Under every interleaving and all ages of loads, where the consumer is about to move an element out,
-- the slot holds the oldest element that was pushed and not popped, and the store that published it is
-- among those that the consumer has acquired.
pub run_moves_oldest :
    {A : Type 0} (k : ℕ) (es : List (Event A)) (t h : ℕ)
    → k < 64
    → let s = run k es (start A) in
      s.consumer ≡ read_head t h
      → h ≢ t
      → (x : A) × (s.queue.slots (slot_index k t) ≡ some x)
        × (get_elem? s.pushed (length s.popped) ≡ some x)
        × (length s.popped < s.stores.seen_head)
run_moves_oldest {A} k es t h small e ne =
    let s = run k es (start A) in
    let v =
      subst (λ c. Inv k s.queue s.stores s.producer c s.pushed s.popped) e (reached k small es) in
    let place = ap (slot_index k) v.consuming.0 ∙ slot_index-word k small (length s.popped) in
    let more : (h == t) ≡ false = ground (arith, ==_iff h t) in
    let known = has_element k small t h v more in
    let lt : length s.popped < length s.pushed = omega (arith, known, v.seen) in
    let (x, found) = get_elem?_of_lt s.pushed (length s.popped) lt in
    (x, ap s.queue.slots place ∙ v.stored (length s.popped) (omega arith) lt ∙ found, found, known)

-- ===== src/SpscQueue.antt =====
-- include/quick/structs/SPSCQueue.hh: the lock-free ring of one producer and one consumer.
-- Capacity is `2 ^ k`. A slot holds `none` where no object is alive. Each atomic access, and each
-- construction, move and destruction of an element, is one step of its thread, and the steps of the
-- threads interleave in any order. A counter keeps all its stores: the load of the other thread's
-- counter gives any of them that is not older than one it gave before, and with it, by release and
-- acquire, the thread sees what the other one did before that store.
pub mod Words
pub mod Views
pub mod Invariant
pub mod Slots
pub mod Producing
pub mod Consuming
pub mod Fifo
pub mod Races
pub mod Calls
pub mod Drain
pub mod Example
pub mod Turns
pub mod Ending
mod Tests
use Prim.Native.Nat.{bit_and}
use quickstructs.Prelude.{
  ℕ, zero, suc, ◌+◌, ◌-◌, ◌%◌, ◌^◌, Bool, true, false, not, Option, none, some, List, [], ◌∷◌, ◌++◌,
  ◌==◌, if◌then◌else◌, update, leb, length,
}

-- `SPSCQueue`
pub record Queue (A : Type 0) : Type 0 where
  pub head : ℕ
  pub tail : ℕ
  pub slots : ℕ → Option A

-- The size of `std::uint64_t`.
abbrev pub word : ℕ
word = 2 ^ 64

-- `x + 1` and `x - y` on `std::uint64_t`
abbrev pub inc : ℕ → ℕ
inc x = (x + 1) % word

abbrev pub diff : ℕ → ℕ → ℕ
diff x y = (x + word - y) % word

-- `capacity`
abbrev pub capacity : ℕ → ℕ
capacity k = 2 ^ k

-- `slot_ptr`, as an index: `idx & kMask`.
pub slot_index : ℕ → ℕ → ℕ
slot_index k idx = bit_and idx (capacity k - 1)

-- `SPSCQueue::SPSCQueue`
abbrev pub empty_queue : (A : Type 0) → Queue A
empty_queue A = record { head = 0; tail = 0; slots = λ _. none }

-- `size`, of the head and the tail that it loads, one after the other.
pub size : ℕ → ℕ → ℕ
size head tail = diff head tail

module _ {A : Type 0} where
  -- `std::construct_at` and `std::destroy_at` at an index.
  abbrev pub put_slot : ℕ → Queue A → ℕ → Option A → Queue A
  put_slot k q idx o = record q { slots = update q.slots (slot_index k idx) o }

  -- `emplace`, and `push`, which calls it.
  unfoldable pub emplace : ℕ → Queue A → A → Bool × Queue A
  emplace k q x =
      if diff q.head q.tail == capacity k
      then (false, q)
      else (true, record (put_slot k q q.head (some x)) { head = inc q.head })

  -- `pop`; the option is what `out` is assigned.
  unfoldable pub pop : ℕ → Queue A → Bool × Option A × Queue A
  pop k q = if q.head == q.tail then (false, none, q) else (
    true,
    q.slots (slot_index k q.tail),
    record (put_slot k q q.tail none) { tail = inc q.tail },
  )

  -- `empty`, `full` where no other thread takes a step between the two loads.
  pub empty : Queue A → Bool
  empty q = q.head == q.tail

  pub full : ℕ → Queue A → Bool
  full k q = diff q.head q.tail == capacity k

  -- The loop of the destructor, on fuel: destroy the slot at the tail while it is not the head.
  pub drain : ℕ → ℕ → Queue A → Queue A
  drain k zero q = q
  drain k (suc fuel) q = elim (empty q) [
    | true ↦ q
    | false ↦ drain k fuel (record (put_slot k q q.tail none) { tail = inc q.tail })
  ]

-- Where the producer stands in `emplace`, with its locals.
pub data Producer (A : Type 0) : Type 0 where
  waiting : Producer A
  loaded_head : A → ℕ → Producer A
  loaded_tail : A → ℕ → ℕ → Producer A
  constructed : A → ℕ → Producer A

-- Where the consumer stands in `pop`, with its locals.
pub data Consumer (A : Type 0) : Type 0 where
  resting : Consumer A
  read_tail : ℕ → Consumer A
  read_head : ℕ → ℕ → Consumer A
  moved : ℕ → Option A → Consumer A
  destroyed : ℕ → Option A → Consumer A

-- The stores of a counter in their order, from its initial value on.
abbrev pub value_at : List ℕ → ℕ → ℕ
value_at [] i = 0
value_at (v ∷ vs) zero = v
value_at (v ∷ vs) (suc i) = value_at vs i

abbrev pub newest : List ℕ → ℕ
newest vs = length vs - 1

-- Which store a load gives: the one that is `age` stores old, or the one seen before if that is newer.
pub load_index : List ℕ → ℕ → ℕ → ℕ
load_index vs seen age = if leb (seen + age) (newest vs) then newest vs - age else seen

-- The stores of both counters, and the last store of the other thread that each thread has seen.
pub record Stores : Type 0 where
  pub heads : List ℕ
  pub tails : List ℕ
  pub seen_head : ℕ
  pub seen_tail : ℕ

-- The queue with both threads, what was published by the producer and what the consumer returned.
pub record System (A : Type 0) : Type 0 where
  pub queue : Queue A
  pub stores : Stores
  pub producer : Producer A
  pub consumer : Consumer A
  pub pushed : List A
  pub popped : List (Option A)

abbrev pub start_stores : Stores
start_stores = record { heads = 0 ∷ []; tails = 0 ∷ []; seen_head = 0; seen_tail = 0 }

abbrev pub start : (A : Type 0) → System A
start A = record {
  queue = empty_queue A;
  stores = start_stores;
  producer = waiting;
  consumer = resting;
  pushed = [];
  popped = [];
}

-- The acquire loads and the release stores on the stores.
abbrev pub see_tail : ℕ → Stores → Stores
see_tail age m = record m { seen_tail = load_index m.tails m.seen_tail age }

abbrev pub see_head : ℕ → Stores → Stores
see_head age m = record m { seen_head = load_index m.heads m.seen_head age }

abbrev pub store_head : ℕ → Stores → Stores
store_head h m = record m { heads = m.heads ++ h ∷ [] }

abbrev pub store_tail : ℕ → Stores → Stores
store_tail t m = record m { tails = m.tails ++ t ∷ [] }

module _ {A : Type 0} where
  -- One step of `emplace`; `next` is the argument of a call that begins here, and `age` says how old
  -- the store is that a load of the tail gives. A thread reads its own counter as it stored it.
  unfoldable pub produce : ℕ → A → ℕ → Producer A → System A → System A
  produce k next age waiting s = record s { producer = loaded_head next s.queue.head }
  produce k next age (loaded_head x h) s =
      let m = see_tail age s.stores in
      record s { stores = m; producer = loaded_tail x h (value_at m.tails m.seen_tail) }
  produce k next age (loaded_tail x h t) s =
      if diff h t == capacity k
      then record s { producer = waiting }
      else record s { queue = put_slot k s.queue h (some x); producer = constructed x h }
  produce k next age (constructed x h) s = record s {
    queue = record s.queue { head = inc h };
    stores = store_head (inc h) s.stores;
    producer = waiting;
    pushed = s.pushed ++ (x ∷ []);
  }

  -- One step of `pop`.
  unfoldable pub consume : ℕ → ℕ → Consumer A → System A → System A
  consume k age resting s = record s { consumer = read_tail s.queue.tail }
  consume k age (read_tail t) s =
      let m = see_head age s.stores in
      record s { stores = m; consumer = read_head t (value_at m.heads m.seen_head) }
  consume k age (read_head t h) s =
      if h == t
      then record s { consumer = resting }
      else record s { consumer = moved t (s.queue.slots (slot_index k t)) }
  consume k age (moved t o) s = record s {
    queue = put_slot k s.queue t none;
    consumer = destroyed t o;
  }
  consume k age (destroyed t o) s = record s {
    queue = record s.queue { tail = inc t };
    stores = store_tail (inc t) s.stores;
    consumer = resting;
    popped = s.popped ++ (o ∷ []);
  }

-- A schedule: a step of the producer, with the argument of a call, or one of the consumer, each with
-- the age of what it loads.
pub data Event (A : Type 0) : Type 0 where
  produce_event : A → ℕ → Event A
  consume_event : ℕ → Event A

module _ {A : Type 0} where
  unfoldable pub step : ℕ → Event A → System A → System A
  step k (produce_event x age) s = produce k x age s.producer s
  step k (consume_event age) s = consume k age s.consumer s

  unfoldable pub run : ℕ → List (Event A) → System A → System A
  run k [] s = s
  run k (e ∷ es) s = run k es (step k e s)

-- ===== src/SpscQueue/Invariant.antt =====
-- What holds between any two steps of the two threads, in terms of all that was ever pushed and
-- popped: the counters are the lengths of these lists, wrapped.
use quickstructs.Prelude.{
  ℕ, suc, ◌+◌, ◌%◌, ◌≤◌, ◌<◌, ◌≡◌, refl, Option, none, some, List, length, get_elem?, arith,
}
use quickstructs.SpscQueue.{
  Queue, word, capacity, Producer, waiting, loaded_head, loaded_tail, constructed, Consumer,
  resting, read_tail, read_head, moved, destroyed, System, start, Stores,
}
use quickstructs.SpscQueue.Views.{IsSeen, start-IsSeen}

module _ {A : Type 0} where
  -- The first place that holds an object, and the first behind it that holds none.
  abbrev pub low : Consumer A → ℕ → ℕ
  low (destroyed _ _) n = suc n
  low _ n = n

  abbrev pub high : Producer A → ℕ → ℕ
  high (constructed _ _) n = suc n
  high _ n = n

  -- What the producer's locals say; `seen` pops are known to it.
  abbrev pub Producing : ℕ → Queue A → ℕ → List A → Producer A → Type 0
  Producing k q seen us waiting = Unit
  Producing k q seen us (loaded_head x h) = h ≡ length us % word
  Producing k q seen us (loaded_tail x h t) = (h ≡ length us % word) × (t ≡ seen % word)
  Producing k q seen us (constructed x h) =
      (h ≡ length us % word)
      × (length us < seen + capacity k)
      × (q.slots (length us % capacity k) ≡ some x)

  -- What the consumer's locals say; `seen` pushes are known to it.
  abbrev pub Consuming : ℕ → List A → List (Option A) → Consumer A → Type 0
  Consuming seen us vs resting = Unit
  Consuming seen us vs (read_tail t) = t ≡ length vs % word
  Consuming seen us vs (read_head t h) = (t ≡ length vs % word) × (h ≡ seen % word)
  Consuming seen us vs (moved t o) =
      (t ≡ length vs % word) × (length vs < seen) × (o ≡ get_elem? us (length vs))
  Consuming seen us vs (destroyed t o) =
      (t ≡ length vs % word) × (length vs < seen) × (o ≡ get_elem? us (length vs))

pub record Inv {A : Type 0} (k : ℕ) (q : Queue A) (m : Stores) (p : Producer A) (c : Consumer A)
    (us : List A) (vs : List (Option A)) : Type 0 where
  pub head_is : q.head ≡ length us % word
  pub tail_is : q.tail ≡ length vs % word
  pub seen : IsSeen k m (length us) (length vs)
  pub fifo : (i : ℕ) → i < length vs → get_elem? vs i ≡ some (get_elem? us i)
  pub stored :
      (i : ℕ) → low c (length vs) ≤ i → i < length us → q.slots (i % capacity k) ≡ get_elem? us i
  pub freed :
      (i : ℕ)
      → high p (length us) ≤ i
      → i < low c (length vs) + capacity k
      → q.slots (i % capacity k) ≡ none
  pub producing : Producing k q m.seen_tail us p
  pub consuming : Consuming m.seen_head us vs c

-- No more is popped than pushed, and no more pushed than fits.
module _ {A : Type 0} {k : ℕ} {q : Queue A} {m : Stores} {p : Producer A} {c : Consumer A}
    {us : List A} {vs : List (Option A)} (v : Inv k q m p c us vs) where
  pub order : length vs ≤ length us
  order = omega (arith, v.seen)

  pub room : length us ≤ length vs + capacity k
  room = omega (arith, v.seen)

abbrev pub IsSafe : {A : Type 0} → ℕ → System A → Type 0
IsSafe k s = Inv k s.queue s.stores s.producer s.consumer s.pushed s.popped

-- It holds at the start.
pub start-IsSafe : (A : Type 0) (k : ℕ) → IsSafe k (start A)
start-IsSafe A k = record {
  head_is = refl;
  tail_is = refl;
  seen = start-IsSeen k;
  fifo = λ i h. absurd (omega arith);
  stored = λ i h l. absurd (omega arith);
  freed = λ i h l. refl;
  producing = tt;
  consuming = tt;
}

-- Steps that change one thread's locals, and what it knows, and no slot.
module _ {A : Type 0} {k : ℕ} {q : Queue A} {m : Stores} {p : Producer A} {c : Consumer A}
    {us : List A} {vs : List (Option A)} (v : Inv k q m p c us vs) where
  pub with_producer :
      (t : ℕ) (p' : Producer A)
      → IsSeen k (record m { seen_tail = t }) (length us) (length vs)
      → high p' (length us) ≡ high p (length us)
      → Producing k q t us p'
      → Inv k q (record m { seen_tail = t }) p' c us vs
  with_producer t p' n e w = record {
    head_is = v.head_is;
    tail_is = v.tail_is;
    seen = n;
    fifo = v.fifo;
    stored = v.stored;
    freed = λ i a b. v.freed i (omega arith) b;
    producing = w;
    consuming = v.consuming;
  }

  pub with_consumer :
      (h : ℕ) (c' : Consumer A)
      → IsSeen k (record m { seen_head = h }) (length us) (length vs)
      → low c' (length vs) ≡ low c (length vs)
      → Consuming h us vs c'
      → Inv k q (record m { seen_head = h }) p c' us vs
  with_consumer h c' n e w = record {
    head_is = v.head_is;
    tail_is = v.tail_is;
    seen = n;
    fifo = v.fifo;
    stored = λ i a b. v.stored i (omega arith) b;
    freed = λ i a b. v.freed i a (omega arith);
    producing = v.producing;
    consuming = w;
  }

-- ===== src/SpscQueue/Consuming.antt =====
-- The steps of `pop` that change the queue or end a load keep the invariant.
use quickstructs.Prelude.{
  ℕ, suc, ◌+◌, ◌%◌, ◌≤◌, ◌<◌, ◌≡◌, ◌∙◌, ap, Option, none, some, List, [], ◌∷◌, ◌++◌, length,
  get_elem?, arith, ==_iff, ◌==◌, get_elem?-concat, length-append, false,
}
use native.Mathlib.Decide.{dec_lt}
use quickstructs.SpscQueue.{
  Queue, word, inc, capacity, slot_index, put_slot, Producer, waiting, loaded_head, loaded_tail,
  constructed, resting, read_head, moved, destroyed, Stores, store_tail,
}
use quickstructs.SpscQueue.Words.{inc-word, places_ne, place_again, slot_index-word}
use quickstructs.SpscQueue.Views.{store_tail-IsSeen}
use quickstructs.SpscQueue.Invariant.{high, Producing, Inv}
use quickstructs.SpscQueue.Slots.{high_le, write_elsewhere, write_here}

module _ {A : Type 0} (k : ℕ) (small : k < 64) where
  module _ {q : Queue A} {m : Stores} {p : Producer A} {us : List A} {vs : List (Option A)}
      (t h : ℕ) (inv : Inv k q m p (read_head t h) us vs) (more : (h == t) ≡ false) where
    open inv use {seen, producing, consuming}

    -- There is an element that the consumer knows of.
    pub has_element : length vs < m.seen_head
    has_element = ground (
      arith,
      consuming.0,
      consuming.1,
      seen.popped_le,
      ==_iff (m.seen_head % word) (length vs % word),
    )

    pub take-Inv : Inv k q m p (moved t (q.slots (slot_index k t))) us vs
    take-Inv = record {
      head_is = inv.head_is;
      tail_is = inv.tail_is;
      seen = seen;
      fifo = inv.fifo;
      producing = producing;
      stored = inv.stored;
      freed = inv.freed;
      consuming = (
        consuming.0,
        has_element,
        ap q.slots (ap (slot_index k) consuming.0 ∙ slot_index-word k small (length vs))
            ∙ inv.stored (length vs) (omega arith) (omega (arith, has_element, seen)),
      );
    }

  destroy-Producing :
      (q : Queue A) (seen : ℕ) (us : List A) (vs : List (Option A)) (t : ℕ) (p : Producer A)
      → t ≡ length vs % word
      → length vs < length us
      → seen ≤ length vs
      → Producing k q seen us p
      → Producing k (put_slot k q t none) seen us p
  destroy-Producing q seen us vs t waiting e l b w = tt
  destroy-Producing q seen us vs t (loaded_head x h) e l b w = w
  destroy-Producing q seen us vs t (loaded_tail x h n) e l b w = w
  destroy-Producing q seen us vs t (constructed x h) e l b w = (
    w.0,
    w.1,
    write_elsewhere k small q t (length vs) (length us) none e
          (places_ne (capacity k) (length vs) (length us) l (omega (arith, w.1)))
        ∙ w.2,
  )

  module _ {q : Queue A} {m : Stores} {p : Producer A} {us : List A} {vs : List (Option A)} (t : ℕ)
      (o : Option A) (inv : Inv k q m p (moved t o) us vs) where
    open inv use {seen, producing, consuming}

    destroy_freed :
        (i : ℕ)
        → high p (length us) ≤ i
        → i < suc (length vs) + capacity k
        → (put_slot k q t none).slots (i % capacity k) ≡ none
    destroy_freed i a b = elim (dec_lt i (length vs + capacity k)) [
      | yes l ↦
          write_elsewhere k small q t (length vs) i none consuming.0 (
            places_ne (capacity k) (length vs) i (omega (arith, a, high_le us p, consuming.1, seen))
              l)
          ∙ inv.freed i a l
      | no l ↦
          let e : i ≡ length vs + capacity k = omega arith in
          rw (e, place_again) (write_here k small q t (length vs) none consuming.0)
    ]

    pub destroy-Inv : Inv k (put_slot k q t none) m p (destroyed t o) us vs
    destroy-Inv = record {
      head_is = inv.head_is;
      tail_is = inv.tail_is;
      seen = seen;
      fifo = inv.fifo;
      stored = λ i a b.
          write_elsewhere k small q t (length vs) i none consuming.0
            (places_ne (capacity k) (length vs) i a (omega (arith, seen)))
          ∙ inv.stored i (omega arith) b;
      freed = destroy_freed;
      producing =
          destroy-Producing q m.seen_tail us vs t p consuming.0 (omega (arith, consuming.1, seen))
            seen.tail_le producing;
      consuming = consuming;
    }

  module _ {q : Queue A} {m : Stores} {p : Producer A} {us : List A} {vs : List (Option A)} (t : ℕ)
      (o : Option A) (inv : Inv k q m p (destroyed t o) us vs) where
    open inv use {seen, producing, consuming}

    less : length (vs ++ o ∷ []) ≡ suc (length vs)
    less = omega (arith, length-append vs (o ∷ []))

    release_fifo :
        (i : ℕ) → i < length (vs ++ o ∷ []) → get_elem? (vs ++ o ∷ []) i ≡ some (get_elem? us i)
    release_fifo i l = elim (dec_lt i (length vs)) [
      | yes b ↦ ground (arith, get_elem?-concat vs o i, inv.fifo i b)
      | no b ↦
          let e : i ≡ length vs = omega (arith, less) in
          rw e (ground (arith, get_elem?-concat vs o (length vs), consuming.2))
    ]

    pub release-Inv :
        Inv k (record q { tail = inc t }) (store_tail (inc t) m) p resting us (vs ++ o ∷ [])
    release-Inv = record {
      head_is = inv.head_is;
      tail_is = rw (less, consuming.0) (inc-word (length vs) ∙ ap (λ n. n % word) (omega arith));
      seen = rw less (store_tail-IsSeen seen t consuming.0 consuming.1);
      fifo = release_fifo;
      stored = λ i a b. inv.stored i (omega (arith, less)) b;
      freed = λ i a b. inv.freed i a (omega (arith, less));
      producing = producing;
      consuming = tt;
    }

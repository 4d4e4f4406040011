-- ===== src/SpscQueue/Producing.antt =====
-- The steps of `emplace` that change the queue keep the invariant.
use quickstructs.Prelude.{
  ℕ, suc, ◌+◌, ◌-◌, ◌%◌, ◌<◌, ◌≡◌, sym, ◌∙◌, ap, Option, some, List, [], ◌∷◌, ◌++◌, length,
  get_elem?, arith, ==_iff, ◌==◌, get_elem?-concat, length-append, false,
}
use native.Mathlib.Decide.{dec_lt}
use quickstructs.SpscQueue.{
  Queue, word, inc, diff, capacity, put_slot, waiting, loaded_tail, constructed, Consumer, resting,
  read_tail, read_head, moved, destroyed, Stores, store_head,
}
use quickstructs.SpscQueue.Words.{diff-word, inc-word, places_ne, capacity-lt-word}
use quickstructs.SpscQueue.Views.{store_head-IsSeen}
use quickstructs.SpscQueue.Invariant.{Consuming, Inv}
use quickstructs.SpscQueue.Slots.{low_le, low_le_pushed, write_elsewhere, write_here}

module _ {A : Type 0} (k : ℕ) (small : k < 64) where
  module _ {q : Queue A} {m : Stores} {c : Consumer A} {us : List A} {vs : List (Option A)} (x : A)
      (h t : ℕ) (inv : Inv k q m (loaded_tail x h t) c us vs)
      (free : (diff h t == capacity k) ≡ false) where
    open inv use {seen, producing, consuming}

    -- There is room for what the producer knows.
    pub has_room : length us < m.seen_tail + capacity k
    has_room = ground (
      arith,
      producing.0,
      producing.1,
      seen.pushed_le,
      diff-word (length us) m.seen_tail (capacity k) (omega (arith, seen)) seen.pushed_le
          (capacity-lt-word k small),
      ==_iff (length us - m.seen_tail) (capacity k),
    )

    pub construct-Inv : Inv k (put_slot k q h (some x)) m (constructed x h) c us vs
    construct-Inv = record {
      head_is = inv.head_is;
      tail_is = inv.tail_is;
      seen = seen;
      fifo = inv.fifo;
      stored = λ i a b.
          write_elsewhere k small q h (length us) i (some x) producing.0 (λ e.
            places_ne (capacity k) i (length us) b
              (omega (arith, low_le c (length vs), has_room, seen)) (sym e))
          ∙ inv.stored i a b;
      freed = λ i a b.
          write_elsewhere k small q h (length us) i (some x) producing.0 (
            places_ne (capacity k) (length us) i a
              (omega (arith, low_le_pushed m.seen_head us vs c seen.popped_le consuming, seen)))
          ∙ inv.freed i (omega arith) b;
      producing = (producing.0, has_room, write_here k small q h (length us) (some x) producing.0);
      consuming = consuming;
    }

  module _ {q : Queue A} {m : Stores} {c : Consumer A} {us : List A} {vs : List (Option A)} (x : A)
      (h : ℕ) (inv : Inv k q m (constructed x h) c us vs) where
    open inv use {seen, producing, consuming}

    more : length (us ++ x ∷ []) ≡ suc (length us)
    more = omega (arith, length-append us (x ∷ []))

    -- Places that were pushed before read as they did.
    pushed_before : (i : ℕ) → i < length us → get_elem? (us ++ x ∷ []) i ≡ get_elem? us i
    pushed_before i l = ground (arith, get_elem?-concat us x i)

    pushed_last : get_elem? (us ++ x ∷ []) (length us) ≡ some x
    pushed_last = ground (arith, get_elem?-concat us x (length us))

    publish-Consuming :
        (d : Consumer A) → Consuming m.seen_head us vs d → Consuming m.seen_head (us ++ x ∷ []) vs d
    publish-Consuming resting w = tt
    publish-Consuming (read_tail t) w = w
    publish-Consuming (read_head t g) w = w
    publish-Consuming (moved t o) w =
        (w.0, w.1, w.2 ∙ sym (pushed_before (length vs) (omega (arith, w.1, seen))))
    publish-Consuming (destroyed t o) w =
        (w.0, w.1, w.2 ∙ sym (pushed_before (length vs) (omega (arith, w.1, seen))))

    pub publish-Inv :
        Inv k (record q { head = inc h }) (store_head (inc h) m) waiting c (us ++ x ∷ []) vs
    publish-Inv = record {
      head_is = rw (more, producing.0) (inc-word (length us) ∙ ap (λ n. n % word) (omega arith));
      tail_is = inv.tail_is;
      seen = rw more (store_head-IsSeen seen h producing.0 producing.1);
      fifo = λ i l. inv.fifo i l ∙ ap some (sym (pushed_before i (omega (arith, seen))));
      stored = λ i a b. elim (dec_lt i (length us)) [
        | yes l ↦ inv.stored i a l ∙ sym (pushed_before i l)
        | no l ↦ let e : i ≡ length us = omega (arith, more) in rw e (producing.2 ∙ sym pushed_last)
      ];
      freed = λ i a b. inv.freed i (omega (arith, more)) b;
      producing = tt;
      consuming = publish-Consuming c consuming;
    }

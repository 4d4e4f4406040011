-- ===== src/SpscQueue/Slots.antt =====
-- Which slots a write of one thread leaves alone.
use quickstructs.Prelude.{ℕ, ◌%◌, ◌≤◌, ◌<◌, ◌≡◌, ◌≢◌, ◌∙◌, ap, Option, List, length, arith, ==_iff}
use quickstructs.SpscQueue.{
  Queue, word, capacity, slot_index, put_slot, Producer, waiting, Consumer, resting, destroyed,
}
use quickstructs.SpscQueue.Words.{slot_index-word}
use quickstructs.SpscQueue.Invariant.{low, high, Consuming}

module _ {A : Type 0} where
  pub low_le : (c : Consumer A) (n : ℕ) → n ≤ low c n
  low_le resting n = omega arith
  low_le _ n = omega arith

  pub low_le_pushed :
      (seen : ℕ) (us : List A) (vs : List (Option A)) (c : Consumer A)
      → length vs ≤ seen
      → Consuming seen us vs c
      → low c (length vs) ≤ seen
  low_le_pushed seen us vs resting h w = h
  low_le_pushed seen us vs (destroyed t o) h w = w.1
  low_le_pushed seen us vs _ h w = h

  pub high_le : (us : List A) (p : Producer A) → length us ≤ high p (length us)
  high_le us waiting = omega arith
  high_le us _ = omega arith

module _ {A : Type 0} (k : ℕ) (small : k < 64) where
  -- A write at place `n` is seen at no other place of a round.
  pub write_elsewhere :
      (q : Queue A) (h n i : ℕ) (o : Option A)
      → h ≡ n % word
      → n % capacity k ≢ i % capacity k
      → (put_slot k q h o).slots (i % capacity k) ≡ q.slots (i % capacity k)
  write_elsewhere q h n i o e ne =
      let at : slot_index k h ≡ n % capacity k = ap (slot_index k) e ∙ slot_index-word k small n in
      ground (arith, ==_iff (slot_index k h) (i % capacity k))

  pub write_here :
      (q : Queue A) (h n : ℕ) (o : Option A)
      → h ≡ n % word
      → (put_slot k q h o).slots (n % capacity k) ≡ o
  write_here q h n o e =
      let at : slot_index k h ≡ n % capacity k = ap (slot_index k) e ∙ slot_index-word k small n in
      ground (arith, ==_iff (slot_index k h) (n % capacity k))

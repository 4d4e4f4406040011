-- ===== src/SpscQueue/Turns.antt =====
-- examples/spsc_queue_example.cc: a call that a thread has begun can be ended by the thread alone.
use quickstructs.Prelude.{
  ℕ, suc, ◌≤◌, ◌≡◌, refl, Option, List, [], ◌∷◌, length, length-append, arith, Bool-cases, inl, inr,
  ◌==◌,
}
use quickstructs.SpscQueue.{
  System, Producer, waiting, loaded_head, loaded_tail, constructed, Consumer, resting, read_tail,
  read_head, moved, destroyed, produce, consume, step, diff, capacity, see_head, see_tail, value_at,
  slot_index,
}
use quickstructs.SpscQueue.Example.{Turn, prod_turn, cons_turn, turn, run_turns}

module _ (k n : ℕ) where
  -- Some turns lead from a state to one with a property.
  pub data Leads (P : System ℕ → Type 0) : System ℕ → Type 0 where
    here : {s : System ℕ} → P s → Leads P s
    next : {s : System ℕ} (t : Turn) → Leads P (turn k n t s) → Leads P s

  pub turns_of :
      {P : System ℕ → Type 0} {s : System ℕ} → Leads P s → (ts : List Turn) × P (run_turns k n ts s)
  unfolding run_turns
  turns_of (here p) = ([], p)
  turns_of (next t l) = let (ts, p) = turns_of l in (t ∷ ts, p)

  -- Both threads are between calls, and at least `m` elements were popped.
  abbrev pub AtRest : ℕ → System ℕ → Type 0
  AtRest m s = (s.producer ≡ waiting) × (s.consumer ≡ resting) × (m ≤ length s.popped)

  abbrev pub Rested : Producer ℕ → ℕ → System ℕ → Type 0
  Rested p m s = (s.producer ≡ p) × (s.consumer ≡ resting) × (m ≤ length s.popped)

  -- A call of `pop` that has begun ends.
  destroyed-Rested :
      (t : ℕ) (o : Option ℕ) (s : System ℕ)
      → Leads (Rested s.producer (suc (length s.popped))) (record s { consumer = destroyed t o })
  unfolding turn step consume
  destroyed-Rested t o s =
      next (cons_turn 0) (here (refl, refl, omega (arith, length-append s.popped (o ∷ []))))

  pub moved-Rested :
      (t : ℕ) (o : Option ℕ) (s : System ℕ)
      → Leads (Rested s.producer (suc (length s.popped))) (record s { consumer = moved t o })
  unfolding turn step consume
  moved-Rested t o s = next (cons_turn 0) (destroyed-Rested t o (consume k 0 (moved t o) s))

  weaken :
      {p : Producer ℕ} {m : ℕ} {s : System ℕ} → Leads (Rested p (suc m)) s → Leads (Rested p m) s
  weaken (here r) = here (r.0, r.1, omega (arith, r.2))
  weaken (next t l) = next t (weaken l)

  read_head-Rested :
      (t h : ℕ) (s : System ℕ)
      → Leads (Rested s.producer (length s.popped)) (record s { consumer = read_head t h })
  unfolding turn step consume
  read_head-Rested t h s = next (cons_turn 0) (elim (Bool-cases (h == t)) [
    | inl none_left ↦ rw none_left (here (refl, refl, omega arith))
    | inr more ↦ rw more (weaken (moved-Rested t (s.queue.slots (slot_index k t)) s))
  ])

  pub pop_ends :
      (c : Consumer ℕ) (s : System ℕ)
      → Leads (Rested s.producer (length s.popped)) (record s { consumer = c })
  unfolding turn step consume
  pop_ends resting s = here (refl, refl, omega arith)
  pop_ends (read_tail t) s =
      let m = see_head 0 s.stores in
      next (cons_turn 0)
        (read_head-Rested t (value_at m.heads m.seen_head) (record s { stores = m }))
  pop_ends (read_head t h) s = read_head-Rested t h s
  pop_ends (moved t o) s = weaken (moved-Rested t o s)
  pop_ends (destroyed t o) s = weaken (destroyed-Rested t o s)

  -- A call of `emplace` that has begun ends.
  loaded_tail-AtRest :
      (x h t : ℕ) (s : System ℕ)
      → s.consumer ≡ resting
      → Leads (AtRest (length s.popped)) (record s { producer = loaded_tail x h t })
  unfolding turn step produce
  loaded_tail-AtRest x h t s c = next (prod_turn 0) (elim (Bool-cases (diff h t == capacity k)) [
    | inl full ↦ rw full (here (refl, c, omega arith))
    | inr free ↦ rw free (next (prod_turn 0) (here (refl, c, omega arith)))
  ])

  pub emplace_ends :
      (p : Producer ℕ) (s : System ℕ)
      → s.consumer ≡ resting
      → Leads (AtRest (length s.popped)) (record s { producer = p })
  unfolding turn step produce
  emplace_ends waiting s c = here (refl, c, omega arith)
  emplace_ends (loaded_head x h) s c =
      let m = see_tail 0 s.stores in
      next (prod_turn 0)
        (loaded_tail-AtRest x h (value_at m.tails m.seen_tail) (record s { stores = m }) c)
  emplace_ends (loaded_tail x h t) s c = loaded_tail-AtRest x h t s c
  emplace_ends (constructed x h) s c = next (prod_turn 0) (here (refl, c, omega arith))

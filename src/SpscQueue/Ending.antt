-- ===== src/SpscQueue/Ending.antt =====
-- examples/spsc_queue_example.cc: both threads can always finish. From any point of any interleaving
-- there are further turns after which both loops have ended.
use quickstructs.Prelude.{
  ℕ, zero, suc, ◌+◌, ◌-◌, ◌%◌, ◌≤◌, ◌<◌, ◌≡◌, refl, sym, ap, subst, ◌∙◌, false, some, List, [], ◌∷◌,
  ◌++◌, length, length-append, leb, map, arith, Bool-cases, inl, inr, ◌==◌, ==_iff, pow_pos,
}
use native.Mathlib.Decide.{dec_lt}
use quickstructs.SpscQueue.{
  System, waiting, resting, produce, consume, step, start, diff, capacity, word, load_index,
  see_head, see_tail, value_at, slot_index, newest,
}
use quickstructs.SpscQueue.Words.{diff-word, capacity-lt-word}
use quickstructs.SpscQueue.Views.{CountsTo}
use quickstructs.SpscQueue.Invariant.{order, room}
use quickstructs.SpscQueue.Example.{
  Turn, prod_turn, cons_turn, turn, run_turns, upto, Inv, turn-Inv, run_turns-Inv, start-Inv,
  popped-upto, producer_le,
}
use quickstructs.SpscQueue.Turns.{
  Leads, here, next, turns_of, AtRest, Rested, moved-Rested, pop_ends, emplace_ends,
}

-- A load of age 0 gives the newest store.
newest_index : (vs : List ℕ) (seen : ℕ) → seen ≤ newest vs → load_index vs seen 0 ≡ newest vs
unfolding load_index
newest_index vs seen l = elim (Bool-cases (leb (seen + 0) (newest vs))) [
  | inl e ↦ rw e (omega arith)
  | inr e ↦ absurd (ground arith)
]

newest_value :
    (n seen : ℕ) (vs : List ℕ)
    → CountsTo n vs
    → seen ≤ n
    → value_at vs (load_index vs seen 0) ≡ n % word
newest_value n seen vs c l =
    let e : newest vs ≡ n = omega (arith, c.size_is) in
    ap (value_at vs) (newest_index vs seen (omega arith) ∙ e) ∙ c.values n (omega arith)

counters_ne : (a b c : ℕ) → a < b → b ≤ a + c → c < word → (b % word == a % word) ≡ false
counters_ne a b c l r w = ground (arith, ==_iff (b % word) (a % word))

not_full : (k a b : ℕ) → k < 64 → a ≡ b → (diff (a % word) (b % word) == capacity k) ≡ false
not_full k a b small e =
    let w = capacity-lt-word k small in
    let d = diff-word a b (capacity k) (omega arith) (omega arith) w in
    rw d (ground (arith, pow_pos k, ==_iff (a - b) (capacity k)))

leb-false : (n m : ℕ) → m < n → leb n m ≡ false
leb-false n m l = ground arith

module _ (k n : ℕ) (small : k < 64) where
  -- A call of `pop` that begins where an element is left takes one.
  pop_takes :
      (s : System ℕ)
      → Inv k n (record s { consumer = resting })
      → length s.popped < length s.pushed
      → length s.popped < n
      → Leads k n (Rested k n s.producer (suc (length s.popped))) (record s { consumer = resting })
  unfolding turn step consume
  pop_takes s v l b =
      let m = see_head 0 s.stores in
      let h = value_at m.heads m.seen_head in
      let more : (h == s.queue.tail) ≡ false =
        rw
          (
            v.safe.tail_is,
            newest_value (length s.pushed) s.stores.seen_head s.stores.heads v.safe.seen.heads_are
                v.safe.seen.head_le,
          )
          (counters_ne (length s.popped) (length s.pushed) (capacity k) l (room v.safe)
            (capacity-lt-word k small)) in
      let t = s.queue.tail in
      next (cons_turn 0) (
        rw (leb-false n (length s.popped) b) (
          next (cons_turn 0) (
            next (cons_turn 0) (
              rw more
                (moved-Rested k n t (s.queue.slots (slot_index k t)) (record s { stores = m }))))))

  -- A call of `emplace` that begins where the queue is empty publishes its element.
  emplace_publishes :
      (s : System ℕ)
      → Inv k n (record s { producer = waiting })
      → s.consumer ≡ resting
      → length s.pushed ≡ length s.popped
      → length s.pushed < n
      → Leads k n
          (λ t. AtRest k n (length s.popped) t × (length t.popped < length t.pushed))
          (record s { producer = waiting })
  unfolding turn step produce
  emplace_publishes s v c l b =
      let m = see_tail 0 s.stores in
      let t = value_at m.tails m.seen_tail in
      let x = length s.pushed in
      let free : (diff s.queue.head t == capacity k) ≡ false =
        rw
          (
            v.safe.head_is,
            newest_value (length s.popped) s.stores.seen_tail s.stores.tails v.safe.seen.tails_are
                v.safe.seen.tail_le,
          )
          (not_full k x (length s.popped) small l) in
      next (prod_turn 0) (
        rw (leb-false n x b) (
          next (prod_turn 0) (
            next (prod_turn 0) (
              rw free (
                next (prod_turn 0) (
                  here
                    ((refl, c, omega arith), omega (arith, length-append s.pushed (x ∷ [])))))))))

  -- Turns from a state that others lead to.
  bind :
      {P Q : System ℕ → Type 0}
      → ((t : System ℕ) → Inv k n t → P t → Leads k n Q t)
      → (s : System ℕ) → Inv k n s
      → Leads k n P s
      → Leads k n Q s
  bind f s v (here p) = f s v p
  bind f s v (next t l) = next t (bind f (turn k n t s) (turn-Inv k n small t s v) l)

  -- Both loops have ended.
  abbrev Ended : System ℕ → Type 0
  Ended s = (s.producer ≡ waiting) × (s.consumer ≡ resting) × (length s.popped ≡ n)

  take_one :
      (m : ℕ)
      → ((t : System ℕ) → Inv k n t → AtRest k n (suc m) t → Leads k n Ended t)
      → (s : System ℕ) → Inv k n s
      → AtRest k n m s
      → length s.popped < length s.pushed
      → length s.popped < n
      → Leads k n Ended s
  take_one m f s v (p, c, h) l b =
      bind (λ t w (q, d, g). f t w (q ∙ p, d, omega arith)) s v
        (subst
          (λ x.
            Leads k n (Rested k n s.producer (suc (length s.popped))) (record s { consumer = x }))
          (sym c) (pop_takes s (subst (λ x. Inv k n (record s { consumer = x })) c v) l b))

  rest_ends :
      (fuel m : ℕ) (s : System ℕ) → n ≤ m + fuel → Inv k n s → AtRest k n m s → Leads k n Ended s
  rest_ends zero m s h v (p, c, r) =
      here (p, c, omega (arith, order v.safe, producer_le n (length s.pushed) s.producer v.calls))
  rest_ends (suc fuel) m s h v (p, c, r) =
      let le = producer_le n (length s.pushed) s.producer v.calls in
      let more : (t : System ℕ) → Inv k n t → AtRest k n (suc m) t → Leads k n Ended t =
        λ t w q. rest_ends fuel (suc m) t (omega arith) w q in
      elim (dec_lt (length s.popped) n) [
        | no b ↦ here (p, c, omega (arith, order v.safe))
        | yes b ↦ elim (dec_lt (length s.popped) (length s.pushed)) [
          | yes l ↦ take_one m more s v (p, c, r) l b
          | no l ↦
              let e : length s.pushed ≡ length s.popped = omega (arith, order v.safe) in
              bind
                (λ t w (q, g).
                  take_one m more t w (q.0, q.1, omega arith) g
                    (omega (arith, producer_le n (length t.pushed) t.producer w.calls)))
                s v
                (subst
                  (λ x.
                    Leads k n
                      (λ t. AtRest k n (length s.popped) t × (length t.popped < length t.pushed))
                      (record s { producer = x }))
                  (sym p)
                  (emplace_publishes s (subst (λ x. Inv k n (record s { producer = x })) p v) c e
                    (omega arith)))
        ]
      ]

  ends : (s : System ℕ) → Inv k n s → Leads k n Ended s
  ends s v =
      bind
        (λ t w (p, c, h).
          bind (λ u y r. rest_ends n 0 u (omega arith) y (r.0, r.1, omega arith)) t w
            (emplace_ends k n t.producer t c))
        s v (pop_ends k n s.consumer s)

run_turns-append :
    (k n : ℕ) (ts us : List Turn) (s : System ℕ)
    → run_turns k n (ts ++ us) s ≡ run_turns k n us (run_turns k n ts s)
unfolding run_turns
run_turns-append k n [] us s = refl
run_turns-append k n (t ∷ ts) us s = run_turns-append k n ts us (turn k n t s)

-- Under every interleaving of the two threads of the example, and however old the counters are that
-- they load, the consumer has got the first numbers, each once and in order, and the producer pushes
-- no more than it should. The threads do not get stuck: there are always further turns after which
-- both have ended, and the consumer has got every number.
pub run_turns-Ended :
    (k n : ℕ) (ts : List Turn)
    → k < 64
    → let r = run_turns k n ts (start ℕ) in
      (r.popped ≡ map some (upto (length r.popped)))
      × (length r.pushed ≤ n)
      × (us : List Turn) × (let s = run_turns k n (ts ++ us) (start ℕ) in
          (s.producer ≡ waiting) × (s.consumer ≡ resting) × (s.popped ≡ map some (upto n)))
run_turns-Ended k n ts small =
    let s = run_turns k n ts (start ℕ) in
    let v = run_turns-Inv k n small ts (start ℕ) (start-Inv k n) in
    let (us, (p, c, e)) = turns_of k n (ends k n small s v) in
    let w = run_turns-Inv k n small us s v in
    (
      popped-upto k n s v,
      producer_le n (length s.pushed) s.producer v.calls,
      us,
      rw (run_turns-append k n ts us (start ℕ))
          (p, c, popped-upto k n (run_turns k n us s) w ∙ ap (λ m. map some (upto m)) e),
    )

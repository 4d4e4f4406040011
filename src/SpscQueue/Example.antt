-- ===== src/SpscQueue/Example.antt =====
-- examples/spsc_queue_example.cc: a thread that pushes 0, 1, 2, ... and one that pops as many
-- elements, on the model of the queue. A thread whose loop has ended takes no step. The conversion of
-- the loop variable to `double` is exact for these numbers and is left out.
use quickstructs.Prelude.{
  ℕ, zero, suc, ◌≤◌, ◌<◌, ◌≡◌, refl, sym, ap, ap₂, ◌∙◌, Bool, true, false, ◌&&◌, some, List, [],
  ◌∷◌, ◌++◌, length, length-append, leb, take, map, arith, Bool-cases, inl, inr, if◌then◌else◌,
  ◌==◌, prefix_of_get_elem?,
}
use quickstructs.SpscQueue.{
  System, Producer, waiting, loaded_head, loaded_tail, constructed, Consumer, resting, read_tail,
  read_head, moved, destroyed, produce_event, consume_event, step, start, diff, capacity, produce,
  consume,
}
use quickstructs.SpscQueue.Invariant.{IsSafe, start-IsSafe, order}
use quickstructs.SpscQueue.Fifo.{step-IsSafe}

-- The capacity, 1024 / sizeof(double), as a power of two, and the number of elements.
abbrev pub capacity_log : ℕ
capacity_log = 7

abbrev pub num_items : ℕ
num_items = 100000

-- Whether a thread is between two calls.
abbrev pub is_waiting : Producer ℕ → Bool
is_waiting waiting = true
is_waiting (loaded_head x h) = false
is_waiting (loaded_tail x h t) = false
is_waiting (constructed x h) = false

abbrev pub is_resting : Consumer ℕ → Bool
is_resting resting = true
is_resting (read_tail t) = false
is_resting (read_head t h) = false
is_resting (moved t o) = false
is_resting (destroyed t o) = false

-- The next step of a thread, with the age of what it loads.
pub data Turn : Type 0 where
  prod_turn : ℕ → Turn
  cons_turn : ℕ → Turn

-- The loop variable of the producer is the number of elements that it has pushed, and `cnt` is the
-- number of those that were popped.
unfoldable pub turn : ℕ → ℕ → Turn → System ℕ → System ℕ
turn k n (prod_turn age) s =
    if is_waiting s.producer && leb n (length s.pushed)
    then s
    else step k (produce_event (length s.pushed) age) s
turn k n (cons_turn age) s =
    if is_resting s.consumer && leb n (length s.popped) then s else step k (consume_event age) s

unfoldable pub run_turns : ℕ → ℕ → List Turn → System ℕ → System ℕ
run_turns k n [] s = s
run_turns k n (t ∷ ts) s = run_turns k n ts (turn k n t s)

-- The numbers below `n`.
abbrev pub upto : ℕ → List ℕ
upto zero = []
upto (suc n) = upto n ++ n ∷ []

length-upto : (n : ℕ) → length (upto n) ≡ n
length-upto zero = refl
length-upto (suc n) = omega (arith, length-append (upto n) (n ∷ []), length-upto n)

-- A call of the producer pushes the number of the elements pushed before it.
abbrev pub Calls : ℕ → ℕ → Producer ℕ → Type 0
Calls n m waiting = m ≤ n
Calls n m (loaded_head x h) = (x ≡ m) × (m < n)
Calls n m (loaded_tail x h t) = (x ≡ m) × (m < n)
Calls n m (constructed x h) = (x ≡ m) × (m < n)

abbrev pub Counts : ℕ → ℕ → Consumer ℕ → Type 0
Counts n m resting = m ≤ n
Counts n m (read_tail t) = m < n
Counts n m (read_head t h) = m < n
Counts n m (moved t o) = m < n
Counts n m (destroyed t o) = m < n

pub record Inv (k n : ℕ) (s : System ℕ) : Type 0 where
  pub safe : IsSafe k s
  pub pushed_is : s.pushed ≡ upto (length s.pushed)
  pub calls : Calls n (length s.pushed) s.producer
  pub counts : Counts n (length s.popped) s.consumer

abbrev Produced : ℕ → System ℕ → System ℕ → Type 0
Produced n s t =
    (t.pushed ≡ upto (length t.pushed))
    × Calls n (length t.pushed) t.producer
    × (t.popped ≡ s.popped)
    × (t.consumer ≡ s.consumer)

produce-Produced :
    (k n age : ℕ) (p : Producer ℕ) (s : System ℕ)
    → s.pushed ≡ upto (length s.pushed)
    → Calls n (length s.pushed) p
    → (is_waiting p && leb n (length s.pushed)) ≡ false
    → Produced n s (produce k (length s.pushed) age p s)
unfolding produce
produce-Produced k n age waiting s e c g = (e, (refl, ground arith), refl, refl)
produce-Produced k n age (loaded_head x h) s e c g = (e, c, refl, refl)
produce-Produced k n age (loaded_tail x h t) s e c g = elim (Bool-cases (diff h t == capacity k)) [
  | inl full ↦ rw full (e, omega arith, refl, refl)
  | inr free ↦ rw free (e, c, refl, refl)
]
produce-Produced k n age (constructed x h) s e c g =
    let more : suc (length s.pushed) ≡ length (s.pushed ++ x ∷ []) =
      omega (arith, length-append s.pushed (x ∷ [])) in
    (ap₂ (λ us y. us ++ y ∷ []) e c.0 ∙ ap upto more, omega arith, refl, refl)

abbrev Consumed : ℕ → System ℕ → System ℕ → Type 0
Consumed n s t =
    Counts n (length t.popped) t.consumer × (t.pushed ≡ s.pushed) × (t.producer ≡ s.producer)

consume-Consumed :
    (k n age : ℕ) (c : Consumer ℕ) (s : System ℕ)
    → Counts n (length s.popped) c
    → (is_resting c && leb n (length s.popped)) ≡ false
    → Consumed n s (consume k age c s)
unfolding consume
consume-Consumed k n age resting s c g = (ground arith, refl, refl)
consume-Consumed k n age (read_tail t) s c g = (c, refl, refl)
consume-Consumed k n age (read_head t h) s c g = elim (Bool-cases (h == t)) [
  | inl none_left ↦ rw none_left (omega arith, refl, refl)
  | inr more ↦ rw more (c, refl, refl)
]
consume-Consumed k n age (moved t o) s c g = (c, refl, refl)
consume-Consumed k n age (destroyed t o) s c g =
    (omega (arith, length-append s.popped (o ∷ [])), refl, refl)

module _ (k n : ℕ) (small : k < 64) where
  pub turn-Inv : (t : Turn) (s : System ℕ) → Inv k n s → Inv k n (turn k n t s)
  unfolding turn step
  turn-Inv (prod_turn age) s v =
      elim (Bool-cases (is_waiting s.producer && leb n (length s.pushed))) [
        | inl ended ↦ rw ended v
        | inr more ↦
            let e = produce_event (length s.pushed) age in
            let p = produce-Produced k n age s.producer s v.pushed_is v.calls more in
            rw more (record {
              safe = step-IsSafe k small e s v.safe;
              pushed_is = p.0;
              calls = p.1;
              counts = rw (p.2, p.3) v.counts;
            })
      ]
  turn-Inv (cons_turn age) s v =
      elim (Bool-cases (is_resting s.consumer && leb n (length s.popped))) [
        | inl ended ↦ rw ended v
        | inr more ↦
            let c = consume-Consumed k n age s.consumer s v.counts more in
            rw more (record {
              safe = step-IsSafe k small (consume_event age) s v.safe;
              pushed_is = rw c.1 v.pushed_is;
              calls = rw (c.1, c.2) v.calls;
              counts = c.0;
            })
      ]

  pub run_turns-Inv : (ts : List Turn) (s : System ℕ) → Inv k n s → Inv k n (run_turns k n ts s)
  unfolding run_turns
  run_turns-Inv [] s v = v
  run_turns-Inv (t ∷ ts) s v = run_turns-Inv ts (turn k n t s) (turn-Inv t s v)

take-append : (m : ℕ) (xs ys : List ℕ) → m ≤ length xs → take m (xs ++ ys) ≡ take m xs
take-append zero xs ys l = refl
take-append (suc m) [] ys l = absurd (omega arith)
take-append (suc m) (x ∷ xs) ys l = ap (◌∷◌ x) (take-append m xs ys (omega arith))

take_all : (xs : List ℕ) → take (length xs) xs ≡ xs
take_all [] = refl
take_all (x ∷ xs) = ap (◌∷◌ x) (take_all xs)

take-upto : (m n : ℕ) → m ≤ n → take m (upto n) ≡ upto m
take-upto m zero l = let e : m ≡ 0 = omega arith in rw e refl
take-upto m (suc n) l = elim (Bool-cases (leb m n)) [
  | inl e ↦
      let b : m ≤ n = ground arith in
      take-append m (upto n) (n ∷ []) (omega (arith, length-upto n)) ∙ take-upto m n b
  | inr e ↦
      let b : m ≡ length (upto (suc n)) = ground (arith, length-upto (suc n)) in
      let c : m ≡ suc n = ground arith in
      ap (λ j. take j (upto (suc n))) b ∙ take_all (upto (suc n)) ∙ sym (ap upto c)
]

pub producer_le : (n m : ℕ) (p : Producer ℕ) → Calls n m p → m ≤ n
producer_le n m waiting c = c
producer_le n m (loaded_head x h) c = omega arith
producer_le n m (loaded_tail x h t) c = omega arith
producer_le n m (constructed x h) c = omega arith

pub start-Inv : (k n : ℕ) → Inv k n (start ℕ)
start-Inv k n = record {
  safe = start-IsSafe ℕ k;
  pushed_is = refl;
  calls = omega arith;
  counts = omega arith;
}

pub popped-upto :
    (k n : ℕ) (s : System ℕ) → Inv k n s → s.popped ≡ map some (upto (length s.popped))
popped-upto k n s v =
    let l = order v.safe in
    prefix_of_get_elem? s.pushed s.popped l v.safe.fifo
    ∙ ap (map some)
        (ap (take (length s.popped)) v.pushed_is ∙ take-upto (length s.popped) (length s.pushed) l)

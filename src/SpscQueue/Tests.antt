-- ===== src/SpscQueue/Tests.antt =====
-- Runs of the queue of SPSCQueue.hh, and the theorems at concrete schedules.
use quickstructs.Prelude.{
  ℕ, ◌+◌, ◌-◌, ◌^◌, ◌≡◌, refl, true, none, some, List, [], ◌∷◌, ◌++◌, length, get_elem?, take, map,
  arith, ◌≤◌, ◌<◌, replicate,
}
use quickstructs.SpscQueue.{
  slot_index, empty, size, drain, produce, consume, step, run, start, Event, produce_event,
  consume_event, load_index, see_tail, see_head, value_at, capacity, waiting, resting,
}
use quickstructs.SpscQueue.Fifo.{run_fifo, run-size, reached}
use quickstructs.SpscQueue.Races.{run_constructs_free, run_moves_oldest}
use quickstructs.SpscQueue.Ending.{run_turns-Ended}
use quickstructs.SpscQueue.Example.{
  Turn, prod_turn, cons_turn, turn, run_turns, upto, capacity_log, num_items,
}
use quickstructs.SpscQueue.Drain.{drain_all}

-- Two slots: the producer pushes 7 and is in the middle of pushing 8 while the consumer pops.
abbrev p7 : Event ℕ
p7 = produce_event 7 0

abbrev p8 : Event ℕ
p8 = produce_event 8 0

abbrev pop_step : Event ℕ
pop_step = consume_event 0

abbrev schedule : List (Event ℕ)
schedule =
    p7 ∷ p7 ∷ p7 ∷ pop_step ∷ p7 ∷ p8 ∷ pop_step ∷ pop_step ∷ pop_step ∷ p8 ∷ pop_step ∷ p8
    ∷ pop_step ∷ p8 ∷ []

-- With the oldest head that it may see, the consumer finds the queue empty.
stale_pop : (run 1 (replicate 4 p7 ++ replicate 3 (consume_event 1)) (start ℕ)).popped ≡ []
unfolding run step produce consume slot_index load_index
stale_pop = refl

interleaved :
    ((run 1 schedule (start ℕ)).pushed ≡ 7 ∷ 8 ∷ [])
    × ((run 1 schedule (start ℕ)).popped ≡ some 7 ∷ [])
unfolding run step produce consume slot_index load_index
interleaved = (refl, refl)

interleaved_pop : (run 1 (schedule ++ replicate 5 pop_step) (start ℕ)).popped ≡ some 7 ∷ some 8 ∷ []
unfolding run step produce consume slot_index load_index
interleaved_pop = refl

run_fifo_example :
    let s = run 1 schedule (start ℕ) in
    (s.popped ≡ map some (take (length s.popped) s.pushed))
    × (length s.popped ≤ length s.pushed)
    × (length s.pushed ≤ length s.popped + 2)
run_fifo_example = run_fifo 1 schedule (omega arith)

run-size_example :
    let s = run 1 schedule (start ℕ) in
    let p = see_tail 1 s.stores in
    let c = see_head 1 s.stores in
    let produced = size s.queue.head (value_at p.tails p.seen_tail) in
    let consumed = size (value_at c.heads c.seen_head) s.queue.tail in
    (length s.pushed ≤ length s.popped + produced)
    × (produced ≤ capacity 1)
    × (length s.popped + consumed ≤ length s.pushed)
run-size_example = run-size 1 1 schedule (omega arith)

-- A third thread loads the head behind one push, and the tail behind another push and two pops.
size_between : size 1 2 ≡ 2 ^ 64 - 1
unfolding size
size_between = refl

-- A producer that has loaded both counters and is about to construct 7.
run_constructs_free_example :
    ((run 1 (p7 ∷ p7 ∷ []) (start ℕ)).queue.slots (slot_index 1 0) ≡ none) × (0 < 2)
unfolding run step produce load_index
run_constructs_free_example =
    run_constructs_free 1 (p7 ∷ p7 ∷ []) 7 0 0 (omega arith) refl (omega arith)

run_moves_oldest_example :
    let s = run 1 (replicate 4 p7 ++ pop_step ∷ pop_step ∷ []) (start ℕ) in
    (x : ℕ) × (s.queue.slots (slot_index 1 0) ≡ some x)
    × (get_elem? s.pushed (length s.popped) ≡ some x)
    × (length s.popped < s.stores.seen_head)
unfolding run step produce consume load_index
run_moves_oldest_example =
    run_moves_oldest 1 (replicate 4 p7 ++ pop_step ∷ pop_step ∷ []) 0 1 (omega arith) refl
      (omega arith)

drain_all_example :
    let q' = drain 1 3 (run 1 (replicate 4 p7) (start ℕ)).queue in
    (empty q' ≡ true) × ((j : ℕ) → j < 2 → q'.slots j ≡ none)
unfolding run step produce load_index
drain_all_example = drain_all 1 (omega arith) (reached 1 (omega arith) (replicate 4 p7))

-- Three elements through two slots.
abbrev turns : List Turn
turns =
    replicate 8 (prod_turn 0)
    ++ replicate 5 (cons_turn 0)
    ++ replicate 4 (prod_turn 0)
    ++ replicate 12 (cons_turn 0)

turns-run : (run_turns 1 3 turns (start ℕ)).popped ≡ some 0 ∷ some 1 ∷ some 2 ∷ []
unfolding run_turns turn step produce consume slot_index load_index
turns-run = refl

run_turns-Ended_example :
    let r = run_turns capacity_log num_items turns (start ℕ) in
    (r.popped ≡ map some (upto (length r.popped)))
    × (length r.pushed ≤ num_items)
    × (us : List Turn) × (let s = run_turns capacity_log num_items (turns ++ us) (start ℕ) in
        (s.producer ≡ waiting) × (s.consumer ≡ resting) × (s.popped ≡ map some (upto num_items)))
run_turns-Ended_example = run_turns-Ended capacity_log num_items turns (omega arith)

-- ===== src/SpinMutex.antt =====
-- include/quick/thread/SpinMutex.hpp. The flag is shared by any number of threads, and every atomic
-- access of it is one step of one thread. The steps interleave in any order, sequentially
-- consistent. A thread calls `lock`, then `unlock`, again and again.
pub mod Exclusion
mod Tests
use quickstructs.Prelude.{
  ℕ, ◌+◌, Bool, true, false, Option, none, some, List, [], ◌∷◌, get_elem?, set, replicate, ltb,
  if◌then◌else◌,
}

-- Where a thread is: outside, before the first `test_and_set` of `lock`, before the `test` or the
-- `test_and_set` of a round of the spin loop, or with the lock.
pub data Position : Type 0 where
  idle : Position
  fast_path : Position
  spin : ℕ → Position
  try_again : ℕ → Position
  inside : Position

-- `Mutex`, and its threads.
pub record Mutex : Type 0 where
  pub flag : Bool
  pub threads : List Position

abbrev pub start : ℕ → Mutex
start n = record { flag = false; threads = replicate n idle }

-- The end of a round; after 64 rounds the thread yields and begins with round 0.
abbrev next_round : ℕ → Position
next_round i = if ltb (i + 1) 64 then spin (i + 1) else spin 0

-- One atomic access of `lock` or `unlock`: the flag after it, and where the thread is then.
pub advance : Bool → Position → Bool × Position
advance flag idle = (flag, fast_path)
advance flag fast_path = (true, if flag then spin 0 else inside)
advance flag (spin i) = (flag, if flag then next_round i else try_again i)
advance flag (try_again i) = (true, if flag then next_round i else inside)
advance flag inside = (false, idle)

-- One step of one thread, and the steps of a schedule.
pub step : ℕ → Mutex → Mutex
step t m = elim (get_elem? m.threads t) [
  | some p ↦
      let (flag', p') = advance m.flag p in record { flag = flag'; threads = set m.threads t p' }
  | none ↦ m
]

pub run : List ℕ → Mutex → Mutex
run [] m = m
run (t ∷ ts) m = run ts (step t m)

-- `try_lock`: its result, and the flag after it.
pub try_lock : Bool → Bool × Bool
try_lock flag = (flag, true)

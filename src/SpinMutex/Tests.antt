-- ===== src/SpinMutex/Tests.antt =====
-- Two threads on the lock.
use quickstructs.Prelude.{ℕ, ◌≡◌, refl, true, false, List, [], ◌∷◌}
use quickstructs.SpinMutex.{Mutex, idle, spin, inside, start, step, advance, run, try_lock}
use quickstructs.SpinMutex.Exclusion.{Exclusive, run-Exclusive}

-- Both try, the first has the lock and gives it back, and the second spins and gets it.
abbrev schedule : List ℕ
schedule = 0 ∷ 1 ∷ 0 ∷ 1 ∷ 1 ∷ 0 ∷ 1 ∷ 1 ∷ []

schedule-run : run schedule (start 2) ≡ record { flag = true; threads = idle ∷ inside ∷ [] }
unfolding run step advance
schedule-run = refl

-- `try_lock` returns true when another thread has the lock.
try_lock-run : (try_lock true).0 ≡ true
unfolding try_lock
try_lock-run = refl

run-Exclusive_example : Exclusive (run schedule (start 2))
run-Exclusive_example = run-Exclusive 2 schedule

abbrev spinning : Mutex
spinning = record { flag = false; threads = spin 3 ∷ idle ∷ [] }

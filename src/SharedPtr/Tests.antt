-- ===== src/SharedPtr/Tests.antt =====
-- Shared pointers on concrete calls.
use quickstructs.Prelude.{
  ℕ, zero, suc, ◌≡◌, refl, false, none, some, List, [], ◌∷◌, get_elem?, arith,
}
use quickstructs.SharedPtr.{
  Handle, World, start, release, add_ref, copy_construct, move_construct, reset, reset_to,
  copy_assign, move_assign, copy_from, move_from, arrow, read_count,
}
use quickstructs.SharedPtr.Main.{main}
use quickstructs.SharedPtr.Blocks.{deleted}
use quickstructs.SharedPtr.Targets.{Target, run-Target}
use quickstructs.SharedPtr.Threads
use quickstructs.SharedPtr.Threads.{gone, Event, copy_event, release_event}
use quickstructs.SharedPtr.Ending.{Ends, run-Ends}
use quickstructs.SharedPtr.Runs.{
  Call, construct_call, copy_call, move_call, reset_call, reset_to_call, copy_assign_call,
  move_assign_call, run, Ran, run-Ran, run-deleted,
}

-- Object 5 with deleter 7 is shared, moved and given up; object 6 takes its place at the end.
abbrev calls : List Call
calls =
    construct_call 5 7
    ∷ copy_call 0
    ∷ move_call 1
    ∷ copy_assign_call 1 0
    ∷ move_assign_call 0 2
    ∷ reset_call 0
    ∷ reset_to_call 1 6 7
    ∷ reset_call 1
    ∷ []

abbrev final : World
final = record {
  handles =
      record { obj = 0; cb = none }
      ∷ record { obj = 0; cb = none }
      ∷ record { obj = 0; cb = none }
      ∷ [];
  blocks = none ∷ none ∷ [];
  deletions = record { deleter = 7; obj = 6 } ∷ record { deleter = 7; obj = 5 } ∷ [];
}

calls-run : run calls start ≡ some final
unfolding run release add_ref copy_construct move_construct reset reset_to copy_assign move_assign
    copy_from move_from
calls-run = refl

run-Ran_example : Ran calls start
run-Ran_example =
    run-Ran calls start (record { counted = λ b. refl; live = λ b k f. ground (arith, f) })
      (omega arith)
      (
        record {},
        (
          omega arith,
          (
            omega arith,
            (
              (omega arith, omega arith),
              ((omega arith, omega arith), (omega arith, (omega arith, (omega arith, record {})))),
            ),
          ),
        ),
      )

all_empty : (i : ℕ) (h : Handle) → get_elem? final.handles i ≡ some h → h.cb ≡ none
all_empty zero h e = ground (arith, e)
all_empty (suc zero) h e = ground (arith, e)
all_empty (suc (suc zero)) h e = ground (arith, e)
all_empty (suc (suc (suc i))) h e = ground (arith, e)

run-deleted_example : deleted 7 5 final ≡ 1
run-deleted_example =
    run-deleted calls final 7 5 (omega arith)
      (
        record {},
        (
          omega arith,
          (
            omega arith,
            (
              (omega arith, omega arith),
              ((omega arith, omega arith), (omega arith, (omega arith, (omega arith, record {})))),
            ),
          ),
        ),
      )
      calls-run all_empty (omega arith)

-- Two threads give up two objects at once: the second decrement is the last one.
abbrev events : List Event
events =
    copy_event 0
    ∷ release_event 0
    ∷ release_event 1
    ∷ release_event 0
    ∷ release_event 1
    ∷ copy_event 0
    ∷ release_event 1
    ∷ []

events-run : Threads.run events (Threads.start 5 7) ≡ record {
  block = none;
  holders = gone ∷ gone ∷ [];
  deletions = record { deleter = 7; obj = 5 } ∷ [];
  faulted = false;
}
unfolding Threads.run Threads.step
events-run = refl

run-Ends_example : Ends 5 7 (Threads.run events (Threads.start 5 7))
run-Ends_example = run-Ends 5 7 events (omega arith)

-- The first calls of the run above: two pointers to object 5, one of them moved.
abbrev shared_calls : List Call
shared_calls = construct_call 5 7 ∷ copy_call 0 ∷ move_call 1 ∷ []

run-Target_example :
    (w : World) × (run shared_calls start ≡ some w)
    × ((i : ℕ) (h : Handle) → get_elem? w.handles i ≡ some h → Target w (arrow h) h.cb)
run-Target_example =
    run-Target shared_calls (omega arith) (record {}, (omega arith, (omega arith, record {})))
      (λ p l. ground arith)

-- The program prints 1 1 1 0, and the deleter runs once, in `anotherone.reset()`.
main-run :
    main 5 7
    ≡ some (
      1 ∷ 1 ∷ 1 ∷ 0 ∷ [],
      record {
        handles = record { obj = 0; cb = none } ∷ record { obj = 0; cb = none } ∷ [];
        blocks = none ∷ [];
        deletions = record { deleter = 7; obj = 5 } ∷ [];
      },
    )
unfolding main move_construct reset release read_count
main-run = refl

-- ===== src/UniquePtr/Tests.antt =====
-- Unique pointers on concrete calls, with the deleters numbered.
use quickstructs.Prelude.{ℕ, ◌<◌, ◌≡◌, refl, Bool, some, List, [], ◌∷◌, ◌==◌, arith}
use quickstructs.UniquePtr.{UniquePtr, make, release, reset, move_assign}
use quickstructs.UniquePtr.Ownership.{deleted}
use quickstructs.UniquePtr.Runs.{
  World, Call, make_call, move_make_call, release_call, reset_call, move_assign_call, swap_call,
  run, empty, AllExist,
}
use quickstructs.UniquePtr.Balance.{accounted, run-accounted}

abbrev first : UniquePtr ℕ
first = make 5 1

abbrev second : UniquePtr ℕ
second = make 6 2

abbrev is_one : ℕ → Bool
is_one d = d == 1

move_assign-run :
    move_assign first second [] ≡ (make 6 2, make 0 2, record { by = 1; object = 5 } ∷ [])
unfolding move_assign release reset
move_assign-run = refl

-- The second object goes to the first pointer, whose own is deleted, and to a third pointer by a
-- move; a fourth takes over another object, and is released after a swap.
abbrev calls : List (Call ℕ)
calls =
    make_call 5 1
    ∷ make_call 6 2
    ∷ move_assign_call 0 1
    ∷ move_make_call 0
    ∷ reset_call 1 7
    ∷ swap_call 1 2
    ∷ release_call 1
    ∷ reset_call 2 0
    ∷ []

calls-AllExist : AllExist calls 0
calls-AllExist = (
  record {},
  (
    record {},
    (
      (omega arith, omega arith),
      (
        omega arith,
        (omega arith, ((omega arith, omega arith), (omega arith, (omega arith, record {})))),
      ),
    ),
  ),
)

run-accounted_example :
    (w : World ℕ) × (run calls (empty ℕ) ≡ some w)
    × ((p : ℕ) → 0 < p → accounted is_one p w ≡ deleted is_one p w.given)
run-accounted_example = run-accounted is_one calls calls-AllExist

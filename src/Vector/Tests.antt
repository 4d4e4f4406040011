-- ===== src/Vector/Tests.antt =====
-- The vector on concrete inputs.
use quickstructs.Prelude.{ℕ, ◌≡◌, refl, Bool, none, some, List, [], ◌∷◌, ◌==◌, arith}
use quickstructs.Vector.{
  push_back_own, Vector, done, threw, fault, ◌>>=◌, make_empty, make_sized, construct_defaults,
  grow_capacity, move_all, push_back, shrink_to_fit, resize, index, pop_back, destroy,
}
use quickstructs.Vector.Growth.{Holds}
use quickstructs.Vector.Destruction.{destroy-raw}
use quickstructs.Vector.Runs.{Call, push_call, pop_call, shrink_call, run, Refines, run-Refines}
use quickstructs.Vector.Faults.{shrink_to_fit-push_back, resize-push_back}

-- Constructing from 9 throws.
abbrev nine : ℕ → Bool
nine x = x == 9

abbrev two_items : Vector ℕ
two_items = record { size = 2; cap = 3; arr = some 4 ∷ some 5 ∷ none ∷ [] }

abbrev full_items : Vector ℕ
full_items = record { size = 2; cap = 2; arr = some 4 ∷ some 5 ∷ [] }

two_items-Holds : Holds two_items (4 ∷ 5 ∷ [])
two_items-Holds = record { room = 1; size_is = refl; cap_is = refl; arr_is = refl }

full_items-Holds : Holds full_items (4 ∷ 5 ∷ [])
full_items-Holds = record { room = 0; size_is = refl; cap_is = refl; arr_is = refl }

make_empty-Holds : Holds (make_empty ℕ) []
make_empty-Holds = record { room = 1; size_is = refl; cap_is = refl; arr_is = refl }

pushes_run : (push_back nine (make_empty ℕ) 4 >>= λ v. push_back nine v 5) ≡ done two_items
unfolding push_back grow_capacity move_all
pushes_run = refl

push_throws_run : push_back nine two_items 9 ≡ threw two_items
unfolding push_back grow_capacity move_all
push_throws_run = refl

make_sized_run : make_sized {A = ℕ} 0 2 ≡ record { size = 2; cap = 2; arr = some 0 ∷ some 0 ∷ [] }
unfolding make_sized construct_defaults
make_sized_run = refl

index_run : index two_items 2 ≡ some none
unfolding index
index_run = refl

-- Four elements, one less, no spare room, and one that throws.
abbrev calls : List (Call ℕ)
calls =
    push_call nine 4
    ∷ push_call nine 5
    ∷ push_call nine 6
    ∷ push_call nine 7
    ∷ pop_call
    ∷ shrink_call nine
    ∷ push_call nine 9
    ∷ []

calls-run :
    run calls (make_empty ℕ)
    ≡ threw (record {
      size = 3;
      cap = 9;
      arr = some 4 ∷ some 5 ∷ some 6 ∷ none ∷ none ∷ none ∷ none ∷ none ∷ none ∷ [];
    })
unfolding run push_back shrink_to_fit grow_capacity move_all pop_back
calls-run = refl

-- The element 5 throws when the fourth call moves it.
abbrev five : ℕ → Bool
five x = x == 5

abbrev moving_throws : List (Call ℕ)
moving_throws = push_call nine 4 ∷ push_call nine 5 ∷ push_call nine 6 ∷ push_call five 7 ∷ []

moving_throws-run :
    run moving_throws (make_empty ℕ)
    ≡ threw (record { size = 3; cap = 3; arr = some 4 ∷ some 5 ∷ some 6 ∷ [] })
unfolding run push_back grow_capacity move_all
moving_throws-run = refl

run-Refines_example : Refines (make_empty ℕ) moving_throws [] (run moving_throws (make_empty ℕ))
run-Refines_example =
    run-Refines 4 moving_throws (omega arith)
      (omega arith, (omega arith, (omega arith, (omega arith, record {}))))

-- An element of the full vector is read where the storage was freed.
push_back_own_run :
    push_back_own nine (record { size = 3; cap = 3; arr = some 4 ∷ some 5 ∷ some 6 ∷ [] }) 0 ≡ fault
unfolding push_back_own grow_capacity move_all
push_back_own_run = refl

destroyed : destroy two_items ≡ done (none ∷ none ∷ none ∷ [])
destroyed = destroy-raw two_items (4 ∷ 5 ∷ []) two_items-Holds

shrink_to_fit-push_back_example :
    (shrink_to_fit nine (make_empty ℕ) >>= λ w. push_back nine w 4) ≡ fault
shrink_to_fit-push_back_example =
    shrink_to_fit-push_back nine (make_empty ℕ) 4 make_empty-Holds (omega arith)

resized_full : push_back nine (resize full_items 5) 6 ≡ fault
resized_full =
    resize-push_back nine full_items (4 ∷ 5 ∷ []) 5 6 full_items-Holds refl (omega arith)
      (omega arith)

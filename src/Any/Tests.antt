-- ===== src/Any/Tests.antt =====
-- A number in the storage, and one on the heap.
use quickstructs.Prelude.{ℕ, ◌≡◌, refl, true, false, Option, some, List, [], ◌∷◌}
use quickstructs.Any.{done, bad_cast, fault, is_small, make_default, make_value, destroy, any_cast}
use quickstructs.Any.Lifetime.{objects, Destroyed, make_value-any_cast, make_default-destroy}

sizes : (is_small 4 4 ≡ true) × (is_small 8 8 ≡ false)
sizes = (refl, refl)

abbrev heap : List (Option ℕ)
heap = some 5 ∷ []

abbrev seven : ℕ
seven = 7

make_value-any_cast_example :
    let (a, heap') = make_value (is_small 8 8) seven heap in
    (objects a heap' ≡ 2)
    × (any_cast true a heap' ≡ done seven)
    × (any_cast false a heap' ≡ bad_cast)
    × Destroyed heap (destroy a heap')
make_value-any_cast_example = make_value-any_cast (is_small 8 8) seven heap

-- Nothing was constructed in a default object.
default-destroy : destroy (make_default {A = ℕ}) [] ≡ fault
default-destroy = make_default-destroy []

-- ===== src/Any.antt =====
-- include/quick/handle/Any.cc, for one element type. Whether an object fits into the storage is decided
-- from its size and its alignment. The heap has one entry for each object ever allocated, `none` where
-- it was destroyed and freed.
pub mod Lifetime
mod Tests
use quickstructs.Prelude.{
  ℕ, Bool, true, false, not, ◌&&◌, Option, none, some, List, [], ◌∷◌, ◌++◌, length, get_elem?, set,
  leb, if◌then◌else◌,
}

-- `any`: the storage, `none` where no object is alive in it, `ptr_` by its index, and `on_heap`.
pub record Any (A : Type 0) : Type 0 where
  pub storage : Option A
  pub ptr : Option ℕ
  pub on_heap : Bool

-- A call returns, throws `std::bad_cast`, or does what C++ gives no meaning to.
pub data Outcome (R : Type 0) : Type 0 where
  done : R → Outcome R
  bad_cast : Outcome R
  fault : Outcome R

-- The test of the constructor; `SMALL_SIZE` and `alignof(int)` are 4.
abbrev pub is_small : ℕ → ℕ → Bool
is_small size align = leb size 4 && leb align 4

module _ {A : Type 0} where
  -- The constructors, without and with a value.
  abbrev pub make_default : Any A
  make_default = record { storage = none; ptr = none; on_heap = false }

  pub make_value : Bool → A → List (Option A) → Any A × List (Option A)
  make_value small x heap =
      if small then (record { storage = some x; ptr = none; on_heap = false }, heap) else (
        record { storage = none; ptr = some (length heap); on_heap = true },
        heap ++ some x ∷ [],
      )

  -- `std::destroy_at` and `operator delete` on the heap, and `std::destroy_at` on the storage: no object
  -- is alive there then.
  abbrev pub free :
      Any A → ℕ → Option (Option A) → List (Option A) → Outcome (Any A × List (Option A))
  free a p (some (some x)) heap = done (a, set heap p none)
  free a p (some none) heap = fault
  free a p none heap = fault

  abbrev pub destroy_stored : Any A → Option A → List (Option A) → Outcome (Any A × List (Option A))
  destroy_stored a (some x) heap = done (record a { storage = none }, heap)
  destroy_stored a none heap = fault

  -- The destructor, with what is left of the storage and of the heap.
  abbrev pub destroy_at :
      Any A → Bool → Option ℕ → List (Option A) → Outcome (Any A × List (Option A))
  destroy_at a true (some p) heap = free a p (get_elem? heap p) heap
  destroy_at a true none heap = done (a, heap)
  destroy_at a false ptr heap = destroy_stored a a.storage heap

  pub destroy : Any A → List (Option A) → Outcome (Any A × List (Option A))
  destroy a heap = destroy_at a a.on_heap a.ptr heap

  -- `any_cast`; the flag is `std::is_same_v`.
  abbrev pub read : Option A → Outcome A
  read (some x) = done x
  read none = fault

  abbrev pub entry : Option (Option A) → Option A
  entry (some o) = o
  entry none = none

  abbrev pub pointed : Option ℕ → List (Option A) → Option A
  pointed (some p) heap = entry (get_elem? heap p)
  pointed none heap = none

  pub any_cast : Bool → Any A → List (Option A) → Outcome A
  any_cast same a heap =
      if not same then bad_cast else if a.on_heap then read (pointed a.ptr heap) else read a.storage

-- ===== src/Vector.antt =====
-- include/quick/structs/Vector.hh. The storage is a list with one entry for each element that it has
-- room for: `none` where no object is alive, and the empty list for a null pointer. An access
-- outside of the storage, or to an object that is not alive, is a fault, since the code does not
-- check it. `throws x` says that constructing an element from `x` throws; an element whose move may
-- throw is copied in a reallocation, as `std::move_if_noexcept` does where there is a copy constructor,
-- so that the old storage stays as it was. The argument of `push_back` is no element of the vector.
pub mod Growth
pub mod Pushes
pub mod Faults
pub mod Destruction
pub mod Bounds
pub mod Runs
mod Tests
use quickstructs.Prelude.{
  ℕ, zero, suc, ◌+◌, ◌-◌, ◌*◌, ◌%◌, ◌^◌, Bool, true, false, not, ◌||◌, Option, none, some, List, [],
  ◌∷◌, length, get_elem?, set, replicate, ltb, leb, ◌==◌, if◌then◌else◌,
}

-- `Vector`
pub record Vector (A : Type 0) : Type 0 where
  pub size : ℕ
  pub cap : ℕ
  pub arr : List (Option A)

-- How a call ends, with the state it leaves: it returns, an exception leaves it, or it has done
-- what C++ gives no meaning to.
pub data Outcome (S : Type 0) : Type 0 where
  done : S → Outcome S
  threw : S → Outcome S
  fault : Outcome S

infixl 5 ◌>>=◌
abbrev pub ◌>>=◌ : {S : Type 0} → Outcome S → (S → Outcome S) → Outcome S
done s >>= f = f s
threw s >>= f = threw s
fault >>= f = fault

-- `_allocate`; nothing is allocated for 0.
abbrev pub allocate : (A : Type 0) → ℕ → List (Option A)
allocate A n = replicate n none

-- `Vector::Vector`, without and with a size; `d` is a default-constructed element.
abbrev pub make_empty : (A : Type 0) → Vector A
make_empty A = record { size = 0; cap = 1; arr = allocate A 1 }

construct_defaults : {A : Type 0} → A → ℕ → ℕ → List (Option A) → List (Option A)
construct_defaults d i zero arr = arr
construct_defaults d i (suc n) arr = construct_defaults d (i + 1) n (set arr i (some d))

unfoldable pub make_sized : {A : Type 0} → A → ℕ → Vector A
unfolding construct_defaults
make_sized {A} d n =
    let cap = if ltb 1 n then n else 1 in
    record { size = n; cap = cap; arr = construct_defaults d 0 n (allocate A cap) }

module _ {A : Type 0} (throws : A → Bool) where
  -- `std::construct_at` at an index
  abbrev pub construct_at : List (Option A) → ℕ → A → Outcome (List (Option A))
  construct_at arr i x =
      if ltb i (length arr)
      then (if throws x then threw arr else done (set arr i (some x)))
      else fault

  -- The loop of `_grow_capacity`, on the number of elements still to move.
  pub move_all : List (Option A) → List (Option A) → ℕ → ℕ → Outcome (List (Option A))
  move_all new old i zero = done new
  move_all new old i (suc n) = elim (get_elem? old i) [
    | some (some x) ↦ elim (construct_at new i x) [
      | done new' ↦ move_all new' old (i + 1) n
      | threw new' ↦ threw new'
      | fault ↦ fault
    ]
    | some none ↦ fault
    | none ↦ fault
  ]

  -- `_grow_capacity`; its handler frees the new storage and throws again.
  abbrev pub finish_growth : Vector A → ℕ → Outcome (List (Option A)) → Outcome (Vector A)
  finish_growth v new_cap (done new) = done (record { size = v.size; cap = new_cap; arr = new })
  finish_growth v new_cap (threw new) = threw v
  finish_growth v new_cap fault = fault

  pub grow_capacity : Vector A → ℕ → Outcome (Vector A)
  grow_capacity v new_cap = finish_growth v new_cap (move_all (allocate A new_cap) v.arr 0 v.size)

  -- `std::uint64_t` multiplication by 3
  abbrev pub triple : ℕ → ℕ
  triple n = n * 3 % 2 ^ 64

  abbrev pub grow_if_one : Vector A → Outcome (Vector A)
  grow_if_one v = if v.cap == 1 then grow_capacity v (triple v.cap) else done v

  abbrev pub grow_if_full : Vector A → Outcome (Vector A)
  grow_if_full v = if leb v.cap v.size then grow_capacity v (triple v.cap) else done v

  abbrev pub finish_append : Vector A → Outcome (List (Option A)) → Outcome (Vector A)
  finish_append v (done arr') = done (record { size = v.size + 1; cap = v.cap; arr = arr' })
  finish_append v (threw arr') = threw v
  finish_append v fault = fault

  abbrev pub append_element : A → Vector A → Outcome (Vector A)
  append_element x v = finish_append v (construct_at v.arr v.size x)

  -- `push_back` and `emplace_back`, which have the same body, of an object outside of the vector.
  unfoldable pub push_back : Vector A → A → Outcome (Vector A)
  push_back v x = grow_if_one v >>= grow_if_full >>= append_element x

  -- `push_back` of an element of the vector itself, which is read behind the reallocation, from storage
  -- that is freed then.
  unfoldable pub push_back_own : Vector A → ℕ → Outcome (Vector A)
  push_back_own v i = elim (v.cap == 1 || leb v.cap v.size) [
    | true ↦ grow_if_one v >>= grow_if_full >>= λ w. fault
    | false ↦ elim (get_elem? v.arr i) [
      | some (some x) ↦ append_element x v
      | some none ↦ fault
      | none ↦ fault
    ]
  ]

  -- `shrink_to_fit`
  unfoldable pub shrink_to_fit : Vector A → Outcome (Vector A)
  shrink_to_fit v = if ltb v.size v.cap then grow_capacity v v.size else done v

module _ {A : Type 0} where
  -- `resize`, which sets the capacity and nothing else.
  pub resize : Vector A → ℕ → Vector A
  resize v new_cap = record v { cap = new_cap }

  -- `pop_back`
  unfoldable pub pop_back : Vector A → Vector A
  pop_back v =
      if v.size == 0
      then v
      else record { size = v.size - 1; cap = v.cap; arr = set v.arr (v.size - 1) none }

  -- `at`: `none` is the exception `std::out_of_range`, and the inner option is the element read.
  pub at : Vector A → ℕ → Option (Option (Option A))
  at v i = if leb v.size i then none else some (get_elem? v.arr i)

  -- `operator[]`, which does not check.
  pub index : Vector A → ℕ → Option (Option A)
  index v i = get_elem? v.arr i

  -- `size` and `capacity`
  abbrev pub size_of : Vector A → ℕ
  size_of v = v.size

  abbrev pub capacity_of : Vector A → ℕ
  capacity_of v = v.cap

  -- `std::destroy_n`, on the number of elements still to destroy.
  pub destroy_n : List (Option A) → ℕ → ℕ → Outcome (List (Option A))
  destroy_n arr i zero = done arr
  destroy_n arr i (suc n) = elim (get_elem? arr i) [
    | some (some x) ↦ destroy_n (set arr i none) (i + 1) n
    | some none ↦ fault
    | none ↦ fault
  ]

  -- `Vector::~Vector`, up to the release of the storage, and `_destroy_and_free`, which nothing calls.
  pub destroy : Vector A → Outcome (List (Option A))
  destroy v = destroy_n v.arr 0 v.size

  pub destroy_and_free : Vector A → Outcome (List (Option A))
  destroy_and_free v = if length v.arr == 0 then done v.arr else destroy_n v.arr 0 v.size

-- ===== src/UniquePtr.antt =====
-- include/quick/handle/UniquePtr.hh. A pointer is its address, and 0 is the null pointer. The
-- deleters are a type of which nothing is known; their calls are a log, the last one first.
pub mod Ownership
pub mod Runs
pub mod Balance
mod Tests
use quickstructs.Prelude.{
  ℕ, Bool, true, false, not, Option, none, List, [], ◌∷◌, ◌==◌, ltb, if◌then◌else◌,
}

module _ (D : Type 0) where
  -- `UniquePtr`
  pub record UniquePtr : Type 0 where
    pub ptr : ℕ
    pub deleter : D

  pub record Deletion : Type 0 where
    pub by : D
    pub object : ℕ

module _ {D : Type 0} where
  -- The constructors: without a pointer or from `nullptr`, from a pointer and a deleter, and by move.
  abbrev pub make_null : D → UniquePtr D
  make_null d = record { ptr = 0; deleter = d }

  abbrev pub make : ℕ → D → UniquePtr D
  make p d = record { ptr = p; deleter = d }

  pub move_make : UniquePtr D → UniquePtr D × UniquePtr D
  move_make other = (record { ptr = other.ptr; deleter = other.deleter }, record other { ptr = 0 })

  -- `release`
  pub release : UniquePtr D → ℕ × UniquePtr D
  release u = (u.ptr, record u { ptr = 0 })

  -- `reset`; without an argument, and in the destructor, the pointer is null.
  pub reset : UniquePtr D → ℕ → List (Deletion D) → UniquePtr D × List (Deletion D)
  reset u p log =
      let old = u.ptr in
      (
        record u { ptr = p },
        if old == 0 then log else record { by = u.deleter; object = old } ∷ log,
      )

  abbrev pub destroy : UniquePtr D → List (Deletion D) → UniquePtr D × List (Deletion D)
  destroy u log = reset u 0 log

  -- `operator=(UniquePtr &&)` for two different objects, which is the converting one as well; the
  -- new pointer is set, and the old object deleted, before the deleter is replaced.
  pub move_assign :
      UniquePtr D → UniquePtr D → List (Deletion D) → UniquePtr D × UniquePtr D × List (Deletion D)
  move_assign u other log =
      let (p, other') = release other in
      let (u', log') = reset u p log in (record u' { deleter = other'.deleter }, other', log')

  -- The assignment of `nullptr`
  abbrev pub assign_null : UniquePtr D → List (Deletion D) → UniquePtr D × List (Deletion D)
  assign_null u log = reset u 0 log

  -- `swap`
  pub swap : UniquePtr D → UniquePtr D → UniquePtr D × UniquePtr D
  swap u other = (
    record { ptr = other.ptr; deleter = other.deleter },
    record { ptr = u.ptr; deleter = u.deleter },
  )

  -- The free `swap`, and `make_unique`, with the address that `new` gives.
  abbrev pub swap_two : UniquePtr D → UniquePtr D → UniquePtr D × UniquePtr D
  swap_two lhs rhs = swap lhs rhs

  abbrev pub make_unique : D → ℕ → UniquePtr D
  make_unique default_deleter p = make p default_deleter

  abbrev pub get_deleter : UniquePtr D → D
  get_deleter u = u.deleter

  -- `operator->`, and `operator*` where the heap has a value at the pointer; the null pointer has none.
  abbrev pub arrow : UniquePtr D → ℕ
  arrow u = u.ptr

  pub dereference : {A : Type 0} → (ℕ → Option A) → UniquePtr D → Option A
  dereference heap u = if u.ptr == 0 then none else heap u.ptr

  -- `operator bool`, the comparisons with `nullptr`, and those of two pointers.
  abbrev pub owns : UniquePtr D → Bool
  owns u = not (u.ptr == 0)

  abbrev pub is_null : UniquePtr D → Bool
  is_null u = not (owns u)

  abbrev pub is_not_null : UniquePtr D → Bool
  is_not_null u = owns u

  pub eq : UniquePtr D → UniquePtr D → Bool
  eq u v = u.ptr == v.ptr

  pub ne : UniquePtr D → UniquePtr D → Bool
  ne u v = not (u.ptr == v.ptr)

  pub lt : UniquePtr D → UniquePtr D → Bool
  lt u v = ltb u.ptr v.ptr

  pub le : UniquePtr D → UniquePtr D → Bool
  le u v = not (lt v u)

  pub gt : UniquePtr D → UniquePtr D → Bool
  gt u v = lt v u

  pub ge : UniquePtr D → UniquePtr D → Bool
  ge u v = not (lt u v)

-- ===== src/UniquePtr/Ownership.antt =====
-- An owned object is with one pointer, with its deleter, or was given to that deleter once.
use quickstructs.Prelude.{
  ℕ, ◌+◌, ◌<◌, ◌≡◌, refl, Bool, false, ◌&&◌, ◌||◌, List, ◌==◌, if◌then◌else◌, arith, Bool-cases,
  inl, inr,
}
use quickstructs.Sums.{sum_by}
use quickstructs.UniquePtr.{
  UniquePtr, Deletion, move_make, release, reset, move_assign, swap, eq, ne, lt, le, gt, ge,
}

module _ {D : Type 0} (is_it : D → Bool) where
  -- `is_it` picks out a deleter. The objects `p` that this deleter has to delete, or has deleted.
  abbrev to_delete : ℕ → UniquePtr D → ℕ
  to_delete p u = if is_it u.deleter then (if u.ptr == p then 1 else 0) else 0

  abbrev deletes : ℕ → Deletion D → ℕ
  deletes p e = if is_it e.by then (if e.object == p then 1 else 0) else 0

  abbrev pub tally : ℕ → UniquePtr D → ℕ
  tally p u = to_delete p u

  abbrev pub deleted : ℕ → List (Deletion D) → ℕ
  deleted p log = sum_by (deletes p) log

  reset-deleted :
      (u : UniquePtr D) (q p : ℕ) (log : List (Deletion D))
      → 0 < p
      → deleted p (reset u q log).1 ≡ deleted p log + tally p u
  unfolding reset
  reset-deleted u q p log l = elim (Bool-cases (u.ptr == 0)) [
    | inl z ↦ rw z (ground arith)
    | inr z ↦ rw z (omega arith)
  ]

  pub tally_null : (d : D) (p : ℕ) → 0 < p → tally p (record { ptr = 0; deleter = d }) ≡ 0
  tally_null d p l = ground arith

  -- Move assignment gives the old object to its own deleter, once, and moves the other object with
  -- its deleter: each object is with a pointer or deleted as often as before, by the same deleter.
  pub move_assign-tally :
      (u other : UniquePtr D) (log : List (Deletion D)) (p : ℕ)
      → 0 < p
      → tally p (move_assign u other log).0
          + tally p (move_assign u other log).1
          + deleted p (move_assign u other log).2
        ≡ tally p u + tally p other + deleted p log
  unfolding move_assign release reset
  move_assign-tally u other log p l =
      omega (arith, reset-deleted u other.ptr p log l, tally_null other.deleter p l)

  -- Move construction moves the object with its deleter, and leaves nothing to delete.
  pub move_make-tally :
      (other : UniquePtr D) (p : ℕ)
      → 0 < p
      → (tally p (move_make other).0 ≡ tally p other) × (tally p (move_make other).1 ≡ 0)
  unfolding move_make
  move_make-tally other p l = (refl, tally_null other.deleter p l)

  -- The destructor gives the object to the deleter once, and `reset` takes the new one over.
  pub reset-tally :
      (u : UniquePtr D) (q p : ℕ) (log : List (Deletion D))
      → 0 < p
      → tally p (reset u q log).0 + deleted p (reset u q log).1
        ≡ tally p (record { ptr = q; deleter = u.deleter }) + tally p u + deleted p log
  unfolding reset
  reset-tally u q p log l = omega (arith, reset-deleted u q p log l)

module _ {D : Type 0} where
  -- Swapping twice is nothing.
  pub swap-swap : (u v : UniquePtr D) → swap (swap u v).0 (swap u v).1 ≡ (u, v)
  unfolding swap
  swap-swap u v = refl

  -- Exactly one of `<`, `==` and `>` holds, and the other three comparisons are what they say.
  pub lt-eq-gt :
      (u v : UniquePtr D)
      → (le u v ≡ (lt u v || eq u v))
        × (ge u v ≡ (gt u v || eq u v))
        × (ne u v ≡ (lt u v || gt u v))
        × ((lt u v && gt u v) ≡ false)
        × ((lt u v && eq u v) ≡ false)
        × ((gt u v && eq u v) ≡ false)
  unfolding lt eq gt le ge ne
  lt-eq-gt u v =
      (ground arith, ground arith, ground arith, ground arith, ground arith, ground arith)

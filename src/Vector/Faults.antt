-- ===== src/Vector/Faults.antt =====
-- Two calls of the vector that leave a capacity which the storage does not have, and the
-- `push_back` after them.
use quickstructs.Prelude.{
  ℕ, ◌<◌, ◌≡◌, refl, ap, Bool, true, false, List, [], length, ltb, leb, ◌==◌, arith,
}
use quickstructs.Vector.{
  Vector, fault, ◌>>=◌, push_back, shrink_to_fit, resize, grow_capacity, move_all,
}
use quickstructs.Vector.Growth.{Holds, length-storage}

module _ {A : Type 0} (throws : A → Bool) where
  -- `shrink_to_fit` of an empty vector leaves the capacity 0, which tripling does not change: the next
  -- `push_back` constructs an element at a null pointer.
  pub shrink_to_fit-push_back :
      (v : Vector A) (x : A)
      → Holds v []
      → 0 < v.cap
      → (shrink_to_fit throws v >>= λ w. push_back throws w x) ≡ fault
  unfolding shrink_to_fit push_back grow_capacity move_all
  shrink_to_fit-push_back v x h p =
      let shrinks : ltb v.size v.cap ≡ true = ground (arith, h.size_is) in
      let none_left : v.size ≡ 0 = omega (arith, h.size_is) in rw (shrinks, none_left) refl

  -- `resize` of a full vector to a larger capacity allocates nothing: the next `push_back` constructs
  -- an element behind the storage.
  pub resize-push_back :
      (v : Vector A) (xs : List A) (n : ℕ) (x : A)
      → Holds v xs
      → v.cap ≡ length xs
      → 0 < v.cap
      → v.cap < n
      → push_back throws (resize v n) x ≡ fault
  unfolding push_back resize
  resize-push_back v xs n x h full p l =
      let many : (n == 1) ≡ false = ground arith in
      let room : leb n v.size ≡ false = ground (arith, h.size_is) in
      let beyond : ltb v.size (length v.arr) ≡ false =
        ground (arith, h.size_is, h.cap_is, ap length h.arr_is, length-storage xs h.room) in
      rw (many, room, beyond) refl

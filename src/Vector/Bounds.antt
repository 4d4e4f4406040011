-- ===== src/Vector/Bounds.antt =====
-- The capacity after a `push_back`, which is at most three times the number of elements, or three.
use quickstructs.Prelude.{
  ℕ, ◌+◌, ◌*◌, ◌^◌, ◌≤◌, ◌<◌, ◌≡◌, refl, Bool, true, Option, List, [], ◌∷◌, ◌++◌, length, leb, ◌==◌,
  arith, Bool-cases, inl, inr,
}
use quickstructs.Vector.{
  Vector, Outcome, done, threw, fault, ◌>>=◌, grow_capacity, triple, grow_if_one, grow_if_full,
  finish_append, append_element, push_back, shrink_to_fit, make_empty,
}
use quickstructs.Vector as V
use quickstructs.Vector.Growth.{Holds, grow_capacity-Grown}
use quickstructs.Vector.Pushes.{
  Keeps, Grown-Keeps, Keeps-bind, HasRoom, Pushed, append_element-Pushed, shrink_to_fit-Keeps,
  pop_back-Holds,
}

-- The capacity of a vector that never held more than `m` elements.
pub record IsBounded {A : Type 0} (m : ℕ) (w : Vector A) : Type 0 where
  pub some_cap : 0 < w.cap
  pub bound : w.cap ≤ 3 * m + 3

module _ {A : Type 0} (throws : A → Bool) where
  grow_if_one-IsBounded :
      (v : Vector A) (xs : List A) (m : ℕ)
      → Holds v xs
      → IsBounded m v
      → Keeps throws xs (IsBounded m) (grow_if_one throws v)
  grow_if_one-IsBounded v xs m h s = elim (Bool-cases (v.cap == 1)) [
    | inr e ↦ rw e (h, s)
    | inl e ↦
        let one : v.cap ≡ 1 = ground arith in
        rw e (
          Grown-Keeps throws v xs (triple throws v.cap) (IsBounded m) _ h
            (λ w c. record { some_cap = omega (arith, one, c); bound = omega (arith, one, c) })
            (grow_capacity-Grown throws v xs (triple throws v.cap) h
              (omega (arith, h.cap_is, one))))
  ]

  abbrev Ready : List A → ℕ → Vector A → Type 0
  Ready xs m w = HasRoom throws xs w × IsBounded m w

  grow_if_full-Ready :
      (v : Vector A) (xs : List A) (m : ℕ)
      → Holds v xs
      → IsBounded m v
      → length xs ≤ m
      → 9 * m + 9 < 2 ^ 64
      → Keeps throws xs (Ready xs m) (grow_if_full throws v)
  grow_if_full-Ready v xs m h s l k = elim (Bool-cases (leb v.cap v.size)) [
    | inr e ↦ rw e (h, (ground (arith, h.size_is), s))
    | inl e ↦
        let full : v.cap ≡ length xs = ground (arith, h.size_is, h.cap_is) in
        let positive = s.some_cap in
        rw e (
          Grown-Keeps throws v xs (triple throws v.cap) (Ready xs m) _ h
            (λ w c. (
              omega (arith, full, c, positive, l, k),
              record {
                some_cap = omega (arith, full, c, positive, l, k);
                bound = omega (arith, full, c, positive, l, k);
              },
            ))
            (grow_capacity-Grown throws v xs (triple throws v.cap) h
              (omega (arith, full, positive, l, k))))
  ]

  -- The vector holds the elements, or an exception left it with those before.
  abbrev pub Leaves : List A → List A → ℕ → Outcome (Vector A) → Type 0
  Leaves xs ys m (done w) = Holds w ys × IsBounded m w
  Leaves xs ys m (threw w) = Holds w xs
  Leaves xs ys m fault = ⊥

  abbrev CapIs : ℕ → Outcome (Vector A) → Type 0
  CapIs c (done w) = w.cap ≡ c
  CapIs c (threw w) = Unit
  CapIs c fault = Unit

  finish_append-CapIs :
      (v : Vector A) (out : Outcome (List (Option A))) → CapIs v.cap (finish_append throws v out)
  finish_append-CapIs v (done arr) = refl
  finish_append-CapIs v (threw arr) = record {}
  finish_append-CapIs v fault = record {}

  Pushed-Leaves :
      (v : Vector A) (xs : List A) (x : A) (m : ℕ) (out : Outcome (Vector A))
      → IsBounded m v
      → Pushed throws xs x out
      → CapIs v.cap out
      → Leaves xs (xs ++ x ∷ []) m out
  Pushed-Leaves v xs x m (done w) b p c =
      (p, record { some_cap = omega (arith, b.some_cap, c); bound = omega (arith, b.bound, c) })
  Pushed-Leaves v xs x m (threw w) b p c = p.0
  Pushed-Leaves v xs x m fault b p c = p

  push_end :
      (xs : List A) (x : A) (m : ℕ) (out : Outcome (Vector A))
      → Keeps throws xs (Ready xs m) out
      → Leaves xs (xs ++ x ∷ []) m (out >>= append_element throws x)
  push_end xs x m (done w) k =
      Pushed-Leaves w xs x m _ k.1.1 (append_element-Pushed throws w xs x k.0 k.1.0)
        (finish_append-CapIs w _)
  push_end xs x m (threw w) k = k.0
  push_end xs x m fault k = k

  pub push_back-Leaves :
      (v : Vector A) (xs : List A) (x : A) (m : ℕ)
      → Holds v xs
      → IsBounded m v
      → length xs ≤ m
      → 9 * m + 9 < 2 ^ 64
      → Leaves xs (xs ++ x ∷ []) m (push_back throws v x)
  unfolding push_back
  push_back-Leaves v xs x m h b l k = push_end xs x m _ (
      Keeps-bind throws xs (IsBounded m) (Ready xs m) (grow_if_one throws v) (grow_if_full throws)
        (grow_if_one-IsBounded v xs m h b) (λ w g s. grow_if_full-Ready w xs m g s l k))

  pop_back-IsBounded : (v : Vector A) (m : ℕ) → IsBounded m v → IsBounded m (V.pop_back v)
  unfolding V.pop_back
  pop_back-IsBounded v m b = elim (Bool-cases (v.size == 0)) [
    | inl e ↦ rw e b
    | inr e ↦ rw e (record { some_cap = b.some_cap; bound = b.bound })
  ]

  pub pop_back-Leaves :
      (v : Vector A) (xs : List A) (x : A) (m : ℕ)
      → Holds v (xs ++ x ∷ [])
      → IsBounded m v
      → Leaves (xs ++ x ∷ []) xs m (done (V.pop_back v))
  pop_back-Leaves v xs x m h b = (pop_back-Holds v xs x h, pop_back-IsBounded v m b)

  pub empty-Leaves :
      (v : Vector A) (m : ℕ) → Holds v [] → IsBounded m v → Leaves [] [] m (done (V.pop_back v))
  unfolding V.pop_back
  empty-Leaves v m h b = let e : (v.size == 0) ≡ true = ground (arith, h.size_is) in rw e (h, b)

  shrunk-Leaves :
      (xs : List A) (m : ℕ) (out : Outcome (Vector A))
      → 0 < length xs
      → length xs ≤ m
      → Keeps throws xs (λ w. w.cap ≡ length xs) out
      → Leaves xs xs m out
  shrunk-Leaves xs m (done w) p l k =
      (k.0, record { some_cap = omega (arith, k.1, p); bound = omega (arith, k.1, l) })
  shrunk-Leaves xs m (threw w) p l k = k.0
  shrunk-Leaves xs m fault p l k = k

  pub shrink_to_fit-Leaves :
      (v : Vector A) (xs : List A) (m : ℕ)
      → Holds v xs
      → 0 < length xs
      → length xs ≤ m
      → Leaves xs xs m (shrink_to_fit throws v)
  shrink_to_fit-Leaves v xs m h p l = shrunk-Leaves xs m _ p l (shrink_to_fit-Keeps throws v xs h)

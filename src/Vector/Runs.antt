-- ===== src/Vector/Runs.antt =====
-- Sequences of calls on a vector, against the same calls on a list.
use quickstructs.Prelude.{
  ℕ, ◌+◌, ◌*◌, ◌^◌, ◌≤◌, ◌<◌, ◌≡◌, refl, sym, ap, subst, ◌∙◌, Bool, false, List, [], ◌∷◌, ◌++◌,
  length, length-append, arith,
}
use quickstructs.Vector.{
  Vector, Outcome, done, threw, fault, ◌>>=◌, push_back, shrink_to_fit, make_empty,
}
use quickstructs.Vector as V
use quickstructs.Vector.Growth.{Holds}
use quickstructs.Vector.Bounds.{
  IsBounded, Leaves, push_back-Leaves, pop_back-Leaves, empty-Leaves, shrink_to_fit-Leaves,
}

-- The calls; what throws may be different in each call, so that an element that was stored may throw
-- when a later call moves it.
pub data Call (A : Type 0) : Type 0 where
  push_call : (A → Bool) → A → Call A
  pop_call : Call A
  shrink_call : (A → Bool) → Call A

module _ {A : Type 0} where
  abbrev pub drop_last : List A → List A
  drop_last [] = []
  drop_last (x ∷ []) = []
  drop_last (x ∷ y ∷ ys) = x ∷ drop_last (y ∷ ys)

  -- The calls on a list.
  abbrev pub effect : Call A → List A → List A
  effect (push_call t x) xs = xs ++ x ∷ []
  effect pop_call xs = drop_last xs
  effect (shrink_call t) xs = xs

  abbrev pub effects : List (Call A) → List A → List A
  effects [] xs = xs
  effects (c ∷ cs) xs = effects cs (effect c xs)

  -- `shrink_to_fit` is not called on an empty vector, and there are never more than `m` elements.
  abbrev pub IsAllowed : ℕ → Call A → List A → Type 0
  IsAllowed m (push_call t x) xs = length xs < m
  IsAllowed m pop_call xs = Unit
  IsAllowed m (shrink_call t) xs = 0 < length xs

  abbrev pub AreAllowed : ℕ → List (Call A) → List A → Type 0
  AreAllowed m [] xs = Unit
  AreAllowed m (c ∷ cs) xs = IsAllowed m c xs × AreAllowed m cs (effect c xs)

  last_view :
      (x : A) (xs : List A)
      → (ys : List A) × (y : A) × (x ∷ xs ≡ ys ++ y ∷ []) × (drop_last (x ∷ xs) ≡ ys)
  last_view x [] = ([], x, refl, refl)
  last_view x (y ∷ ys) =
      let (zs, z, e, f) = last_view y ys in (x ∷ zs, z, ap (◌∷◌ x) e, ap (◌∷◌ x) f)

module _ {A : Type 0} where
  -- Nothing throws; `Leaves` does not depend on it.
  abbrev never : A → Bool
  never x = false

  abbrev pub call : Call A → Vector A → Outcome (Vector A)
  call (push_call t x) v = push_back t v x
  call pop_call v = done (V.pop_back v)
  call (shrink_call t) v = shrink_to_fit t v

  unfoldable pub run : List (Call A) → Vector A → Outcome (Vector A)
  run [] v = done v
  run (c ∷ cs) v = call c v >>= run cs

  call-Leaves :
      (c : Call A) (v : Vector A) (xs : List A) (m : ℕ)
      → Holds v xs
      → IsBounded m v
      → length xs ≤ m
      → 9 * m + 9 < 2 ^ 64
      → IsAllowed m c xs
      → Leaves never xs (effect c xs) m (call c v)
  call-Leaves (push_call t x) v xs m h b l k a = push_back-Leaves t v xs x m h b l k
  call-Leaves pop_call v [] m h b l k a = empty-Leaves never v m h b
  call-Leaves pop_call v (x ∷ xs) m h b l k a =
      let (ys, y, e, f) = last_view x xs in
      subst (λ us. Leaves never us (drop_last (x ∷ xs)) m (done (V.pop_back v))) (sym e)
        (subst (λ us. Leaves never (ys ++ y ∷ []) us m (done (V.pop_back v))) (sym f)
          (pop_back-Leaves never v ys y m (subst (Holds v) e h) b))
  call-Leaves (shrink_call t) v xs m h b l k a = shrink_to_fit-Leaves t v xs m h a l

  length-drop_last : (xs : List A) → length (drop_last xs) ≤ length xs
  length-drop_last [] = omega arith
  length-drop_last (x ∷ []) = omega arith
  length-drop_last (x ∷ y ∷ ys) = omega (arith, length-drop_last (y ∷ ys))

  effect_bounded :
      (c : Call A) (xs : List A) (m : ℕ)
      → length xs ≤ m
      → IsAllowed m c xs
      → length (effect c xs) ≤ m
  effect_bounded (push_call t x) xs m l a = omega (arith, a, length-append xs (x ∷ []))
  effect_bounded pop_call xs m l a = omega (arith, l, length-drop_last xs)
  effect_bounded (shrink_call t) xs m l a = l

  -- What a run leaves: the vector with the elements that the same calls leave in a list, or, if an
  -- exception ended the run, with those of the calls before the one that threw, which returned.
  abbrev pub Refines : Vector A → List (Call A) → List A → Outcome (Vector A) → Type 0
  Refines v cs xs (done w) = Holds w (effects cs xs)
  Refines v cs xs (threw w) =
      (ds es : List (Call A)) × (c : Call A) × (u : Vector A) × (cs ≡ ds ++ c ∷ es)
      × (run ds v ≡ done u)
      × (call c u ≡ threw w)
      × Holds w (effects ds xs)
  Refines v cs xs fault = ⊥

  run_later :
      (c : Call A) (ds : List (Call A)) (v w u : Vector A)
      → call c v ≡ done w
      → run ds w ≡ done u
      → run (c ∷ ds) v ≡ done u
  unfolding run
  run_later c ds v w u e r = ap (λ o. o >>= run ds) e ∙ r

  Refines-later :
      (c : Call A) (cs : List (Call A)) (xs : List A) (v w : Vector A) (out : Outcome (Vector A))
      → call c v ≡ done w
      → Refines w cs (effect c xs) out
      → Refines v (c ∷ cs) xs out
  Refines-later c cs xs v w (done u) e r = r
  Refines-later c cs xs v w (threw u) e r =
      let (ds, es, d, z, split, before, thrown, h) = r in
      (c ∷ ds, es, d, z, ap (◌∷◌ c) split, run_later c ds v w z e before, thrown, h)
  Refines-later c cs xs v w fault e r = r

  bind-Refines :
      (c : Call A) (cs : List (Call A)) (xs : List A) (m : ℕ) (v : Vector A)
      (out : Outcome (Vector A))
      → call c v ≡ out
      → Leaves never xs (effect c xs) m out
      → ((w : Vector A)
          → Holds w (effect c xs)
          → IsBounded m w
          → Refines w cs (effect c xs) (run cs w))
      → Refines v (c ∷ cs) xs (out >>= run cs)
  unfolding run
  bind-Refines c cs xs m v (done w) e r next =
      Refines-later c cs xs v w (run cs w) e (next w r.0 r.1)
  bind-Refines c cs xs m v (threw w) e r next = ([], cs, c, v, refl, refl, e, r)
  bind-Refines c cs xs m v fault e r next = r

  run_from :
      (cs : List (Call A)) (v : Vector A) (xs : List A) (m : ℕ)
      → Holds v xs
      → IsBounded m v
      → length xs ≤ m
      → 9 * m + 9 < 2 ^ 64
      → AreAllowed m cs xs
      → Refines v cs xs (run cs v)
  unfolding run
  run_from [] v xs m h b l k a = h
  run_from (c ∷ cs) v xs m h b l k a =
      bind-Refines c cs xs m v (call c v) refl (call-Leaves c v xs m h b l k a.0)
        (λ w g d. run_from cs w (effect c xs) m g d (effect_bounded c xs m l a.0) k a.1)

  -- Any sequence of `push_back`, `pop_back` and `shrink_to_fit` on a new vector does nothing undefined,
  -- if `shrink_to_fit` is not called while it is empty and there are at most `m` elements,
  -- `9 * m + 9 < 2 ^ 64`. It leaves the elements that the same calls leave in a list, and if an exception
  -- ends it, in a reallocation or at the new element, those of the calls before the one that threw.
  pub run-Refines :
      (m : ℕ) (cs : List (Call A))
      → 9 * m + 9 < 2 ^ 64
      → AreAllowed m cs []
      → Refines (make_empty A) cs [] (run cs (make_empty A))
  run-Refines m cs k a =
      run_from cs (make_empty A) [] m
        (record { room = 1; size_is = refl; cap_is = refl; arr_is = refl })
        (record { some_cap = omega arith; bound = omega arith }) (omega arith) k a

-- ===== src/Prelude/Lists.antt =====
-- Vectors as lists in index order, measured by native numbers, and their ends.
use Prim.Native.Nat.{ℕ, zero, suc, ◌+◌, ◌≤◌, ◌<◌}
use mathlib.Core.Path.{◌≡◌, refl, ap}
use mathlib.Core.List.{List, [], ◌∷◌, ◌++◌, map, reverse, reverse-append}
use mathlib.Core.Option.{Option, none, some}
use native.Mathlib.Omega.{arith}
use quickstructs.Prelude.Tests.{◌==◌, if◌then◌else◌}

-- The next call of a `do` block, where the last one returned.
infixl 5 ◌>>=◌
abbrev pub ◌>>=◌ : {A B : Type 0} → Option A → (A → Option B) → Option B
some a >>= f = f a
none >>= f = none

module _ {ℓ} {A : Type ℓ} where
  abbrev pub length : List A → ℕ
  length [] = 0
  length (x ∷ xs) = suc (length xs)

  abbrev pub get_elem? : List A → ℕ → Option A
  get_elem? [] i = none
  get_elem? (x ∷ xs) zero = some x
  get_elem? (x ∷ xs) (suc i) = get_elem? xs i

  -- A write out of bounds changes nothing.
  abbrev pub set : List A → ℕ → A → List A
  set [] i v = []
  set (x ∷ xs) zero v = v ∷ xs
  set (x ∷ xs) (suc i) v = x ∷ set xs i v

  abbrev pub take : ℕ → List A → List A
  take zero xs = []
  take (suc n) [] = []
  take (suc n) (x ∷ xs) = x ∷ take n xs

  abbrev pub drop : ℕ → List A → List A
  drop zero xs = xs
  drop (suc n) [] = []
  drop (suc n) (x ∷ xs) = drop n xs

  abbrev pub replicate : ℕ → A → List A
  replicate zero a = []
  replicate (suc n) a = a ∷ replicate n a

  -- `back()`, none on an empty vector.
  abbrev pub back? : List A → Option A
  back? [] = none
  back? (x ∷ []) = some x
  back? (x ∷ y ∷ xs) = back? (y ∷ xs)

  -- `pop_back()`
  abbrev pub pop_back : List A → List A
  pop_back [] = []
  pop_back (x ∷ []) = []
  pop_back (x ∷ y ∷ xs) = x ∷ pop_back (y ∷ xs)

  -- An assignment through `back()`.
  abbrev pub set_back : List A → A → List A
  set_back [] v = []
  set_back (x ∷ []) v = v ∷ []
  set_back (x ∷ y ∷ xs) v = x ∷ set_back (y ∷ xs) v

module _ {ℓ} {A : Type ℓ} where
  pub length-append : (xs ys : List A) → length (xs ++ ys) ≡ length xs + length ys
  length-append [] ys = omega arith
  length-append (x ∷ xs) ys = omega (arith, length-append xs ys)

  pub length-reverse : (xs : List A) → length (reverse xs) ≡ length xs
  length-reverse [] = refl
  length-reverse (x ∷ xs) = omega (
    arith,
    ap length (reverse-append (x ∷ []) xs),
    length-append (reverse xs) (x ∷ []),
    length-reverse xs,
  )

  pub back?-concat : (xs : List A) (a : A) → back? (xs ++ (a ∷ [])) ≡ some a
  back?-concat [] a = refl
  back?-concat (x ∷ []) a = refl
  back?-concat (x ∷ y ∷ xs) a = back?-concat (y ∷ xs) a

  pub pop_back-concat : (xs : List A) (a : A) → pop_back (xs ++ (a ∷ [])) ≡ xs
  pop_back-concat [] a = refl
  pop_back-concat (x ∷ []) a = refl
  pop_back-concat (x ∷ y ∷ xs) a = ap (◌∷◌ x) (pop_back-concat (y ∷ xs) a)

  pub set_back-concat : (xs : List A) (a b : A) → set_back (xs ++ (a ∷ [])) b ≡ xs ++ (b ∷ [])
  set_back-concat [] a b = refl
  set_back-concat (x ∷ []) a b = refl
  set_back-concat (x ∷ y ∷ xs) a b = ap (◌∷◌ x) (set_back-concat (y ∷ xs) a b)

  pub reverse-cons : (x : A) (xs : List A) → reverse (x ∷ xs) ≡ reverse xs ++ (x ∷ [])
  reverse-cons x xs = reverse-append (x ∷ []) xs

-- A function changed at one place.
abbrev pub update {ℓ} : {A : Type ℓ} → (ℕ → A) → ℕ → A → ℕ → A
update f i a j = if i == j then a else f j

module _ {ℓ} {A : Type ℓ} where
  pub get_elem?-concat :
      (xs : List A) (a : A) (i : ℕ)
      → get_elem? (xs ++ (a ∷ [])) i ≡ (if length xs == i then some a else get_elem? xs i)
  get_elem?-concat [] a zero = refl
  get_elem?-concat [] a (suc i) = ground arith
  get_elem?-concat (x ∷ xs) a zero = ground arith
  get_elem?-concat (x ∷ xs) a (suc i) = ground (arith, get_elem?-concat xs a i)

  -- A list of options that reads as another list does is a prefix of it.
  pub prefix_of_get_elem? :
      (us : List A) (vs : List (Option A))
      → length vs ≤ length us
      → ((i : ℕ) → i < length vs → get_elem? vs i ≡ some (get_elem? us i))
      → vs ≡ map some (take (length vs) us)
  prefix_of_get_elem? us [] l h = refl
  prefix_of_get_elem? [] (v ∷ vs) l h = absurd (omega arith)
  prefix_of_get_elem? (u ∷ us) (v ∷ vs) l h =
      let e = h 0 (omega arith) in
      let r = prefix_of_get_elem? us vs (omega arith) (λ i b. h (suc i) (omega arith)) in
      ground (arith, e, r)

  pub get_elem?_of_lt : (xs : List A) (i : ℕ) → i < length xs → (a : A) × (get_elem? xs i ≡ some a)
  get_elem?_of_lt [] i h = absurd (omega arith)
  get_elem?_of_lt (x ∷ xs) zero h = (x, refl)
  get_elem?_of_lt (x ∷ xs) (suc i) h = get_elem?_of_lt xs i (omega arith)

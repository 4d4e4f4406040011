-- ===== src/Sums.antt =====
-- Sums over the entries of a list, which count owners, objects and descriptors.
use mathlib.Core.Option.{some-injective}
use quickstructs.Prelude.{
  ℕ, zero, suc, ◌+◌, ◌≤◌, ◌<◌, ◌≡◌, ◌≢◌, refl, ap, none, some, List, [], ◌∷◌, ◌++◌, length,
  get_elem?, set, arith,
}

module _ {A : Type 0} where
  abbrev pub sum_by : (A → ℕ) → List A → ℕ
  sum_by f [] = 0
  sum_by f (x ∷ xs) = f x + sum_by f xs

  pub sum_by-append :
      (f : A → ℕ) (xs : List A) (x : A) → sum_by f (xs ++ x ∷ []) ≡ sum_by f xs + f x
  sum_by-append f [] x = omega arith
  sum_by-append f (y ∷ ys) x = omega (arith, sum_by-append f ys x)

  pub sum_by-set :
      (f : A → ℕ) (xs : List A) (i : ℕ) (x y : A)
      → get_elem? xs i ≡ some x
      → sum_by f (set xs i y) + f x ≡ sum_by f xs + f y
  sum_by-set f [] i x y e = ground arith
  sum_by-set f (z ∷ zs) zero x y e = omega (arith, ap f (some-injective z x e))
  sum_by-set f (z ∷ zs) (suc i) x y e = omega (arith, sum_by-set f zs i x y e)

  pub sum_by_ge :
      (f : A → ℕ) (xs : List A) (i : ℕ) (x : A) → get_elem? xs i ≡ some x → f x ≤ sum_by f xs
  sum_by_ge f [] i x e = ground arith
  sum_by_ge f (z ∷ zs) zero x e = omega (arith, ap f (some-injective z x e))
  sum_by_ge f (z ∷ zs) (suc i) x e = omega (arith, sum_by_ge f zs i x e)

  pub sum_by_le : (f : A → ℕ) → ((x : A) → f x ≤ 1) → (xs : List A) → sum_by f xs ≤ length xs
  sum_by_le f l [] = omega arith
  sum_by_le f l (x ∷ xs) = omega (arith, l x, sum_by_le f l xs)

  pub sum_by_zero :
      (f : A → ℕ) (xs : List A)
      → ((i : ℕ) (x : A) → get_elem? xs i ≡ some x → f x ≡ 0)
      → sum_by f xs ≡ 0
  sum_by_zero f [] h = refl
  sum_by_zero f (x ∷ xs) h = omega (arith, h 0 x refl, sum_by_zero f xs (λ i. h (suc i)))

  pub get_elem?-set-same :
      (xs : List A) (i : ℕ) (x y : A) → get_elem? xs i ≡ some x → get_elem? (set xs i y) i ≡ some y
  get_elem?-set-same [] i x y e = ground arith
  get_elem?-set-same (z ∷ zs) zero x y e = refl
  get_elem?-set-same (z ∷ zs) (suc i) x y e = get_elem?-set-same zs i x y e

  pub get_elem?-set-other :
      (xs : List A) (i j : ℕ) (y : A) → i ≢ j → get_elem? (set xs i y) j ≡ get_elem? xs j
  get_elem?-set-other [] i j y n = refl
  get_elem?-set-other (z ∷ zs) zero zero y n = absurd (n refl)
  get_elem?-set-other (z ∷ zs) zero (suc j) y n = refl
  get_elem?-set-other (z ∷ zs) (suc i) zero y n = refl
  get_elem?-set-other (z ∷ zs) (suc i) (suc j) y n =
      get_elem?-set-other zs i j y (λ e. n (ap suc e))

  pub length-set : (xs : List A) (i : ℕ) (y : A) → length (set xs i y) ≡ length xs
  length-set [] i y = refl
  length-set (z ∷ zs) zero y = refl
  length-set (z ∷ zs) (suc i) y = ap suc (length-set zs i y)

  pub get_elem?_out : (xs : List A) (i : ℕ) → length xs ≤ i → get_elem? xs i ≡ none
  get_elem?_out [] i l = refl
  get_elem?_out (x ∷ xs) zero l = absurd (omega arith)
  get_elem?_out (x ∷ xs) (suc i) l = get_elem?_out xs i (omega arith)

  pub get_elem?_in : (xs : List A) (i : ℕ) (x : A) → get_elem? xs i ≡ some x → i < length xs
  get_elem?_in [] i x e = ground arith
  get_elem?_in (y ∷ ys) zero x e = omega arith
  get_elem?_in (y ∷ ys) (suc i) x e = omega (arith, get_elem?_in ys i x e)

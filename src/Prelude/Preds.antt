-- ===== src/Prelude/Preds.antt =====
-- Predicates on lists by recursion, which the tactics read and build.
use mathlib.Core.List.{List, [], ◌∷◌, ◌++◌, reverse}
use quickstructs.Prelude.Lists.{reverse-cons}

abbrev pub All {ℓ κ} : {A : Type ℓ} → (A → Type κ) → List A → Type κ
All P [] = Unit
All P (x ∷ xs) = P x × All P xs

-- Every earlier element stands in `R` to every later one.
abbrev pub AllPairs {ℓ κ} : {A : Type ℓ} → (A → A → Type κ) → List A → Type κ
AllPairs R [] = Unit
AllPairs R (x ∷ xs) = All (R x) xs × AllPairs R xs

module _ {ℓ κ} {A : Type ℓ} (P : A → Type κ) where
  pub All-append : (xs ys : List A) → All P xs → All P ys → All P (xs ++ ys)
  All-append [] ys hx hy = hy
  All-append (x ∷ xs) ys hx hy = (hx.0, All-append xs ys hx.1 hy)

  pub All-append_left : (xs ys : List A) → All P (xs ++ ys) → All P xs
  All-append_left [] ys h = tt
  All-append_left (x ∷ xs) ys h = (h.0, All-append_left xs ys h.1)

  pub All-append_right : (xs ys : List A) → All P (xs ++ ys) → All P ys
  All-append_right [] ys h = h
  All-append_right (x ∷ xs) ys h = All-append_right xs ys h.1

  pub All-reverse : (xs : List A) → All P xs → All P (reverse xs)
  All-reverse [] h = tt
  All-reverse (x ∷ xs) h =
      rw reverse-cons (All-append (reverse xs) (x ∷ []) (All-reverse xs h.1) (h.0, tt))

pub All-map {ℓ κ μ} :
    {A : Type ℓ} (P : A → Type κ) (Q : A → Type μ) (f : (x : A) → P x → Q x) (xs : List A)
    → All P xs
    → All Q xs
All-map P Q f [] h = tt
All-map P Q f (x ∷ xs) h = (f x h.0, All-map P Q f xs h.1)

module _ {ℓ κ} {A : Type ℓ} (R : A → A → Type κ) where
  pub AllPairs-append :
      (xs ys : List A)
      → AllPairs R xs
      → AllPairs R ys
      → All (λ x. All (R x) ys) xs
      → AllPairs R (xs ++ ys)
  AllPairs-append [] ys hx hy c = hy
  AllPairs-append (x ∷ xs) ys hx hy c =
      (All-append (R x) xs ys hx.0 c.0, AllPairs-append xs ys hx.1 hy c.1)

  pub AllPairs-append_left : (xs ys : List A) → AllPairs R (xs ++ ys) → AllPairs R xs
  AllPairs-append_left [] ys h = tt
  AllPairs-append_left (x ∷ xs) ys h =
      (All-append_left (R x) xs ys h.0, AllPairs-append_left xs ys h.1)

  pub AllPairs-append_right : (xs ys : List A) → AllPairs R (xs ++ ys) → AllPairs R ys
  AllPairs-append_right [] ys h = h
  AllPairs-append_right (x ∷ xs) ys h = AllPairs-append_right xs ys h.1

  pub AllPairs-append_cross : (xs ys : List A) → AllPairs R (xs ++ ys) → All (λ x. All (R x) ys) xs
  AllPairs-append_cross [] ys h = tt
  AllPairs-append_cross (x ∷ xs) ys h =
      (All-append_right (R x) xs ys h.0, AllPairs-append_cross xs ys h.1)

pub AllPairs-map {ℓ κ μ} :
    {A : Type ℓ} (R : A → A → Type κ) (S : A → A → Type μ) (f : (x y : A) → R x y → S x y)
    (xs : List A)
    → AllPairs R xs
    → AllPairs S xs
AllPairs-map R S f [] h = tt
AllPairs-map R S f (x ∷ xs) h = (All-map (R x) (S x) (f x) xs h.0, AllPairs-map R S f xs h.1)

pub AllPairs-reverse {ℓ κ} :
    {A : Type ℓ} (R : A → A → Type κ) (xs : List A)
    → AllPairs R xs
    → AllPairs (λ x y. R y x) (reverse xs)
AllPairs-reverse R [] h = tt
AllPairs-reverse R (x ∷ xs) h = rw reverse-cons (
    AllPairs-append (λ x y. R y x) (reverse xs) (x ∷ []) (AllPairs-reverse R xs h.1) (tt, tt)
      (All-map (R x) (λ y. All (λ z. R z y) (x ∷ [])) (λ y k. (k, tt)) (reverse xs)
        (All-reverse (R x) xs h.0)))

pub All-zip {ℓ κ μ} :
    {A : Type ℓ} (P : A → Type κ) (Q : A → Type μ) (xs : List A)
    → All P xs
    → All Q xs
    → All (λ x. P x × Q x) xs
All-zip P Q [] h k = tt
All-zip P Q (x ∷ xs) h k = ((h.0, k.0), All-zip P Q xs h.1 k.1)

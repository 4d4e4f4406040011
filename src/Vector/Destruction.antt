-- ===== src/Vector/Destruction.antt =====
-- The destructor.
use native.Mathlib.Nat.{zero-add, suc-add}
use quickstructs.Prelude.{
  ℕ, zero, suc, ◌+◌, ◌≡◌, refl, sym, ap, ap₂, ◌∙◌, Option, none, some, List, [], ◌∷◌, ◌++◌, map,
  length, get_elem?, set, replicate, arith,
}
use quickstructs.Vector.{Vector, done, destroy_n, destroy}
use quickstructs.Vector.Growth.{Holds}

module _ {A : Type 0} where
  -- The element behind `k` entries that are destroyed.
  get_behind :
      (k : ℕ) (x : A) (rest : List (Option A))
      → get_elem? (replicate k none ++ some x ∷ rest) k ≡ some (some x)
  get_behind zero x rest = refl
  get_behind (suc k) x rest = get_behind k x rest

  set_behind :
      (k : ℕ) (x : A) (rest : List (Option A))
      → set (replicate k none ++ some x ∷ rest) k none ≡ replicate (suc k) none ++ rest
  set_behind zero x rest = refl
  set_behind (suc k) x rest = ap (◌∷◌ none) (set_behind k x rest)

  replicate_add :
      (k r : ℕ) → replicate {A = Option A} k none ++ replicate r none ≡ replicate (k + r) none
  replicate_add zero r = ap (λ n. replicate n none) (sym (zero-add r))
  replicate_add (suc k) r =
      ap (◌∷◌ none) (replicate_add k r) ∙ ap (λ n. replicate n none) (sym (suc-add k r))

  destroy_n_lem :
      (xs : List A) (k r : ℕ)
      → destroy_n (replicate k none ++ (map some xs ++ replicate r none)) k (length xs)
        ≡ done (replicate (k + (length xs + r)) none)
  unfolding destroy_n
  destroy_n_lem [] k r = ap done (
      replicate_add k r
      ∙ ap (λ n. replicate n none) (let e : k + r ≡ k + (0 + r) = omega arith in e))
  destroy_n_lem (x ∷ xs) k r =
      rw
        (
          get_behind k x (map some xs ++ replicate r none),
          destroy_n,
          set_behind k x (map some xs ++ replicate r none),
        )
        (ap
            (λ i.
              destroy_n (replicate (suc k) none ++ (map some xs ++ replicate r none)) i (length xs))
            (let e : k + 1 ≡ suc k = omega arith in e)
          ∙ destroy_n_lem xs (suc k) r
          ∙ ap (λ n. done (replicate n none))
              (let e : suc k + (length xs + r) ≡ k + (suc (length xs) + r) = omega arith in e))

  -- The destructor of a vector that holds elements destroys each of them once and touches nothing else:
  -- the whole capacity is raw storage then.
  pub destroy-raw :
      (v : Vector A) (xs : List A) → Holds v xs → destroy v ≡ done (replicate v.cap none)
  unfolding destroy
  destroy-raw v xs h =
      ap₂ (λ a n. destroy_n a 0 n) h.arr_is h.size_is
      ∙ destroy_n_lem xs 0 h.room
      ∙ ap (λ n. done (replicate n none))
          (let e : 0 + (length xs + h.room) ≡ v.cap = omega (arith, h.cap_is) in e)

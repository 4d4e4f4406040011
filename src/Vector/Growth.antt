-- ===== src/Vector/Growth.antt =====
-- Reallocation moves every element, or leaves the vector as it was.
use native.Mathlib.Nat.{zero-add, suc-add}
use quickstructs.Prelude.{
  ℕ, zero, suc, ◌+◌, ◌-◌, ◌≤◌, ◌<◌, ◌≡◌, refl, sym, ap, ap₂, ◌∙◌, Bool, true, false, ◌||◌, Option,
  none, some, List, [], ◌∷◌, ◌++◌, append_assoc, append-nil, map, length, length-append, get_elem?,
  set, replicate, if◌then◌else◌, arith, Bool-cases, inl, inr, lt→ltb, subst,
}
use quickstructs.Vector.{
  Vector, Outcome, done, threw, fault, move_all, finish_growth, grow_capacity,
}

-- `v` holds the elements `xs`: they are alive at the front of the storage, the rest of it is raw, and
-- the capacity is the size of the storage.
pub record Holds {A : Type 0} (v : Vector A) (xs : List A) : Type 0 where
  pub room : ℕ
  pub size_is : v.size ≡ length xs
  pub cap_is : v.cap ≡ length xs + room
  pub arr_is : v.arr ≡ map some xs ++ replicate room none

module _ {A : Type 0} where
  pub length-storage :
      (xs : List A) (r : ℕ) → length (map some xs ++ replicate r none) ≡ length xs + r
  length-storage [] zero = omega arith
  length-storage [] (suc r) = omega (arith, length-storage [] r)
  length-storage (x ∷ xs) r = omega (arith, length-storage xs r)

  -- The element at the border is read and written at its index.
  pub get_border :
      (ys : List A) (z : A) (rest : List (Option A))
      → get_elem? (map some ys ++ some z ∷ rest) (length ys) ≡ some (some z)
  get_border [] z rest = refl
  get_border (y ∷ ys) z rest = get_border ys z rest

  pub set_border :
      (ys : List A) (o p : Option A) (rest : List (Option A))
      → set (map some ys ++ o ∷ rest) (length ys) p ≡ map some ys ++ p ∷ rest
  set_border [] o p rest = refl
  set_border (y ∷ ys) o p rest = ap (◌∷◌ (some y)) (set_border ys o p rest)

  pub map-some-concat :
      (ys : List A) (z : A) (rest : List (Option A))
      → map some (ys ++ z ∷ []) ++ rest ≡ map some ys ++ some z ∷ rest
  map-some-concat [] z rest = refl
  map-some-concat (y ∷ ys) z rest = ap (◌∷◌ (some y)) (map-some-concat ys z rest)

  module _ (throws : A → Bool) where
    abbrev pub any_throws : List A → Bool
    any_throws [] = false
    any_throws (x ∷ xs) = throws x || any_throws xs

    -- What the loop makes of storage with room for all: everything is there, or it threw.
    abbrev AllMoved : Bool → List (Option A) → Outcome (List (Option A)) → Type 0
    AllMoved b new (done s) = (b ≡ false) × (s ≡ new)
    AllMoved b new (threw s) = b ≡ true
    AllMoved b new fault = ⊥

    move_step :
        (new old : List (Option A)) (i n : ℕ) (z : A)
        → get_elem? old i ≡ some (some z)
        → i < length new
        → move_all throws new old i (suc n)
          ≡ (if throws z then threw new else move_all throws (set new i (some z)) old (i + 1) n)
    unfolding move_all
    move_step new old i n z e l = elim (Bool-cases (throws z)) [
      | inl t ↦ rw (t, e, move_all, lt→ltb i (length new) l, t)
      | inr t ↦ rw (t, e, move_all, lt→ltb i (length new) l, t)
    ]

    -- The step in terms of the elements: `ys` are moved, `z` comes next.
    move_next :
        (ys zs : List A) (z : A) (rest : List (Option A)) (r : ℕ)
        → move_all throws
            (map some ys ++ replicate (suc (length zs) + r) none)
            (map some ys ++ some z ∷ (map some zs ++ rest))
            (length ys)
            (suc (length zs))
          ≡ (if throws z
              then threw (map some ys ++ replicate (suc (length zs) + r) none)
              else move_all throws
                  (map some (ys ++ z ∷ []) ++ replicate (length zs + r) none)
                  (map some (ys ++ z ∷ []) ++ (map some zs ++ rest))
                  (length (ys ++ z ∷ []))
                  (length zs))
    move_next ys zs z rest r =
        move_step _ _ (length ys) (length zs) z (get_border ys z (map some zs ++ rest))
          (omega (arith, length-storage ys (suc (length zs) + r)))
        ∙ ap
            (λ m.
              if throws z then threw (map some ys ++ replicate (suc (length zs) + r) none) else m)
            (ap₂
                (λ a b.
                  move_all throws a (map some ys ++ some z ∷ (map some zs ++ rest)) b (length zs))
                stored next
              ∙ ap
                  (λ a.
                    move_all throws (map some (ys ++ z ∷ []) ++ replicate (length zs + r) none) a
                      (length (ys ++ z ∷ [])) (length zs))
                  (sym (map-some-concat ys z (map some zs ++ rest))))
      where
        stored :
            set (map some ys ++ replicate (suc (length zs) + r) none) (length ys) (some z)
            ≡ map some (ys ++ z ∷ []) ++ replicate (length zs + r) none
        stored =
            ap (λ k. set (map some ys ++ replicate k none) (length ys) (some z))
              (suc-add (length zs) r)
            ∙ set_border ys none (some z) (replicate (length zs + r) none)
            ∙ sym (map-some-concat ys z (replicate (length zs + r) none))

        next : length ys + 1 ≡ length (ys ++ z ∷ [])
        next = sym (length-append ys (z ∷ []))

    move_all-AllMoved :
        (zs ys : List A) (rest : List (Option A)) (r : ℕ)
        → AllMoved (any_throws zs) (map some (ys ++ zs) ++ replicate r none) (
            move_all throws
              (map some ys ++ replicate (length zs + r) none)
              (map some ys ++ (map some zs ++ rest))
              (length ys)
              (length zs))
    move_all-AllMoved [] ys rest r =
        unfold move_all in
        (
          refl,
          ap₂ (λ (a : List A) k. map some a ++ replicate k none) (sym (append-nil ys)) (zero-add r),
        )
    move_all-AllMoved (z ∷ zs) ys rest r = rw move_next (elim (Bool-cases (throws z)) [
      | inl t ↦ rw t refl
      | inr t ↦ rw t (
          subst
            (λ (a : List A). AllMoved (any_throws zs) (map some a ++ replicate r none) (
              move_all throws (map some (ys ++ z ∷ []) ++ replicate (length zs + r) none)
                (map some (ys ++ z ∷ []) ++ (map some zs ++ rest)) (length (ys ++ z ∷ []))
                (length zs)))
            (append_assoc ys (z ∷ []) zs) (move_all-AllMoved zs (ys ++ z ∷ []) rest r))
    ])

    -- What a reallocation leaves: all elements in storage of the new capacity, or the old vector.
    abbrev pub Grown : Vector A → List A → ℕ → Outcome (Vector A) → Type 0
    Grown v xs new_cap (done w) = Holds w xs × (w.cap ≡ new_cap) × (any_throws xs ≡ false)
    Grown v xs new_cap (threw w) = (w ≡ v) × (any_throws xs ≡ true)
    Grown v xs new_cap fault = ⊥

    finish_growth-Grown :
        (v : Vector A) (xs : List A) (r : ℕ) (out : Outcome (List (Option A)))
        → v.size ≡ length xs
        → AllMoved (any_throws xs) (map some xs ++ replicate r none) out
        → Grown v xs (length xs + r) (finish_growth throws v (length xs + r) out)
    finish_growth-Grown v xs r (done new) e h =
        (record { room = r; size_is = e; cap_is = refl; arr_is = h.1 }, refl, h.0)
    finish_growth-Grown v xs r (threw new) e h = (refl, h)
    finish_growth-Grown v xs r fault e h = h

    pub grow_capacity-Grown :
        (v : Vector A) (xs : List A) (new_cap : ℕ)
        → Holds v xs
        → length xs ≤ new_cap
        → Grown v xs new_cap (grow_capacity throws v new_cap)
    unfolding grow_capacity
    grow_capacity-Grown v xs new_cap h l =
        let e : new_cap ≡ length xs + (new_cap - length xs) = omega arith in
        rw e (
          simp (h.arr_is, h.size_is)
            (finish_growth-Grown v xs (new_cap - length xs) _ h.size_is
              (move_all-AllMoved xs [] (replicate h.room none) (new_cap - length xs))))

-- ===== src/Any/Lifetime.antt =====
-- The object from its construction to its destruction.
use quickstructs.Prelude.{
  ℕ, ◌+◌, ◌≡◌, refl, sym, ap, subst, ◌∙◌, Bool, true, false, Option, none, some, List, [], ◌∷◌,
  ◌++◌, length, get_elem?, set, append-nil, arith,
}
use quickstructs.Sums.{sum_by, sum_by-append}
use quickstructs.Any.{
  Any, Outcome, done, bad_cast, fault, make_default, make_value, free, destroy, any_cast, read,
  entry,
}

module _ {A : Type 0} where
  get_last :
      (x : Option A) (heap : List (Option A)) → get_elem? (heap ++ x ∷ []) (length heap) ≡ some x
  get_last x [] = refl
  get_last x (h ∷ hs) = get_last x hs

  set_last :
      (x y : Option A) (heap : List (Option A))
      → set (heap ++ x ∷ []) (length heap) y ≡ heap ++ y ∷ []
  set_last x y [] = refl
  set_last x y (h ∷ hs) = ap (◌∷◌ h) (set_last x y hs)

  -- The objects that are alive, in the storage and on the heap.
  abbrev pub in_slot : Option A → ℕ
  in_slot none = 0
  in_slot (some x) = 1

  abbrev pub objects : Any A → List (Option A) → ℕ
  objects a heap = in_slot a.storage + sum_by in_slot heap

  -- What the destructor of an object that was made on `heap` leaves: what was alive before the object
  -- was made, with every entry of `heap` as it was, and nothing that it could destroy again.
  abbrev pub Destroyed : List (Option A) → Outcome (Any A × List (Option A)) → Type 0
  Destroyed heap bad_cast = ⊥
  Destroyed heap fault = ⊥
  Destroyed heap (done (a, heap')) =
      (objects a heap' ≡ sum_by in_slot heap)
      × ((rest : List (Option A)) × (heap' ≡ heap ++ rest))
      × (destroy a heap' ≡ fault)

  destroy_made :
      (x : A) (heap : List (Option A))
      → destroy (make_value false x heap).0 (make_value false x heap).1
        ≡ done ((make_value false x heap).0, heap ++ none ∷ [])
  unfolding make_value destroy
  destroy_made x heap =
      ap (λ o. free (make_value false x heap).0 (length heap) o (heap ++ some x ∷ []))
        (get_last (some x) heap)
      ∙ ap (λ h. done ((make_value false x heap).0, h)) (set_last (some x) none heap)

  destroy_again :
      (x : A) (heap : List (Option A))
      → destroy (make_value false x heap).0 (heap ++ none ∷ []) ≡ fault
  unfolding make_value destroy
  destroy_again x heap =
      ap (λ o. free (make_value false x heap).0 (length heap) o (heap ++ none ∷ []))
        (get_last none heap)

  -- Making an object from a value, in the storage or on the heap, makes one object alive. It is cast to
  -- its own type as the value, and to any other type throws. The destructor destroys this object, in
  -- the storage as on the heap, and no other one.
  pub make_value-any_cast :
      (small : Bool) (x : A) (heap : List (Option A))
      → let (a, heap') = make_value small x heap in
        (objects a heap' ≡ sum_by in_slot heap + 1)
        × (any_cast true a heap' ≡ done x)
        × (any_cast false a heap' ≡ bad_cast)
        × Destroyed heap (destroy a heap')
  unfolding make_value any_cast destroy
  make_value-any_cast true x heap =
      (omega arith, refl, refl, (omega arith, ([], sym (append-nil heap)), refl))
  make_value-any_cast false x heap = (
    omega (arith, sum_by-append in_slot heap (some x)),
    ap (λ o. read (entry o)) (get_last (some x) heap),
    refl,
    subst (Destroyed heap) (sym (destroy_made x heap))
        (omega (arith, sum_by-append in_slot heap none), (none ∷ [], refl), destroy_again x heap),
  )

  -- The destructor of a default-constructed object destroys an object that was never constructed.
  pub make_default-destroy : (heap : List (Option A)) → destroy make_default heap ≡ fault
  unfolding destroy
  make_default-destroy heap = refl

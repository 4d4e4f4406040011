-- ===== src/Vector/Pushes.antt =====
-- The operations on a vector that holds a list of elements, against that list.
use mathlib.Core.Option
use quickstructs.Prelude.{
  ℕ, zero, suc, ◌-◌, ◌*◌, ◌^◌, ◌≤◌, ◌<◌, ◌≡◌, refl, sym, ap, ap₂, ◌∙◌, subst, Bool, true, false,
  ◌||◌, none, some, List, [], ◌∷◌, ◌++◌, map, length, length-append, get_elem?, set, replicate, ltb,
  leb, ◌==◌, lt→ltb, get_elem?_of_lt, arith, Bool-cases, inl, inr,
}
use quickstructs.Vector.{
  Vector, Outcome, done, threw, fault, ◌>>=◌, construct_at, grow_capacity, triple, grow_if_one,
  grow_if_full, finish_append, append_element, push_back, shrink_to_fit, at, make_sized, make_empty,
  allocate,
}
use quickstructs.Vector as V
use quickstructs.Vector.Growth.{
  Holds, any_throws, Grown, grow_capacity-Grown, length-storage, set_border, map-some-concat,
}

module _ {A : Type 0} (throws : A → Bool) where
  -- Whatever an exception leaves, it left the elements alone.
  abbrev pub Keeps : List A → (Vector A → Type 0) → Outcome (Vector A) → Type 0
  Keeps xs P (done w) = Holds w xs × P w
  Keeps xs P (threw w) = Holds w xs × (any_throws throws xs ≡ true)
  Keeps xs P fault = ⊥

  pub Grown-Keeps :
      (v : Vector A) (xs : List A) (n : ℕ) (P : Vector A → Type 0) (out : Outcome (Vector A))
      → Holds v xs
      → ((w : Vector A) → w.cap ≡ n → P w)
      → Grown throws v xs n out
      → Keeps xs P out
  Grown-Keeps v xs n P (done w) h p g = (g.0, p w g.1)
  Grown-Keeps v xs n P (threw w) h p g = (subst (λ u. Holds u xs) (sym g.0) h, g.1)
  Grown-Keeps v xs n P fault h p g = g

  pub Keeps-bind :
      (xs : List A) (P Q : Vector A → Type 0) (m : Outcome (Vector A))
      (f : Vector A → Outcome (Vector A))
      → Keeps xs P m
      → ((w : Vector A) → Holds w xs → P w → Keeps xs Q (f w))
      → Keeps xs Q (m >>= f)
  Keeps-bind xs P Q (done w) f k next = next w k.0 k.1
  Keeps-bind xs P Q (threw w) f k next = k
  Keeps-bind xs P Q fault f k next = k

  -- A capacity that can be tripled.
  record IsSmall (w : Vector A) : Type 0 where
    some_cap : 0 < w.cap
    fits : w.cap * 3 < 2 ^ 64

  abbrev pub HasRoom : List A → Vector A → Type 0
  HasRoom xs w = length xs < w.cap

  grow_if_one-Keeps :
      (v : Vector A) (xs : List A)
      → Holds v xs
      → IsSmall v
      → Keeps xs IsSmall (grow_if_one throws v)
  grow_if_one-Keeps v xs h s = elim (Bool-cases (v.cap == 1)) [
    | inr e ↦ rw e (h, s)
    | inl e ↦
        let one : v.cap ≡ 1 = ground arith in
        rw e (
          Grown-Keeps v xs (triple throws v.cap) IsSmall _ h (λ w c. omega (arith, one, c))
            (grow_capacity-Grown throws v xs (triple throws v.cap) h
              (omega (arith, h.cap_is, one))))
  ]

  grow_if_full-Keeps :
      (v : Vector A) (xs : List A)
      → Holds v xs
      → IsSmall v
      → Keeps xs (HasRoom xs) (grow_if_full throws v)
  grow_if_full-Keeps v xs h s = elim (Bool-cases (leb v.cap v.size)) [
    | inr e ↦ rw e (h, ground (arith, h.size_is))
    | inl e ↦ rw e (
        Grown-Keeps v xs (triple throws v.cap) (HasRoom xs) _ h
          (λ w c. omega (arith, s, h.cap_is, h.size_is, c, full v h.size_is e))
          (grow_capacity-Grown throws v xs (triple throws v.cap) h (omega (arith, s, h.cap_is))))
  ]
    where
      full : (u : Vector A) → u.size ≡ length xs → leb u.cap u.size ≡ true → u.cap ≤ length xs
      full u a b = ground arith

  -- What `push_back` leaves: the element is behind the others, or a construction threw and the
  -- elements are as before.
  abbrev pub Pushed : List A → A → Outcome (Vector A) → Type 0
  Pushed xs x (done w) = Holds w (xs ++ x ∷ [])
  Pushed xs x (threw w) = Holds w xs × ((any_throws throws xs || throws x) ≡ true)
  Pushed xs x fault = ⊥

  pub append_element-Pushed :
      (v : Vector A) (xs : List A) (x : A)
      → Holds v xs
      → HasRoom xs v
      → Pushed xs x (append_element throws x v)
  append_element-Pushed v xs x h room =
      let in_range =
        lt→ltb v.size (length v.arr)
          (omega (arith, h.size_is, h.cap_is, ap length h.arr_is, length-storage xs h.room)) in
      elim (Bool-cases (throws x)) [
        | inl t ↦ rw (in_range, t) (h, ground arith)
        | inr t ↦
            rw (in_range, t)
              (record {
                room = h.room - 1;
                size_is = omega (arith, h.size_is, length-append xs (x ∷ []));
                cap_is = omega (arith, h.cap_is, length-append xs (x ∷ []));
                arr_is = stored;
              })
      ]
    where
      one_less : h.room ≡ suc (h.room - 1)
      one_less = omega (arith, h.cap_is)

      stored : set v.arr v.size (some x) ≡ map some (xs ++ x ∷ []) ++ replicate (h.room - 1) none
      stored =
          ap₂ (λ a i. set a i (some x))
            (h.arr_is ∙ ap (λ r. map some xs ++ replicate r none) one_less) h.size_is
          ∙ set_border xs none (some x) (replicate (h.room - 1) none)
          ∙ sym (map-some-concat xs x (replicate (h.room - 1) none))

  push_last :
      (xs : List A) (x : A) (m : Outcome (Vector A))
      → Keeps xs (HasRoom xs) m
      → Pushed xs x (m >>= append_element throws x)
  push_last xs x (done w) k = append_element-Pushed w xs x k.0 k.1
  push_last xs x (threw w) k = (k.0, ground (arith, k.1))
  push_last xs x fault k = k

  -- On a vector that holds `xs`, with a capacity that is not 0 and can be tripled, `push_back` does
  -- nothing undefined: it returns a vector that holds `xs` with `x` behind, or an exception of one of
  -- the constructors it calls leaves the vector with `xs`.
  pub push_back-Pushed :
      (v : Vector A) (xs : List A) (x : A)
      → Holds v xs
      → 0 < v.cap
      → v.cap * 3 < 2 ^ 64
      → Pushed xs x (push_back throws v x)
  unfolding push_back
  push_back-Pushed v xs x h a b = push_last xs x _ (
      Keeps-bind xs IsSmall (HasRoom xs) (grow_if_one throws v) (grow_if_full throws)
        (grow_if_one-Keeps v xs h (record { some_cap = a; fits = b }))
        (λ w k s. grow_if_full-Keeps w xs k s))

  -- `shrink_to_fit` leaves no spare room, and the same elements.
  pub shrink_to_fit-Keeps :
      (v : Vector A) (xs : List A)
      → Holds v xs
      → Keeps xs (λ w. w.cap ≡ length xs) (shrink_to_fit throws v)
  unfolding shrink_to_fit
  shrink_to_fit-Keeps v xs h = elim (Bool-cases (ltb v.size v.cap)) [
    | inl e ↦ rw e (
        Grown-Keeps v xs v.size (λ w. w.cap ≡ length xs) _ h (λ w c. omega (arith, c, h.size_is))
          (grow_capacity-Grown throws v xs v.size h (omega (arith, h.size_is))))
    | inr e ↦ rw e (h, ground (arith, h.size_is, h.cap_is))
  ]

module _ {A : Type 0} where
  get_elem?-storage :
      (xs : List A) (r i : ℕ)
      → i < length xs
      → get_elem? (map some xs ++ replicate r none) i ≡ Option.map some (get_elem? xs i)
  get_elem?-storage [] r i l = absurd (omega arith)
  get_elem?-storage (x ∷ xs) r zero l = refl
  get_elem?-storage (x ∷ xs) r (suc i) l = get_elem?-storage xs r i (omega arith)

  get_elem?_beyond : (xs : List A) (i : ℕ) → length xs ≤ i → get_elem? xs i ≡ none
  get_elem?_beyond [] i l = refl
  get_elem?_beyond (x ∷ xs) zero l = absurd (omega arith)
  get_elem?_beyond (x ∷ xs) (suc i) l = get_elem?_beyond xs i (omega arith)

  -- `at` throws exactly beyond the elements, and else reads the element.
  pub at-get_elem? :
      (v : Vector A) (xs : List A) (i : ℕ)
      → Holds v xs
      → at v i ≡ Option.map (λ x. some (some x)) (get_elem? xs i)
  unfolding at
  at-get_elem? v xs i h = elim (Bool-cases (leb v.size i)) [
    | inl e ↦ rw (e, get_elem?_beyond xs i (ground (arith, h.size_is)))
    | inr e ↦
        let l : i < length xs = ground (arith, h.size_is) in
        let (x, f) = get_elem?_of_lt xs i l in
        rw e (rw (h.arr_is, get_elem?-storage xs h.room i l, f))
  ]

  -- `pop_back` removes the last element, and leaves an empty vector as it is.
  pub pop_back-Holds :
      (v : Vector A) (xs : List A) (x : A) → Holds v (xs ++ x ∷ []) → Holds (V.pop_back v) xs
  unfolding V.pop_back
  pop_back-Holds v xs x h =
      let some_size : v.size ≡ suc (length xs) =
        omega (arith, h.size_is, length-append xs (x ∷ [])) in
      let e : (v.size == 0) ≡ false = ground arith in
      rw e (record {
        room = suc h.room;
        size_is = omega arith;
        cap_is = omega (arith, h.cap_is, length-append xs (x ∷ []));
        arr_is =
            ap₂ (λ a i. set a i none) (h.arr_is ∙ map-some-concat xs x (replicate h.room none))
              (let k : v.size - 1 ≡ length xs = omega arith in k)
            ∙ set_border xs (some x) none (replicate h.room none);
      })

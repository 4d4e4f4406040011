-- ===== src/SpscQueue/Drain.antt =====
-- The destructor destroys every element that is left, and ends.
use native.Mathlib.Nat.{div-add-mod, mod-lt, add-mul-mod_self_left, mod-eq_of_lt, mul-suc}
use native.Mathlib.Decide.{dec_lt}
use quickstructs.Prelude.{
  ℕ, zero, suc, ◌+◌, ◌*◌, ◌/◌, ◌%◌, ◌≤◌, ◌<◌, ◌≡◌, refl, ◌∙◌, ap, subst, true, false, Option, none,
  List, [], ◌∷◌, ◌++◌, length, length-append, get_elem?, arith, Bool-cases, inl, inr, ==_iff,
}
use quickstructs.SpscQueue.{
  Queue, word, inc, capacity, put_slot, waiting, resting, moved, empty, drain, Stores, store_tail,
}
use quickstructs.SpscQueue.Views.{IsSeen}
use quickstructs.SpscQueue.Words.{capacity-lt-word}
use quickstructs.SpscQueue.Invariant.{Inv, order, room, with_consumer}
use quickstructs.SpscQueue.Consuming.{destroy-Inv, release-Inv}

-- Every slot has a place in the round that begins at `h`.
round_place : (c h j : ℕ) → j < c → (i : ℕ) × (h ≤ i) × (i < h + c) × (i % c ≡ j)
round_place c h j l = elim (dec_lt j (h % c)) [
  | yes b ↦ (
    j + c * suc (h / c),
    omega (arith, div-add-mod h c, mul-suc c (h / c), mod-lt h pos),
    omega (arith, div-add-mod h c, mul-suc c (h / c)),
    add-mul-mod_self_left j c (suc (h / c)) ∙ mod-eq_of_lt l,
  )
  | no b ↦ (
    j + c * (h / c),
    omega (arith, div-add-mod h c),
    omega (arith, div-add-mod h c),
    add-mul-mod_self_left j c (h / c) ∙ mod-eq_of_lt l,
  )
]
  where
    pos : 0 < c
    pos = omega arith

-- The destructor loads the newest head.
all-IsSeen :
    {k : ℕ} {m : Stores} {n j : ℕ} → IsSeen k m n j → IsSeen k (record m { seen_head = n }) n j
all-IsSeen v = record {
  heads_are = v.heads_are;
  tails_are = v.tails_are;
  head_le = omega arith;
  popped_le = omega (arith, v);
  tail_le = v.tail_le;
  pushed_le = v.pushed_le;
}

module _ {A : Type 0} (k : ℕ) (small : k < 64) where
  -- `empty` compares wrapped counters, and decides whether anything is left.
  empty-eq_lengths :
      {q : Queue A} {m : Stores} {us : List A} {vs : List (Option A)}
      → Inv k q m waiting resting us vs
      → empty q ≡ true
      → length us ≡ length vs
  unfolding empty
  empty-eq_lengths {q} {m} {us} {vs} v e =
      let h : length us % word ≡ length vs % word =
        ground (arith, v.head_is, v.tail_is, ==_iff q.head q.tail) in
      omega (arith, h, order v, room v, capacity-lt-word k small)

  not_empty :
      {q : Queue A} {m : Stores} {us : List A} {vs : List (Option A)}
      → Inv k q m waiting resting us vs
      → empty q ≡ false
      → length vs < length us
  unfolding empty
  not_empty {q} {m} {us} {vs} v e = elim (dec_lt (length vs) (length us)) [
    | yes l ↦ l
    | no l ↦
        let same : length us ≡ length vs = omega (arith, order v) in
        ground (arith, v.head_is, v.tail_is, ==_iff q.head q.tail, ap (λ n. n % word) same)
  ]

  -- One round of the destructor's loop.
  drain_step-Inv :
      {q : Queue A} {m : Stores} {us : List A} {vs : List (Option A)}
      → Inv k q m waiting resting us vs
      → empty q ≡ false
      → Inv k
          (record (put_slot k q q.tail none) { tail = inc q.tail })
          (store_tail (inc q.tail) (record m { seen_head = length us }))
          waiting
          resting
          us
          (vs ++ get_elem? us (length vs) ∷ [])
  drain_step-Inv {q} {m} {us} {vs} v e =
      let n =
        with_consumer v (length us) (moved q.tail (get_elem? us (length vs))) (all-IsSeen v.seen)
          refl (v.tail_is, not_empty v e, refl) in
      release-Inv k small q.tail (get_elem? us (length vs))
        (destroy-Inv k small q.tail (get_elem? us (length vs)) n)

  drained :
      (fuel : ℕ) {q : Queue A} {m : Stores} {us : List A} (vs : List (Option A))
      → Inv k q m waiting resting us vs
      → length us < length vs + fuel
      → (empty (drain k fuel q) ≡ true)
        × ((j : ℕ) → j < capacity k → (drain k fuel q).slots j ≡ none)
  unfolding drain
  drained zero vs v l = absurd (omega (arith, order v))
  drained (suc fuel) {q} {m} {us} vs v l = elim (Bool-cases (empty q)) [
    | inl e ↦
        rw (e, drain)
          (
            e,
            λ j b.
                let (i, above, below, at) = round_place (capacity k) (length us) j b in
                subst (λ n. q.slots n ≡ none) at
                  (v.freed i above (omega (arith, empty-eq_lengths v e))),
          )
    | inr e ↦
        rw (e, drain)
          (drained fuel (vs ++ get_elem? us (length vs) ∷ []) (drain_step-Inv v e)
            (omega (arith, length-append vs (get_elem? us (length vs) ∷ []))))
  ]

  -- On a queue that both threads have left, the loop of the destructor ends within as many rounds as
  -- the capacity, by its own test, and no slot holds an object then.
  pub drain_all :
      {q : Queue A} {m : Stores} {us : List A} {vs : List (Option A)}
      → Inv k q m waiting resting us vs
      → let q' = drain k (suc (capacity k)) q in
        (empty q' ≡ true) × ((j : ℕ) → j < capacity k → q'.slots j ≡ none)
  drain_all {q} {us} {vs} v = drained (suc (capacity k)) vs v (omega (arith, room v))

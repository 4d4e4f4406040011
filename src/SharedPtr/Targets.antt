-- ===== src/SharedPtr/Targets.antt =====
-- What the pointer of a `shared_ptr` stands on, where no object is adopted twice.
use mathlib.Core.Option.{some-injective}
use quickstructs.Prelude.{
  ℕ, ◌+◌, ◌^◌, ◌<◌, ◌≡◌, ◌≤◌, refl, sym, ◌∙◌, subst, Option, none, some, List, [], ◌∷◌, ◌++◌,
  length, get_elem?, ◌==◌, arith, Bool-cases, Option-cases, inl, inr, ◌⊎◌,
}
use native.Mathlib.Decide.{dec_lt}
use quickstructs.SharedPtr.{
  Block, Handle, World, start, null_handle, block_at, set_handle, new_handle, new_block,
  release_held, add_held, construct_null, construct, copy_construct, move_construct, reset,
  reset_to, adopt, copy_from, move_from, copy_assign, move_assign, arrow,
}
use quickstructs.SharedPtr.Pointers.{
  PointsTo, Fits, FitsAfter, FitsStill, set_handle-Fits, new_handle-Fits, release_held-Fits,
  add_held-Fits, new_block-Fits, new-Points,
}
use quickstructs.SharedPtr.Blocks.{held, count_at, deleted, alive}
use quickstructs.SharedPtr.Effects.{block_of_count, held_self}
use quickstructs.SharedPtr.Owners.{IsValid}
use quickstructs.SharedPtr.Runs.{
  Call, null_call, construct_call, copy_call, move_call, reset_call, reset_to_call,
  copy_assign_call, move_assign_call, call, run, AllExist, run-Ran, start-IsValid, all_adopted,
}
use quickstructs.SharedPtr.Given.{all_given, none_deleted}
use quickstructs.Sums.{sum_by_ge}

-- A call goes on behind one that allocates no block.
bind-Fits :
    (objs : List ℕ) (o : Option World) (f : World → Option World)
    → FitsStill objs o
    → ((w : World) → Fits objs w → FitsAfter (f w))
    → FitsAfter (elim o [ some w ↦ f w | none ↦ none ])
bind-Fits objs (some w) f h next = next w h
bind-Fits objs none f h next = tt

still-after : (objs : List ℕ) (o : Option World) → FitsStill objs o → FitsAfter o
still-after objs (some w) h = (objs, h)
still-after objs none h = tt

module _ (objs : List ℕ) (w : World) (f : Fits objs w) where
  construct_null-Fits : FitsAfter (construct_null w)
  construct_null-Fits = (objs, new_handle-Fits objs w null_handle refl f)

  construct-Fits : (obj d : ℕ) → FitsAfter (construct obj d w)
  construct-Fits obj d = (
    objs ++ obj ∷ [],
    new_handle-Fits (objs ++ obj ∷ []) (new_block obj d w) _ (new-Points objs w obj f)
        (new_block-Fits objs w obj d f),
  )

  copy_construct-Fits : (j : ℕ) → FitsAfter (copy_construct j w)
  unfolding copy_construct
  copy_construct-Fits j = elim (Option-cases (get_elem? w.handles j)) [
    | inl n ↦ rw (n, copy_construct) tt
    | inr (h, e) ↦
        rw (e, copy_construct)
          (still-after objs (add_held h.cb (new_handle h w)) (
            add_held-Fits objs (new_handle h w) h.cb
              (new_handle-Fits objs w h (f.handles_fit j h e) f)))
  ]

  move_construct-Fits : (j : ℕ) → FitsAfter (move_construct j w)
  unfolding move_construct
  move_construct-Fits j = elim (Option-cases (get_elem? w.handles j)) [
    | inl n ↦ rw (n, move_construct) tt
    | inr (h, e) ↦
        rw (e, move_construct)
          (
            objs,
            set_handle-Fits objs (new_handle h w) j null_handle refl
                (new_handle-Fits objs w h (f.handles_fit j h e) f),
          )
  ]

  reset-Fits : (i : ℕ) → FitsAfter (reset i w)
  unfolding reset
  reset-Fits i = elim (Option-cases (get_elem? w.handles i)) [
    | inl n ↦ rw (n, reset) tt
    | inr (h, e) ↦
        rw (e, reset)
          (bind-Fits objs (release_held h.cb w) (λ w'. some (set_handle i null_handle w'))
            (release_held-Fits objs w h.cb f)
            (λ w' g. (objs, set_handle-Fits objs w' i null_handle refl g)))
  ]

adopt-Fits :
    (i obj d : ℕ) (objs : List ℕ) (w : World) → Fits objs w → FitsAfter (some (adopt i obj d w))
adopt-Fits i obj d objs w f = elim (Bool-cases (obj == 0)) [
  | inl z ↦ rw z (objs, set_handle-Fits objs w i null_handle refl f)
  | inr n ↦ rw n (
    objs ++ obj ∷ [],
    set_handle-Fits (objs ++ obj ∷ []) (new_block obj d w) i _ (new-Points objs w obj f)
        (new_block-Fits objs w obj d f),
  )
]

copy_from-Fits : (i j : ℕ) (objs : List ℕ) (w : World) → Fits objs w → FitsAfter (copy_from i j w)
unfolding copy_from
copy_from-Fits i j objs w f = elim (Option-cases (get_elem? w.handles j)) [
  | inl n ↦ rw (n, copy_from) tt
  | inr (h, e) ↦
      rw (e, copy_from)
        (still-after objs (add_held h.cb (set_handle i h w)) (
          add_held-Fits objs (set_handle i h w) h.cb
            (set_handle-Fits objs w i h (f.handles_fit j h e) f)))
]

move_from-Fits : (i j : ℕ) (objs : List ℕ) (w : World) → Fits objs w → FitsAfter (move_from i j w)
unfolding move_from
move_from-Fits i j objs w f = elim (Option-cases (get_elem? w.handles j)) [
  | inl n ↦ rw (n, move_from) tt
  | inr (h, e) ↦
      rw (e, move_from)
        (
          objs,
          set_handle-Fits objs (set_handle i h w) j null_handle refl
              (set_handle-Fits objs w i h (f.handles_fit j h e) f),
        )
]

module _ (objs : List ℕ) (w : World) (f : Fits objs w) where
  reset_to-Fits : (i obj d : ℕ) → FitsAfter (reset_to i obj d w)
  unfolding reset_to
  reset_to-Fits i obj d = elim (Option-cases (get_elem? w.handles i)) [
    | inl n ↦ rw (n, reset_to) tt
    | inr (h, e) ↦
        rw (e, reset_to)
          (bind-Fits objs (release_held h.cb w) (λ w'. some (adopt i obj d w'))
            (release_held-Fits objs w h.cb f) (adopt-Fits i obj d objs))
  ]

  copy_assign-Fits : (i j : ℕ) → FitsAfter (copy_assign i j w)
  unfolding copy_assign
  copy_assign-Fits i j = elim (Bool-cases (i == j)) [
    | inl q ↦ rw (q, copy_assign) (objs, f)
    | inr q ↦
        rw (q, copy_assign)
          (elim (Option-cases (get_elem? w.handles i)) [
            | inl n ↦ rw n tt
            | inr (h, e) ↦ rw e (
                bind-Fits objs (release_held h.cb w) (copy_from i j)
                  (release_held-Fits objs w h.cb f) (copy_from-Fits i j objs))
          ])
  ]

  move_assign-Fits : (i j : ℕ) → FitsAfter (move_assign i j w)
  unfolding move_assign
  move_assign-Fits i j = elim (Bool-cases (i == j)) [
    | inl q ↦ rw (q, move_assign) (objs, f)
    | inr q ↦
        rw (q, move_assign)
          (elim (Option-cases (get_elem? w.handles i)) [
            | inl n ↦ rw n tt
            | inr (h, e) ↦ rw e (
                bind-Fits objs (release_held h.cb w) (move_from i j)
                  (release_held-Fits objs w h.cb f) (move_from-Fits i j objs))
          ])
  ]

call-Fits : (c : Call) (objs : List ℕ) (w : World) → Fits objs w → FitsAfter (call c w)
call-Fits null_call objs w f = construct_null-Fits objs w f
call-Fits (construct_call obj d) objs w f = construct-Fits objs w f obj d
call-Fits (copy_call j) objs w f = copy_construct-Fits objs w f j
call-Fits (move_call j) objs w f = move_construct-Fits objs w f j
call-Fits (reset_call i) objs w f = reset-Fits objs w f i
call-Fits (reset_to_call i obj d) objs w f = reset_to-Fits objs w f i obj d
call-Fits (copy_assign_call i j) objs w f = copy_assign-Fits objs w f i j
call-Fits (move_assign_call i j) objs w f = move_assign-Fits objs w f i j

bind_after :
    (o : Option World) (f : World → Option World)
    → FitsAfter o
    → ((objs : List ℕ) (w : World) → Fits objs w → FitsAfter (f w))
    → FitsAfter (elim o [ some w ↦ f w | none ↦ none ])
bind_after (some w) f h next = next h.0 w h.1
bind_after none f h next = tt

run-Fits : (cs : List Call) (objs : List ℕ) (w : World) → Fits objs w → FitsAfter (run cs w)
unfolding run
run-Fits [] objs w f = (objs, f)
run-Fits (c ∷ cs) objs w f = bind_after (call c w) (run cs) (call-Fits c objs w f) (run-Fits cs)

start-Fits : Fits [] start
start-Fits = record {
  size_is = refl;
  blocks_fit = λ b k e. ground (arith, e);
  handles_fit = λ i h e. ground (arith, e);
}

-- What a pointer with this control block stands on: an allocated block that has the object, which no
-- deleter was called with, or nothing.
abbrev pub Target : World → ℕ → Option ℕ → Type 0
Target w obj none = obj ≡ 0
Target w obj (some b) =
    (k : Block) × (block_at b w ≡ some k)
    × (k.obj ≡ obj)
    × (0 < k.count)
    × ((obj ≡ 0) ⊎ ((d : ℕ) → deleted d obj w ≡ 0))

Points-Target :
    (cs : List Call) (objs : List ℕ) (w : World) (obj : ℕ) (c : Option ℕ)
    → ((d p : ℕ) → 0 < p → deleted d p w + alive d p w ≡ all_adopted cs d p)
    → ((p : ℕ) → 0 < p → all_given cs p ≤ 1)
    → Fits objs w
    → IsValid w
    → ((b : ℕ) → held c b ≤ count_at b w)
    → PointsTo objs obj c
    → Target w obj c
Points-Target cs objs w obj none ledger once f v l p = p
Points-Target cs objs w obj (some b) ledger once f v l p =
    let (k, e) = block_of_count b w (omega (arith, l b, held_self b)) in
    let same : k.obj ≡ obj = some-injective _ _ (sym (f.blocks_fit b k e) ∙ p) in
    (
      k,
      e,
      same,
      v.live b k e,
      elim (dec_lt 0 obj) [
        | yes q ↦ inr (
            subst (λ o. (d : ℕ) → deleted d o w ≡ 0) same
              (none_deleted cs w k b e ledger (once k.obj (omega arith)) (omega arith)))
        | no q ↦ inl (omega arith)
      ],
    )

-- After any sequence of calls on objects that exist, in which no object is adopted twice, every
-- `shared_ptr` without a control block is null, and every other one points to the object of its control
-- block, which is allocated and counts it, and no deleter was called with that object.
pub run-Target :
    (cs : List Call)
    → length cs + 1 < 2 ^ 64
    → AllExist cs 0
    → ((p : ℕ) → 0 < p → all_given cs p ≤ 1)
    → (w : World) × (run cs start ≡ some w)
      × ((i : ℕ) (h : Handle) → get_elem? w.handles i ≡ some h → Target w (arrow h) h.cb)
run-Target cs fits e once =
    let r = run-Ran cs start start-IsValid (omega arith) e in
    let (objs, f) = subst FitsAfter r.is (run-Fits cs [] start start-Fits) in
    (
      r.after,
      r.is,
      λ i h g.
          Points-Target cs objs r.after h.obj h.cb (λ d p l. omega (arith, r.ledger d p l)) once f
            r.valid
            (λ b. omega (
              arith,
              r.valid.counted b,
              sum_by_ge (λ (k : Handle). held k.cb b) r.after.handles i h g,
            ))
            (f.handles_fit i h g),
    )

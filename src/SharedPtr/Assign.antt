-- ===== src/SharedPtr/Assign.antt =====
-- The two assignments.
use quickstructs.Prelude.{
  ℕ, ◌+◌, ◌^◌, ◌≤◌, ◌<◌, ◌≡◌, ◌≢◌, refl, ap, ◌∙◌, none, some, length, get_elem?, get_elem?_of_lt,
  set, ◌==◌, arith, Bool-cases, inl, inr,
}
use quickstructs.SharedPtr.{
  Handle, World, set_handle, null_handle, copy_from, move_from, copy_assign, move_assign, add_held,
}
use quickstructs.Sums.{sum_by-set, sum_by_ge, length-set, get_elem?-set-other}
use quickstructs.SharedPtr.Blocks.{count_at, held, Effect, no_object}
use quickstructs.SharedPtr.Effects.{add_held-Effect}
use quickstructs.SharedPtr.Owners.{
  owners, owners_le, IsValid, Returns, release_of_handle, IsValid-Effect,
}

assign_self : (i j : ℕ) (w : World) → IsValid w → Returns no_object (length w.handles) w (some w)
assign_self i j w v = record {
  after = w;
  is = refl;
  valid = v;
  adopted = record { ledger = λ d p p0. omega arith };
  size_is = refl;
}

-- After the reference of handle `i` is given back, the other handles have theirs.
record Freed (i : ℕ) (h : Handle) (w w1 : World) : Type 0 where
  found : get_elem? w.handles i ≡ some h
  counts : (b : ℕ) → count_at b w1 + held h.cb b ≡ owners b w.handles
  handles_are : w1.handles ≡ w.handles

-- What `i` shares after it, for any handle `g` that is at `j` as well.
owners_assigned :
    (i j : ℕ) (h g : Handle) (w w1 : World) (b : ℕ)
    → Freed i h w w1
    → owners b (set w1.handles i g) ≡ count_at b w1 + held g.cb b
owners_assigned i j h g w w1 b r = omega (
  arith,
  r.counts b,
  ap (λ hs. owners b (set hs i g)) r.handles_are,
  sum_by-set (λ k. held k.cb b) w.handles i h g r.found,
)

other_owns :
    (i j : ℕ) (h g : Handle) (w w1 : World) (b : ℕ)
    → Freed i h w w1
    → i ≢ j
    → get_elem? w1.handles j ≡ some g
    → held g.cb b ≤ count_at b w1
other_owns i j h g w w1 b r n e = omega (
  arith,
  owners_assigned i j h null_handle w w1 b r,
  sum_by_ge (λ k. held k.cb b) (set w1.handles i null_handle) j g
      (get_elem?-set-other w1.handles i j null_handle n ∙ e),
)

count_fits :
    (i : ℕ) (h : Handle) (w w1 : World) (b : ℕ) → Freed i h w w1 → count_at b w1 ≤ length w.handles
count_fits i h w w1 b r = omega (arith, r.counts b, owners_le b w.handles)

copy_from_is :
    (i j : ℕ) (g : Handle) (w : World)
    → get_elem? w.handles j ≡ some g
    → copy_from i j w ≡ add_held g.cb (set_handle i g w)
unfolding copy_from
copy_from_is i j g w e = rw (e, copy_from) refl

move_from_is :
    (i j : ℕ) (g : Handle) (w : World)
    → get_elem? w.handles j ≡ some g
    → move_from i j w ≡ some (set_handle j null_handle (set_handle i g w))
unfolding move_from
move_from_is i j g w e = rw (e, move_from) refl

Effect-Freed :
    (i : ℕ) (h : Handle) (w w1 : World)
    → IsValid w
    → get_elem? w.handles i ≡ some h
    → Effect h.cb none no_object w w1
    → Freed i h w w1
Effect-Freed i h w w1 v e f = record {
  found = e;
  counts = λ b. omega (arith, f.counts b, v.counted b);
  handles_are = f.same_handles;
}

copy_from-Returns :
    (i j : ℕ) (h : Handle) (w w1 : World)
    → i ≢ j
    → length w.handles + 1 < 2 ^ 64
    → j < length w.handles
    → Freed i h w w1
    → Effect h.cb none no_object w w1
    → Returns no_object (length w.handles) w (copy_from i j w1)
copy_from-Returns i j h w w1 n fits lj freed f =
    let (g, e1) = get_elem?_of_lt w1.handles j (omega (arith, ap length f.same_handles)) in
    let (w2, a, f2) =
      add_held-Effect g.cb (set_handle i g w1) f.live (λ b. other_owns i j h g w w1 b freed n e1)
        (λ b. omega (arith, count_fits i h w w1 b freed)) in
    record {
      after = w2;
      is = copy_from_is i j g w1 e1 ∙ a;
      valid =
          IsValid-Effect none g.cb no_object (set_handle i g w1) w2 f2
            (λ b. omega (arith, owners_assigned i j h g w w1 b freed));
      adopted = record { ledger = λ d p p0. omega (arith, f.ledger d p p0, f2.ledger d p p0) };
      size_is = ap length f2.same_handles ∙ length-set w1.handles i g ∙ ap length f.same_handles;
    }

move_from-Returns :
    (i j : ℕ) (h : Handle) (w w1 : World)
    → i ≢ j
    → j < length w.handles
    → Freed i h w w1
    → Effect h.cb none no_object w w1
    → Returns no_object (length w.handles) w (move_from i j w1)
move_from-Returns i j h w w1 n lj freed f =
    let (g, e1) = get_elem?_of_lt w1.handles j (omega (arith, ap length f.same_handles)) in
    record {
      after = set_handle j null_handle (set_handle i g w1);
      is = move_from_is i j g w1 e1;
      valid = record {
        counted = λ b. omega (
          arith,
          owners_assigned i j h g w w1 b freed,
          sum_by-set (λ k. held k.cb b) (set w1.handles i g) j g null_handle
              (get_elem?-set-other w1.handles i j g n ∙ e1),
        );
        live = f.live;
      };
      adopted = record { ledger = f.ledger };
      size_is =
          length-set (set w1.handles i g) j null_handle
          ∙ length-set w1.handles i g
          ∙ ap length f.same_handles;
    }

pub copy_assign-Returns :
    (i j : ℕ) (w : World)
    → IsValid w
    → length w.handles + 1 < 2 ^ 64
    → i < length w.handles
    → j < length w.handles
    → Returns no_object (length w.handles) w (copy_assign i j w)
unfolding copy_assign
copy_assign-Returns i j w v fits li lj = elim (Bool-cases (i == j)) [
  | inl q ↦ rw (q, copy_assign) (assign_self i j w v)
  | inr q ↦
      let n : i ≢ j = (λ y. ground (arith, y, q)) in
      let (h, e) = get_elem?_of_lt w.handles i li in
      let (w1, r, f) = release_of_handle w i h v (omega arith) e in
      rw (q, copy_assign, e, r)
        (copy_from-Returns i j h w w1 n fits lj (Effect-Freed i h w w1 v e f) f)
]

pub move_assign-Returns :
    (i j : ℕ) (w : World)
    → IsValid w
    → length w.handles < 2 ^ 64
    → i < length w.handles
    → j < length w.handles
    → Returns no_object (length w.handles) w (move_assign i j w)
unfolding move_assign
move_assign-Returns i j w v fits li lj = elim (Bool-cases (i == j)) [
  | inl q ↦ rw (q, move_assign) (assign_self i j w v)
  | inr q ↦
      let n : i ≢ j = (λ y. ground (arith, y, q)) in
      let (h, e) = get_elem?_of_lt w.handles i li in
      let (w1, r, f) = release_of_handle w i h v fits e in
      rw (q, move_assign, e, r) (move_from-Returns i j h w w1 n lj (Effect-Freed i h w w1 v e f) f)
]

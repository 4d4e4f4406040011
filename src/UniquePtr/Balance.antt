-- ===== src/UniquePtr/Balance.antt =====
-- The account of the objects in a sequence of calls.
use quickstructs.Prelude.{
  ℕ, ◌+◌, ◌<◌, ◌≡◌, ◌≢◌, refl, sym, ◌∙◌, subst, Bool, Option, some, List, [], ◌∷◌, ◌++◌, length,
  length-append, get_elem?, get_elem?_of_lt, get_elem?-concat, set, ◌==◌, arith, Bool-cases, inl,
  inr,
}
use quickstructs.Sums.{
  sum_by, sum_by-append, sum_by-set, length-set, get_elem?-set-other, get_elem?-set-same,
}
use quickstructs.UniquePtr.{UniquePtr, make, move_make, release, reset, move_assign, swap}
use quickstructs.UniquePtr.Ownership.{
  tally, deleted, move_assign-tally, move_make-tally, reset-tally, tally_null,
}
use quickstructs.UniquePtr.Runs.{
  World, Call, make_call, move_make_call, release_call, reset_call, move_assign_call, swap_call,
  with_pointer, with_two, make_at, move_make_at, release_at, reset_at, move_assign_at, swap_at,
  call, run, grows, Exist, AllExist, empty,
}

module _ {D : Type 0} where
  with_pointer-some :
      (i : ℕ) (w : World D) (f : UniquePtr D → World D) (u : UniquePtr D)
      → get_elem? w.pointers i ≡ some u
      → with_pointer i w f ≡ some (f u)
  with_pointer-some i w f u e = rw (e, with_pointer) refl

  with_two-some :
      (i j : ℕ) (w : World D) (f : UniquePtr D → UniquePtr D → World D) (u v : UniquePtr D)
      → get_elem? w.pointers i ≡ some u
      → get_elem? w.pointers j ≡ some v
      → with_two i j w f ≡ some (f u v)
  with_two-some i j w f u v e h = rw (e, with_two) (with_pointer-some j w (f u) v h)

module _ {D : Type 0} (is_it : D → Bool) where
  -- How often the object `p` is with a pointer, was deleted, or was released, with this deleter.
  abbrev pub accounted : ℕ → World D → ℕ
  accounted p w =
      sum_by (tally is_it p) w.pointers + deleted is_it p w.log + deleted is_it p w.released

  -- The call returns, leaves `size` pointers, and accounts for what it was given.
  pub record Accounts (size : ℕ) (w : World D) (out : Option (World D)) : Type 0 where
    pub after : World D
    pub is : out ≡ some after
    pub size_is : length after.pointers ≡ size
    pub balance :
        (p : ℕ)
        → 0 < p
        → accounted p after + deleted is_it p w.given ≡ accounted p w + deleted is_it p after.given

  make-Accounts :
      (p : ℕ) (d : D) (w : World D) → Accounts (length w.pointers + 1) w (some (make_at p d w))
  make-Accounts p d w = record {
    after = make_at p d w;
    is = refl;
    size_is = length-append w.pointers (make p d ∷ []);
    balance = λ q l. omega (arith, sum_by-append (tally is_it q) w.pointers (make p d));
  }

  move_make-Accounts :
      (j : ℕ) (w : World D)
      → j < length w.pointers
      → Accounts (length w.pointers + 1) w (with_pointer j w (move_make_at j w))
  unfolding move_make
  move_make-Accounts j w l =
      let (u, e) = get_elem?_of_lt w.pointers j l in
      let m = move_make u in
      let inside : get_elem? (w.pointers ++ m.0 ∷ []) j ≡ some u =
        ground (arith, get_elem?-concat w.pointers m.0 j, e) in
      record {
        after = move_make_at j w u;
        is = with_pointer-some j w (move_make_at j w) u e;
        size_is = length-set (w.pointers ++ m.0 ∷ []) j m.1 ∙ length-append w.pointers (m.0 ∷ []);
        balance = λ q l. omega (
          arith,
          sum_by-append (tally is_it q) w.pointers m.0,
          sum_by-set (tally is_it q) (w.pointers ++ m.0 ∷ []) j u m.1 inside,
          (move_make-tally is_it u q l).0,
          (move_make-tally is_it u q l).1,
        );
      }

  release-Accounts :
      (i : ℕ) (w : World D)
      → i < length w.pointers
      → Accounts (length w.pointers) w (with_pointer i w (release_at i w))
  unfolding release
  release-Accounts i w l =
      let (u, e) = get_elem?_of_lt w.pointers i l in
      record {
        after = release_at i w u;
        is = with_pointer-some i w (release_at i w) u e;
        size_is = length-set w.pointers i (release u).1;
        balance = λ q l. omega (
          arith,
          sum_by-set (tally is_it q) w.pointers i u (release u).1 e,
          tally_null is_it u.deleter q l,
        );
      }

  reset-Accounts :
      (i p : ℕ) (w : World D)
      → i < length w.pointers
      → Accounts (length w.pointers) w (with_pointer i w (reset_at i p w))
  reset-Accounts i p w l =
      let (u, e) = get_elem?_of_lt w.pointers i l in
      record {
        after = reset_at i p w u;
        is = with_pointer-some i w (reset_at i p w) u e;
        size_is = length-set w.pointers i (reset u p w.log).0;
        balance = λ q l. omega (
          arith,
          sum_by-set (tally is_it q) w.pointers i u (reset u p w.log).0 e,
          reset-tally is_it u p q w.log l,
        );
      }

  -- The sum over the pointers when two different ones are replaced.
  sum_two :
      (f : UniquePtr D → ℕ) (us : List (UniquePtr D)) (i j : ℕ) (u v u' v' : UniquePtr D)
      → i ≢ j
      → get_elem? us i ≡ some u
      → get_elem? us j ≡ some v
      → sum_by f (set (set us i u') j v') + f u + f v ≡ sum_by f us + f u' + f v'
  sum_two f us i j u v u' v' n e h = omega (
    arith,
    sum_by-set f us i u u' e,
    sum_by-set f (set us i u') j v v' (get_elem?-set-other us i j u' n ∙ h),
  )

  length_two :
      (us : List (UniquePtr D)) (i j : ℕ) (u v : UniquePtr D)
      → length (set (set us i u) j v) ≡ length us
  length_two us i j u v = length-set (set us i u) j v ∙ length-set us i u

  move_assign-Accounts :
      (i j : ℕ) (w : World D)
      → i < length w.pointers
      → j < length w.pointers
      → Accounts (length w.pointers) w (with_two i j w (move_assign_at i j w))
  move_assign-Accounts i j w li lj =
      let (u, e) = get_elem?_of_lt w.pointers i li in
      let (v, h) = get_elem?_of_lt w.pointers j lj in
      let m = move_assign u v w.log in
      let is = with_two-some i j w (move_assign_at i j w) u v e h in
      elim (Bool-cases (i == j)) [
        | inl q ↦ record { after = w; is = is ∙ rw q refl; size_is = refl; balance = λ p l. refl }
        | inr q ↦ record {
          after = record w { pointers = set (set w.pointers i m.0) j m.1; log = m.2 };
          is = is ∙ rw q refl;
          size_is = length_two w.pointers i j m.0 m.1;
          balance = λ p l. omega (
            arith,
            sum_two (tally is_it p) w.pointers i j u v m.0 m.1 (λ y. ground (arith, y, q)) e h,
            move_assign-tally is_it u v w.log p l,
          );
        }
      ]

  swap-Accounts :
      (i j : ℕ) (w : World D)
      → i < length w.pointers
      → j < length w.pointers
      → Accounts (length w.pointers) w (with_two i j w (swap_at i j w))
  unfolding swap
  swap-Accounts i j w li lj =
      let (u, e) = get_elem?_of_lt w.pointers i li in
      let (v, h) = get_elem?_of_lt w.pointers j lj in
      let at_j : get_elem? (set w.pointers i v) j ≡ some v = elim (Bool-cases (i == j)) [
        | inl q ↦
            subst (λ k. get_elem? (set w.pointers i v) k ≡ some v) (ground (arith, q))
              (get_elem?-set-same w.pointers i u v e)
        | inr q ↦ get_elem?-set-other w.pointers i j v (λ y. ground (arith, y, q)) ∙ h
      ] in
      record {
        after = swap_at i j w u v;
        is = with_two-some i j w (swap_at i j w) u v e h;
        size_is = length_two w.pointers i j v u;
        balance = λ p l. omega (
          arith,
          sum_by-set (tally is_it p) w.pointers i u v e,
          sum_by-set (tally is_it p) (set w.pointers i v) j v u at_j,
        );
      }

  call-Accounts :
      (c : Call D) (w : World D)
      → Exist c (length w.pointers)
      → Accounts (grows c (length w.pointers)) w (call c w)
  call-Accounts (make_call p d) w e = make-Accounts p d w
  call-Accounts (move_make_call j) w e = move_make-Accounts j w e
  call-Accounts (release_call i) w e = release-Accounts i w e
  call-Accounts (reset_call i p) w e = reset-Accounts i p w e
  call-Accounts (move_assign_call i j) w e = move_assign-Accounts i j w e.0 e.1
  call-Accounts (swap_call i j) w e = swap-Accounts i j w e.0 e.1

  run-Accounts :
      (cs : List (Call D)) (w : World D)
      → AllExist cs (length w.pointers)
      → (w' : World D) × (run cs w ≡ some w')
        × ((p : ℕ)
            → 0 < p
            → accounted p w' + deleted is_it p w.given ≡ accounted p w + deleted is_it p w'.given)
  unfolding run
  run-Accounts [] w e = (w, refl, λ p l. refl)
  run-Accounts (c ∷ cs) w e =
      let a = call-Accounts c w e.0 in
      let (w', r, h) = run-Accounts cs a.after (subst (AllExist cs) (sym a.size_is) e.1) in
      (w', rw (a.is, run) r, λ p l. omega (arith, h p l, a.balance p l))

  -- Any sequence of calls on pointers that exist returns, and as often as an object was given to a
  -- pointer with some deleter, it is with one pointer with that deleter, was given to that deleter to be
  -- deleted, or was released from a pointer with it.
  pub run-accounted :
      (cs : List (Call D))
      → AllExist cs 0
      → (w : World D) × (run cs (empty D) ≡ some w)
        × ((p : ℕ) → 0 < p → accounted p w ≡ deleted is_it p w.given)
  run-accounted cs e =
      let (w, r, h) = run-Accounts cs (empty D) e in (w, r, λ p l. omega (arith, h p l))

-- ===== src/SharedPtr/Ending.antt =====
-- However the threads interleave, one of them ends the block, once, and nobody uses it afterwards.
use quickstructs.Prelude.{
  ℕ, suc, ◌+◌, ◌^◌, ◌≤◌, ◌<◌, ◌≡◌, refl, false, none, some, List, [], ◌∷◌, length, get_elem?, arith,
  Option-cases, inl, inr,
}
use quickstructs.Sums.{sum_by}
use quickstructs.SharedPtr.Stages.{
  owners, enders, is_last, is_cleared, Stage, live, deleting, freeing, over, ended, IsAt, Inv,
  more_room, copy_any, release-Inv,
}
use quickstructs.SharedPtr.Threads.{Shared, start, Event, copy_event, release_event, step, run}

module _ (obj d : ℕ) where
  step-Inv :
      {limit : ℕ} (e : Event) (s : Shared)
      → limit + 1 < 2 ^ 64
      → Inv obj d limit s
      → Inv obj d (suc limit) (step e s)
  unfolding step
  step-Inv (copy_event i) s l v = elim (Option-cases (get_elem? s.holders i)) [
    | inl n ↦ rw (n, step) (more_room obj d v)
    | inr (h, f) ↦ rw (f, step) (copy_any obj d s i h l f v)
  ]
  step-Inv (release_event i) s l v = elim (Option-cases (get_elem? s.holders i)) [
    | inl n ↦ rw (n, step) (more_room obj d v)
    | inr (h, f) ↦ rw (f, step) (release-Inv obj d s v.few l v.safe i h v.stage v.at f v)
  ]

  run-Inv :
      (es : List Event) (n : ℕ) (s : Shared)
      → n + length es < 2 ^ 64
      → Inv obj d n s
      → Inv obj d (n + length es) (run es s)
  unfolding run
  run-Inv [] n s l v = let e : n + 0 ≡ n = omega arith in rw e v
  run-Inv (e ∷ es) n s l v =
      let k : n + length (e ∷ es) ≡ suc n + length es = omega arith in
      rw k (run-Inv es (suc n) (step e s) (omega arith) (step-Inv e s (omega arith) v))

  -- What holds between any two steps.
  pub record Ends (s : Shared) : Type 0 where
    pub safe : s.faulted ≡ false
    pub one_ender : enders s ≤ 1
    pub alive :
        0 < owners s
        → (s.block ≡ some (record { count = owners s; obj = obj; deleter = d }))
          × (s.deletions ≡ [])
          × (enders s ≡ 0)
    pub done : owners s + enders s ≡ 0 → (s.block ≡ none) × (s.deletions ≡ ended obj d)

  stage-Ends :
      (g : Stage) (s : Shared)
      → s.faulted ≡ false
      → IsAt obj d g s (owners s) (sum_by is_last s.holders) (sum_by is_cleared s.holders)
      → Ends s
  stage-Ends live s f (b, p, m, c, e) = record {
    safe = f;
    one_ender = omega arith;
    alive = λ l. (b, e, omega arith);
    done = λ z. absurd (omega arith);
  }
  stage-Ends deleting s f (b, n, m, c, e) = record {
    safe = f;
    one_ender = omega arith;
    alive = λ l. absurd (omega arith);
    done = λ z. absurd (omega arith);
  }
  stage-Ends freeing s f (b, n, m, c, e) = record {
    safe = f;
    one_ender = omega arith;
    alive = λ l. absurd (omega arith);
    done = λ z. absurd (omega arith);
  }
  stage-Ends over s f (b, n, m, c, e) = record {
    safe = f;
    one_ender = omega arith;
    alive = λ l. absurd (omega arith);
    done = λ z. (b, e);
  }

  -- Under every interleaving of copies and releases of fewer than 2^64 - 1 steps, no thread uses the
  -- block when it is freed, and at most one object is ending it. While an object owns, the count is the
  -- number of owners and nothing was deleted; when every object is through, the deleter was called
  -- once, if there is an object, and the block is freed.
  pub run-Ends : (es : List Event) → 1 + length es < 2 ^ 64 → Ends (run es (start obj d))
  run-Ends es l =
      let v = run-Inv es 1 (start obj d) l (record {
        stage = live;
        at = (refl, omega arith, refl, refl, refl);
        safe = refl;
        few = omega arith;
      }) in
      stage-Ends v.stage (run es (start obj d)) v.safe v.at

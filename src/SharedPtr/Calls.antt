-- ===== src/SharedPtr/Calls.antt =====
-- Every call returns and keeps the counts right, and no object is lost or deleted twice.
use quickstructs.Prelude.{
  ℕ, ◌+◌, ◌^◌, ◌<◌, ◌≡◌, refl, ap, ◌∙◌, Option, none, some, [], ◌∷◌, ◌++◌, length, length-append,
  get_elem?, get_elem?_of_lt, get_elem?-concat, ◌==◌, arith, Bool-cases, inl, inr,
}
use quickstructs.SharedPtr.{
  Handle, World, set_handle, new_handle, null_handle, construct_null, construct, copy_construct,
  move_construct, reset, reset_to, new_block,
}
use quickstructs.Sums.{sum_by-append, sum_by-set, sum_by_ge, length-set}
use quickstructs.SharedPtr.Blocks.{held, Effect, no_object}
use quickstructs.SharedPtr.Effects.{adopts, new_block-Effect, add_held-Effect}
use quickstructs.SharedPtr.Owners.{
  owners_le, IsValid, Returns, Adopted, release_of_handle, IsValid-set_handle, IsValid-new_handle,
  IsValid-Effect, Effect-trans,
}

same : (c : Option ℕ) (w : World) → IsValid w → Effect c c no_object w w
same c w v = record {
  same_handles = refl;
  counts = λ b. refl;
  live = v.live;
  ledger = λ d p l. omega arith;
}

ledger_of :
    (c c' : Option ℕ) (objects : ℕ → ℕ → ℕ) (w w' : World)
    → Effect c c' objects w w'
    → Adopted objects w w'
ledger_of c c' objects w w' f = record { ledger = f.ledger }

pub construct-Returns :
    (obj d : ℕ) (w : World)
    → IsValid w
    → Returns (adopts obj d) (length w.handles + 1) w (construct obj d w)
construct-Returns obj d w v =
    let f = new_block-Effect obj d w v.live in
    record {
      after = new_handle (record { obj = obj; cb = some (length w.blocks) }) (new_block obj d w);
      is = refl;
      valid = IsValid-new_handle w (new_block obj d w) _ (adopts obj d) v f;
      adopted = record { ledger = f.ledger };
      size_is = length-append w.handles _;
    }

pub construct_null-Returns :
    (w : World) → IsValid w → Returns no_object (length w.handles + 1) w (construct_null w)
construct_null-Returns w v = record {
  after = new_handle null_handle w;
  is = refl;
  valid = IsValid-new_handle w w null_handle no_object v (same none w v);
  adopted = record { ledger = λ d p l. omega arith };
  size_is = length-append w.handles _;
}

pub reset-Returns :
    (i : ℕ) (w : World)
    → IsValid w
    → length w.handles < 2 ^ 64
    → i < length w.handles
    → Returns no_object (length w.handles) w (reset i w)
unfolding reset
reset-Returns i w v fits l =
    let (h, e) = get_elem?_of_lt w.handles i l in
    let (w', r, f) = release_of_handle w i h v fits e in
    record {
      after = set_handle i null_handle w';
      is = rw (e, reset, r) refl;
      valid = IsValid-set_handle w w' i h null_handle no_object v e f;
      adopted = record { ledger = f.ledger };
      size_is = length-set w'.handles i null_handle ∙ ap length f.same_handles;
    }

pub reset_to-Returns :
    (i obj d : ℕ) (w : World)
    → IsValid w
    → length w.handles < 2 ^ 64
    → i < length w.handles
    → Returns (adopts obj d) (length w.handles) w (reset_to i obj d w)
unfolding reset_to
reset_to-Returns i obj d w v fits l =
    let (h, e) = get_elem?_of_lt w.handles i l in
    let (w', r, f) = release_of_handle w i h v fits e in
    elim (Bool-cases (obj == 0)) [
      | inl q ↦ record {
        after = set_handle i null_handle w';
        is = rw (e, reset_to, r, q) refl;
        valid = IsValid-set_handle w w' i h null_handle no_object v e f;
        adopted = record { ledger = λ d' p p0. ground (arith, f.ledger d' p p0, q) };
        size_is = length-set w'.handles i null_handle ∙ ap length f.same_handles;
      }
      | inr q ↦
          let h' : Handle = record { obj = obj; cb = some (length w'.blocks) } in
          let g =
            Effect-trans h.cb h'.cb (adopts obj d) w w' (new_block obj d w') f
              (new_block-Effect obj d w' f.live) in
          record {
            after = set_handle i h' (new_block obj d w');
            is = rw (e, reset_to, r, q) refl;
            valid = IsValid-set_handle w (new_block obj d w') i h h' (adopts obj d) v e g;
            adopted = record { ledger = g.ledger };
            size_is = length-set w'.handles i h' ∙ ap length f.same_handles;
          }
    ]

pub copy_construct-Returns :
    (j : ℕ) (w : World)
    → IsValid w
    → length w.handles + 1 < 2 ^ 64
    → j < length w.handles
    → Returns no_object (length w.handles + 1) w (copy_construct j w)
unfolding copy_construct
copy_construct-Returns j w v fits l =
    let (h, e) = get_elem?_of_lt w.handles j l in
    let (w', r, f) =
      add_held-Effect h.cb (new_handle h w) v.live
        (λ b. omega (arith, v.counted b, sum_by_ge (λ k. held k.cb b) w.handles j h e))
        (λ b. omega (arith, v.counted b, owners_le b w.handles)) in
    record {
      after = w';
      is = rw (e, copy_construct) r;
      valid =
          IsValid-Effect none h.cb no_object (new_handle h w) w' f
            (λ b. omega (arith, v.counted b, sum_by-append (λ k. held k.cb b) w.handles h));
      adopted = record { ledger = f.ledger };
      size_is = ap length f.same_handles ∙ length-append w.handles (h ∷ []);
    }

pub move_construct-Returns :
    (j : ℕ) (w : World)
    → IsValid w
    → j < length w.handles
    → Returns no_object (length w.handles + 1) w (move_construct j w)
unfolding move_construct
move_construct-Returns j w v l =
    let (h, e) = get_elem?_of_lt w.handles j l in
    let inside : get_elem? (w.handles ++ h ∷ []) j ≡ some h =
      ground (arith, get_elem?-concat w.handles h j, e) in
    record {
      after = set_handle j null_handle (new_handle h w);
      is = rw (e, move_construct) refl;
      valid = record {
        counted = λ b. omega (
          arith,
          v.counted b,
          sum_by-append (λ k. held k.cb b) w.handles h,
          sum_by-set (λ k. held k.cb b) (w.handles ++ h ∷ []) j h null_handle inside,
        );
        live = v.live;
      };
      adopted = record { ledger = λ d p p0. omega arith };
      size_is = length-set (w.handles ++ h ∷ []) j null_handle ∙ length-append w.handles (h ∷ []);
    }

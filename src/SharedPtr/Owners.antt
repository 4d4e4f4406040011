-- ===== src/SharedPtr/Owners.antt =====
-- The count of each control block is the number of the handles that share it, and each object that
-- was adopted is owned or deleted.
use quickstructs.Prelude.{
  ℕ, ◌+◌, ◌^◌, ◌≤◌, ◌<◌, ◌≡◌, refl, sym, ap, ◌∙◌, Option, none, some, List, [], ◌∷◌, ◌++◌, length,
  get_elem?, set, arith,
}
use quickstructs.SharedPtr.{
  Block, Handle, World, not_freed, block_at, set_handle, new_handle, release_held, read_count,
  count_held, use_count,
}
use quickstructs.Sums.{sum_by, sum_by-append, sum_by-set, sum_by_ge, sum_by_le, sum_by_zero}
use quickstructs.SharedPtr.Blocks.{
  count_at, count_of, held, AllLive, Effect, deleted, alive, in_block, no_object,
}
use quickstructs.SharedPtr.Effects.{held_self, block_of_count, release_held-Effect}

-- The number of handles that share the block `b`.
abbrev pub owners : ℕ → List Handle → ℕ
owners b hs = sum_by (λ h. held h.cb b) hs

pub record IsValid (w : World) : Type 0 where
  pub counted : (b : ℕ) → count_at b w ≡ owners b w.handles
  pub live : AllLive w

-- The ledger of objects.
pub record Adopted (objects : ℕ → ℕ → ℕ) (w w' : World) : Type 0 where
  pub ledger :
      (d p : ℕ) → 0 < p → deleted d p w' + alive d p w' ≡ deleted d p w + alive d p w + objects d p

held_le : (c : Option ℕ) (b : ℕ) → held c b ≤ 1
held_le none b = omega arith
held_le (some c) b = ground arith

pub owners_le : (b : ℕ) (hs : List Handle) → owners b hs ≤ length hs
owners_le b hs = sum_by_le (λ h. held h.cb b) (λ h. held_le h.cb b) hs

-- The result of a call: it returns, and what it leaves is well-formed.
pub record Returns (objects : ℕ → ℕ → ℕ) (size : ℕ) (w : World) (out : Option World) : Type 0 where
  pub after : World
  pub is : out ≡ some after
  pub valid : IsValid after
  pub adopted : Adopted objects w after
  pub size_is : length after.handles ≡ size

-- A handle's reference can be given back.
pub release_of_handle :
    (w : World) (i : ℕ) (h : Handle)
    → IsValid w
    → length w.handles < 2 ^ 64
    → get_elem? w.handles i ≡ some h
    → (w' : World) × (release_held h.cb w ≡ some w') × Effect h.cb none no_object w w'
release_of_handle w i h v fits e =
    release_held-Effect h.cb w v.live
      (λ b. omega (arith, v.counted b, sum_by_ge (λ k. held k.cb b) w.handles i h e))
      (λ b. omega (arith, v.counted b, owners_le b w.handles))

-- `w'` has the handles of a world `w` with a well-formed count, but for one handle.
pub IsValid-set_handle :
    (w w' : World) (i : ℕ) (h h' : Handle) (objects : ℕ → ℕ → ℕ)
    → IsValid w
    → get_elem? w.handles i ≡ some h
    → Effect h.cb h'.cb objects w w'
    → IsValid (set_handle i h' w')
IsValid-set_handle w w' i h h' objects v e f = record {
  counted = λ b. omega (
    arith,
    f.counts b,
    v.counted b,
    sum_by-set (λ k. held k.cb b) w.handles i h h' e,
    ap (λ hs. owners b (set hs i h')) f.same_handles,
  );
  live = f.live;
}

pub IsValid-new_handle :
    (w w' : World) (h : Handle) (objects : ℕ → ℕ → ℕ)
    → IsValid w
    → Effect none h.cb objects w w'
    → IsValid (new_handle h w')
IsValid-new_handle w w' h objects v f = record {
  counted = λ b. omega (
    arith,
    f.counts b,
    v.counted b,
    sum_by-append (λ k. held k.cb b) w.handles h,
    ap (λ hs. owners b (hs ++ h ∷ [])) f.same_handles,
  );
  live = f.live;
}

pub Effect-trans :
    (c c' : Option ℕ) (objects : ℕ → ℕ → ℕ) (w w1 w2 : World)
    → Effect c none no_object w w1
    → Effect none c' objects w1 w2
    → Effect c c' objects w w2
Effect-trans c c' objects w w1 w2 f g = record {
  same_handles = g.same_handles ∙ f.same_handles;
  counts = λ b. omega (arith, f.counts b, g.counts b);
  live = g.live;
  ledger = λ d p l. omega (arith, f.ledger d p l, g.ledger d p l);
}

read_count-owners :
    (b : ℕ) (w : World)
    → IsValid w
    → ((k : Block) × (block_at b w ≡ some k))
    → read_count b w ≡ some (owners b w.handles)
unfolding read_count
read_count-owners b w v (k, f) = rw (f, read_count) (ap some (sym (ap count_of f) ∙ v.counted b))

abbrev pub sharers : Option ℕ → List Handle → ℕ
sharers none hs = 0
sharers (some b) hs = owners b hs

count_held-sharers :
    (c : Option ℕ) (w : World)
    → IsValid w
    → ((b : ℕ) → held c b ≤ owners b w.handles)
    → count_held c w ≡ some (sharers c w.handles)
count_held-sharers none w v l = refl
count_held-sharers (some b) w v l =
    read_count-owners b w v (block_of_count b w (omega (arith, v.counted b, l b, held_self b)))

-- In a well-formed world, `use_count` of a handle reads no freed block: it is the number of handles
-- that share its control block, and 0 without one.
pub use_count-sharers :
    (w : World) (i : ℕ) (h : Handle)
    → IsValid w
    → get_elem? w.handles i ≡ some h
    → use_count h w ≡ some (sharers h.cb w.handles)
use_count-sharers w i h v e =
    count_held-sharers h.cb w v (λ b. sum_by_ge (λ k. held k.cb b) w.handles i h e)

-- The handles were changed before the counts.
pub IsValid-Effect :
    (less more : Option ℕ) (objects : ℕ → ℕ → ℕ) (w0 w' : World)
    → Effect less more objects w0 w'
    → ((b : ℕ) → count_at b w0 + held more b ≡ owners b w0.handles + held less b)
    → IsValid w'
IsValid-Effect less more objects w0 w' f h = record {
  counted = λ b. omega (arith, f.counts b, h b, ap (owners b) f.same_handles);
  live = f.live;
}

-- Without an owner of any block, no object is alive.
pub alive-zero :
    (d p : ℕ) (w : World) → IsValid w → ((b : ℕ) → owners b w.handles ≡ 0) → alive d p w ≡ 0
alive-zero d p w v z = sum_by_zero (in_block d p) w.blocks (λ i o e. entry i o (ap not_freed e))
  where
    entry : (i : ℕ) (o : Option Block) → block_at i w ≡ o → in_block d p o ≡ 0
    entry i none e = refl
    entry i (some k) e = absurd (omega (arith, v.live i k e, v.counted i, z i, ap count_of e))

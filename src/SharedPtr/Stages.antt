-- ===== src/SharedPtr/Stages.antt =====
-- The stages of a control block, and how the steps of the threads lead from one to the next.
use quickstructs.Prelude.{
  ℕ, suc, ◌+◌, ◌-◌, ◌%◌, ◌^◌, ◌≤◌, ◌<◌, ◌≡◌, refl, sym, ap, subst, false, Option, none, some, List,
  [], ◌∷◌, ◌++◌, length, length-append, get_elem?, set, ◌==◌, ==_iff, arith, Bool-cases, inl, inr,
}
use quickstructs.Sums.{sum_by, sum_by-append, sum_by-set, sum_by_ge, sum_by_le, length-set}
use quickstructs.SharedPtr.{Block, Deletion, call_deleter}
use quickstructs.SharedPtr.Threads.{
  Holder, owner, last, cleared, gone, Shared, with_block, copy, release_step,
}

abbrev pub owns : Holder → ℕ
owns owner = 1
owns last = 0
owns cleared = 0
owns gone = 0

abbrev pub is_last : Holder → ℕ
is_last owner = 0
is_last last = 1
is_last cleared = 0
is_last gone = 0

abbrev pub is_cleared : Holder → ℕ
is_cleared owner = 0
is_cleared last = 0
is_cleared cleared = 1
is_cleared gone = 0

abbrev pub owners : Shared → ℕ
owners s = sum_by owns s.holders

-- The objects that are in the middle of ending the block.
abbrev pub enders : Shared → ℕ
enders s = sum_by is_last s.holders + sum_by is_cleared s.holders

pub data Stage : Type 0 where
  live deleting freeing over : Stage

module _ (obj d : ℕ) where
  abbrev pub block_of : ℕ → ℕ → Option Block
  block_of n o = some (record { count = n; obj = o; deleter = d })

  -- The call of the deleter that the block is worth.
  abbrev pub ended : List Deletion
  ended = call_deleter (record { count = 0; obj = obj; deleter = d }) []

  abbrev pub IsAt : Stage → Shared → ℕ → ℕ → ℕ → Type 0
  IsAt live s n m c = (s.block ≡ block_of n obj) × (0 < n) × (m ≡ 0) × (c ≡ 0) × (s.deletions ≡ [])
  IsAt deleting s n m c =
      (s.block ≡ block_of 0 obj) × (n ≡ 0) × (m ≡ 1) × (c ≡ 0) × (s.deletions ≡ [])
  IsAt freeing s n m c =
      (s.block ≡ block_of 0 0) × (n ≡ 0) × (m ≡ 0) × (c ≡ 1) × (s.deletions ≡ ended)
  IsAt over s n m c = (s.block ≡ none) × (n ≡ 0) × (m ≡ 0) × (c ≡ 0) × (s.deletions ≡ ended)

  pub record Inv (limit : ℕ) (s : Shared) : Type 0 where
    pub stage : Stage
    pub at : IsAt stage s (owners s) (sum_by is_last s.holders) (sum_by is_cleared s.holders)
    pub safe : s.faulted ≡ false
    pub few : length s.holders ≤ limit

  with_block-some :
      (s : Shared) (k : Block) (f : Block → Shared) → s.block ≡ some k → with_block s f ≡ f k
  with_block-some s k f e = rw e refl

  pub more_room : {limit : ℕ} {s : Shared} → Inv limit s → Inv (suc limit) s
  more_room v = record { stage = v.stage; at = v.at; safe = v.safe; few = omega (arith, v.few) }

  module _ {limit : ℕ} (s : Shared) (few : length s.holders ≤ limit) (small : limit + 1 < 2 ^ 64)
      (safe : s.faulted ≡ false) where
    owners_le : owners s ≤ limit
    owners_le = omega (arith, sum_by_le owns owns_le s.holders)
      where
        owns_le : (h : Holder) → owns h ≤ 1
        owns_le owner = omega arith
        owns_le last = omega arith
        owns_le cleared = omega arith
        owns_le gone = omega arith

    copy-Inv :
        (g : Stage)
        → IsAt g s (owners s) (sum_by is_last s.holders) (sum_by is_cleared s.holders)
        → 0 < owners s
        → Inv (suc limit) (copy owner s)
    copy-Inv live (b, p, m, c, e) l =
        let hs = s.holders in
        let n : (owners s + 1) % 2 ^ 64 ≡ sum_by owns (hs ++ owner ∷ []) =
          omega (arith, sum_by-append owns hs owner, owners_le) in
        subst (Inv (suc limit)) (sym (with_block-some s _ _ b)) (record {
          stage = live;
          at = (
            ap (λ v. block_of v obj) n,
            omega (arith, sum_by-append owns hs owner),
            omega (arith, sum_by-append is_last hs owner),
            omega (arith, sum_by-append is_cleared hs owner),
            e,
          );
          safe = safe;
          few = omega (arith, length-append hs (owner ∷ []));
        })
    copy-Inv deleting (b, n, m, c, e) l = absurd (omega arith)
    copy-Inv freeing (b, n, m, c, e) l = absurd (omega arith)
    copy-Inv over (b, n, m, c, e) l = absurd (omega arith)

    drop_owner :
        (i : ℕ)
        → s.block ≡ block_of (owners s) obj
        → 0 < owners s
        → sum_by is_last s.holders ≡ 0
        → sum_by is_cleared s.holders ≡ 0
        → s.deletions ≡ []
        → get_elem? s.holders i ≡ some owner
        → Inv (suc limit) (release_step i owner s)
    drop_owner i b p m c e at =
        let hs = s.holders in
        elim (Bool-cases (owners s == 1)) [
          | inl one ↦
              let n : owners s ≡ 1 = (==_iff (owners s) 1).0 one in
              let down : (owners s + (2 ^ 64 - 1)) % 2 ^ 64 ≡ 0 = omega arith in
              subst (Inv (suc limit)) (sym (with_block-some s _ _ b)) (
                rw one (record {
                  stage = deleting;
                  at = (
                    ap (λ v. block_of v obj) down,
                    omega (arith, sum_by-set owns hs i owner last at),
                    omega (arith, sum_by-set is_last hs i owner last at),
                    omega (arith, sum_by-set is_cleared hs i owner last at),
                    e,
                  );
                  safe = safe;
                  few = omega (arith, length-set hs i last);
                }))
          | inr more ↦
              let n : 1 < owners s = ground arith in
              let down : (owners s + (2 ^ 64 - 1)) % 2 ^ 64 ≡ sum_by owns (set hs i gone) =
                omega (arith, sum_by-set owns hs i owner gone at, owners_le) in
              subst (Inv (suc limit)) (sym (with_block-some s _ _ b)) (
                rw more (record {
                  stage = live;
                  at = (
                    ap (λ v. block_of v obj) down,
                    omega (arith, sum_by-set owns hs i owner gone at),
                    omega (arith, sum_by-set is_last hs i owner gone at),
                    omega (arith, sum_by-set is_cleared hs i owner gone at),
                    e,
                  );
                  safe = safe;
                  few = omega (arith, length-set hs i gone);
                }))
        ]

    delete_last :
        (i : ℕ)
        → s.block ≡ block_of 0 obj
        → owners s ≡ 0
        → sum_by is_last s.holders ≡ 1
        → sum_by is_cleared s.holders ≡ 0
        → s.deletions ≡ []
        → get_elem? s.holders i ≡ some last
        → Inv (suc limit) (release_step i last s)
    delete_last i b n m c e at =
        let hs = s.holders in
        subst (Inv (suc limit)) (sym (with_block-some s _ _ b)) (record {
          stage = freeing;
          at = (
            refl,
            omega (arith, sum_by-set owns hs i last cleared at),
            omega (arith, sum_by-set is_last hs i last cleared at),
            omega (arith, sum_by-set is_cleared hs i last cleared at),
            ap (call_deleter (record { count = 0; obj = obj; deleter = d })) e,
          );
          safe = safe;
          few = omega (arith, length-set hs i cleared);
        })

    free_last :
        (i : ℕ)
        → s.block ≡ block_of 0 0
        → owners s ≡ 0
        → sum_by is_last s.holders ≡ 0
        → sum_by is_cleared s.holders ≡ 1
        → s.deletions ≡ ended
        → get_elem? s.holders i ≡ some cleared
        → Inv (suc limit) (release_step i cleared s)
    free_last i b n m c e at =
        let hs = s.holders in
        subst (Inv (suc limit)) (sym (with_block-some s _ _ b)) (record {
          stage = over;
          at = (
            refl,
            omega (arith, sum_by-set owns hs i cleared gone at),
            omega (arith, sum_by-set is_last hs i cleared gone at),
            omega (arith, sum_by-set is_cleared hs i cleared gone at),
            e,
          );
          safe = safe;
          few = omega (arith, length-set hs i gone);
        })

    -- An object in the middle of `release` says which stage it is.
    pub release-Inv :
        (i : ℕ) (h : Holder) (g : Stage)
        → IsAt g s (owners s) (sum_by is_last s.holders) (sum_by is_cleared s.holders)
        → get_elem? s.holders i ≡ some h
        → Inv limit s
        → Inv (suc limit) (release_step i h s)
    release-Inv i owner live (b, p, m, c, e) at v = drop_owner i b p m c e at
    release-Inv i owner deleting (b, n, m, c, e) at v =
        absurd (omega (arith, sum_by_ge owns s.holders i owner at))
    release-Inv i owner freeing (b, n, m, c, e) at v =
        absurd (omega (arith, sum_by_ge owns s.holders i owner at))
    release-Inv i owner over (b, n, m, c, e) at v =
        absurd (omega (arith, sum_by_ge owns s.holders i owner at))
    release-Inv i last live (b, p, m, c, e) at v =
        absurd (omega (arith, sum_by_ge is_last s.holders i last at))
    release-Inv i last deleting (b, n, m, c, e) at v = delete_last i b n m c e at
    release-Inv i last freeing (b, n, m, c, e) at v =
        absurd (omega (arith, sum_by_ge is_last s.holders i last at))
    release-Inv i last over (b, n, m, c, e) at v =
        absurd (omega (arith, sum_by_ge is_last s.holders i last at))
    release-Inv i cleared live (b, p, m, c, e) at v =
        absurd (omega (arith, sum_by_ge is_cleared s.holders i cleared at))
    release-Inv i cleared deleting (b, n, m, c, e) at v =
        absurd (omega (arith, sum_by_ge is_cleared s.holders i cleared at))
    release-Inv i cleared freeing (b, n, m, c, e) at v = free_last i b n m c e at
    release-Inv i cleared over (b, n, m, c, e) at v =
        absurd (omega (arith, sum_by_ge is_cleared s.holders i cleared at))
    release-Inv i gone g a at v = more_room v

  pub copy_any :
      {limit : ℕ} (s : Shared) (i : ℕ) (h : Holder)
      → limit + 1 < 2 ^ 64
      → get_elem? s.holders i ≡ some h
      → Inv limit s
      → Inv (suc limit) (copy h s)
  copy_any s i owner l at v =
      copy-Inv s v.few l v.safe v.stage v.at (omega (arith, sum_by_ge owns s.holders i owner at))
  copy_any s i last l at v = more_room v
  copy_any s i cleared l at v = more_room v
  copy_any s i gone l at v = more_room v

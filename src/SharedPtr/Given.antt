-- ===== src/SharedPtr/Given.antt =====
-- The objects that the calls hand over: one that is adopted once and has a control block was not deleted.
use quickstructs.Prelude.{
  ℕ, ◌+◌, ◌<◌, ◌≡◌, ◌≤◌, some, List, [], ◌∷◌, false, ◌==◌, arith, Bool-cases, inl, inr, suc, ==_iff,
  if◌then◌else◌,
}
use quickstructs.SharedPtr.{Block, World, block_at}
use quickstructs.SharedPtr.Blocks.{deleted, alive, in_block, entry_of_block}
use quickstructs.SharedPtr.Runs.{
  Call, null_call, construct_call, copy_call, move_call, reset_call, reset_to_call,
  copy_assign_call, move_assign_call, adopted_by, all_adopted,
}
use quickstructs.Sums.{sum_by_ge}

-- How often an object is adopted, by any deleter.
abbrev pub gives : Call → ℕ → ℕ
gives null_call p = 0
gives (construct_call obj d) p = if obj == p then 1 else 0
gives (copy_call j) p = 0
gives (move_call j) p = 0
gives (reset_call i) p = 0
gives (reset_to_call i obj d) p = if obj == p then 1 else 0
gives (copy_assign_call i j) p = 0
gives (move_assign_call i j) p = 0

abbrev pub all_given : List Call → ℕ → ℕ
all_given [] p = 0
all_given (c ∷ cs) p = gives c p + all_given cs p

adopted_gives :
    (c : Call) (d e p : ℕ) → (d == e) ≡ false → adopted_by c d p + adopted_by c e p ≤ gives c p
adopted_gives null_call d e p n = omega arith
adopted_gives (construct_call obj f) d e p n = ground arith
adopted_gives (copy_call j) d e p n = omega arith
adopted_gives (move_call j) d e p n = omega arith
adopted_gives (reset_call i) d e p n = omega arith
adopted_gives (reset_to_call i obj f) d e p n = ground arith
adopted_gives (copy_assign_call i j) d e p n = omega arith
adopted_gives (move_assign_call i j) d e p n = omega arith

all_adopted_given :
    (cs : List Call) (d e p : ℕ)
    → (d == e) ≡ false
    → all_adopted cs d p + all_adopted cs e p ≤ all_given cs p
all_adopted_given [] d e p n = omega arith
all_adopted_given (c ∷ cs) d e p n =
    omega (arith, adopted_gives c d e p n, all_adopted_given cs d e p n)

block_alive : (b : ℕ) (w : World) (k : Block) → block_at b w ≡ some k → 1 ≤ alive k.deleter k.obj w
block_alive b w k e =
    let here : in_block k.deleter k.obj (some k) ≡ 1 = ground arith in
    omega
      (arith, here, sum_by_ge (in_block k.deleter k.obj) w.blocks b (some k) (entry_of_block _ k e))

-- An object in an allocated block that was adopted at most once was deleted by no deleter.
module _ (cs : List Call) (w : World) (k : Block) (b : ℕ) (e : block_at b w ≡ some k)
    (ledger : (d p : ℕ) → 0 < p → deleted d p w + alive d p w ≡ all_adopted cs d p)
    (once : all_given cs k.obj ≤ 1) (l : 0 < k.obj) where
  pub none_deleted : (d : ℕ) → deleted d k.obj w ≡ 0
  none_deleted d = elim (Bool-cases (d == k.deleter)) [
    | inl q ↦
        let same : d ≡ k.deleter = ground (arith, ==_iff d k.deleter) in
        let other : (suc k.deleter == k.deleter) ≡ false = ground arith in
        rw same (
          omega (
            arith,
            block_alive b w k e,
            ledger k.deleter k.obj l,
            all_adopted_given cs (suc k.deleter) k.deleter k.obj other,
            once,
          ))
    | inr q ↦ omega (
      arith,
      block_alive b w k e,
      ledger d k.obj l,
      ledger k.deleter k.obj l,
      all_adopted_given cs d k.deleter k.obj q,
      once,
    )
  ]

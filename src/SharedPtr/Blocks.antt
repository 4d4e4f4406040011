-- ===== src/SharedPtr/Blocks.antt =====
-- What `release`, `add_ref` and the allocation of a control block do to the counts, and to the
-- ledger of the objects that are owned or deleted.
use quickstructs.Prelude.{
  ℕ, ◌+◌, ◌<◌, ◌≡◌, ◌≢◌, refl, sym, ap, ◌∙◌, subst, Bool, true, false, ◌&&◌, Option, none, some,
  List, set, ◌==◌, ==_iff, if◌then◌else◌, arith, Bool-cases, inl, inr,
}
use quickstructs.SharedPtr.{Block, Deletion, World, not_freed, block_at, call_deleter}
use quickstructs.Sums.{sum_by, sum_by-set, get_elem?-set-same, get_elem?-set-other}

abbrev pub count_of : Option Block → ℕ
count_of none = 0
count_of (some k) = k.count

abbrev pub count_at : ℕ → World → ℕ
count_at b w = count_of (block_at b w)

-- How many references to the block `b` a handle with this control block is.
abbrev pub held : Option ℕ → ℕ → ℕ
held none b = 0
held (some c) b = if c == b then 1 else 0

-- The object `p` with the deleter `d`: is it in this block, or deleted by this call?
abbrev pub in_block : ℕ → ℕ → Option Block → ℕ
in_block d p none = 0
in_block d p (some k) = if (k.deleter == d) && (k.obj == p) then 1 else 0

abbrev pub is_deletion : ℕ → ℕ → Deletion → ℕ
is_deletion d p e = if (e.deleter == d) && (e.obj == p) then 1 else 0

abbrev pub deleted : ℕ → ℕ → World → ℕ
deleted d p w = sum_by (is_deletion d p) w.deletions

abbrev pub alive : ℕ → ℕ → World → ℕ
alive d p w = sum_by (in_block d p) w.blocks

abbrev pub AllLive : World → Type 0
AllLive w = (b : ℕ) (k : Block) → block_at b w ≡ some k → 0 < k.count

-- `w'` comes from `w` by one reference less to `less`, one more to `more`, and `adopted` new objects.
pub record Effect (less more : Option ℕ) (adopted : ℕ → ℕ → ℕ) (w w' : World) : Type 0 where
  pub same_handles : w'.handles ≡ w.handles
  pub counts : (b : ℕ) → count_at b w' + held less b ≡ count_at b w + held more b
  pub live : AllLive w'
  pub ledger :
      (d p : ℕ) → 0 < p → deleted d p w' + alive d p w' ≡ deleted d p w + alive d p w + adopted d p

abbrev pub no_object : ℕ → ℕ → ℕ
no_object d p = 0

pub entry_of_block :
    (o : Option (Option Block)) (k : Block) → not_freed o ≡ some k → o ≡ some (some k)
entry_of_block none k e = ground arith
entry_of_block (some o) k e = ap some e

-- The block `b` is replaced by `o`, and the log by `log`.
abbrev pub replaced : ℕ → Option Block → List Deletion → World → World
replaced b o log w = record { handles = w.handles; blocks = set w.blocks b o; deletions = log }

pub block_at-replaced :
    (b : ℕ) (o : Option Block) (log : List Deletion) (w : World) (k : Block)
    → block_at b w ≡ some k
    → (x : ℕ) → block_at x (replaced b o log w) ≡ (if b == x then o else block_at x w)
block_at-replaced b o log w k e x = elim (Bool-cases (b == x)) [
  | inl q ↦
      let y : b ≡ x = (==_iff b x).0 q in
      rw q (
        subst (λ z. block_at z (replaced b o log w) ≡ o) y
          (ap not_freed (get_elem?-set-same w.blocks b (some k) o (entry_of_block _ k e))))
  | inr q ↦
      let n : b ≢ x = (λ y. ground (arith, y, q)) in
      rw q (ap not_freed (get_elem?-set-other w.blocks b x o n))
]

pub count_at-replaced :
    (b : ℕ) (o : Option Block) (log : List Deletion) (w : World) (k : Block)
    → block_at b w ≡ some k
    → (x : ℕ) → count_at x (replaced b o log w) ≡ (if b == x then count_of o else count_at x w)
count_at-replaced b o log w k e x =
    ap count_of (block_at-replaced b o log w k e x) ∙ spread (b == x)
  where
    spread :
        (t : Bool)
        → count_of (if t then o else block_at x w) ≡ (if t then count_of o else count_at x w)
    spread true = refl
    spread false = refl

pub alive-replaced :
    (b : ℕ) (o : Option Block) (log : List Deletion) (w : World) (k : Block) (d p : ℕ)
    → block_at b w ≡ some k
    → alive d p (replaced b o log w) + in_block d p (some k) ≡ alive d p w + in_block d p o
alive-replaced b o log w k d p e =
    sum_by-set (in_block d p) w.blocks b (some k) o (entry_of_block _ k e)

pub AllLive-replaced :
    (b : ℕ) (o : Option Block) (log : List Deletion) (w : World) (k : Block)
    → block_at b w ≡ some k
    → ((j : Block) → o ≡ some j → 0 < j.count)
    → AllLive w
    → AllLive (replaced b o log w)
AllLive-replaced b o log w k e l live x j f = elim (Bool-cases (b == x)) [
  | inl q ↦ l j (sym (block_at-replaced b o log w k e x ∙ rw q refl) ∙ f)
  | inr q ↦ live x j (sym (block_at-replaced b o log w k e x ∙ rw q refl) ∙ f)
]

pub deleted-call_deleter :
    (k : Block) (log : List Deletion) (d p : ℕ)
    → 0 < p
    → sum_by (is_deletion d p) (call_deleter k log)
      ≡ sum_by (is_deletion d p) log + in_block d p (some k)
deleted-call_deleter k log d p l = elim (Bool-cases (k.obj == 0)) [
  | inl q ↦ rw q (ground arith)
  | inr q ↦ rw q (ground arith)
]

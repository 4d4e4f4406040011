-- ===== src/SharedPtr.antt =====
-- include/quick/handle/SharedPtr.hh. The world holds all `shared_ptr` objects ever constructed, by
-- their index, and all control blocks ever allocated, by theirs: `none` stands for a block that was
-- freed. The calls of deleters are a log. A pointer is its address, and 0 is the null pointer; a
-- deleter is known by a number. Reading a block that was freed gives `none` for the whole call.
pub mod Blocks
pub mod Effects
pub mod Owners
pub mod Calls
pub mod Assign
pub mod Runs
pub mod Pointers
pub mod Given
pub mod Targets
pub mod Threads
pub mod Stages
pub mod Ending
pub mod Main
mod Tests
use quickstructs.Prelude.{
  ℕ, ◌+◌, ◌-◌, ◌%◌, ◌^◌, Bool, true, false, not, Option, none, some, List, [], ◌∷◌, ◌++◌, length,
  get_elem?, set, ◌==◌, if◌then◌else◌,
}

-- `control_block`
pub record Block : Type 0 where
  pub count : ℕ
  pub obj : ℕ
  pub deleter : ℕ

-- `shared_ptr`
pub record Handle : Type 0 where
  pub obj : ℕ
  pub cb : Option ℕ

pub record Deletion : Type 0 where
  pub deleter : ℕ
  pub obj : ℕ

pub record World : Type 0 where
  pub handles : List Handle
  pub blocks : List (Option Block)
  pub deletions : List Deletion

abbrev pub null_handle : Handle
null_handle = record { obj = 0; cb = none }

abbrev pub start : World
start = record { handles = []; blocks = []; deletions = [] }

-- `control_block::release` on the last reference: the deleter runs if there is an object.
abbrev pub call_deleter : Block → List Deletion → List Deletion
call_deleter k log = if k.obj == 0 then log else record { deleter = k.deleter; obj = k.obj } ∷ log

-- `m_count.fetch_sub(1)` and `m_count.fetch_add(1)` on 64 bits.
abbrev pub count_down : Block → Block
count_down k = record k { count = (k.count + (2 ^ 64 - 1)) % 2 ^ 64 }

abbrev pub count_up : Block → Block
count_up k = record k { count = (k.count + 1) % 2 ^ 64 }

-- A block that is still allocated.
abbrev pub not_freed : Option (Option Block) → Option Block
not_freed (some o) = o
not_freed none = none

abbrev pub block_at : ℕ → World → Option Block
block_at b w = not_freed (get_elem? w.blocks b)

abbrev pub set_block : ℕ → Option Block → World → World
set_block b o w = record w { blocks = set w.blocks b o }

-- `control_block::release`
pub release : ℕ → World → Option World
release b w = elim (block_at b w) [
  | some k ↦ some (
      if k.count == 1
      then record {
        handles = w.handles;
        blocks = set w.blocks b none;
        deletions = call_deleter k w.deletions;
      }
      else set_block b (some (count_down k)) w)
  | none ↦ none
]

-- `control_block::add_ref`
pub add_ref : ℕ → World → Option World
add_ref b w = elim (block_at b w) [
  | some k ↦ some (set_block b (some (count_up k)) w)
  | none ↦ none
]

-- `if (p_cb) { p_cb->release(); }` and `if (p_cb) { p_cb->add_ref(); }`
abbrev pub release_held : Option ℕ → World → Option World
release_held none w = some w
release_held (some b) w = release b w

abbrev pub add_held : Option ℕ → World → Option World
add_held none w = some w
add_held (some b) w = add_ref b w

abbrev pub set_handle : ℕ → Handle → World → World
set_handle i h w = record w { handles = set w.handles i h }

abbrev pub new_handle : Handle → World → World
new_handle h w = record w { handles = w.handles ++ h ∷ [] }

-- The allocation of a control block for `obj`; its address is the next index.
abbrev pub new_block : ℕ → ℕ → World → World
new_block obj d w = record w {
  blocks = w.blocks ++ some (record { count = 1; obj = obj; deleter = d }) ∷ [];
}

-- The constructors: without arguments, from a pointer and a deleter, by copy and by move.
abbrev pub construct_null : World → Option World
construct_null w = some (new_handle null_handle w)

abbrev pub construct : ℕ → ℕ → World → Option World
construct obj d w =
    some (new_handle (record { obj = obj; cb = some (length w.blocks) }) (new_block obj d w))

unfoldable pub copy_construct : ℕ → World → Option World
copy_construct j w = elim (get_elem? w.handles j) [
  | some h ↦ add_held h.cb (new_handle h w)
  | none ↦ none
]

unfoldable pub move_construct : ℕ → World → Option World
move_construct j w = elim (get_elem? w.handles j) [
  | some h ↦ some (set_handle j null_handle (new_handle h w))
  | none ↦ none
]

-- `reset()`, which is the destructor as well.
unfoldable pub reset : ℕ → World → Option World
reset i w = elim (get_elem? w.handles i) [
  | some h ↦ elim (release_held h.cb w) [
    | some w' ↦ some (set_handle i null_handle w')
    | none ↦ none
  ]
  | none ↦ none
]

-- `reset(pointer, d)`
abbrev adopt : ℕ → ℕ → ℕ → World → World
adopt i obj d w =
    if obj == 0
    then set_handle i null_handle w
    else set_handle i (record { obj = obj; cb = some (length w.blocks) }) (new_block obj d w)

unfoldable pub reset_to : ℕ → ℕ → ℕ → World → Option World
reset_to i obj d w = elim (get_elem? w.handles i) [
  | some h ↦ elim (release_held h.cb w) [ some w' ↦ some (adopt i obj d w') | none ↦ none ]
  | none ↦ none
]

-- The two assignments, of the object `j` to the object `i`.
pub copy_from : ℕ → ℕ → World → Option World
copy_from i j w = elim (get_elem? w.handles j) [
  | some h ↦ add_held h.cb (set_handle i h w)
  | none ↦ none
]

pub move_from : ℕ → ℕ → World → Option World
move_from i j w = elim (get_elem? w.handles j) [
  | some h ↦ some (set_handle j null_handle (set_handle i h w))
  | none ↦ none
]

unfoldable pub copy_assign : ℕ → ℕ → World → Option World
copy_assign i j w = elim (i == j) [
  | true ↦ some w
  | false ↦ elim (get_elem? w.handles i) [
    | some h ↦ elim (release_held h.cb w) [ some w' ↦ copy_from i j w' | none ↦ none ]
    | none ↦ none
  ]
]

unfoldable pub move_assign : ℕ → ℕ → World → Option World
move_assign i j w = elim (i == j) [
  | true ↦ some w
  | false ↦ elim (get_elem? w.handles i) [
    | some h ↦ elim (release_held h.cb w) [ some w' ↦ move_from i j w' | none ↦ none ]
    | none ↦ none
  ]
]

-- `control_block::use_count`, and `use_count`.
pub read_count : ℕ → World → Option ℕ
read_count b w = elim (block_at b w) [ some k ↦ some k.count | none ↦ none ]

abbrev pub count_held : Option ℕ → World → Option ℕ
count_held none w = some 0
count_held (some b) w = read_count b w

abbrev pub use_count : Handle → World → Option ℕ
use_count h w = count_held h.cb w

-- `operator->`, which `operator*` follows, and `operator bool`.
abbrev pub arrow : Handle → ℕ
arrow h = h.obj

abbrev pub is_set : Handle → Bool
is_set h = not (h.obj == 0)

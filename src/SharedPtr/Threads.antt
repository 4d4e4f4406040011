-- ===== src/SharedPtr/Threads.antt =====
-- One control block whose `shared_ptr` objects are used by several threads, each object by one at a
-- time. Every access of the count is one atomic step, and what `release` does behind it are further
-- steps; the steps of all objects interleave in any order. A move passes an object on and is no step.
use quickstructs.Prelude.{
  ℕ, Bool, true, false, Option, none, some, List, [], ◌∷◌, ◌++◌, get_elem?, set, ◌==◌,
  if◌then◌else◌,
}
use quickstructs.SharedPtr.{Block, Deletion, call_deleter, count_up, count_down}

-- Where an object stands: it owns, it was the last one and has its deleter still to call, it has to
-- free the block, or it is through.
pub data Holder : Type 0 where
  owner : Holder
  last : Holder
  cleared : Holder
  gone : Holder

-- The block, `none` when it is freed, and whether a freed block was used.
pub record Shared : Type 0 where
  pub block : Option Block
  pub holders : List Holder
  pub deletions : List Deletion
  pub faulted : Bool

-- The first object, behind its constructor.
abbrev pub start : ℕ → ℕ → Shared
start obj d = record {
  block = some (record { count = 1; obj = obj; deleter = d });
  holders = owner ∷ [];
  deletions = [];
  faulted = false;
}

-- A use of the block.
abbrev pub with_block : Shared → (Block → Shared) → Shared
with_block s f = elim s.block [ some k ↦ f k | none ↦ record s { faulted = true } ]

-- `add_ref` in the copy constructor and the copy assignment.
abbrev pub copy : Holder → Shared → Shared
copy owner s =
    with_block s (λ k. record s { block = some (count_up k); holders = s.holders ++ owner ∷ [] })
copy last s = s
copy cleared s = s
copy gone s = s

-- The next step of `release` for the object `i`: `fetch_sub` with its test, the call of the deleter,
-- and the end of the block.
abbrev pub release_step : ℕ → Holder → Shared → Shared
release_step i owner s = with_block s (λ k. record s {
  block = some (count_down k);
  holders = set s.holders i (if k.count == 1 then last else gone);
})
release_step i last s = with_block s (λ k. record s {
  block = some (record k { obj = 0 });
  deletions = call_deleter k s.deletions;
  holders = set s.holders i cleared;
})
release_step i cleared s =
    with_block s (λ k. record s { block = none; holders = set s.holders i gone })
release_step i gone s = s

-- An object that does not exist has no step.
pub data Event : Type 0 where
  copy_event : ℕ → Event
  release_event : ℕ → Event

unfoldable pub step : Event → Shared → Shared
step (copy_event i) s = elim (get_elem? s.holders i) [ some h ↦ copy h s | none ↦ s ]
step (release_event i) s = elim (get_elem? s.holders i) [ some h ↦ release_step i h s | none ↦ s ]

unfoldable pub run : List Event → Shared → Shared
run [] s = s
run (e ∷ es) s = run es (step e s)

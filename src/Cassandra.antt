-- ===== src/Cassandra.antt =====
-- include/quick/io/Cassandra.hh. The driver is not in the repository. The model keeps the order of the
-- calls and a ledger of the objects that the code has made and not freed: an object is the number of
-- its creation, and a call on an object that is not in the ledger is a fault, `none`. What the driver
-- answers is a parameter: whether the future of a number has the code `CASS_OK`, whether the iterator of
-- a number has a row, and whether the assertions hold. Values has the values bound, read and asserted.
pub mod Freed
pub mod Values
mod Tests
use quickstructs.Prelude.{
  ℕ, ◌+◌, Bool, true, false, not, ◌||◌, Option, none, some, List, [], ◌∷◌, ◌==◌, if◌then◌else◌,
  ◌>>=◌,
}

-- How `init_db` ends: it returns, or one of its assertions fails and the program is aborted.
pub data Ending : Type 0 where
  returned : Bool → Ending
  aborted : Ending

-- The number of the next object, and the objects that are not freed, the last one made first.
pub record Ledger : Type 0 where
  pub next : ℕ
  pub alive : List ℕ

abbrev pub is_alive : ℕ → List ℕ → Bool
is_alive i [] = false
is_alive i (j ∷ js) = j == i || is_alive i js

abbrev pub remove : ℕ → List ℕ → List ℕ
remove i [] = []
remove i (j ∷ js) = if j == i then js else j ∷ remove i js

-- A call that makes an object, one that reads it, and one that frees it.
abbrev pub create : Ledger → Ledger
create d = record { next = d.next + 1; alive = d.next ∷ d.alive }

pub read : ℕ → Ledger → Option Ledger
read i d = if is_alive i d.alive then some d else none

pub free : ℕ → Ledger → Option Ledger
free i d =
    if is_alive i d.alive then some (record { next = d.next; alive = remove i d.alive }) else none

-- `print_error`, and the test of the error code before it.
abbrev pub check_future : (ℕ → Bool) → ℕ → Ledger → Option Ledger
check_future is_ok future d = if is_ok future then read future d else read future d >>= read future

-- `create_cluster`, which sets the contact points of the new cluster.
abbrev pub create_cluster : Ledger → Option Ledger
create_cluster d = read d.next (create d)

module _ (is_ok : ℕ → Bool) where
  -- `connect_session`
  pub connect_session : ℕ → ℕ → Ledger → Option (Bool × Ledger)
  connect_session session cluster d = do
    d1 ← read session d
    d2 ← read cluster d1
    let future = d2.next
    d3 ← read future (create d2)
    d4 ← check_future is_ok future d3
    d5 ← free future d4
    some (is_ok future, d5)

  -- `execute_query`, and `insert_into_basic`, which binds values to the statement as well.
  pub execute_query : ℕ → Ledger → Option (Bool × Ledger)
  execute_query session d = do
    let statement = d.next
    d1 ← read session (create d)
    d2 ← read statement d1
    let future = d2.next
    d3 ← read future (create d2)
    d4 ← check_future is_ok future d3
    d5 ← free future d4
    d6 ← free statement d5
    some (is_ok future, d6)

  pub insert_into_basic : ℕ → Ledger → Option (Bool × Ledger)
  insert_into_basic session d = do
    let statement = d.next
    d0 ← read statement (create d)
    d1 ← read session d0
    d2 ← read statement d1
    let future = d2.next
    d3 ← read future (create d2)
    d4 ← check_future is_ok future d3
    d5 ← free future d4
    d6 ← free statement d5
    some (is_ok future, d6)

  module _ (has_row : ℕ → Bool) where
    -- The branch of `select_from_basic` with a result; the test says whether a row was read.
    abbrev pub read_result : ℕ → Ledger → Option (Bool × Ledger)
    read_result future d = do
      d1 ← read future d
      let result = d1.next
      d2 ← read result (create d1)
      let iterator = d2.next
      d3 ← read iterator (create d2)
      d4 ← (if has_row iterator then read iterator d3 else some d3)
      d5 ← free result d4
      d6 ← free iterator d5
      some (has_row iterator, d6)

    abbrev pub read_nothing : ℕ → Ledger → Option (Bool × Ledger)
    read_nothing future d = do d1 ← read future d; some (false, d1)

    pub select_from_basic : ℕ → Ledger → Option (Bool × Bool × Ledger)
    select_from_basic session d = do
      let statement = d.next
      d0 ← read statement (create d)
      d1 ← read session d0
      d2 ← read statement d1
      let future = d2.next
      d3 ← read future (create d2)
      d4 ← read future d3
      (row, d5) ← (if is_ok future then read_result future d4 else read_nothing future d4)
      d6 ← free future d5
      d7 ← free statement d6
      some (is_ok future, row, d7)

    -- `init_db` behind the connection, and whole; `holds` says whether the five assertions hold for the
    -- output, which is not initialised: where `select_from_basic` has read a row to it, and where not.
    abbrev pub close : ℕ → ℕ → Ledger → Option (Ending × Ledger)
    close session cluster d = do d1 ← free session d; d2 ← free cluster d1; some (returned true, d2)

    abbrev pub use_session : (Bool → Bool) → ℕ → ℕ → Ledger → Option (Ending × Ledger)
    use_session holds session cluster d = do
      r1 ← execute_query session d
      r2 ← execute_query session r1.1
      r3 ← insert_into_basic session r2.1
      (rc, row, d4) ← select_from_basic session r3.1
      if holds row then close session cluster d4 else some (aborted, d4)

    abbrev pub give_up : ℕ → ℕ → Ledger → Option (Ending × Ledger)
    give_up session cluster d = do
      d1 ← free cluster d
      d2 ← free session d1
      some (returned false, d2)

    pub init_db : (Bool → Bool) → Ledger → Option (Ending × Ledger)
    init_db holds d = do
      let session = d.next
      let d0 = create d
      let cluster = d0.next
      d1 ← create_cluster d0
      r ← connect_session session cluster d1
      if r.0 then use_session holds session cluster r.1 else give_up session cluster r.1

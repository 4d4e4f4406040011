-- ===== src/UniquePtr/Runs.antt =====
-- Sequences of calls on any number of unique pointers.
use quickstructs.Prelude.{
  ℕ, ◌+◌, ◌<◌, Option, none, some, List, [], ◌∷◌, ◌++◌, get_elem?, set, ◌==◌, if◌then◌else◌,
}
use quickstructs.UniquePtr.{UniquePtr, Deletion, make, move_make, release, reset, move_assign, swap}

module _ (D : Type 0) where
  -- The pointers by index, the calls of the deleters, and two records of what the caller did: the
  -- objects that were released, and those that were given to a pointer, each with its deleter.
  pub record World : Type 0 where
    pub pointers : List (UniquePtr D)
    pub log : List (Deletion D)
    pub released : List (Deletion D)
    pub given : List (Deletion D)

  pub data Call : Type 0 where
    make_call : ℕ → D → Call
    move_make_call : ℕ → Call
    release_call : ℕ → Call
    reset_call : ℕ → ℕ → Call
    move_assign_call : ℕ → ℕ → Call
    swap_call : ℕ → ℕ → Call

module _ {D : Type 0} where
  abbrev pub entry : D → ℕ → Deletion D
  entry d p = record { by = d; object = p }

  -- The pointer of an index; a call on one that does not exist is `none`.
  abbrev pub with_pointer : ℕ → World D → (UniquePtr D → World D) → Option (World D)
  with_pointer i w f = elim (get_elem? w.pointers i) [ some u ↦ some (f u) | none ↦ none ]

  abbrev pub with_two : ℕ → ℕ → World D → (UniquePtr D → UniquePtr D → World D) → Option (World D)
  with_two i j w f = elim (get_elem? w.pointers i) [ some u ↦ with_pointer j w (f u) | none ↦ none ]

  abbrev pub make_at : ℕ → D → World D → World D
  make_at p d w = record w { pointers = w.pointers ++ make p d ∷ []; given = entry d p ∷ w.given }

  abbrev pub move_make_at : ℕ → World D → UniquePtr D → World D
  move_make_at j w other =
      let (u, other') = move_make other in
      record w { pointers = set (w.pointers ++ u ∷ []) j other' }

  abbrev pub release_at : ℕ → World D → UniquePtr D → World D
  release_at i w u =
      let (p, u') = release u in
      record w { pointers = set w.pointers i u'; released = entry u.deleter p ∷ w.released }

  -- `reset`, and with 0 the destructor and the assignment of `nullptr`.
  abbrev pub reset_at : ℕ → ℕ → World D → UniquePtr D → World D
  reset_at i p w u =
      let (u', log') = reset u p w.log in
      record w { pointers = set w.pointers i u'; log = log'; given = entry u.deleter p ∷ w.given }

  abbrev pub move_assign_at : ℕ → ℕ → World D → UniquePtr D → UniquePtr D → World D
  move_assign_at i j w u other =
      if i == j
      then w
      else (let (u', other', log') = move_assign u other w.log in
          record w { pointers = set (set w.pointers i u') j other'; log = log' })

  abbrev pub swap_at : ℕ → ℕ → World D → UniquePtr D → UniquePtr D → World D
  swap_at i j w u other =
      let (u', other') = swap u other in record w { pointers = set (set w.pointers i u') j other' }

  abbrev pub call : Call D → World D → Option (World D)
  call (make_call p d) w = some (make_at p d w)
  call (move_make_call j) w = with_pointer j w (move_make_at j w)
  call (release_call i) w = with_pointer i w (release_at i w)
  call (reset_call i p) w = with_pointer i w (reset_at i p w)
  call (move_assign_call i j) w = with_two i j w (move_assign_at i j w)
  call (swap_call i j) w = with_two i j w (swap_at i j w)

  unfoldable pub run : List (Call D) → World D → Option (World D)
  run [] w = some w
  run (c ∷ cs) w = elim (call c w) [ some w' ↦ run cs w' | none ↦ none ]

  abbrev pub grows : Call D → ℕ → ℕ
  grows (make_call p d) n = n + 1
  grows (move_make_call j) n = n + 1
  grows (release_call i) n = n
  grows (reset_call i p) n = n
  grows (move_assign_call i j) n = n
  grows (swap_call i j) n = n

  -- The calls are on pointers that exist.
  abbrev pub Exist : Call D → ℕ → Type 0
  Exist (make_call p d) n = Unit
  Exist (move_make_call j) n = j < n
  Exist (release_call i) n = i < n
  Exist (reset_call i p) n = i < n
  Exist (move_assign_call i j) n = (i < n) × (j < n)
  Exist (swap_call i j) n = (i < n) × (j < n)

  abbrev pub AllExist : List (Call D) → ℕ → Type 0
  AllExist [] n = Unit
  AllExist (c ∷ cs) n = Exist c n × AllExist cs (grows c n)

abbrev pub empty : (D : Type 0) → World D
empty D = record { pointers = []; log = []; released = []; given = [] }

-- ===== src/SharedPtr/Runs.antt =====
-- Any sequence of calls on handles that exist.
use mathlib.Core.Option.{some-injective}
use quickstructs.Prelude.{
  ℕ, ◌+◌, ◌^◌, ◌≤◌, ◌<◌, ◌≡◌, refl, sym, ap, ◌∙◌, subst, Option, none, some, List, [], ◌∷◌, length,
  get_elem?, arith,
}
use quickstructs.SharedPtr.{
  Handle, World, start, construct_null, construct, copy_construct, move_construct, reset, reset_to,
  copy_assign, move_assign,
}
use quickstructs.Sums.{sum_by_zero}
use quickstructs.SharedPtr.Blocks.{held, deleted, alive, no_object}
use quickstructs.SharedPtr.Effects.{adopts}
use quickstructs.SharedPtr.Owners.{IsValid, Returns, alive-zero}
use quickstructs.SharedPtr.Calls.{
  construct-Returns, construct_null-Returns, reset-Returns, reset_to-Returns,
  copy_construct-Returns, move_construct-Returns,
}
use quickstructs.SharedPtr.Assign.{copy_assign-Returns, move_assign-Returns}

-- The calls; the destructor is `reset_call`.
pub data Call : Type 0 where
  null_call : Call
  construct_call : ℕ → ℕ → Call
  copy_call : ℕ → Call
  move_call : ℕ → Call
  reset_call : ℕ → Call
  reset_to_call : ℕ → ℕ → ℕ → Call
  copy_assign_call : ℕ → ℕ → Call
  move_assign_call : ℕ → ℕ → Call

abbrev pub call : Call → World → Option World
call null_call = construct_null
call (construct_call obj d) = construct obj d
call (copy_call j) = copy_construct j
call (move_call j) = move_construct j
call (reset_call i) = reset i
call (reset_to_call i obj d) = reset_to i obj d
call (copy_assign_call i j) = copy_assign i j
call (move_assign_call i j) = move_assign i j

unfoldable pub run : List Call → World → Option World
run [] w = some w
run (c ∷ cs) w = elim (call c w) [ some w' ↦ run cs w' | none ↦ none ]

-- The number of handles after a call, the handles that it needs, and the objects it adopts.
abbrev pub grows : Call → ℕ → ℕ
grows null_call n = n + 1
grows (construct_call obj d) n = n + 1
grows (copy_call j) n = n + 1
grows (move_call j) n = n + 1
grows (reset_call i) n = n
grows (reset_to_call i obj d) n = n
grows (copy_assign_call i j) n = n
grows (move_assign_call i j) n = n

abbrev pub Exist : Call → ℕ → Type 0
Exist null_call n = Unit
Exist (construct_call obj d) n = Unit
Exist (copy_call j) n = j < n
Exist (move_call j) n = j < n
Exist (reset_call i) n = i < n
Exist (reset_to_call i obj d) n = i < n
Exist (copy_assign_call i j) n = (i < n) × (j < n)
Exist (move_assign_call i j) n = (i < n) × (j < n)

abbrev pub AllExist : List Call → ℕ → Type 0
AllExist [] n = Unit
AllExist (c ∷ cs) n = Exist c n × AllExist cs (grows c n)

abbrev pub adopted_by : Call → ℕ → ℕ → ℕ
adopted_by null_call = no_object
adopted_by (construct_call obj d) = adopts obj d
adopted_by (copy_call j) = no_object
adopted_by (move_call j) = no_object
adopted_by (reset_call i) = no_object
adopted_by (reset_to_call i obj d) = adopts obj d
adopted_by (copy_assign_call i j) = no_object
adopted_by (move_assign_call i j) = no_object

abbrev pub all_adopted : List Call → ℕ → ℕ → ℕ
all_adopted [] d p = 0
all_adopted (c ∷ cs) d p = adopted_by c d p + all_adopted cs d p

call-Returns :
    (c : Call) (w : World)
    → IsValid w
    → length w.handles + 1 < 2 ^ 64
    → Exist c (length w.handles)
    → Returns (adopted_by c) (grows c (length w.handles)) w (call c w)
call-Returns null_call w v fits e = construct_null-Returns w v
call-Returns (construct_call obj d) w v fits e = construct-Returns obj d w v
call-Returns (copy_call j) w v fits e = copy_construct-Returns j w v fits e
call-Returns (move_call j) w v fits e = move_construct-Returns j w v e
call-Returns (reset_call i) w v fits e = reset-Returns i w v (omega arith) e
call-Returns (reset_to_call i obj d) w v fits e = reset_to-Returns i obj d w v (omega arith) e
call-Returns (copy_assign_call i j) w v fits e = copy_assign-Returns i j w v fits e.0 e.1
call-Returns (move_assign_call i j) w v fits e = move_assign-Returns i j w v (omega arith) e.0 e.1

grows_le : (c : Call) (n : ℕ) → grows c n ≤ n + 1
grows_le null_call n = omega arith
grows_le (construct_call obj d) n = omega arith
grows_le (copy_call j) n = omega arith
grows_le (move_call j) n = omega arith
grows_le (reset_call i) n = omega arith
grows_le (reset_to_call i obj d) n = omega arith
grows_le (copy_assign_call i j) n = omega arith
grows_le (move_assign_call i j) n = omega arith

-- What a sequence of calls leaves.
pub record Ran (cs : List Call) (w : World) : Type 0 where
  pub after : World
  pub is : run cs w ≡ some after
  pub valid : IsValid after
  pub ledger :
      (d p : ℕ)
      → 0 < p
      → deleted d p after + alive d p after ≡ deleted d p w + alive d p w + all_adopted cs d p

-- Any sequence of calls on handles that exist, fewer than 2^64 with the handles before, returns
-- without reading a freed control block; the count of each control block is then the number of the
-- handles that share it, and each time an object was adopted it is in one live control block or was
-- deleted once.
pub run-Ran :
    (cs : List Call) (w : World)
    → IsValid w
    → length w.handles + length cs + 1 < 2 ^ 64
    → AllExist cs (length w.handles)
    → Ran cs w
unfolding run
run-Ran [] w v fits e = record { after = w; is = refl; valid = v; ledger = λ d p l. omega arith }
run-Ran (c ∷ cs) w v fits e =
    let r = call-Returns c w v (omega arith) e.0 in
    let rest =
      run-Ran cs r.after r.valid (omega (arith, r.size_is, grows_le c (length w.handles)))
        (subst (AllExist cs) (sym r.size_is) e.1) in
    record {
      after = rest.after;
      is = rw (r.is, run) rest.is;
      valid = rest.valid;
      ledger = λ d p l. omega (arith, rest.ledger d p l, r.adopted.ledger d p l);
    }

pub start-IsValid : IsValid start
start-IsValid = record { counted = λ b. refl; live = λ b k f. ground (arith, f) }

-- When a sequence of calls from nothing leaves no handle with a control block, each object was given
-- to its deleter exactly as often as it was adopted.
pub run-deleted :
    (cs : List Call) (w : World) (d p : ℕ)
    → length cs + 1 < 2 ^ 64
    → AllExist cs 0
    → run cs start ≡ some w
    → ((i : ℕ) (h : Handle) → get_elem? w.handles i ≡ some h → h.cb ≡ none)
    → 0 < p
    → deleted d p w ≡ all_adopted cs d p
run-deleted cs w d p fits e is empty l =
    let r = run-Ran cs start start-IsValid (omega arith) e in
    let same : r.after ≡ w = some-injective _ _ (sym r.is ∙ is) in
    let gone =
      alive-zero d p w (subst IsValid same r.valid) (λ b.
        sum_by_zero (λ k. held k.cb b) w.handles (λ i h f. ap (λ c. held c b) (empty i h f))) in
    omega (arith, r.ledger d p l, gone, ap (deleted d p) same, ap (alive d p) same)

-- ===== src/Socket/Closing.antt =====
-- Every descriptor that a socket object was given is held by one, or was closed once.
use quickstructs.Prelude.{
  ℕ, ◌+◌, ◌<◌, ◌≡◌, ◌≢◌, refl, sym, ◌∙◌, subst, Option, none, some, List, [], ◌∷◌, ◌++◌, length,
  length-append, get_elem?, get_elem?_of_lt, get_elem?-concat, set, ◌==◌, if◌then◌else◌, ℤ, pos,
  negsuc, arith, Bool-cases, inl, inr,
}
use quickstructs.Sums.{sum_by, sum_by-append, sum_by-set, length-set, get_elem?-set-other}
use quickstructs.Socket.{
  World, bad_fd, close_if_open, make, move_make, reset, destroy, take_from, move_assign,
}

abbrev pub is_number : ℕ → ℤ → ℕ
is_number n (pos m) = if m == n then 1 else 0
is_number n (negsuc m) = 0

-- How often the descriptor `n` is held, and was closed.
abbrev pub tally : ℕ → World → ℕ
tally n w = sum_by (is_number n) w.sockets + sum_by (is_number n) w.closed

-- The call returns, leaves `size` objects, and takes over the descriptor `fd`.
pub record Takes (fd : ℤ) (size : ℕ) (w : World) (out : Option World) : Type 0 where
  pub after : World
  pub is : out ≡ some after
  pub tallied : (n : ℕ) → tally n after ≡ tally n w + is_number n fd
  pub size_is : length after.sockets ≡ size

pub closed_or_not :
    (n : ℕ) (fd : ℤ) (log : List ℤ)
    → sum_by (is_number n) (close_if_open fd log) ≡ sum_by (is_number n) log + is_number n fd
closed_or_not n (pos m) log = ground arith
closed_or_not n (negsuc m) log = ground arith

make-Takes : (fd : ℤ) (w : World) → Takes fd (length w.sockets + 1) w (some (make fd w))
unfolding make
make-Takes fd w = record {
  after = make fd w;
  is = refl;
  tallied = λ n. omega (arith, sum_by-append (is_number n) w.sockets fd);
  size_is = length-append w.sockets (fd ∷ []);
}

move_make-Takes :
    (j : ℕ) (w : World)
    → j < length w.sockets
    → Takes bad_fd (length w.sockets + 1) w (move_make j w)
unfolding move_make
move_make-Takes j w l =
    let (fd, e) = get_elem?_of_lt w.sockets j l in
    let inside : get_elem? (w.sockets ++ fd ∷ []) j ≡ some fd =
      ground (arith, get_elem?-concat w.sockets fd j, e) in
    record {
      after = record w { sockets = set (w.sockets ++ fd ∷ []) j bad_fd };
      is = rw (e, move_make) refl;
      tallied = λ n. omega (
        arith,
        sum_by-append (is_number n) w.sockets fd,
        sum_by-set (is_number n) (w.sockets ++ fd ∷ []) j fd bad_fd inside,
      );
      size_is = length-set (w.sockets ++ fd ∷ []) j bad_fd ∙ length-append w.sockets (fd ∷ []);
    }

reset-Takes :
    (i : ℕ) (newfd : ℤ) (w : World)
    → i < length w.sockets
    → Takes newfd (length w.sockets) w (reset i newfd w)
unfolding reset
reset-Takes i newfd w l =
    let (fd, e) = get_elem?_of_lt w.sockets i l in
    record {
      after = record { sockets = set w.sockets i newfd; closed = close_if_open fd w.closed };
      is = rw (e, reset) refl;
      tallied = λ n.
          omega
            (arith, closed_or_not n fd w.closed, sum_by-set (is_number n) w.sockets i fd newfd e);
      size_is = length-set w.sockets i newfd;
    }

take_from-Takes :
    (i j : ℕ) (w : World)
    → i ≢ j
    → i < length w.sockets
    → j < length w.sockets
    → Takes bad_fd (length w.sockets) w (take_from i j w)
unfolding reset
take_from-Takes i j w n li lj =
    let (fd, e) = get_elem?_of_lt w.sockets i li in
    let (g, f) = get_elem?_of_lt w.sockets j lj in
    record {
      after = record {
        sockets = set (set w.sockets i g) j bad_fd;
        closed = close_if_open fd w.closed;
      };
      is = rw (f, take_from, e, reset) refl;
      tallied = λ m. omega (
        arith,
        closed_or_not m fd w.closed,
        sum_by-set (is_number m) w.sockets i fd g e,
        sum_by-set (is_number m) (set w.sockets i g) j g bad_fd
            (get_elem?-set-other w.sockets i j g n ∙ f),
      );
      size_is = length-set (set w.sockets i g) j bad_fd ∙ length-set w.sockets i g;
    }

move_assign-Takes :
    (i j : ℕ) (w : World)
    → i < length w.sockets
    → j < length w.sockets
    → Takes bad_fd (length w.sockets) w (move_assign i j w)
unfolding move_assign
move_assign-Takes i j w li lj = elim (Bool-cases (i == j)) [
  | inl q ↦
      rw (q, move_assign)
        (record { after = w; is = refl; tallied = λ n. omega arith; size_is = refl })
  | inr q ↦ rw (q, move_assign) (take_from-Takes i j w (λ y. ground (arith, y, q)) li lj)
]

-- The calls on socket objects.
pub data Call : Type 0 where
  make_call : ℤ → Call
  move_make_call : ℕ → Call
  reset_call : ℕ → ℤ → Call
  destroy_call : ℕ → Call
  move_assign_call : ℕ → ℕ → Call

abbrev pub call : Call → World → Option World
call (make_call fd) w = some (make fd w)
call (move_make_call j) w = move_make j w
call (reset_call i fd) w = reset i fd w
call (destroy_call i) w = destroy i w
call (move_assign_call i j) w = move_assign i j w

unfoldable pub run : List Call → World → Option World
run [] w = some w
run (c ∷ cs) w = elim (call c w) [ some w' ↦ run cs w' | none ↦ none ]

abbrev pub grows : Call → ℕ → ℕ
grows (make_call fd) n = n + 1
grows (move_make_call j) n = n + 1
grows (reset_call i fd) n = n
grows (destroy_call i) n = n
grows (move_assign_call i j) n = n

abbrev pub taken : Call → ℤ
taken (make_call fd) = fd
taken (move_make_call j) = bad_fd
taken (reset_call i fd) = fd
taken (destroy_call i) = bad_fd
taken (move_assign_call i j) = bad_fd

abbrev pub all_taken : List Call → ℕ → ℕ
all_taken [] n = 0
all_taken (c ∷ cs) n = is_number n (taken c) + all_taken cs n

abbrev pub Exist : Call → ℕ → Type 0
Exist (make_call fd) n = Unit
Exist (move_make_call j) n = j < n
Exist (reset_call i fd) n = i < n
Exist (destroy_call i) n = i < n
Exist (move_assign_call i j) n = (i < n) × (j < n)

abbrev pub AllExist : List Call → ℕ → Type 0
AllExist [] n = Unit
AllExist (c ∷ cs) n = Exist c n × AllExist cs (grows c n)

call-Takes :
    (c : Call) (w : World)
    → Exist c (length w.sockets)
    → Takes (taken c) (grows c (length w.sockets)) w (call c w)
unfolding destroy
call-Takes (make_call fd) w e = make-Takes fd w
call-Takes (move_make_call j) w e = move_make-Takes j w e
call-Takes (reset_call i fd) w e = reset-Takes i fd w e
call-Takes (destroy_call i) w e = reset-Takes i bad_fd w e
call-Takes (move_assign_call i j) w e = move_assign-Takes i j w e.0 e.1

-- Any sequence of calls on objects that exist returns, and each time an object was given a
-- descriptor, one object holds it afterwards or it was closed once.
pub run-tally :
    (cs : List Call) (w : World)
    → AllExist cs (length w.sockets)
    → (w' : World) × (run cs w ≡ some w') × ((n : ℕ) → tally n w' ≡ tally n w + all_taken cs n)
unfolding run
run-tally [] w e = (w, refl, λ n. omega arith)
run-tally (c ∷ cs) w e =
    let t = call-Takes c w e.0 in
    let (w', r, h) = run-tally cs t.after (subst (AllExist cs) (sym t.size_is) e.1) in
    (w', rw (t.is, run) r, λ n. omega (arith, h n, t.tallied n))

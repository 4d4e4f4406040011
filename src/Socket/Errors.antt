-- ===== src/Socket/Errors.antt =====
-- The results of the client and the server, and the descriptor on every path.
use quickstructs.Prelude.{
  ℕ, ◌+◌, ◌≡◌, refl, sym, ap, ◌∙◌, Bool, true, false, not, if◌then◌else◌, ℤ, pos, negsuc, leb_ℤ,
  arith, Bool-cases, inl, inr,
}
use quickstructs.Sums.{sum_by}
use quickstructs.Socket.{
  Tcp, Expected, value, unexpected, bad_socket, bind_fail, listen_fail, connect_fail, invalid_ip,
  fails, close_if_open, create_socket, connect_to_server, start,
}
use quickstructs.Socket.Closing.{is_number, closed_or_not}

-- How often the descriptor `n` is the object's, and was closed.
abbrev pub tcp_tally : ℕ → Tcp → ℕ
tcp_tally n t = is_number n t.sock + sum_by (is_number n) t.closed

-- The descriptor that `socket` returned, if it succeeded.
abbrev pub opened : ℕ → ℤ → ℕ
opened n fd = is_number n fd

create_socket-tally :
    (n : ℕ) (fd : ℤ) (t : Tcp) → tcp_tally n (create_socket fd t).1 ≡ tcp_tally n t + opened n fd
unfolding create_socket
create_socket-tally n (pos m) t =
    let o : fails (pos m) ≡ false = ground arith in
    rw o (omega (arith, closed_or_not n t.sock t.closed))
create_socket-tally n (negsuc m) t =
    let o : fails (negsuc m) ≡ true = ground arith in rw o (omega arith)

create_socket-fails : (fd : ℤ) (t : Tcp) → fails fd ≡ true → create_socket fd t ≡ (false, t)
unfolding create_socket
create_socket-fails fd t o = rw o refl

create_socket_works :
    (fd : ℤ) (t : Tcp)
    → fails fd ≡ false
    → create_socket fd t
      ≡ (true, record { sock = fd; running = t.running; closed = close_if_open t.sock t.closed })
unfolding create_socket
create_socket_works fd t o = rw o refl

-- Three tests that leave the same state.
same_state :
    {A S : Type 0} (a b c : Bool) (w x y z : A) (s : S)
    → (if◌then◌else◌ {A = A × S} a (w, s) (if b then (x, s) else if c then (y, s) else (z, s))).1
      ≡ s
same_state true b c w x y z s = refl
same_state false true c w x y z s = refl
same_state false false true w x y z s = refl
same_state false false false w x y z s = refl

-- The first step that failed.
abbrev pub connect_outcome : ℤ → ℤ → (ℤ → ℤ) → Expected Unit
connect_outcome fd inet_pton connect =
    if fails fd
    then unexpected bad_socket
    else if leb_ℤ inet_pton (pos 0)
    then unexpected invalid_ip
    else if fails (connect fd)
    then unexpected connect_fail
    else value (record {})

pick_first :
    {A S : Type 0} (b c : Bool) (x y z : A) (s : S)
    → (if◌then◌else◌ {A = A × S} b (x, s) (if c then (y, s) else (z, s))).0
      ≡ (if b then x else if c then y else z)
pick_first true c x y z s = refl
pick_first false true x y z s = refl
pick_first false false x y z s = refl

connect_to_server-result :
    (fd inet_pton : ℤ) (connect : ℤ → ℤ) (t : Tcp)
    → (connect_to_server fd inet_pton connect t).0 ≡ connect_outcome fd inet_pton connect
unfolding connect_to_server
connect_to_server-result fd inet_pton connect t = elim (Bool-cases (fails fd)) [
  | inl o ↦ rw (create_socket-fails fd t o, o) refl
  | inr o ↦
      rw (create_socket_works fd t o, o)
        (pick_first (leb_ℤ inet_pton (pos 0)) (fails (connect fd)) (unexpected invalid_ip)
          (unexpected connect_fail) (value (record {})) _)
]

connect_to_server-tally :
    (n : ℕ) (fd inet_pton : ℤ) (connect : ℤ → ℤ) (t : Tcp)
    → tcp_tally n (connect_to_server fd inet_pton connect t).1 ≡ tcp_tally n t + opened n fd
unfolding connect_to_server
connect_to_server-tally n fd inet_pton connect t =
    ap (tcp_tally n) (
      same_state (not (create_socket fd t).0) (leb_ℤ inet_pton (pos 0))
        (fails (connect (create_socket fd t).1.sock)) (unexpected bad_socket)
        (unexpected invalid_ip) (unexpected connect_fail) (value (record {}))
        (create_socket fd t).1)
    ∙ create_socket-tally n fd t

-- `connect_to_server` reports the first step that failed, and `connect` gets the new descriptor; and on
-- every path the descriptor that `socket` returned is held by the object or was closed once, and so is
-- the one that the object held before.
pub connect_to_server-outcome :
    (n : ℕ) (fd inet_pton : ℤ) (connect : ℤ → ℤ) (t : Tcp)
    → ((connect_to_server fd inet_pton connect t).0 ≡ connect_outcome fd inet_pton connect)
      × (tcp_tally n (connect_to_server fd inet_pton connect t).1 ≡ tcp_tally n t + opened n fd)
connect_to_server-outcome n fd inet_pton connect t = (
  connect_to_server-result fd inet_pton connect t,
  connect_to_server-tally n fd inet_pton connect t,
)

abbrev pub start_outcome : ℤ → (ℤ → ℤ) → (ℤ → ℤ) → Expected Unit
start_outcome fd bind listen =
    if fails fd
    then unexpected bad_socket
    else if fails (bind fd)
    then unexpected bind_fail
    else if fails (listen fd)
    then unexpected listen_fail
    else value (record {})

abbrev pub succeeds : Expected Unit → Bool
succeeds (value u) = true
succeeds (unexpected e) = false

-- `start` reports the first step that failed, marks the server as running exactly if none did, and
-- on every path the descriptor that `socket` returned is held by the object or was closed once.
pub start-outcome :
    (n : ℕ) (fd : ℤ) (bind listen : ℤ → ℤ) (t : Tcp)
    → t.running ≡ false
    → ((start fd bind listen t).0 ≡ start_outcome fd bind listen)
      × ((start fd bind listen t).1.running ≡ succeeds (start_outcome fd bind listen))
      × (tcp_tally n (start fd bind listen t).1 ≡ tcp_tally n t + opened n fd)
unfolding start
start-outcome n fd bind listen t r = elim (Bool-cases (fails fd)) [
  | inl o ↦
      let k = create_socket-tally n fd t in
      let k' : tcp_tally n t ≡ tcp_tally n t + opened n fd =
        sym (ap (λ (s : Bool × Tcp). tcp_tally n s.1) (create_socket-fails fd t o)) ∙ k in
      rw (create_socket-fails fd t o, o) (refl, r, k')
  | inr o ↦
      let k = create_socket-tally n fd t in
      let k' = sym (ap (λ (s : Bool × Tcp). tcp_tally n s.1) (create_socket_works fd t o)) ∙ k in
      elim (Bool-cases (fails (bind fd))) [
        | inl p ↦ rw (create_socket_works fd t o, o, p) (refl, r, k')
        | inr p ↦ elim (Bool-cases (fails (listen fd))) [
          | inl q ↦ rw (create_socket_works fd t o, o, p, q) (refl, r, k')
          | inr q ↦ rw (create_socket_works fd t o, o, p, q) (refl, refl, k')
        ]
      ]
]

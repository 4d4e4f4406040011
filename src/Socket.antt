-- ===== src/Socket.antt =====
-- include/quick/io: SocketRAII.hh, Tcp.hh, TcpClient.hh and TcpServer.hh, with the errors of
-- error/Error.hh. A file descriptor is an `int`. The system calls are parameters: `socket` gives the
-- descriptor or a negative number, and the others what they return. The calls of `close` are a log,
-- the last one first.
pub mod Closing
pub mod Errors
mod Tests
use quickstructs.Prelude.{
  ℕ, ◌==◌, Bool, true, false, Option, none, some, List, [], ◌∷◌, ◌++◌, length, get_elem?, set, ℤ,
  pos, negsuc, not, ltb_ℤ, leb_ℤ, if◌then◌else◌,
}

-- `SocketRAII` objects by index, and the descriptors closed.
pub record World : Type 0 where
  pub sockets : List ℤ
  pub closed : List ℤ

-- `_fd >= 0`
abbrev pub is_fd : ℤ → Bool
is_fd fd = leb_ℤ (pos 0) fd

-- `SocketRAII::valid`
pub valid : ℤ → Bool
valid fd = is_fd fd

abbrev pub bad_fd : ℤ
bad_fd = negsuc 0

abbrev pub close_if_open : ℤ → List ℤ → List ℤ
close_if_open fd log = if is_fd fd then fd ∷ log else log

-- The constructors: from a descriptor, which is -1 by default, and by move.
pub make : ℤ → World → World
make fd w = record w { sockets = w.sockets ++ fd ∷ [] }

unfoldable pub move_make : ℕ → World → Option World
move_make j w = elim (get_elem? w.sockets j) [
  | some fd ↦ some (record w { sockets = set (w.sockets ++ fd ∷ []) j bad_fd })
  | none ↦ none
]

-- `reset(newfd)`, which is `operator=(int)` as well.
pub reset : ℕ → ℤ → World → Option World
reset i newfd w = elim (get_elem? w.sockets i) [
  | some fd ↦ some (record { sockets = set w.sockets i newfd; closed = close_if_open fd w.closed })
  | none ↦ none
]

-- The destructor; the object is left without a descriptor, since nothing reads it again.
unfoldable pub destroy : ℕ → World → Option World
destroy i w = reset i bad_fd w

-- `operator=(SocketRAII &&)`
abbrev pub take_from : ℕ → ℕ → World → Option World
take_from i j w = elim (get_elem? w.sockets j) [
  | some fd ↦ elim (reset i fd w) [
    | some w' ↦ some (record w' { sockets = set w'.sockets j bad_fd })
    | none ↦ none
  ]
  | none ↦ none
]

unfoldable pub move_assign : ℕ → ℕ → World → Option World
move_assign i j w = elim (i == j) [ true ↦ some w | false ↦ take_from i j w ]

-- `TcpError`; nothing returns `accept_fail`.
pub data TcpError : Type 0 where
  bad_socket : TcpError
  bind_fail : TcpError
  listen_fail : TcpError
  connect_fail : TcpError
  accept_fail : TcpError
  invalid_ip : TcpError
  send_fail : TcpError
  recv_fail : TcpError

-- `std::expected`
pub data Expected (A : Type 0) : Type 0 where
  value : A → Expected A
  unexpected : TcpError → Expected A

-- `Tcp`: its socket, its flag and the descriptors it has closed.
pub record Tcp : Type 0 where
  pub sock : ℤ
  pub running : Bool
  pub closed : List ℤ

-- `Tcp::Tcp`, and the constructors of the client and the server, and `get_fd`.
abbrev pub make_tcp : Tcp
make_tcp = record { sock = bad_fd; running = false; closed = [] }

abbrev pub get_fd : Tcp → ℤ
get_fd t = t.sock

-- `send_data` and `recv_data` give the socket to the system call.
abbrev pub send_data : (ℤ → ℤ) → ℤ → ℤ
send_data sys sock = sys sock

abbrev pub recv_data : (ℤ → ℤ) → ℤ → ℤ
recv_data sys sock = sys sock

-- `ltb_ℤ r 0`, the test of a system call's result.
abbrev pub fails : ℤ → Bool
fails r = ltb_ℤ r (pos 0)

-- `Tcp::create_socket`; the argument is what `socket` returns.
pub create_socket : ℤ → Tcp → Bool × Tcp
create_socket fd t =
    if fails fd
    then (false, t)
    else (true, record { sock = fd; running = t.running; closed = close_if_open t.sock t.closed })

-- `TcpClient::connect_to_server`; `inet_pton` and `connect` are given the state of the socket.
pub connect_to_server : ℤ → ℤ → (ℤ → ℤ) → Tcp → Expected Unit × Tcp
connect_to_server fd inet_pton connect t =
    let (ok, t') = create_socket fd t in
    if not ok
    then (unexpected bad_socket, t')
    else if leb_ℤ inet_pton (pos 0)
    then (unexpected invalid_ip, t')
    else if fails (connect t'.sock)
    then (unexpected connect_fail, t')
    else (value (record {}), t')

-- `TcpServer::start`
pub start : ℤ → (ℤ → ℤ) → (ℤ → ℤ) → Tcp → Expected Unit × Tcp
start fd bind listen t =
    let (ok, t') = create_socket fd t in
    if not ok
    then (unexpected bad_socket, t')
    else if fails (bind t'.sock)
    then (unexpected bind_fail, t')
    else if fails (listen t'.sock)
    then (unexpected listen_fail, t')
    else (value (record {}), record t' { running = true })

-- `TcpServer::accept_client`
pub accept_client : (ℤ → ℤ) → Tcp → Expected ℤ
accept_client accept t =
    let fd = accept t.sock in if fails fd then unexpected bad_socket else value fd

-- `TcpClient::send`, `TcpServer::send`, and the two `recv`: the result is the number of bytes.
abbrev pub bytes_or : TcpError → ℤ → Expected ℕ
bytes_or e (pos n) = value n
bytes_or e (negsuc n) = unexpected e

pub send : (ℤ → ℤ) → ℤ → Expected ℕ
send sys fd = bytes_or send_fail (send_data sys fd)

pub recv : (ℤ → ℤ) → ℤ → Expected ℕ
recv sys fd = bytes_or recv_fail (recv_data sys fd)

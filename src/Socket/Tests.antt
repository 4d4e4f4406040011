-- ===== src/Socket/Tests.antt =====
-- Sockets on concrete calls.
use quickstructs.Prelude.{ℕ, ◌+◌, ◌≡◌, refl, false, some, List, [], ◌∷◌, ℤ, pos, negsuc, arith}
use quickstructs.Socket.{
  World, Tcp, value, unexpected, bad_socket, recv_fail, connect_fail, bad_fd, make, move_make,
  reset, destroy, move_assign, create_socket, connect_to_server, start, accept_client, send, recv,
}
use quickstructs.Socket.Closing.{
  Call, make_call, move_make_call, reset_call, destroy_call, move_assign_call, tally, run,
  run-tally, all_taken,
}
use quickstructs.Socket.Errors.{
  tcp_tally, start_outcome, connect_outcome, connect_to_server-outcome, start-outcome,
}

abbrev nothing : World
nothing = record { sockets = []; closed = [] }

abbrev calls : List Call
calls =
    make_call (pos 3)
    ∷ make_call (pos 4)
    ∷ move_assign_call 0 1
    ∷ move_make_call 0
    ∷ reset_call 2 (pos 5)
    ∷ destroy_call 2
    ∷ []

calls-run :
    run calls nothing
    ≡ some (record { sockets = bad_fd ∷ bad_fd ∷ bad_fd ∷ []; closed = pos 5 ∷ pos 4 ∷ pos 3 ∷ [] })
unfolding run make move_make reset destroy move_assign
calls-run = refl

run-tally_example :
    (w' : World) × (run calls nothing ≡ some w')
    × ((n : ℕ) → tally n w' ≡ tally n nothing + all_taken calls n)
run-tally_example = run-tally calls nothing (
  record {},
  (record {}, ((omega arith, omega arith), (omega arith, (omega arith, (omega arith, record {}))))),
)

-- A client with descriptor 3; the new one is 4, and connecting fails.
abbrev client : Tcp
client = record { sock = pos 3; running = false; closed = [] }

abbrev refused : ℤ → ℤ
refused fd = negsuc 0

abbrev accepted : ℤ → ℤ
accepted fd = pos 0

refused-run :
    connect_to_server (pos 4) (pos 1) refused client
    ≡ (unexpected connect_fail, record { sock = pos 4; running = false; closed = pos 3 ∷ [] })
unfolding connect_to_server create_socket
refused-run = refl

accept_client-run : accept_client refused client ≡ unexpected bad_socket
unfolding accept_client
accept_client-run = refl

send-run : (send (λ fd. pos 9) (pos 4) ≡ value 9) × (recv refused (pos 4) ≡ unexpected recv_fail)
unfolding send recv
send-run = (refl, refl)

start-outcome_example :
    ((start (pos 4) accepted refused client).0 ≡ start_outcome (pos 4) accepted refused)
    × ((start (pos 4) accepted refused client).1.running ≡ false)
    × (tcp_tally 4 (start (pos 4) accepted refused client).1 ≡ 1)
start-outcome_example = start-outcome 4 (pos 4) accepted refused client refl

connect_to_server-outcome_example :
    ((connect_to_server (pos 4) (pos 1) refused client).0 ≡ connect_outcome (pos 4) (pos 1) refused)
    × (tcp_tally 4 (connect_to_server (pos 4) (pos 1) refused client).1 ≡ 1)
connect_to_server-outcome_example = connect_to_server-outcome 4 (pos 4) (pos 1) refused client

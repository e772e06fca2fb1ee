-- ===== src/OsServices/Ipc/SocketPair.antt =====
-- src/os_services/ipc/socket_pair.hpp and eventfd.hpp. An owner is null or has a descriptor.
use the_pipe.Base.{ℕ, Option, none, some, List, ◌∷◌, if◌then◌else◌}
use the_pipe.Base.Int.{is_minus_one}
use the_pipe.Base.Results.{system_error, Result, ok, err}
use the_pipe.OsServices.Fd.Opened.Counts.{close_owned}
use the_pipe.OsServices.Io.{Call}
use the_pipe.OsServices.Ipc.{take_descriptor}

pub record SocketPair : Type 0 where
  pub socket_a : Option ℕ
  pub socket_b : Option ℕ

-- The constructor, given the answer of the call and the descriptors that it fills in.
unfoldable pub make_socket_pair : Call → ℕ → ℕ → List ℕ → Result SocketPair × List ℕ
make_socket_pair res a b opened =
    if is_minus_one res.result
    then (err (system_error "Failed to create a socket pair" res.errno), opened)
    else (ok (record { socket_a = some a; socket_b = some b }), a ∷ b ∷ opened)

-- The owner that is taken, and the pair that is left.
unfoldable pub take_socket_a : SocketPair → Option ℕ × SocketPair
take_socket_a p = (p.socket_a, record p { socket_a = none })

unfoldable pub take_socket_b : SocketPair → Option ℕ × SocketPair
take_socket_b p = (p.socket_b, record p { socket_b = none })

unfoldable pub close_socket_a : SocketPair → List ℕ → SocketPair × List ℕ
unfolding close_owned
close_socket_a p opened = (record p { socket_a = none }, close_owned p.socket_a opened)

unfoldable pub close_socket_b : SocketPair → List ℕ → SocketPair × List ℕ
unfolding close_owned
close_socket_b p opened = (record p { socket_b = none }, close_owned p.socket_b opened)

-- The destructor.
unfoldable pub destroy_socket_pair : SocketPair → List ℕ → List ℕ
unfolding close_owned
destroy_socket_pair p opened = close_owned p.socket_a (close_owned p.socket_b opened)

unfoldable pub make_eventfd : Call → List ℕ → Result ℕ × List ℕ
make_eventfd c opened = take_descriptor "Failed to create eventfd" c opened

-- ===== src/OsServices/Ipc.antt =====
-- src/os_services/ipc: socket.hpp, unix_domain_socket.hpp. The answers of the kernel are arguments,
-- and the descriptors that are open are a list, with the newest first.
pub mod Descriptors
pub mod Pipe
pub mod SocketPair
use the_pipe.Base.{
  ℕ, ◌+◌, ◌-◌, Bool, true, false, List, [], ◌∷◌, ◌++◌, leb, length, replicate, if◌then◌else◌,
  String,
}
use the_pipe.Base.Int.{ℤ, pos, negsuc, is_minus_one}
use the_pipe.Base.Results.{Error, runtime_error, system_error, Result, ok, err}
use the_pipe.OsServices.Io.{Call}

-- A call that makes a descriptor, which is owned. The kernel returns -1 in place of a descriptor,
-- and then the owner is null.
abbrev pub take_descriptor : String → Call → List ℕ → Result ℕ × List ℕ
take_descriptor message c opened = elim c.result [
  | pos fd ↦ (ok fd, fd ∷ opened)
  | negsuc n ↦ (err (system_error message c.errno), opened)
]

unfoldable pub make_socket : Call → List ℕ → Result ℕ × List ℕ
make_socket c opened = take_descriptor "Failed to create a socket" c opened

unfoldable pub accept : Call → List ℕ → Result ℕ × List ℕ
accept c opened = take_descriptor "Failed to accept connection from socket" c opened

unfoldable pub bind_and_listen : ℕ → Call → Call → Result ℕ
bind_and_listen socket bind_result listen_result =
    if is_minus_one bind_result.result
    then err (system_error "Failed to bind socket" bind_result.errno)
    else (if is_minus_one listen_result.result
        then err (system_error "Failed to enable listening on socket" listen_result.errno)
        else ok socket)

unfoldable pub connect : ℕ → Call → Result ℕ
connect socket result =
    if is_minus_one result.result
    then err (system_error "Failed to connect socket" result.errno)
    else ok socket

-- The socket is released before the next step, so that nothing closes it if that throws.
abbrev pub with_released : (ℕ → Result ℕ) → Result ℕ × List ℕ → Result ℕ × List ℕ
with_released step (err e, opened) = (err e, opened)
with_released step (ok fd, opened) = (step fd, opened)

unfoldable pub make_server_socket : Call → Call → Call → List ℕ → Result ℕ × List ℕ
unfolding make_socket bind_and_listen
make_server_socket socket bind_result listen_result opened =
    with_released (λ fd. bind_and_listen fd bind_result listen_result) (make_socket socket opened)

unfoldable pub make_connection : Call → Call → List ℕ → Result ℕ × List ℕ
unfolding make_socket connect
make_connection socket result opened =
    with_released (λ fd. connect fd result) (make_socket socket opened)

-- sockaddr_un: `sun_path` has 108 bytes.
pub record SockaddrUn : Type 0 where
  pub sun_path : List ℕ

abbrev pub sun_path_size : ℕ
sun_path_size = 108

unfoldable pub make_abstract_sockaddr_un : List ℕ → Result SockaddrUn
make_abstract_sockaddr_un path =
    if leb (sun_path_size - 2) (length path)
    then err (runtime_error "Address to long")
    else ok (record { sun_path = 0 ∷ path ++ replicate (sun_path_size - 1 - length path) 0 })

pub record Ucred : Type 0 where
  pub pid : ℕ
  pub uid : ℕ
  pub gid : ℕ

-- The call fills in the credentials.
unfoldable pub get_peer_credentials : Call → Ucred → Result Ucred
get_peer_credentials c filled_in =
    if is_minus_one c.result
    then err (system_error "Failed to get peer credentials" c.errno)
    else ok filled_in

pub data ConnectionShutdownOps : Type 0 where
  read write read_write : ConnectionShutdownOps

-- SHUT_RD, SHUT_WR and SHUT_RDWR.
abbrev pub shutdown_value : ConnectionShutdownOps → ℕ
shutdown_value read = 0
shutdown_value write = 1
shutdown_value read_write = 2

-- The descriptor and the operation of the call, whose result is not looked at.
unfoldable pub shutdown : ℕ → ConnectionShutdownOps → ℕ × ℕ
shutdown socket ops_to_disable = (socket, shutdown_value ops_to_disable)

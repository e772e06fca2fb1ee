-- ===== src/Host.antt =====
-- src/host/server.hpp: the handler of the server socket. The answers of `accept` are arguments, and
-- the descriptors that are open are a list, with the newest first.
pub mod Clients
pub mod Load
pub mod Handlers
mod Tests
use the_pipe.Base.{
  ℕ, Bool, true, false, Option, none, some, List, [], ◌∷◌, ◌==◌, if◌then◌else◌, String,
}
use the_pipe.Base.Results.{Error, Result, ok, err}
use the_pipe.OsServices.Fd.Activity.{ActivityStatus, can_read}
use the_pipe.OsServices.Fd.Opened.{close_descriptor}
use the_pipe.OsServices.Io.{Call}
use the_pipe.OsServices.Ipc.{accept}

pub record ServerActivityHandler : Type 0 where
  pub server_name : String
  pub clients : List (ℕ × ℕ)
  pub client_id : ℕ

unfoldable pub make_server_activity_handler : String → ServerActivityHandler
make_server_activity_handler server_name = record {
  server_name = server_name;
  clients = [];
  client_id = 0;
}

unfoldable pub contains_key : ℕ → List (ℕ × ℕ) → Bool
contains_key id [] = false
contains_key id ((i, fd) ∷ clients) = if i == id then true else contains_key id clients

-- `emplace` of an accepted connection: if the id is taken, the connection is closed again.
unfoldable pub emplace :
    ServerActivityHandler → Result ℕ × List ℕ → Option Error × ServerActivityHandler × List ℕ
unfolding contains_key close_descriptor
emplace server (err e, opened) = (some e, server, opened)
emplace server (ok fd, opened) =
    if contains_key server.client_id server.clients
    then (none, server, close_descriptor fd opened)
    else (none, record server { clients = (server.client_id, fd) ∷ server.clients }, opened)

-- What is thrown, the handler, and the descriptors that are open.
unfoldable pub server_handle_event :
    ActivityStatus
    → Call
    → ServerActivityHandler
    → List ℕ
    → Option Error × ServerActivityHandler × List ℕ
unfolding emplace accept
server_handle_event status accepted server opened =
    if can_read status then emplace server (accept accepted opened) else (none, server, opened)

-- One event after the other, also behind an exception.
unfoldable pub serve :
    List (ActivityStatus × Call) → ServerActivityHandler → List ℕ → ServerActivityHandler × List ℕ
unfolding server_handle_event
serve [] server opened = (server, opened)
serve ((status, accepted) ∷ events) server opened =
    let (thrown, after, left) = server_handle_event status accepted server opened in
    serve events after left

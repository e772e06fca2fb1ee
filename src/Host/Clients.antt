-- ===== src/Host/Clients.antt =====
-- The clients that the server keeps.
use the_pipe.Base.{
  ℕ, ◌≤◌, ◌≡◌, ◌⊎◌, refl, true, none, List, [], ◌∷◌, String, arith, length, Bool-cases, inl, inr,
  ap,
}
use the_pipe.Base.Int.{pos}
use the_pipe.Base.Results.{Result, ok, err}
use the_pipe.OsServices.Fd.Opened.{close_descriptor}
use the_pipe.OsServices.Fd.Activity.{ActivityStatus, can_read}
use the_pipe.OsServices.Io.{Call}
use the_pipe.OsServices.Ipc.{accept}
use the_pipe.Host.{
  ServerActivityHandler, make_server_activity_handler, contains_key, emplace, server_handle_event,
  serve,
}

-- Only the first id is used, and at most one client is kept.
abbrev IsAlone : ServerActivityHandler → Type 0
IsAlone server =
    (server.client_id ≡ 0) × ((server.clients ≡ []) ⊎ ((fd : ℕ) × (server.clients ≡ (0, fd) ∷ [])))

emplace-IsAlone :
    (server : ServerActivityHandler) (r : Result ℕ × List ℕ)
    → IsAlone server
    → IsAlone (emplace server r).1
unfolding emplace contains_key
emplace-IsAlone server (err e, opened) a = a
emplace-IsAlone server (ok fd, opened) (zero_id, inl none_yet) =
    rw (none_yet, emplace, contains_key) (zero_id, inr (fd, ap (λ (i : ℕ). (i, fd) ∷ []) zero_id))
emplace-IsAlone server (ok fd, opened) (zero_id, inr (g, one)) =
    rw (one, zero_id, emplace, contains_key) (refl, inr (g, refl))

server_handle_event-IsAlone :
    (status : ActivityStatus) (accepted : Call) (server : ServerActivityHandler) (opened : List ℕ)
    → IsAlone server
    → IsAlone (server_handle_event status accepted server opened).1
unfolding server_handle_event
server_handle_event-IsAlone status accepted server opened a = elim (Bool-cases (can_read status)) [
  | inl readable ↦
      rw (readable, server_handle_event) (emplace-IsAlone server (accept accepted opened) a)
  | inr other ↦ rw (other, server_handle_event) a
]

serve-IsAlone :
    (events : List (ActivityStatus × Call)) (server : ServerActivityHandler) (opened : List ℕ)
    → IsAlone server
    → IsAlone (serve events server opened).0
unfolding serve
serve-IsAlone [] server opened a = a
serve-IsAlone ((status, accepted) ∷ events) server opened a =
    let after = server_handle_event status accepted server opened in
    serve-IsAlone events after.1 after.2
      (server_handle_event-IsAlone status accepted server opened a)

few : (server : ServerActivityHandler) → IsAlone server → length server.clients ≤ 1
few server (zero_id, inl none_yet) = rw none_yet (omega arith)
few server (zero_id, inr (fd, one)) = rw one (omega arith)

-- Whatever events arrive at a new server and whatever `accept` answers, at most one client is kept.
pub serve-few :
    (server_name : String) (events : List (ActivityStatus × Call)) (opened : List ℕ)
    → length (serve events (make_server_activity_handler server_name) opened).0.clients ≤ 1
unfolding make_server_activity_handler
serve-few server_name events opened =
    let server = make_server_activity_handler server_name in
    few (serve events server opened).0 (serve-IsAlone events server opened (refl, inl refl))

-- When the next id is taken, a connection that is accepted on an event of reading is closed at
-- once: the handler and the open descriptors are as before.
pub server_handle_event-drops :
    (server : ServerActivityHandler) (fd stale : ℕ) (opened : List ℕ)
    → contains_key server.client_id server.clients ≡ true
    → server_handle_event ActivityStatus.read
        (record { result = pos fd; errno = stale })
        server
        opened
      ≡ (none, server, opened)
unfolding server_handle_event emplace close_descriptor accept can_read
server_handle_event-drops server fd stale opened taken = rw taken (ground arith)

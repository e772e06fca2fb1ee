-- ===== src/Host/Tests.antt =====
-- A server with two connections.
use the_pipe.Base.{◌≤◌, List, [], ◌∷◌, length}
use the_pipe.Base.Int.{pos}
use the_pipe.OsServices.Fd.Activity.{ActivityStatus}
use the_pipe.OsServices.Io.{Call}
use the_pipe.Host.{make_server_activity_handler, serve}
use the_pipe.Host.Clients.{serve-few}

abbrev connections : List (ActivityStatus × Call)
connections =
    (ActivityStatus.read, record { result = pos 5; errno = 0 })
    ∷ (ActivityStatus.read, record { result = pos 6; errno = 0 })
    ∷ []

serve-few_example :
    length (serve connections (make_server_activity_handler "pipe") []).0.clients ≤ 1
serve-few_example = serve-few "pipe" connections []

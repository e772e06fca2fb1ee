-- ===== src/Host/Handlers.antt =====
-- The handlers that client_process_repository::load adds to the epoll instance: log_reader and
-- client_process_repository in src/host/server.hpp, and client_process in client_process.hpp. Where
-- the descriptor can be read, the source has only a note of what is to be done.
pub mod Idle
use the_pipe.Base.{
  ℕ, ◌≡◌, refl, ap, ◌∙◌, Bool, true, false, none, some, List, [], ◌∷◌, All, ◌==◌, if◌then◌else◌,
  Bool-cases, inl, inr, arith,
}
use the_pipe.Base.Results.{Result, ok, err}
use the_pipe.OsServices.Fd.Activity.{ActivityStatus, can_read}
use the_pipe.OsServices.IoMultiplexer.{
  Kernel, Entry, find, set_handler, EpollInstance, Action, epoll_event_to_activity_status,
}
use the_pipe.OsServices.IoMultiplexer.Loop.{
  Outcome, done, process_event, then_dispatch, dispatch, run_actions,
}
use the_pipe.OsServices.IoMultiplexer.Listeners.{fd_of, find-fd_of, fd_of-set_handler}
use the_pipe.Host.Load.{LoadAnswers, Handlers, load}
use the_pipe.Host.Load.Outcome.{Loaded}

-- What is in an entry of the epoll instance: the handler, which has no state of its own.
pub data HostHandler : Type 0 where
  log_reader client_process client_process_repository : HostHandler

abbrev pub host_handlers : Handlers HostHandler
host_handlers = record {
  log_reader = log_reader;
  client_proc = client_process;
  repository = client_process_repository;
}

-- The bodies of the three functions: what they do through the event.
unfoldable pub log_reader_handle_event : ActivityStatus → List Action
unfolding can_read
log_reader_handle_event status = if can_read status then [] else []

unfoldable pub repository_handle_event : ActivityStatus → List Action
unfolding can_read
repository_handle_event status = if can_read status then [] else []

unfoldable pub client_process_handle_event : ActivityStatus → List Action
unfolding can_read
client_process_handle_event status = if can_read status then [] else []

unfoldable pub host_handle : HostHandler → ActivityStatus → ℕ → HostHandler × List Action
unfolding log_reader_handle_event repository_handle_event client_process_handle_event
host_handle log_reader status fd = (log_reader, log_reader_handle_event status)
host_handle client_process status fd = (client_process, client_process_handle_event status)
host_handle client_process_repository status fd =
    (client_process_repository, repository_handle_event status)

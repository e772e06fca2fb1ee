-- ===== src/Host/Load/Tests.antt =====
-- A client that is started, and the main function of that client.
use the_pipe.Base.{ℕ, ◌≡◌, refl, false, none, List, [], ◌∷◌, arith, subst, All}
use the_pipe.Base.Int.{pos}
use the_pipe.Base.Results.{ok}
use the_pipe.Jopp.Sample.{sample, Fields, end}
use the_pipe.Log.{Severity, Item, Configuration, LogState}
use the_pipe.ClientCtl.Whole.{whole, descriptors}
use the_pipe.Client.{Texts, main}
use the_pipe.Client.Outcome.{said}
use the_pipe.OsServices.Io.{Call}
use the_pipe.OsServices.ProcMgmt.{Answers}
use the_pipe.OsServices.ProcMgmt.Kept.{marks}
use the_pipe.OsServices.ProcMgmt.Parent.{spawn}
use the_pipe.OsServices.IoMultiplexer.Transaction.{AreFree}
use the_pipe.OsServices.IoMultiplexer.Table.{table_kernel, empty, empty-IsConsistent}
use the_pipe.Host.Handlers.{HostHandler, host_handlers, host_handle}
use the_pipe.Host.Handlers.Idle.{IsReported, load-dispatch}
use the_pipe.OsServices.IoMultiplexer.{EpollInstance}
use the_pipe.OsServices.IoMultiplexer.Invariant.{IsConsistent}
use the_pipe.OsServices.IoMultiplexer.Listeners.{fd_of}
use the_pipe.OsServices.IoMultiplexer.Loop.{done, dispatch}
use the_pipe.Host.Load.{LoadAnswers, Handlers, added, load}
use the_pipe.Host.Load.Outcome.{open_at_spawn, Loaded, load_lem}
use the_pipe.Host.Load.Clients.{client_calls, args_of, main-args_of}

abbrev zero_result : Call
zero_result = record { result = pos 0; errno = 0 }

-- The pipe of the log is 3 and 4, the sockets are 6 and 5, and the pidfd is 12.
abbrev answers : LoadAnswers
answers = record {
  logpipe = zero_result;
  log_read_end = 3;
  log_write_end = 4;
  ctl_sockets = zero_result;
  socket_a = 6;
  socket_b = 5;
  spawn = record {
    pipe = zero_result;
    read_end = 10;
    write_end = 11;
    fcntl = zero_result;
    eventfd = record { result = pos 13; errno = 0 };
    fork = record { result = pos 100; errno = 0 };
    pidfd_open = record { result = pos 12; errno = 0 };
    read = zero_result;
    child_errno = 0;
    wait = zero_result;
    send_signal = zero_result;
  };
  send_signal = zero_result;
}

abbrev handlers : Handlers ℕ
handlers = record { log_reader = 1; client_proc = 2; repository = 3 }

pidfd_12 :
    (pid pidfd : ℕ)
    → (spawn answers.spawn (open_at_spawn answers [])).0 ≡ ok (pid, pidfd)
    → 12 ≡ pidfd
unfolding spawn
pidfd_12 pid pidfd h = cc h

free_12 :
    (pid pidfd : ℕ)
    → (spawn answers.spawn (open_at_spawn answers [])).0 ≡ ok (pid, pidfd)
    → AreFree (added table_kernel ℕ handlers answers pidfd) empty
free_12 pid pidfd h =
    subst (λ (fd : ℕ). AreFree (added table_kernel ℕ handlers answers fd) empty)
      (pidfd_12 pid pidfd h)
      (
        refl,
        ((λ e. absurd (omega arith)), ((λ e. absurd (omega arith)), tt)),
        (refl, ((λ e. absurd (omega arith)), tt), (refl, tt, tt)),
      )

load_lem_example : Loaded handlers answers [] empty (load table_kernel ℕ handlers answers [] empty)
load_lem_example = load_lem handlers answers [] empty empty-IsConsistent (omega arith) free_12

abbrev same_text : Texts Fields
same_text = record {
  Text = Fields;
  to_string = λ o. o;
  parse = λ o. ok o;
  what = λ e. "failed";
  wrong_number = λ argc. "Wrong number of command line arguments";
  parse-to_string = λ o. refl;
}

abbrev recorder : Configuration (List Item)
recorder = record { write = λ item w. item ∷ w; now = λ w. (pos 7, w) }

abbrev before : LogState (List Item)
before = record { log_cfg = recorder; world = [] }

abbrev fine : Answers
fine = record {
  dup2_stdin = zero_result;
  dup2_stdout = zero_result;
  dup2_stderr = zero_result;
  execve_errno = none;
}

main-args_of_example :
    (marks 5 (client_calls sample whole same_text end answers fine) ≡ false)
    × (main sample whole same_text
          (List Item)
          recorder
          descriptors
          (end ∷ args_of sample whole same_text answers)
          before
        ≡ (
          pos 0,
          said sample whole same_text
              (List Item)
              recorder
              descriptors
              before
              Severity.info
              "Process exited normally",
        ))
main-args_of_example =
    main-args_of sample whole same_text (List Item) recorder descriptors before end answers fine
      (omega arith) refl

-- The same client with the handlers of the host, behind which the log is reported twice.
abbrev host_empty : EpollInstance table_kernel HostHandler
host_empty = record { kernel = λ g. none; listeners = []; current_id = record { value = 0 } }

host_empty-IsConsistent : IsConsistent table_kernel HostHandler host_empty
unfolding fd_of
host_empty-IsConsistent = record {
  fresh = λ id h. refl;
  linked = λ fd events id e. cc;
  watched = λ id fd e. cc;
}

host_free_12 :
    (pid pidfd : ℕ)
    → (spawn answers.spawn (open_at_spawn answers [])).0 ≡ ok (pid, pidfd)
    → AreFree (added table_kernel HostHandler host_handlers answers pidfd) host_empty
host_free_12 pid pidfd h =
    subst (λ (fd : ℕ). AreFree (added table_kernel HostHandler host_handlers answers fd) host_empty)
      (pidfd_12 pid pidfd h)
      (
        refl,
        ((λ e. absurd (omega arith)), ((λ e. absurd (omega arith)), tt)),
        (refl, ((λ e. absurd (omega arith)), tt), (refl, tt, tt)),
      )

abbrev host_loaded : EpollInstance table_kernel HostHandler
host_loaded = (load table_kernel HostHandler host_handlers answers [] host_empty).2

load_returned :
    load table_kernel HostHandler host_handlers answers [] host_empty ≡ (ok tt, [], host_loaded)
unfolding load
load_returned = refl

abbrev reports : List (ℕ × ℕ)
reports = (1, 0) ∷ (1, 0) ∷ (4, 1) ∷ []

reports-IsReported : All (IsReported host_loaded) reports
unfolding load
reports-IsReported = ((3, 1, refl), ((3, 1, refl), ((6, 4, refl), tt)))

load-dispatch_example :
    (after : EpollInstance table_kernel HostHandler) × (dispatch table_kernel HostHandler
        host_handle reports host_loaded
      ≡ done after)
    × Loaded host_handlers answers [] host_empty (ok tt, [], after)
load-dispatch_example =
    load-dispatch answers [] [] host_empty host_loaded reports host_empty-IsConsistent (omega arith)
      host_free_12 load_returned reports-IsReported

-- ===== src/Host/Load.antt =====
-- client_process_repository::load in src/host/server.hpp, which makes a pipe and a pair of sockets,
-- spawns the client and adds its descriptors to the epoll instance. The list of open descriptors
-- holds those that have no owner in the epoll instance: a descriptor that is moved into `add` leaves
-- it.
pub mod Outcome
pub mod Clients
pub mod Delivery
mod Tests
use the_pipe.Base.{ℕ, Option, none, some, List, [], ◌∷◌}
use the_pipe.Base.Results.{Error, Result, ok, err}
use the_pipe.OsServices.Fd.Activity.{ActivityStatus}
use the_pipe.OsServices.Fd.Opened.{close_descriptor}
use the_pipe.OsServices.Fd.Opened.Counts.{close_owned}
use the_pipe.OsServices.Io.{Call}
use the_pipe.OsServices.Ipc.Pipe.{Pipe, make_pipe, destroy_pipe}
use the_pipe.OsServices.Ipc.SocketPair.{
  SocketPair, make_socket_pair, take_socket_a, take_socket_b, destroy_socket_pair,
}
use the_pipe.OsServices.ProcMgmt.Parent.{ParentAnswers, delete_pidfd, spawn}
use the_pipe.OsServices.IoMultiplexer.{
  Kernel, EpollInstance, ConfigTransaction, commit, close_transaction,
}
use the_pipe.OsServices.IoMultiplexer.Transaction.{begin}
use the_pipe.OsServices.IoMultiplexer.Chain.{chain}

-- The answers of the kernel, and the descriptors that it gives. `send_signal` is the answer to the
-- signal of the pidfd's deleter, which runs if an addition throws.
pub record LoadAnswers : Type 0 where
  pub logpipe : Call
  pub log_read_end : ℕ
  pub log_write_end : ℕ
  pub ctl_sockets : Call
  pub socket_a : ℕ
  pub socket_b : ℕ
  pub spawn : ParentAnswers
  pub send_signal : Call

-- The handlers: of the log, of the client, and the repository itself.
pub record Handlers (H : Type 0) : Type 0 where
  pub log_reader : H
  pub client_proc : H
  pub repository : H

module _ (K : Kernel) (H : Type 0) (handlers : Handlers H) where
  -- What is added, in order.
  abbrev pub added : LoadAnswers → ℕ → List (ℕ × ActivityStatus × H)
  added a pidfd =
      (a.log_read_end, ActivityStatus.read, handlers.log_reader)
      ∷ (a.socket_a, ActivityStatus.write, handlers.client_proc)
      ∷ (pidfd, ActivityStatus.read, handlers.repository)
      ∷ []

  -- The end of the transaction, behind `commit` or behind an exception, which also ends the owner of
  -- the pidfd, and the end of `fds_to_keep`.
  abbrev pub after_chain :
      LoadAnswers
      → ℕ
      → Option ℕ
      → List ℕ
      → Result (ConfigTransaction K H) × ConfigTransaction K H
      → Result (Unit {0}) × List ℕ × EpollInstance K H
  after_chain a pidfd fds_to_keep opened (ok done, t) = (
    ok tt,
    close_owned fds_to_keep (close_descriptor pidfd opened),
    close_transaction K H (commit K H t),
  )
  after_chain a pidfd fds_to_keep opened (err e, t) = (
    err e,
    close_owned fds_to_keep (delete_pidfd a.send_signal pidfd opened),
    close_transaction K H t,
  )

  -- Behind spawn. The owner in io_redirection ends with the call, `fds_to_keep`, the sockets and the
  -- pipe with the function. The read end, socket a and the pidfd are moved into `add`, or end with
  -- the function if an addition before theirs throws.
  abbrev pub after_spawn :
      LoadAnswers
      → EpollInstance K H
      → Pipe
      → SocketPair
      → Option ℕ
      → Result (ℕ × ℕ) × List ℕ
      → Result (Unit {0}) × List ℕ × EpollInstance K H
  after_spawn a ep logpipe ctl_sockets fds_to_keep (err e, opened) = (
    err e,
    destroy_pipe (record logpipe { write_end = none })
        (destroy_socket_pair ctl_sockets
          (close_owned fds_to_keep (close_owned logpipe.write_end opened))),
    ep,
  )
  after_spawn a ep logpipe ctl_sockets fds_to_keep (ok (pid, pidfd), opened) =
      after_chain a pidfd fds_to_keep
        (close_owned ctl_sockets.socket_a
          (close_owned logpipe.read_end (close_owned logpipe.write_end opened)))
        (chain (added a pidfd) (ok (begin ep), begin ep))

  abbrev pub after_sockets :
      LoadAnswers
      → EpollInstance K H
      → Pipe
      → Result SocketPair × List ℕ
      → Result (Unit {0}) × List ℕ × EpollInstance K H
  after_sockets a ep logpipe (err e, opened) = (err e, destroy_pipe logpipe opened, ep)
  after_sockets a ep logpipe (ok ctl_sockets, opened) =
      after_spawn a ep logpipe (record ctl_sockets { socket_b = none }) ctl_sockets.socket_b
        (spawn a.spawn opened)

  abbrev pub after_logpipe :
      LoadAnswers
      → EpollInstance K H
      → Result Pipe × List ℕ
      → Result (Unit {0}) × List ℕ × EpollInstance K H
  after_logpipe a ep (err e, opened) = (err e, opened, ep)
  after_logpipe a ep (ok logpipe, opened) =
      after_sockets a ep logpipe (make_socket_pair a.ctl_sockets a.socket_a a.socket_b opened)

  -- What is thrown, the open descriptors without an owner in the epoll instance, and that instance.
  unfoldable pub load :
      LoadAnswers → List ℕ → EpollInstance K H → Result (Unit {0}) × List ℕ × EpollInstance K H
  unfolding make_pipe make_socket_pair spawn chain close_transaction commit destroy_pipe
      destroy_socket_pair close_owned close_descriptor delete_pidfd
  load a opened ep = after_logpipe a ep (make_pipe a.logpipe a.log_read_end a.log_write_end opened)

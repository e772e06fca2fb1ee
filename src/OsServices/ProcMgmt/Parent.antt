-- ===== src/OsServices/ProcMgmt/Parent.antt =====
-- The parent's side of spawn in src/os_services/proc_mgmt/proc_mgmt.cpp, with the deleter of a pidfd:
-- which descriptors are open when it returns or throws.
pub mod Leaks
pub mod Counts
use the_pipe.Base.{ℕ, Bool, true, false, not, List, [], ◌∷◌, ◌==◌, if◌then◌else◌}
use the_pipe.Base.Int.{to_unsigned, is_minus_one}
use the_pipe.Base.Results.{Error, system_error, Result, ok, err}
use the_pipe.OsServices.Fd.Opened.{close_descriptor}
use the_pipe.OsServices.Io.{Call, IoResult, io_result, bytes_transferred}

-- The kernel's answers. `read` is the one that is no interruption; `send_signal` is the answer to
-- the deleter of the pidfd.
pub record ParentAnswers : Type 0 where
  pub pipe : Call
  pub read_end : ℕ
  pub write_end : ℕ
  pub fcntl : Call
  pub eventfd : Call
  pub fork : Call
  pub pidfd_open : Call
  pub read : Call
  pub child_errno : ℕ
  pub wait : Call
  pub send_signal : Call

unfoldable pub delete_pidfd : Call → ℕ → List ℕ → List ℕ
unfolding close_descriptor
delete_pidfd send_signal pid opened =
    if is_minus_one send_signal.result then opened else close_descriptor pid opened

-- Behind the call of `wait` on a child that could not launch the program.
unfoldable pub launch_error : Call → ℕ → Error
launch_error wait child_errno =
    if is_minus_one wait.result
    then system_error "Failed to wait for process" wait.errno
    else system_error "Failed to launch application" child_errno

-- From `read` on: the pid and the descriptors of the event and of the process are given.
unfoldable pub after_read :
    ParentAnswers → ℕ → ℕ → List ℕ → Result IoResult → Result (ℕ × ℕ) × List ℕ
unfolding delete_pidfd close_descriptor bytes_transferred launch_error
after_read a event pidfd opened (err e) =
    (err e, close_descriptor event (delete_pidfd a.send_signal pidfd opened))
after_read a event pidfd opened (ok r) =
    if not (bytes_transferred r == 0)
    then (
      err (launch_error a.wait a.child_errno),
      close_descriptor event
          (delete_pidfd a.send_signal pidfd (close_descriptor a.read_end opened)),
    )
    else (
      ok (to_unsigned a.fork.result, pidfd),
      close_descriptor event (close_descriptor a.read_end opened),
    )

-- From fork on.
unfoldable pub after_fork : ParentAnswers → ℕ → List ℕ → Result (ℕ × ℕ) × List ℕ
unfolding after_read io_result
after_fork a event opened =
    let left = close_descriptor a.write_end opened in
    let pidfd = to_unsigned a.pidfd_open.result in
    if is_minus_one a.fork.result
    then (err (system_error "Fork failed: " a.fork.errno), close_descriptor event left)
    else (if is_minus_one a.pidfd_open.result
        then (
          err (system_error "Failed to create pidfd" a.pidfd_open.errno),
          close_descriptor event left,
        )
        else after_read a event pidfd (pidfd ∷ left) (io_result a.read.result a.read.errno))

-- From the pipe on, once it is made. `close_read_end_on_exec` releases the read end.
unfoldable pub after_pipe : ParentAnswers → List ℕ → Result (ℕ × ℕ) × List ℕ
unfolding after_fork
after_pipe a opened =
    let event = to_unsigned a.eventfd.result in
    if is_minus_one a.fcntl.result
    then (
      err (system_error "Failed to set FD_CLOEXEC on pipe read end" a.fcntl.errno),
      close_descriptor a.write_end (close_descriptor a.read_end opened),
    )
    else (if is_minus_one a.eventfd.result
        then (
          err (system_error "Failed to create eventfd" a.eventfd.errno),
          close_descriptor a.write_end opened,
        )
        else after_fork a event (event ∷ opened))

unfoldable pub spawn : ParentAnswers → List ℕ → Result (ℕ × ℕ) × List ℕ
unfolding after_pipe
spawn a opened =
    if is_minus_one a.pipe.result
    then (err (system_error "Failed to create pipe" a.pipe.errno), opened)
    else after_pipe a (a.read_end ∷ a.write_end ∷ opened)

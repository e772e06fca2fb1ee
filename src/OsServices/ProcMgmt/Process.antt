-- ===== src/OsServices/ProcMgmt/Process.antt =====
-- src/os_services/proc_mgmt/proc_mgmt.hpp: kill, wait, and the class process with its destructor. The
-- kernel's view of the processes behind pidfds is an interface.
pub mod Endings
mod Tests
use the_pipe.Base.{ℕ, ◌≡◌, Bool, true, false, Option, none, some, List, [], ◌∷◌, if◌then◌else◌}
use the_pipe.Base.Int.{ℤ, pos, is_minus_one}
use the_pipe.Base.Results.{Error, system_error, Result, ok, err}
use the_pipe.OsServices.Io.{Call}
use the_pipe.OsServices.ProcMgmt.Parent.{ParentAnswers, delete_pidfd, spawn}

-- How a process ended.
pub data Ending : Type 0 where
  exit signal : ℤ → Ending

-- `siginfo_t`, with `si_code` by the question of whether it is CLD_EXITED.
pub record Siginfo : Type 0 where
  pub is_cld_exited : Bool
  pub si_status : ℤ

abbrev pub siginfo_of : Ending → Siginfo
siginfo_of (exit return_value) = record { is_cld_exited = true; si_status = return_value }
siginfo_of (signal signo) = record { is_cld_exited = false; si_status = signo }

-- `pidfd_send_signal` and `waitid` with P_PIDFD and WEXITED. A process is reaped when it has been
-- waited for.
pub record Processes : Type 1 where
  pub State : Type 0
  pub send_signal : State → ℕ → ℤ → Call × State
  pub waitid : State → ℕ → Call × Siginfo × State
  pub is_reaped : State → ℕ → Bool
  pub may_signal : ℕ → Bool
  -- How the process behind a pidfd ends.
  pub EndsBy : ℕ → Ending → Type 0
  -- Signals do not reap, and a process that is reaped has none to get.
  pub send_signal-is_reaped :
      (s : State) (fd : ℕ) (signo : ℤ) → is_reaped (send_signal s fd signo).1 fd ≡ is_reaped s fd
  pub send_signal-reaped :
      (s : State) (fd : ℕ) (signo : ℤ)
      → is_reaped s fd ≡ true
      → is_minus_one (send_signal s fd signo).0.result ≡ true
  pub send_signal-permitted :
      (s : State) (fd : ℕ) (signo : ℤ)
      → is_reaped s fd ≡ false
      → may_signal fd ≡ true
      → is_minus_one (send_signal s fd signo).0.result ≡ false
  -- A wait that succeeds is for a process that is not reaped, reaps it, and tells how it ended; one
  -- that fails does not reap.
  pub waitid-succeeds :
      (s : State) (fd : ℕ)
      → is_minus_one (waitid s fd).0.result ≡ false
      → (is_reaped s fd ≡ false)
        × (is_reaped (waitid s fd).2 fd ≡ true)
        × ((e : Ending) × EndsBy fd e × ((waitid s fd).1 ≡ siginfo_of e))
  pub waitid-fails :
      (s : State) (fd : ℕ)
      → is_minus_one (waitid s fd).0.result ≡ true
      → is_reaped (waitid s fd).2 fd ≡ is_reaped s fd

pub data ProcessTerminationStatus : Type 0 where
  process_exited : (return_value : ℤ) → ProcessTerminationStatus
  process_killed : (signo : ℤ) → ProcessTerminationStatus

pub record Process : Type 0 where
  pub pid : ℕ
  pub file_descriptor : ℕ

abbrev pub sigkill : ℤ
sigkill = pos 9

-- The constructor.
abbrev pub process_of : Result (ℕ × ℕ) × List ℕ → Result Process × List ℕ
process_of (err e, opened) = (err e, opened)
process_of (ok (pid, fd), opened) = (ok (record { pid = pid; file_descriptor = fd }), opened)

unfoldable pub make_process : ParentAnswers → List ℕ → Result Process × List ℕ
unfolding spawn
make_process a opened = process_of (spawn a opened)

module _ (k : Processes) where
  unfoldable pub kill : k.State → ℕ → ℤ → Option Error × k.State
  kill s fd signo =
      let (res, s') = k.send_signal s fd signo in
      if is_minus_one res.result
      then (some (system_error "Failed to kill process" res.errno), s')
      else (none, s')

  unfoldable pub wait : k.State → ℕ → Result ProcessTerminationStatus × k.State
  wait s fd =
      let (res, siginfo, s') = k.waitid s fd in
      if is_minus_one res.result
      then (err (system_error "Failed to wait for process" res.errno), s')
      else (if siginfo.is_cld_exited
          then (ok (process_exited siginfo.si_status), s')
          else (ok (process_killed siginfo.si_status), s'))

  -- The destructor: the deleter of the pidfd.
  unfoldable pub destroy_process : k.State → Process → List ℕ → List ℕ × k.State
  unfolding delete_pidfd
  destroy_process s p opened =
      let (res, s') = k.send_signal s p.file_descriptor sigkill in
      let (waited, siginfo, s'') = k.waitid s' p.file_descriptor in
      (delete_pidfd res p.file_descriptor opened, if is_minus_one res.result then s' else s'')

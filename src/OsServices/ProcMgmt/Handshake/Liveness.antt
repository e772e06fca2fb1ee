-- ===== src/OsServices/ProcMgmt/Handshake/Liveness.antt =====
-- spawn always finishes.
use the_pipe.Base.{not, ℕ, ◌+◌, ◌≡◌, Bool, true, false, none}
use the_pipe.Base.Int.{pos}
use the_pipe.OsServices.Io.{Call}
use the_pipe.OsServices.ProcMgmt.{Answers}
use the_pipe.OsServices.ProcMgmt.Handshake.{
  Request, ParentPc, forked, closed_write_end, killing, reaping, has_pidfd, reading, waiting,
  returned, thrown, not_created, unwinding, collecting, unwound, ChildPc, blocked, ready, closing,
  exited, running, ended, killed, System, Step, Ends,
}

abbrev pub is_finished : ParentPc → Bool
is_finished returned = true
is_finished (thrown errno) = true
is_finished (not_created errno sent) = true
is_finished (unwound cause sent) = true
is_finished (unwinding cause) = false
is_finished (collecting cause) = false
is_finished forked = false
is_finished closed_write_end = false
is_finished (killing errno) = false
is_finished (reaping errno sent) = false
is_finished has_pidfd = false
is_finished reading = false
is_finished (waiting errno) = false

-- The parent waits for a child to which the signal could not be sent.
abbrev pub is_stuck : ParentPc → Bool
is_stuck (reaping errno sent) = not sent
is_stuck forked = false
is_stuck closed_write_end = false
is_stuck (killing errno) = false
is_stuck has_pidfd = false
is_stuck reading = false
is_stuck (waiting errno) = false
is_stuck returned = false
is_stuck (thrown errno) = false
is_stuck (not_created errno sent) = false
is_stuck (unwinding cause) = false
is_stuck (collecting cause) = false
is_stuck (unwound cause sent) = false

-- How many steps are left at most.
abbrev parent_steps : ParentPc → ℕ
parent_steps forked = 7
parent_steps closed_write_end = 6
parent_steps has_pidfd = 5
parent_steps reading = 4
parent_steps (killing errno) = 3
parent_steps (reaping errno sent) = 2
parent_steps (waiting errno) = 3
parent_steps returned = 0
parent_steps (thrown errno) = 0
parent_steps (not_created errno sent) = 0
parent_steps (unwinding cause) = 2
parent_steps (collecting cause) = 1
parent_steps (unwound cause sent) = 0

abbrev child_steps : ChildPc → ℕ
child_steps blocked = 4
child_steps ready = 3
child_steps (closing errno) = 2
child_steps running = 1
child_steps (exited errno) = 0
child_steps ended = 0
child_steps killed = 0

abbrev steps_left : System → ℕ
steps_left s = parent_steps s.parent + child_steps s.child

module _ {Text : Type 0} (q : Request Text) where
  -- Whatever step comes next, spawn finishes, or its parent is stuck; and until then a step can be
  -- made, without the program ending.
  pub data Inevitably : System → Type 0 where
    now : {s : System} → is_finished s.parent ≡ true → Inevitably s
    stuck : {s : System} → is_stuck s.parent ≡ true → Inevitably s
    later :
        {s t : System}
        → Step q s t
        → ((u : System) → Step q s u → Inevitably u)
        → ((u : System) → Ends q s u → Inevitably u)
        → Inevitably s

  -- Any answers of the kernel.
  abbrev some_answers : Answers
  some_answers =
      let done : Call = record { result = pos 0; errno = 0 } in
      record { dup2_stdin = done; dup2_stdout = done; dup2_stderr = done; execve_errno = none }

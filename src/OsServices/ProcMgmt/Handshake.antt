-- ===== src/OsServices/ProcMgmt/Handshake.antt =====
-- spawn in src/os_services/proc_mgmt/proc_mgmt.cpp, from a fork that has succeeded on: the steps of
-- the parent and of the child in any order. They share the event descriptor and the pipe. What the
-- child does up to execve is one step, with any answers of the kernel to its redirections and to
-- execve. The calls that signal and wait for the child, and the read from the pipe, may fail as well;
-- those on the event descriptor and the child's write to the pipe succeed.
pub mod Closing
pub mod Invariant
pub mod Outcome
pub mod Liveness
pub mod Stuck
mod Tests
use the_pipe.Base.{ℕ, ◌≡◌, Bool, true, false, not, Option, none, some, List, [], ◌∷◌}
use the_pipe.OsServices.ProcMgmt.{
  IoRedirection, SystemCall, dup2, close_range, execve, write_errno, Answers, run_child,
}
use the_pipe.OsServices.ProcMgmt.Kept.{marks}

-- What spawn is called with, and the write end of the pipe that it has made.
pub record Request (Text : Type 0) : Type 0 where
  pub path : Text
  pub argv : List Text
  pub env : List Text
  pub io_redir : IoRedirection
  pub fds_to_forward : List ℕ
  pub write_end : ℕ

-- What spawn throws once it has the pidfd, other than the errno of the child: the read from the pipe
-- has failed, or the wait for a child that has reported an error.
pub data Cause : Type 0 where
  read_threw wait_threw : (errno : ℕ) → Cause

-- Where the parent stands. A flag says whether the signal has been sent.
pub data ParentPc : Type 0 where
  forked : ParentPc  -- before close_write_end
  closed_write_end : ParentPc  -- before pidfd_open
  killing : (errno : ℕ) → ParentPc  -- pidfd_open has failed
  reaping : (errno : ℕ) → (sent : Bool) → ParentPc  -- before waitpid, whatever kill has returned
  has_pidfd : ParentPc  -- before the write to the event descriptor
  reading : ParentPc  -- in the read from the pipe
  waiting : (child_errno : ℕ) → ParentPc  -- in the wait for a child that has reported an error
  returned : ParentPc
  thrown : (child_errno : ℕ) → ParentPc  -- "Failed to launch application"; a signal changes nothing
  not_created : (errno : ℕ) → (sent : Bool) → ParentPc  -- "Failed to create pidfd"
  unwinding : Cause → ParentPc  -- before the signal of the pidfd's deleter
  collecting : Cause → ParentPc  -- in the wait of that deleter
  unwound : Cause → (sent : Bool) → ParentPc  -- thrown

-- Where the child stands.
pub data ChildPc : Type 0 where
  blocked : ChildPc  -- in the read from the event descriptor
  ready : ChildPc  -- before do_exec
  closing : (errno : ℕ) → ChildPc  -- do_exec has returned
  exited : (errno : ℕ) → ChildPc  -- `_exit(127)`
  running : ChildPc  -- the program that execve has started
  ended : ChildPc  -- that program has ended
  killed : ChildPc

pub record System : Type 0 where
  pub parent : ParentPc
  pub child : ChildPc
  pub posted : Bool  -- the event descriptor has been written to
  pub message : Option ℕ  -- what is in the pipe
  pub parent_writes : Bool  -- the parent has the write end
  pub child_writes : Bool  -- the child has the write end

-- Right behind fork, both have the write end.
abbrev pub init : System
init = record {
  parent = forked;
  child = blocked;
  posted = false;
  message = none;
  parent_writes = true;
  child_writes = true;
}

abbrev pub is_dead : ChildPc → Bool
is_dead (exited errno) = true
is_dead ended = true
is_dead killed = true
is_dead blocked = false
is_dead ready = false
is_dead (closing errno) = false
is_dead running = false

-- Behind SIGKILL, which does nothing to a child that has ended already.
abbrev pub kill_child : ChildPc → ChildPc
kill_child (exited errno) = exited errno
kill_child ended = ended
kill_child killed = killed
kill_child blocked = killed
kill_child ready = killed
kill_child (closing errno) = killed
kill_child running = killed

-- The errno that the child writes to the pipe.
abbrev pub reported : {Text : Type 0} → List (SystemCall Text) → Option ℕ
reported [] = none
reported (write_errno errno ∷ calls) = some errno
reported (dup2 a b ∷ calls) = reported calls
reported (close_range r ∷ calls) = reported calls
reported (execve path argv env ∷ calls) = reported calls

module _ {Text : Type 0} (q : Request Text) where
  -- The calls of the child.
  abbrev pub calls_of : Answers → List (SystemCall Text)
  calls_of answers = run_child q.path q.argv q.env q.io_redir q.fds_to_forward answers

  -- A step of the parent or of the child. A read blocks until there is something to read, or, from
  -- the pipe, until nobody has the write end.
  pub data Step (s : System) : System → Type 0 where
    close_write_end :
        s.parent ≡ forked → Step s (record s { parent = closed_write_end; parent_writes = false })
    pidfd_open : s.parent ≡ closed_write_end → Step s (record s { parent = has_pidfd })
    pidfd_open_fails :
        (errno : ℕ) → s.parent ≡ closed_write_end → Step s (record s { parent = killing errno })
    kill :
        (errno : ℕ)
        → s.parent ≡ killing errno
        → Step s (record s { parent = reaping errno true; child = killed; child_writes = false })
    kill_fails :
        (errno : ℕ) → s.parent ≡ killing errno → Step s (record s { parent = reaping errno false })
    waitpid :
        (errno : ℕ) (sent : Bool)
        → s.parent ≡ reaping errno sent
        → is_dead s.child ≡ true
        → Step s (record s { parent = not_created errno sent })
    waitpid_fails :
        (errno : ℕ) (sent : Bool)
        → s.parent ≡ reaping errno sent
        → Step s (record s { parent = not_created errno sent })
    post : s.parent ≡ has_pidfd → Step s (record s { parent = reading; posted = true })
    read_errno :
        (errno : ℕ)
        → s.parent ≡ reading
        → s.message ≡ some errno
        → Step s (record s { parent = waiting errno; message = none })
    read_nothing :
        s.parent ≡ reading
        → s.message ≡ none
        → s.parent_writes ≡ false
        → s.child_writes ≡ false
        → Step s (record s { parent = returned })
    read_fails :
        (errno : ℕ)
        → s.parent ≡ reading
        → Step s (record s { parent = unwinding (read_threw errno) })
    wait_fails :
        (child_errno errno : ℕ)
        → s.parent ≡ waiting child_errno
        → Step s (record s { parent = unwinding (wait_threw errno) })
    send_signal :
        (cause : Cause)
        → s.parent ≡ unwinding cause
        → Step s (record s {
          parent = collecting cause;
          child = kill_child s.child;
          child_writes = false;
        })
    send_signal_fails :
        (cause : Cause)
        → s.parent ≡ unwinding cause
        → Step s (record s { parent = unwound cause false })
    collect :
        (cause : Cause)
        → s.parent ≡ collecting cause
        → is_dead s.child ≡ true
        → Step s (record s { parent = unwound cause true })
    collect_fails :
        (cause : Cause)
        → s.parent ≡ collecting cause
        → Step s (record s { parent = unwound cause true })
    wait :
        (errno : ℕ)
        → s.parent ≡ waiting errno
        → is_dead s.child ≡ true
        → Step s (record s { parent = thrown errno })
    read_event : s.child ≡ blocked → s.posted ≡ true → Step s (record s { child = ready })
    exec :
        (answers : Answers)
        → s.child ≡ ready
        → reported (calls_of answers) ≡ none
        → Step s (record s {
          child = running;
          child_writes = not (marks q.write_end (calls_of answers));
        })
    report :
        (answers : Answers) (errno : ℕ)
        → s.child ≡ ready
        → reported (calls_of answers) ≡ some errno
        → Step s (record s { child = closing errno; message = some errno })
    exit :
        (errno : ℕ)
        → s.child ≡ closing errno
        → Step s (record s { child = exited errno; child_writes = false })

  -- The program that was started ends, at any time or never.
  pub data Ends (s : System) : System → Type 0 where
    end : s.child ≡ running → Ends s (record s { child = ended; child_writes = false })

  pub data Reach : System → Type 0 where
    start : Reach init
    step : {s t : System} → Reach s → Step s t → Reach t
    end_step : {s t : System} → Reach s → Ends s t → Reach t

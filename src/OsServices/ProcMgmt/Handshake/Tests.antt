-- ===== src/OsServices/ProcMgmt/Handshake/Tests.antt =====
-- A program that is not found: the steps up to the message of the child.
use the_pipe.Base.{true, false, ℕ, ◌≡◌, refl, none, some, [], ◌∷◌, arith}
use the_pipe.Base.Int.{pos}
use the_pipe.OsServices.Io.{Call}
use the_pipe.OsServices.ProcMgmt.{Answers, run_child}
use the_pipe.OsServices.ProcMgmt.Handshake.{
  Request, reading, ChildPc, closing, exited, killed, thrown, reaping, not_created, unwound,
  read_threw, blocked, System, init, Step, Reach,
}
use the_pipe.Utils.FlatSet.{flat_set}
use the_pipe.Utils.Segments.{for_each_disjoint_segment}
use the_pipe.OsServices.ProcMgmt.Handshake.Outcome.{Reach-Tells}
use the_pipe.OsServices.ProcMgmt.Handshake.Stuck.{Reach-stuck}

abbrev request : Request ℕ
request = record {
  path = 1;
  argv = 2 ∷ [];
  env = [];
  io_redir = record { sysin = none; sysout = none; syserr = some 5 };
  fds_to_forward = 7 ∷ [];
  write_end = 4;
}

abbrev fine : Call
fine = record { result = pos 0; errno = 0 }

abbrev not_found : Answers
not_found = record {
  dup2_stdin = fine;
  dup2_stdout = fine;
  dup2_stderr = fine;
  execve_errno = some 2;
}

-- The child has reported that there is no such file.
abbrev told : System
told = record init {
  parent = reading;
  child = closing 2;
  posted = true;
  message = some 2;
  parent_writes = false;
}

told_reached : Reach request told
unfolding run_child for_each_disjoint_segment flat_set
told_reached =
    Reach.step
      (Reach.step
        (Reach.step
          (Reach.step (Reach.step Reach.start (Step.close_write_end refl)) (Step.pidfd_open refl))
          (Step.post refl))
        (Step.read_event refl refl))
      (Step.report not_found 2 refl refl)

over_reached :
    Reach request
      (record told { parent = thrown 2; child = exited 2; message = none; child_writes = false })
over_reached =
    Reach.step
      (Reach.step (Reach.step told_reached (Step.read_errno 2 refl refl)) (Step.exit 2 refl))
      (Step.wait 2 refl refl)

-- The read from the pipe fails while the child waits to be told to go on, and the deleter kills it.
failing_reached : Reach request (record init {
  parent = unwound (read_threw 5) true;
  child = killed;
  posted = true;
  parent_writes = false;
  child_writes = false;
})
failing_reached =
    Reach.step
      (Reach.step
        (Reach.step
          (Reach.step
            (Reach.step (Reach.step Reach.start (Step.close_write_end refl)) (Step.pidfd_open refl))
            (Step.post refl))
          (Step.read_fails 5 refl))
        (Step.send_signal (read_threw 5) refl))
      (Step.collect (read_threw 5) refl refl)

-- Neither a pidfd nor a signal: the parent waits for a child that waits for it.
abbrev abandoned : System
abandoned = record init { parent = reaping 24 false; parent_writes = false }

abandoned_reached : Reach request abandoned
abandoned_reached =
    Reach.step
      (Reach.step (Reach.step Reach.start (Step.close_write_end refl))
        (Step.pidfd_open_fails 24 refl))
      (Step.kill_fails 24 refl)

Reach-stuck_example :
    (blocked ≡ blocked) × (not_created 24 false ≡ not_created 24 false) × (blocked ≡ blocked)
Reach-stuck_example =
    Reach-stuck request (omega arith) (omega arith) refl 24 abandoned_reached refl
      (Step.waitpid_fails 24 false refl)

Reach-Tells_example : ◌≡◌ {A = ChildPc} (exited 2) (exited 2)
Reach-Tells_example = Reach-Tells request (omega arith) (omega arith) refl over_reached

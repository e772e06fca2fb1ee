-- ===== src/OsServices/ProcMgmt/Tests.antt =====
-- A child that forwards descriptor 7, with standard error redirected to descriptor 5, and parents
-- that leave descriptors open.
use the_pipe.Base.{refl, inl, inr, ℕ, ◌≡◌, some, none, List, [], ◌∷◌}
use the_pipe.Base.Int.{pos, minus_one}
use the_pipe.OsServices.Io.{Call}
use the_pipe.OsServices.ProcMgmt.{IoRedirection, Answers}
use the_pipe.Base.Results.{Error, system_error, err}
use the_pipe.OsServices.ProcMgmt.Parent.{ParentAnswers, spawn, launch_error}
use the_pipe.OsServices.ProcMgmt.Parent.Leaks.{AreDistinct, spawn_lem, spawn-leaves_read_end}

abbrev redirection : IoRedirection
redirection = record { sysin = none; sysout = none; syserr = some 5 }

abbrev fine : Call
fine = record { result = pos 0; errno = 0 }

abbrev answers : Answers
answers = record { dup2_stdin = fine; dup2_stdout = fine; dup2_stderr = fine; execve_errno = none }

abbrev program : ℕ
program = 1

abbrev arguments : List ℕ
arguments = 2 ∷ []

-- The pipe is 3 and 4, the event 5 and the pidfd 6; the program was not found, and the signal to the
-- child that has been waited for fails.
abbrev not_found : ParentAnswers
not_found = record {
  pipe = fine;
  read_end = 3;
  write_end = 4;
  fcntl = fine;
  eventfd = record { result = pos 5; errno = 0 };
  fork = record { result = pos 100; errno = 0 };
  pidfd_open = record { result = pos 6; errno = 0 };
  read = record { result = pos 4; errno = 0 };
  child_errno = 2;
  wait = fine;
  send_signal = record { result = minus_one; errno = 3 };
}

not_found-AreDistinct : AreDistinct not_found
not_found-AreDistinct = record {
  ends = refl;
  event_write = refl;
  event_read = refl;
  process_event = refl;
  process_read = refl;
}

spawn_lem_example :
    spawn not_found [] ≡ (err (system_error "Failed to launch application" 2), 6 ∷ [])
unfolding launch_error
spawn_lem_example =
    spawn_lem not_found [] not_found-AreDistinct 100 6 4 refl refl refl refl refl refl

abbrev no_fork : ParentAnswers
no_fork = record not_found { fork = record { result = minus_one; errno = 11 } }

no_fork-AreDistinct : AreDistinct no_fork
no_fork-AreDistinct = record {
  ends = refl;
  event_write = refl;
  event_read = refl;
  process_event = refl;
  process_read = refl;
}

spawn-leaves_read_end_example : (e : Error) × (spawn no_fork [] ≡ (err e, 3 ∷ []))
spawn-leaves_read_end_example =
    spawn-leaves_read_end no_fork [] no_fork-AreDistinct refl refl (inr (refl, inl refl))

-- ===== src/OsServices/ProcMgmt/Inherited/Tests.antt =====
-- A program whose standard error is redirected to descriptor 5, and to which descriptor 7 is
-- forwarded.
use the_pipe.Base.{ℕ, ◌≡◌, refl, false, none, some, [], ◌∷◌, arith}
use the_pipe.Base.Int.{pos}
use the_pipe.OsServices.Io.{Call}
use the_pipe.OsServices.ProcMgmt.{IoRedirection, Answers, run_child}
use the_pipe.OsServices.ProcMgmt.Inherited.{perform, perform-run_child}
use the_pipe.OsServices.ProcMgmt.Inherited.Table.{Descriptors, descriptors}

abbrev fine : Call
fine = record { result = pos 0; errno = 0 }

abbrev answers : Answers
answers = record { dup2_stdin = fine; dup2_stdout = fine; dup2_stderr = fine; execve_errno = none }

abbrev redirection : IoRedirection
redirection = record { sysin = none; sysout = none; syserr = some 5 }

-- Every descriptor is open, on the file with its number.
abbrev before : Descriptors
before = record { file = λ g. some g; on_exec = λ g. false }

abbrev program : ℕ
program = 1

perform-run_child_example :
    descriptors.file
      (perform descriptors (run_child program [] [] redirection (7 ∷ []) answers) before)
      2
    ≡ some 5
perform-run_child_example =
    perform-run_child descriptors program [] [] redirection answers (7 ∷ []) refl refl tt tt
      (omega arith) before 2 (omega arith)

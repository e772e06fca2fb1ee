-- ===== src/OsServices/ProcMgmt/Kept.antt =====
-- Which descriptors the child marks as closed on exec, and when it launches the program.
use the_pipe.Base.{
  ℕ, ◌^◌, ◌≡◌, refl, ◌∙◌, Bool, true, false, not, ◌&&◌, ◌||◌, Option, none, some, List, [], ◌∷◌,
  ◌++◌, map, mem, arith, Bool-cases, inl, inr, ◌==◌, leb,
}
use the_pipe.Base.Int.{is_minus_one}
use the_pipe.OsServices.Io.{Call}
use the_pipe.OsServices.ProcMgmt.{
  SystemCall, dup2, close_range, execve, write_errno, IoRedirection, Answers, stdin_fileno,
  stdout_fileno, stderr_fileno, redirect, after_execve, ranges_to_close, do_exec, build_argv,
  build_env, run_child,
}
use the_pipe.Utils.FlatSet.{flat_set, flat_set_lem}
use the_pipe.Utils.Segments.{InclusiveIntegralRange}
use the_pipe.Utils.Segments.Cover.{contains, covers, for_each_disjoint_segment-covers}

-- Some close_range marks the descriptor.
abbrev pub marks : {Text : Type 0} → ℕ → List (SystemCall Text) → Bool
marks fd [] = false
marks fd (close_range r ∷ calls) = contains r fd || marks fd calls
marks fd (dup2 a b ∷ calls) = marks fd calls
marks fd (execve path argv env ∷ calls) = marks fd calls
marks fd (write_errno errno ∷ calls) = marks fd calls

-- Execve is called.
abbrev pub launches : {Text : Type 0} → List (SystemCall Text) → Bool
launches [] = false
launches (execve path argv env ∷ calls) = true
launches (dup2 a b ∷ calls) = launches calls
launches (close_range r ∷ calls) = launches calls
launches (write_errno errno ∷ calls) = launches calls

-- The redirection is asked for, and dup2 fails.
abbrev pub fails : Option ℕ → Call → Bool
fails none answer = false
fails (some fd) answer = is_minus_one answer.result

module _ {Text : Type 0} where
  marks-redirect :
      (fd : ℕ) (stream : Option ℕ) (target : ℕ) (answer : Call) (rest : List (SystemCall Text))
      → marks fd (redirect stream target answer rest) ≡ (not (fails stream answer) && marks fd rest)
  marks-redirect fd none target answer rest = refl
  marks-redirect fd (some g) target answer rest = elim (Bool-cases (is_minus_one answer.result)) [
    | inl failed ↦ rw failed refl
    | inr fine ↦ rw fine refl
  ]

  launches-redirect :
      (stream : Option ℕ) (target : ℕ) (answer : Call) (rest : List (SystemCall Text))
      → launches (redirect stream target answer rest) ≡ (not (fails stream answer) && launches rest)
  launches-redirect none target answer rest = refl
  launches-redirect (some g) target answer rest = elim (Bool-cases (is_minus_one answer.result)) [
    | inl failed ↦ rw failed refl
    | inr fine ↦ rw fine refl
  ]

  marks-map :
      (fd : ℕ) (rs : List InclusiveIntegralRange) (path : Text) (argv env : List (Option Text))
      (errno : Option ℕ)
      → marks fd (map close_range rs ++ execve path argv env ∷ after_execve errno) ≡ covers rs fd
  marks-map fd [] path argv env none = refl
  marks-map fd [] path argv env (some errno) = refl
  marks-map fd (r ∷ rs) path argv env errno = rw (marks-map fd rs path argv env errno) refl

  launches-map :
      (rs : List InclusiveIntegralRange) (path : Text) (argv env : List (Option Text))
      (errno : Option ℕ)
      → launches (map close_range rs ++ execve path argv env ∷ after_execve errno) ≡ true
  launches-map [] path argv env errno = refl
  launches-map (r ∷ rs) path argv env errno = launches-map rs path argv env errno

pub ranges_to_close-covers :
    (fds : List ℕ) (fd : ℕ)
    → covers (ranges_to_close (flat_set fds)) fd ≡ (
        leb 3 fd
        && leb fd 4294967295
        && not (mem fd fds)
        && not (fd == 4294967295 && mem 4294967294 fds))
unfolding ranges_to_close
ranges_to_close-covers fds fd =
    let (sorted, same) = flat_set_lem fds in
    for_each_disjoint_segment-covers (2 ^ 32) (record { start_at = 3; stop_at = 4294967295 })
      (flat_set fds) fd (omega arith) (omega arith) sorted
    ∙ rw (same fd, same 4294967294) (ground arith)

and_true : (a : Bool) → (a && true) ≡ a
and_true true = refl
and_true false = refl

none_of : (a b c d : Bool) → (not a && (not b && (not c && d))) ≡ (not (a || b || c) && d)
none_of true b c d = refl
none_of false true c d = refl
none_of false false true d = refl
none_of false false false d = refl

module _ {Text : Type 0} (path : Text) (argv env : List Text) (io_redir : IoRedirection)
    (answers : Answers) where
  abbrev pub any_fails : Bool
  any_fails =
      fails io_redir.sysin answers.dup2_stdin
      || fails io_redir.sysout answers.dup2_stdout
      || fails io_redir.syserr answers.dup2_stderr

  unfoldable pub redirect_all : List (SystemCall Text) → List (SystemCall Text)
  redirect_all rest = redirect io_redir.sysin stdin_fileno answers.dup2_stdin (
      redirect io_redir.sysout stdout_fileno answers.dup2_stdout
        (redirect io_redir.syserr stderr_fileno answers.dup2_stderr rest))

  launches-redirect_all :
      (rest : List (SystemCall Text))
      → launches (redirect_all rest) ≡ (not any_fails && launches rest)
  unfolding redirect_all
  launches-redirect_all rest =
      let third = redirect io_redir.syserr stderr_fileno answers.dup2_stderr rest in
      let second = redirect io_redir.sysout stdout_fileno answers.dup2_stdout third in
      launches-redirect io_redir.sysin stdin_fileno answers.dup2_stdin second
      ∙ rw
          (
            launches-redirect io_redir.sysout stdout_fileno answers.dup2_stdout third,
            launches-redirect io_redir.syserr stderr_fileno answers.dup2_stderr rest,
          )
          (none_of (fails io_redir.sysin answers.dup2_stdin)
            (fails io_redir.sysout answers.dup2_stdout) (fails io_redir.syserr answers.dup2_stderr)
            (launches rest))

  marks-redirect_all :
      (fd : ℕ) (rest : List (SystemCall Text))
      → marks fd (redirect_all rest) ≡ (not any_fails && marks fd rest)
  unfolding redirect_all
  marks-redirect_all fd rest =
      let third = redirect io_redir.syserr stderr_fileno answers.dup2_stderr rest in
      let second = redirect io_redir.sysout stdout_fileno answers.dup2_stdout third in
      marks-redirect fd io_redir.sysin stdin_fileno answers.dup2_stdin second
      ∙ rw
          (
            marks-redirect fd io_redir.sysout stdout_fileno answers.dup2_stdout third,
            marks-redirect fd io_redir.syserr stderr_fileno answers.dup2_stderr rest,
          )
          (none_of (fails io_redir.sysin answers.dup2_stdin)
            (fails io_redir.sysout answers.dup2_stdout) (fails io_redir.syserr answers.dup2_stderr)
            (marks fd rest))

  -- Execve is called exactly if none of the redirections fails. The child never marks a descriptor
  -- that is forwarded, and if no redirection fails it marks every other one from 3 to 2 ^ 32 - 1,
  -- but for the last unsigned int if the one before it is forwarded.
  pub run_child_lem :
      (fds_to_forward : List ℕ) (fd : ℕ)
      → (launches (run_child path argv env io_redir fds_to_forward answers) ≡ not any_fails)
        × (marks fd (run_child path argv env io_redir fds_to_forward answers) ≡ (
            not any_fails
            && (leb 3 fd
                && leb fd 4294967295
                && not (mem fd fds_to_forward)
                && not (fd == 4294967295 && mem 4294967294 fds_to_forward))))
  unfolding run_child do_exec redirect_all
  run_child_lem fds_to_forward fd =
      let ranges = ranges_to_close (flat_set fds_to_forward) in
      let rest =
        map close_range ranges
        ++ execve path (build_argv path argv) (build_env env) ∷ after_execve answers.execve_errno in
      (
        launches-redirect_all rest
            ∙ rw
                (launches-map ranges path (build_argv path argv) (build_env env)
                  answers.execve_errno)
                (and_true (not any_fails)),
        marks-redirect_all fd rest
            ∙ rw
                (
                  marks-map fd ranges path (build_argv path argv) (build_env env)
                      answers.execve_errno,
                  ranges_to_close-covers fds_to_forward fd,
                )
                refl,
      )

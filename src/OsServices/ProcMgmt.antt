-- ===== src/OsServices/ProcMgmt.antt =====
-- src/os_services/proc_mgmt/proc_mgmt.cpp: what the child does between fork and execve. The answers
-- of dup2 are arguments; strings are of any type, and `none` is the null pointer.
pub mod Kept
pub mod Parent
pub mod Handshake
pub mod Process
pub mod Inherited
mod Tests
use the_pipe.Base.{
  ℕ, ◌+◌, ◌^◌, Bool, true, false, Option, none, some, List, [], ◌∷◌, ◌++◌, map, if◌then◌else◌,
}
use the_pipe.Base.Int.{is_minus_one}
use the_pipe.OsServices.Io.{Call}
use the_pipe.Utils.FlatSet.{flat_set}
use the_pipe.Utils.Segments.{InclusiveIntegralRange, for_each_disjoint_segment}

abbrev pub stdin_fileno : ℕ
stdin_fileno = 0

abbrev pub stdout_fileno : ℕ
stdout_fileno = 1

abbrev pub stderr_fileno : ℕ
stderr_fileno = 2

pub record IoRedirection : Type 0 where
  pub sysin : Option ℕ
  pub sysout : Option ℕ
  pub syserr : Option ℕ

pub data SystemCall (Text : Type 0) : Type 0 where
  dup2 : ℕ → ℕ → SystemCall Text
  close_range : InclusiveIntegralRange → SystemCall Text
  execve : Text → List (Option Text) → List (Option Text) → SystemCall Text
  write_errno : ℕ → SystemCall Text

-- The answers to dup2 for the three standard streams, and the errno of execve, which returns only
-- if it fails.
pub record Answers : Type 0 where
  pub dup2_stdin : Call
  pub dup2_stdout : Call
  pub dup2_stderr : Call
  pub execve_errno : Option ℕ

-- The ranges that close_range marks.
unfoldable pub ranges_to_close : List ℕ → List InclusiveIntegralRange
ranges_to_close fds_to_keep =
    for_each_disjoint_segment (2 ^ 32)
      (record { start_at = stderr_fileno + 1; stop_at = 4294967295 }) fds_to_keep

module _ {Text : Type 0} where
  unfoldable pub build_argv : Text → List Text → List (Option Text)
  build_argv path argv = some path ∷ (map some argv ++ none ∷ [])

  unfoldable pub build_env : List Text → List (Option Text)
  build_env env = map some env ++ none ∷ []

  -- One of the redirections, with what follows it; `fail` reports errno.
  abbrev pub redirect : Option ℕ → ℕ → Call → List (SystemCall Text) → List (SystemCall Text)
  redirect none target answer rest = rest
  redirect (some fd) target answer rest =
      dup2 fd target ∷ (if is_minus_one answer.result then write_errno answer.errno ∷ [] else rest)

  abbrev pub after_execve : Option ℕ → List (SystemCall Text)
  after_execve none = []
  after_execve (some errno) = write_errno errno ∷ []

  -- The calls in their order.
  unfoldable pub do_exec :
      Text
      → List (Option Text)
      → List (Option Text)
      → IoRedirection
      → List ℕ
      → Answers
      → List (SystemCall Text)
  unfolding ranges_to_close
  do_exec path argv env io_redir fds_to_keep answers =
      redirect io_redir.sysin stdin_fileno answers.dup2_stdin (
        redirect io_redir.sysout stdout_fileno answers.dup2_stdout (
          redirect io_redir.syserr stderr_fileno answers.dup2_stderr (
            map close_range (ranges_to_close fds_to_keep)
            ++ execve path argv env ∷ after_execve answers.execve_errno)))

  -- The child of spawn, from the call of do_exec on.
  unfoldable pub run_child :
      Text → List Text → List Text → IoRedirection → List ℕ → Answers → List (SystemCall Text)
  unfolding do_exec build_argv build_env
  run_child path argv env io_redir fds_to_forward answers =
      do_exec path (build_argv path argv) (build_env env) io_redir (flat_set fds_to_forward) answers

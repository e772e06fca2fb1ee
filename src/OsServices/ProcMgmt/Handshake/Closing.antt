-- ===== src/OsServices/ProcMgmt/Handshake/Closing.antt =====
-- The child closes its write end of the pipe by the execve that starts the program.
use the_pipe.Base.{
  ℕ, ◌≤◌, ◌<◌, ◌≡◌, refl, ◌∙◌, true, false, Option, none, some, List, mem, arith, Bool-cases, inl,
  inr,
}
use the_pipe.Base.Int.{is_minus_one}
use the_pipe.OsServices.Io.{Call}
use the_pipe.OsServices.ProcMgmt.{SystemCall, Answers, redirect, do_exec, run_child}
use the_pipe.OsServices.ProcMgmt.Kept.{fails, any_fails, marks, run_child_lem}
use the_pipe.OsServices.ProcMgmt.Handshake.{Request, reported, calls_of}

module _ {Text : Type 0} where
  reported-redirect :
      (stream : Option ℕ) (target : ℕ) (answer : Call) (rest : List (SystemCall Text))
      → reported (redirect stream target answer rest) ≡ none
      → (fails stream answer ≡ false) × (reported rest ≡ none)
  reported-redirect none target answer rest h = (refl, h)
  reported-redirect (some fd) target answer rest h =
      elim (Bool-cases (is_minus_one answer.result)) [
        | inl failed ↦
            let clash : some answer.errno ≡ none = rw failed at h in absurd (ground arith)
        | inr fine ↦ (fine, rw fine at h)
      ]

-- A child that has reported nothing has not failed at a redirection.
fails-none :
    {Text : Type 0} (q : Request Text) (answers : Answers)
    → reported (calls_of q answers) ≡ none
    → any_fails q.path q.argv q.env q.io_redir answers ≡ false
unfolding run_child do_exec
fails-none q answers h =
    let (a, h1) = reported-redirect q.io_redir.sysin _ answers.dup2_stdin _ h in
    let (b, h2) = reported-redirect q.io_redir.sysout _ answers.dup2_stdout _ h1 in
    let (c, h3) = reported-redirect q.io_redir.syserr _ answers.dup2_stderr _ h2 in
    rw (a, b, c) refl

-- If the write end is not one of the standard streams and is not forwarded, execve closes it.
pub marks-write_end :
    {Text : Type 0} (q : Request Text) (answers : Answers)
    → 3 ≤ q.write_end
    → q.write_end < 4294967295
    → mem q.write_end q.fds_to_forward ≡ false
    → reported (calls_of q answers) ≡ none
    → marks q.write_end (calls_of q answers) ≡ true
marks-write_end q answers low high kept h =
    (run_child_lem q.path q.argv q.env q.io_redir answers q.fds_to_forward q.write_end).1
    ∙ rw (fails-none q answers h, kept) (ground arith)

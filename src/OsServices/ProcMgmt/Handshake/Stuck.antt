-- ===== src/OsServices/ProcMgmt/Handshake/Stuck.antt =====
-- The parent of spawn behind a kill that has failed.
use the_pipe.Base.{ℕ, ◌≤◌, ◌<◌, ◌≡◌, false, mem, arith}
use the_pipe.OsServices.ProcMgmt.Handshake.{
  Request, reaping, not_created, blocked, System, Step, Reach,
}
use the_pipe.OsServices.ProcMgmt.Handshake.Closing.{marks-write_end}
use the_pipe.OsServices.ProcMgmt.Handshake.Invariant.{
  blocked_of_early, IsCoherent, Reach-IsCoherent,
}

blocked_there :
    (s : System) (errno : ℕ) → s.parent ≡ reaping errno false → IsCoherent s → s.child ≡ blocked
blocked_there s errno p c = ground (arith, blocked_of_early s.child)

module _ {Text : Type 0} (q : Request Text) where
  stuck-Step :
      {s t : System} (errno : ℕ)
      → s.parent ≡ reaping errno false
      → s.child ≡ blocked
      → IsCoherent s
      → Step q s t
      → (t.parent ≡ not_created errno false) × (t.child ≡ blocked)
  stuck-Step errno p at c (Step.close_write_end a) = ground arith
  stuck-Step errno p at c (Step.pidfd_open a) = ground arith
  stuck-Step errno p at c (Step.pidfd_open_fails n a) = ground arith
  stuck-Step errno p at c (Step.kill n a) = ground arith
  stuck-Step errno p at c (Step.kill_fails n a) = ground arith
  stuck-Step errno p at c (Step.waitpid n sent a b) = ground arith
  stuck-Step errno p at c (Step.waitpid_fails n sent a) = ground arith
  stuck-Step errno p at c (Step.post a) = ground arith
  stuck-Step errno p at c (Step.read_errno n a b) = ground arith
  stuck-Step errno p at c (Step.read_nothing a b d e) = ground arith
  stuck-Step errno p at c (Step.read_fails n a) = ground arith
  stuck-Step errno p at c (Step.wait_fails m n a) = ground arith
  stuck-Step errno p at c (Step.send_signal x a) = ground arith
  stuck-Step errno p at c (Step.send_signal_fails x a) = ground arith
  stuck-Step errno p at c (Step.collect x a b) = ground arith
  stuck-Step errno p at c (Step.collect_fails x a) = ground arith
  stuck-Step errno p at c (Step.wait n a b) = ground arith
  stuck-Step errno p at c (Step.read_event a b) = ground arith
  stuck-Step errno p at c (Step.exec x a b) = ground arith
  stuck-Step errno p at c (Step.report x n a b) = ground arith
  stuck-Step errno p at c (Step.exit n a) = ground arith

module _ {Text : Type 0} (q : Request Text) (low : 3 ≤ q.write_end)
    (high : q.write_end < 4294967295) (kept : mem q.write_end q.fds_to_forward ≡ false) where
  -- The write end of the pipe is above the standard streams, below the last unsigned int, and not
  -- forwarded; the calls on the event descriptor and the child's write to the pipe succeed. When
  -- pidfd_open and then kill have failed, the child is blocked and stays so whatever step is taken,
  -- and the only step that is left is that waitpid fails, behind which spawn throws and leaves the
  -- child behind.
  pub Reach-stuck :
      {s t : System} (errno : ℕ)
      → Reach q s
      → s.parent ≡ reaping errno false
      → Step q s t
      → (s.child ≡ blocked) × (t.parent ≡ not_created errno false) × (t.child ≡ blocked)
  Reach-stuck {s} errno r p st =
      let c = Reach-IsCoherent (λ answers h. marks-write_end q answers low high kept h) r in
      let at = blocked_there s errno p c in
      let (thrown_next, left) = stuck-Step q errno p at c st in (at, thrown_next, left)

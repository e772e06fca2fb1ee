-- ===== src/OsServices/ProcMgmt/Handshake/Outcome.antt =====
-- What the parent's place in spawn tells of the child.
use the_pipe.Base.{◌≤◌, ◌<◌, ◌≡◌, refl, true, false, some, mem, arith}
use the_pipe.OsServices.ProcMgmt.Handshake.{
  Request, ParentPc, forked, closed_write_end, killing, reaping, has_pidfd, reading, waiting,
  returned, thrown, not_created, blocked, unwinding, collecting, unwound, is_dead, ChildPc, exited,
  killed, System, Reach,
}
use the_pipe.OsServices.ProcMgmt.Handshake.Closing.{marks-write_end}
use the_pipe.OsServices.ProcMgmt.Handshake.Invariant.{
  is_launched, failure, Unlaunched, IsCoherent, Reach-IsCoherent,
}

-- What the end of spawn tells of the child.
abbrev pub Tells : ParentPc → ChildPc → Type 0
Tells forked child = is_launched child ≡ false
Tells closed_write_end child = is_launched child ≡ false
Tells (killing errno) child = is_launched child ≡ false
Tells (reaping errno sent) child = is_launched child ≡ false
Tells has_pidfd child = is_launched child ≡ false
Tells reading child = Unit
Tells (waiting errno) child = failure child ≡ some errno
Tells returned child = is_launched child ≡ true
Tells (thrown errno) child = child ≡ exited errno
Tells (not_created errno true) child = child ≡ killed
Tells (not_created errno false) child = child ≡ blocked
Tells (unwinding cause) child = Unlaunched cause child
Tells (collecting cause) child = Unlaunched cause child × (is_dead child ≡ true)
Tells (unwound cause true) child = Unlaunched cause child × (is_dead child ≡ true)
Tells (unwound cause false) child = Unlaunched cause child

tells : (s : System) (k : ParentPc) → s.parent ≡ k → IsCoherent s → Tells k s.child
tells s forked p c = ground arith
tells s closed_write_end p c = ground arith
tells s (killing errno) p c = ground arith
tells s (reaping errno sent) p c = ground arith
tells s has_pidfd p c = ground arith
tells s reading p c = tt
tells s (waiting errno) p c = ground arith
tells s returned p c = ground arith
tells s (thrown errno) p c = ground arith
tells s (not_created errno true) p c = ground arith
tells s (not_created errno false) p c = ground arith
tells s (unwinding cause) p c = ground arith
tells s (collecting cause) p c = ground arith
tells s (unwound cause true) p c = ground arith
tells s (unwound cause false) p c = ground arith

module _ {Text : Type 0} (q : Request Text) (low : 3 ≤ q.write_end)
    (high : q.write_end < 4294967295) (kept : mem q.write_end q.fds_to_forward ≡ false) where
  -- The write end of the pipe is above the standard streams, below the last unsigned int, and not
  -- forwarded; the calls on the event descriptor and the child's write to the pipe succeed. In every
  -- state that is reached, the parent's place tells the child's: before the parent writes to the
  -- event descriptor the program has not been started; when spawn returns, it has; when spawn throws
  -- with the errno of the child, the child has exited on that error. When it throws since it has no
  -- pidfd, the child was killed before it could start the program, or, if kill has failed, it is
  -- still blocked. When it throws since the wait for the child has failed, the child can start the
  -- program no more. When it throws since this wait or the read has failed, the child has ended,
  -- unless the signal of the pidfd's deleter has failed.
  pub Reach-Tells : {s : System} → Reach q s → Tells s.parent s.child
  Reach-Tells {s} r =
      tells s s.parent refl
        (Reach-IsCoherent (λ answers h. marks-write_end q answers low high kept h) r)

-- ===== src/OsServices/ProcMgmt/Handshake/Invariant.antt =====
-- What holds in every state that the parent and the child of spawn can reach.
use the_pipe.Base.{ℕ, ◌≡◌, refl, Bool, true, false, Option, none, some, arith}
use the_pipe.OsServices.ProcMgmt.{Answers}
use the_pipe.OsServices.ProcMgmt.Kept.{marks}
use the_pipe.OsServices.ProcMgmt.Handshake.{
  Request, ParentPc, forked, closed_write_end, killing, reaping, has_pidfd, reading, waiting,
  returned, thrown, not_created, Cause, read_threw, wait_threw, unwinding, collecting, unwound,
  is_dead, kill_child, ChildPc, blocked, ready, closing, exited, running, ended, killed, System,
  reported, calls_of, Step, Ends, Reach,
}

abbrev is_forked : ParentPc → Bool
is_forked forked = true
is_forked closed_write_end = false
is_forked (killing errno) = false
is_forked (reaping errno sent) = false
is_forked has_pidfd = false
is_forked reading = false
is_forked (waiting errno) = false
is_forked returned = false
is_forked (thrown errno) = false
is_forked (not_created errno sent) = false
is_forked (unwinding cause) = false
is_forked (collecting cause) = false
is_forked (unwound cause sent) = false

-- The parent has the pidfd, and has written to the event descriptor.
abbrev has_posted : ParentPc → Bool
has_posted forked = false
has_posted closed_write_end = false
has_posted (killing errno) = false
has_posted (reaping errno sent) = false
has_posted has_pidfd = false
has_posted reading = true
has_posted (waiting errno) = true
has_posted returned = true
has_posted (thrown errno) = true
has_posted (not_created errno sent) = false
has_posted (unwinding cause) = true
has_posted (collecting cause) = true
has_posted (unwound cause sent) = true

abbrev has_killed : ParentPc → Bool
has_killed forked = false
has_killed closed_write_end = false
has_killed (killing errno) = false
has_killed (reaping errno sent) = sent
has_killed has_pidfd = false
has_killed reading = false
has_killed (waiting errno) = false
has_killed returned = false
has_killed (thrown errno) = false
has_killed (not_created errno sent) = sent
has_killed (unwinding cause) = false
has_killed (collecting cause) = false
has_killed (unwound cause sent) = false

-- The deleter of the pidfd has sent its signal.
abbrev has_signalled : ParentPc → Bool
has_signalled forked = false
has_signalled closed_write_end = false
has_signalled (killing errno) = false
has_signalled (reaping errno sent) = false
has_signalled has_pidfd = false
has_signalled reading = false
has_signalled (waiting errno) = false
has_signalled returned = false
has_signalled (thrown errno) = false
has_signalled (not_created errno sent) = false
has_signalled (unwinding cause) = false
has_signalled (collecting cause) = true
has_signalled (unwound cause sent) = sent

abbrev is_killed : ChildPc → Bool
is_killed killed = true
is_killed blocked = false
is_killed ready = false
is_killed (closing errno) = false
is_killed (exited errno) = false
is_killed running = false
is_killed ended = false

-- The child has not come past the read from the event descriptor.
abbrev pub is_early : ChildPc → Bool
is_early blocked = true
is_early killed = true
is_early ready = false
is_early (closing errno) = false
is_early (exited errno) = false
is_early running = false
is_early ended = false

-- The program has been started.
abbrev pub is_launched : ChildPc → Bool
is_launched running = true
is_launched ended = true
is_launched blocked = false
is_launched ready = false
is_launched (closing errno) = false
is_launched (exited errno) = false
is_launched killed = false

abbrev holds_write_end : ChildPc → Bool
holds_write_end blocked = true
holds_write_end ready = true
holds_write_end (closing errno) = true
holds_write_end (exited errno) = false
holds_write_end running = false
holds_write_end ended = false
holds_write_end killed = false

-- The errno with which launching the program has failed.
abbrev pub failure : ChildPc → Option ℕ
failure (closing errno) = some errno
failure (exited errno) = some errno
failure blocked = none
failure ready = none
failure running = none
failure ended = none
failure killed = none

-- The child can launch the program no more.
abbrev pub has_failed : ChildPc → Bool
has_failed (closing errno) = true
has_failed (exited errno) = true
has_failed killed = true
has_failed blocked = false
has_failed ready = false
has_failed running = false
has_failed ended = false

abbrev pub Unlaunched : Cause → ChildPc → Type 0
Unlaunched (read_threw errno) child = Unit
Unlaunched (wait_threw errno) child = has_failed child ≡ true

-- What the parent knows of the child.
abbrev Knows : ParentPc → Option ℕ → ChildPc → Type 0
Knows forked message child = Unit
Knows closed_write_end message child = Unit
Knows (killing errno) message child = Unit
Knows (reaping errno sent) message child = Unit
Knows has_pidfd message child = Unit
Knows reading message child = message ≡ failure child
Knows (waiting errno) message child = failure child ≡ some errno
Knows returned message child = is_launched child ≡ true
Knows (thrown errno) message child = child ≡ exited errno
Knows (not_created errno true) message child = child ≡ killed
Knows (not_created errno false) message child = child ≡ blocked
Knows (unwinding cause) message child = Unlaunched cause child
Knows (collecting cause) message child = Unlaunched cause child
Knows (unwound cause sent) message child = Unlaunched cause child

pub record IsCoherent (s : System) : Type 0 where
  pub own_write_end : s.parent_writes ≡ is_forked s.parent
  pub posted_by_parent : s.posted ≡ has_posted s.parent
  pub killed_by_parent : has_signalled s.parent ≡ false → is_killed s.child ≡ has_killed s.parent
  pub dead : has_signalled s.parent ≡ true → is_dead s.child ≡ true
  pub early : s.posted ≡ false → is_early s.child ≡ true
  pub unwritten : s.posted ≡ false → s.message ≡ none
  pub child_write_end : s.child_writes ≡ holds_write_end s.child
  pub known : Knows s.parent s.message s.child

pub kill_child-is_dead : (k : ChildPc) → is_dead (kill_child k) ≡ true
kill_child-is_dead blocked = refl
kill_child-is_dead ready = refl
kill_child-is_dead (closing errno) = refl
kill_child-is_dead (exited errno) = refl
kill_child-is_dead running = refl
kill_child-is_dead ended = refl
kill_child-is_dead killed = refl

holds_write_end-is_dead : (k : ChildPc) → is_dead k ≡ true → holds_write_end k ≡ false
holds_write_end-is_dead blocked h = cc
holds_write_end-is_dead ready h = cc
holds_write_end-is_dead (closing errno) h = cc
holds_write_end-is_dead (exited errno) h = refl
holds_write_end-is_dead running h = cc
holds_write_end-is_dead ended h = refl
holds_write_end-is_dead killed h = refl

Unlaunched-kill_child :
    (cause : Cause) (k : ChildPc) → Unlaunched cause k → Unlaunched cause (kill_child k)
Unlaunched-kill_child (read_threw errno) k h = tt
Unlaunched-kill_child (wait_threw errno) (closing e) h = refl
Unlaunched-kill_child (wait_threw errno) (exited e) h = refl
Unlaunched-kill_child (wait_threw errno) killed h = refl
Unlaunched-kill_child (wait_threw errno) blocked h = cc
Unlaunched-kill_child (wait_threw errno) ready h = cc
Unlaunched-kill_child (wait_threw errno) running h = cc
Unlaunched-kill_child (wait_threw errno) ended h = cc

failure-has_failed : (k : ChildPc) (errno : ℕ) → failure k ≡ some errno → has_failed k ≡ true
failure-has_failed (closing e) errno h = refl
failure-has_failed (exited e) errno h = refl
failure-has_failed killed errno h = cc
failure-has_failed blocked errno h = cc
failure-has_failed ready errno h = cc
failure-has_failed running errno h = cc
failure-has_failed ended errno h = cc

pub blocked_of_early : (k : ChildPc) → is_early k ≡ true → is_killed k ≡ false → k ≡ blocked
blocked_of_early blocked h n = refl
blocked_of_early killed h n = cc
blocked_of_early ready h n = cc
blocked_of_early (closing errno) h n = cc
blocked_of_early (exited errno) h n = cc
blocked_of_early running h n = cc
blocked_of_early ended h n = cc

module _ {Text : Type 0} {q : Request Text}
    (closes : (answers : Answers)
      → reported (calls_of q answers) ≡ none
      → marks q.write_end (calls_of q answers) ≡ true) where
  pub Step-IsCoherent : {s t : System} → Step q s t → IsCoherent s → IsCoherent t
  Step-IsCoherent (Step.close_write_end p) c = ground arith
  Step-IsCoherent (Step.pidfd_open p) c = ground arith
  Step-IsCoherent (Step.pidfd_open_fails errno p) c = ground arith
  Step-IsCoherent (Step.kill errno p) c = ground arith
  Step-IsCoherent (Step.kill_fails errno p) c = ground arith
  Step-IsCoherent (Step.waitpid errno true p d) c = ground arith
  Step-IsCoherent (Step.waitpid errno false p d) c = ground arith
  Step-IsCoherent (Step.waitpid_fails errno true p) c = ground arith
  Step-IsCoherent {s} (Step.waitpid_fails errno false p) c =
      ground (arith, blocked_of_early s.child)
  Step-IsCoherent (Step.post p) c = ground arith
  Step-IsCoherent (Step.read_errno errno p m) c = ground arith
  Step-IsCoherent (Step.read_nothing p m w v) c = ground arith
  Step-IsCoherent (Step.wait errno p d) c = ground arith
  Step-IsCoherent (Step.read_fails errno p) c = ground arith
  Step-IsCoherent {s} (Step.wait_fails child_errno errno p) c =
      ground (arith, failure-has_failed s.child child_errno)
  Step-IsCoherent {s} (Step.send_signal cause p) c =
      let gone = kill_child-is_dead s.child in
      ground (
        arith,
        gone,
        holds_write_end-is_dead (kill_child s.child) gone,
        Unlaunched-kill_child cause s.child,
      )
  Step-IsCoherent (Step.send_signal_fails cause p) c = ground arith
  Step-IsCoherent (Step.collect cause p d) c = ground arith
  Step-IsCoherent (Step.collect_fails cause p) c = ground arith
  Step-IsCoherent (Step.read_event p d) c = ground arith
  Step-IsCoherent (Step.exec answers p r) c = ground (arith, closes answers r)
  Step-IsCoherent (Step.report answers errno p r) c = ground arith
  Step-IsCoherent (Step.exit errno p) c = ground arith

  pub Ends-IsCoherent : {s t : System} → Ends q s t → IsCoherent s → IsCoherent t
  Ends-IsCoherent (Ends.end p) c = ground arith

  pub Reach-IsCoherent : {s : System} → Reach q s → IsCoherent s
  Reach-IsCoherent Reach.start = ground arith
  Reach-IsCoherent (Reach.step r st) = Step-IsCoherent st (Reach-IsCoherent r)
  Reach-IsCoherent (Reach.end_step r e) = Ends-IsCoherent e (Reach-IsCoherent r)

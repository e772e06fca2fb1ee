-- ===== src/OsServices/ProcMgmt/Process/Endings.antt =====
-- What the owner of a process can learn, and what its end leaves.
use the_pipe.Base.{
  ℕ, ◌≡◌, ◌⊎◌, refl, sym, ◌∙◌, true, false, List, [], ◌∷◌, Bool-cases, inl, inr, ap,
}
use the_pipe.Base.Int.{ℤ, is_minus_one}
use the_pipe.Base.Results.{Result, ok, err}
use the_pipe.OsServices.Fd.Opened.{close_descriptor}
use the_pipe.OsServices.ProcMgmt.Parent.{delete_pidfd}
use the_pipe.OsServices.ProcMgmt.Process.{
  Ending, exit, signal, siginfo_of, Processes, ProcessTerminationStatus, process_exited,
  process_killed, Process, sigkill, kill, wait, destroy_process,
}

-- What the owner does before the end, where exceptions are caught.
pub data Use : Type 0 where
  kill_by : ℤ → Use
  wait_for : Use

-- How a process that has the status has ended.
abbrev pub ending_of : ProcessTerminationStatus → Ending
ending_of (process_exited return_value) = exit return_value
ending_of (process_killed signo) = signal signo

module _ (k : Processes) where
  abbrev pub and_status :
      Result ProcessTerminationStatus
      → List ProcessTerminationStatus × k.State
      → List ProcessTerminationStatus × k.State
  and_status (err e) r = r
  and_status (ok status) (rest, s) = (status ∷ rest, s)

  -- The statuses that the calls of wait return, and the kernel behind the calls.
  unfoldable pub use_process : k.State → ℕ → List Use → List ProcessTerminationStatus × k.State
  unfolding kill wait
  use_process s fd [] = ([], s)
  use_process s fd (kill_by signo ∷ uses) = use_process (kill k s fd signo).1 fd uses
  use_process s fd (wait_for ∷ uses) =
      let (r, s') = wait k s fd in and_status r (use_process s' fd uses)

  kill-is_reaped :
      (s : k.State) (fd : ℕ) (signo : ℤ) → k.is_reaped (kill k s fd signo).1 fd ≡ k.is_reaped s fd
  unfolding kill
  kill-is_reaped s fd signo = elim (Bool-cases (is_minus_one (k.send_signal s fd signo).0.result)) [
    | inl failed ↦ rw failed (k.send_signal-is_reaped s fd signo)
    | inr sent ↦ rw sent (k.send_signal-is_reaped s fd signo)
  ]

  -- What a call of wait gives.
  abbrev Waits : k.State → ℕ → Result ProcessTerminationStatus × k.State → Type 0
  Waits s fd (err e, s') = k.is_reaped s' fd ≡ k.is_reaped s fd
  Waits s fd (ok status, s') =
      (k.is_reaped s fd ≡ false) × (k.is_reaped s' fd ≡ true) × k.EndsBy fd (ending_of status)

  wait-status :
      (s : k.State) (fd : ℕ) (e : Ending)
      → is_minus_one (k.waitid s fd).0.result ≡ false
      → (k.waitid s fd).1 ≡ siginfo_of e
      → k.EndsBy fd e
      → Waits s fd (wait k s fd)
  unfolding wait
  wait-status s fd (exit n) fine info ended =
      let (live, reaped, _) = k.waitid-succeeds s fd fine in rw (fine, info) (live, reaped, ended)
  wait-status s fd (signal n) fine info ended =
      let (live, reaped, _) = k.waitid-succeeds s fd fine in rw (fine, info) (live, reaped, ended)

  wait-Waits : (s : k.State) (fd : ℕ) → Waits s fd (wait k s fd)
  unfolding wait
  wait-Waits s fd = elim (Bool-cases (is_minus_one (k.waitid s fd).0.result)) [
    | inl failed ↦ rw failed (k.waitid-fails s fd failed)
    | inr fine ↦
        let (_, _, (e, ended, info)) = k.waitid-succeeds s fd fine in
        wait-status s fd e fine info ended
  ]

  -- Behind the calls of a process that is reaped: no status, and the process stays reaped.
  abbrev Silent : ℕ → List ProcessTerminationStatus × k.State → Type 0
  Silent fd (statuses, s) = (statuses ≡ []) × (k.is_reaped s fd ≡ true)

  and_status-Silent :
      (s : k.State) (fd : ℕ) (uses : List Use) (r : Result ProcessTerminationStatus × k.State)
      → Waits s fd r
      → k.is_reaped s fd ≡ true
      → (k.is_reaped r.1 fd ≡ true → Silent fd (use_process r.1 fd uses))
      → Silent fd (and_status r.0 (use_process r.1 fd uses))
  and_status-Silent s fd uses (err e, s') w h go = go (w ∙ h)
  and_status-Silent s fd uses (ok status, s') w h go =
      (let clash : true ≡ false = sym h ∙ w.0 in cc)

  use_process-Silent :
      (s : k.State) (fd : ℕ) (uses : List Use)
      → k.is_reaped s fd ≡ true
      → Silent fd (use_process s fd uses)
  unfolding use_process
  use_process-Silent s fd [] h = (refl, h)
  use_process-Silent s fd (kill_by signo ∷ uses) h =
      use_process-Silent (kill k s fd signo).1 fd uses (kill-is_reaped s fd signo ∙ h)
  use_process-Silent s fd (wait_for ∷ uses) h =
      and_status-Silent s fd uses (wait k s fd) (wait-Waits s fd) h
        (λ reaped. use_process-Silent (wait k s fd).1 fd uses reaped)

  -- The statuses that were returned, and whether the process is reaped: none and not, or one that is
  -- how the process ended.
  abbrev Learned : ℕ → List ProcessTerminationStatus × k.State → Type 0
  Learned fd (statuses, s) =
      ((statuses ≡ []) × (k.is_reaped s fd ≡ false))
      ⊎ ((status : ProcessTerminationStatus) × (statuses ≡ status ∷ [])
          × k.EndsBy fd (ending_of status)
          × (k.is_reaped s fd ≡ true))

  and_status-Learned :
      (s : k.State) (fd : ℕ) (uses : List Use) (r : Result ProcessTerminationStatus × k.State)
      → Waits s fd r
      → k.is_reaped s fd ≡ false
      → (k.is_reaped r.1 fd ≡ false → Learned fd (use_process r.1 fd uses))
      → Learned fd (and_status r.0 (use_process r.1 fd uses))
  and_status-Learned s fd uses (err e, s') w h go = go (w ∙ h)
  and_status-Learned s fd uses (ok status, s') (live, reaped, ended) h go =
      let (none_more, still) = use_process-Silent s' fd uses reaped in
      inr (status, ap (λ rest. status ∷ rest) none_more, ended, still)

  use_process-Learned :
      (s : k.State) (fd : ℕ) (uses : List Use)
      → k.is_reaped s fd ≡ false
      → Learned fd (use_process s fd uses)
  unfolding use_process
  use_process-Learned s fd [] h = inl (refl, h)
  use_process-Learned s fd (kill_by signo ∷ uses) h =
      use_process-Learned (kill k s fd signo).1 fd uses (kill-is_reaped s fd signo ∙ h)
  use_process-Learned s fd (wait_for ∷ uses) h =
      and_status-Learned s fd uses (wait k s fd) (wait-Waits s fd) h
        (λ live. use_process-Learned (wait k s fd).1 fd uses live)

  -- What the end of the owner leaves behind these calls.
  abbrev pub Left : Process → List ℕ → List ProcessTerminationStatus × k.State → Type 0
  Left p opened (statuses, s) =
      ((statuses ≡ [])
        × ((destroy_process k s p opened).0 ≡ close_descriptor p.file_descriptor opened))
      ⊎ ((status : ProcessTerminationStatus) × (statuses ≡ status ∷ [])
          × k.EndsBy p.file_descriptor (ending_of status)
          × ((destroy_process k s p opened).0 ≡ opened))

  left :
      (p : Process) (opened : List ℕ) (r : List ProcessTerminationStatus × k.State)
      → k.may_signal p.file_descriptor ≡ true
      → Learned p.file_descriptor r
      → Left p opened r
  unfolding destroy_process delete_pidfd
  left p opened (statuses, s) may (inl (nothing, live)) =
      inl (nothing, rw (k.send_signal-permitted s p.file_descriptor sigkill live may) refl)
  left p opened (statuses, s) may (inr (status, one, ended, reaped)) =
      inr (status, one, ended, rw (k.send_signal-reaped s p.file_descriptor sigkill reaped) refl)

  -- The process has not been waited for yet, and may be signalled. Its owner may kill it and wait
  -- for it in any order and any number of times. Either no wait succeeds, and the end of the owner
  -- closes the pidfd; or exactly one does, it tells how the process ended, by an exit or by a
  -- signal, and the end of the owner leaves the pidfd open.
  pub use_process-Left :
      (s : k.State) (p : Process) (uses : List Use) (opened : List ℕ)
      → k.is_reaped s p.file_descriptor ≡ false
      → k.may_signal p.file_descriptor ≡ true
      → Left p opened (use_process s p.file_descriptor uses)
  use_process-Left s p uses opened live may =
      left p opened (use_process s p.file_descriptor uses) may
        (use_process-Learned s p.file_descriptor uses live)

-- ===== src/OsServices/ProcMgmt/Process/Tests.antt =====
-- A process with the pidfd 6 that exits with 3.
use the_pipe.Base.{◌≡◌, refl, Bool, true, false, [], ◌∷◌}
use the_pipe.Base.Int.{pos, minus_one, is_minus_one}
use the_pipe.OsServices.Io.{Call}
use the_pipe.OsServices.ProcMgmt.Process.{Ending, exit, Siginfo, siginfo_of, Processes, Process}
use the_pipe.OsServices.ProcMgmt.Process.Endings.{
  kill_by, wait_for, use_process, Left, use_process-Left,
}

abbrev fine : Call
fine = record { result = pos 0; errno = 0 }

abbrev gone : Call
gone = record { result = minus_one; errno = 3 }

-- The state says whether the process is reaped.
abbrev send : Bool → Call
send true = gone
send false = fine

abbrev three : Siginfo
three = siginfo_of (exit (pos 3))

waits :
    (s : Bool)
    → is_minus_one (send s).result ≡ false
    → (s ≡ false) × (true ≡ true) × ((e : Ending) × (e ≡ exit (pos 3)) × (three ≡ siginfo_of e))
waits true h = cc
waits false h = (refl, refl, (exit (pos 3), refl, refl))

stays : (s : Bool) → is_minus_one (send s).result ≡ true → true ≡ s
stays true h = refl
stays false h = cc

refused : (s : Bool) → s ≡ true → is_minus_one (send s).result ≡ true
refused true h = refl
refused false h = cc

sent : (s : Bool) → s ≡ false → is_minus_one (send s).result ≡ false
sent true h = cc
sent false h = refl

abbrev one_process : Processes
one_process = record {
  State = Bool;
  send_signal = λ s fd signo. (send s, s);
  waitid = λ s fd. (send s, three, true);
  is_reaped = λ s fd. s;
  may_signal = λ fd. true;
  EndsBy = λ fd e. e ≡ exit (pos 3);
  send_signal-is_reaped = λ s fd signo. refl;
  send_signal-reaped = λ s fd signo h. refused s h;
  send_signal-permitted = λ s fd signo h may. sent s h;
  waitid-succeeds = λ s fd h. waits s h;
  waitid-fails = λ s fd h. stays s h;
}

abbrev process : Process
process = record { pid = 100; file_descriptor = 6 }

use_process-Left_example :
    Left one_process process
      (6 ∷ [])
      (use_process one_process false 6 (kill_by (pos 15) ∷ wait_for ∷ wait_for ∷ []))
use_process-Left_example =
    use_process-Left one_process false process (kill_by (pos 15) ∷ wait_for ∷ wait_for ∷ [])
      (6 ∷ []) refl refl

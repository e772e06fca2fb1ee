-- ===== src/OsServices/ProcMgmt/Inherited.antt =====
-- The descriptors of a program that spawn has started. What the calls of the child do to the table of
-- its descriptors is an interface of the kernel.
pub mod Table
mod Tests
use the_pipe.Base.{
  ℕ, ◌≤◌, ◌<◌, ◌≡◌, refl, sym, ap, ◌∙◌, Bool, true, false, not, ◌&&◌, ◌||◌, Option, none, some,
  List, [], ◌∷◌, ◌++◌, map, mem, leb, ◌==◌, ==_iff, if◌then◌else◌, arith, Bool-cases, inl, inr,
}
use the_pipe.Base.Int.{is_minus_one}
use the_pipe.OsServices.Io.{Call}
use the_pipe.Utils.FlatSet.{flat_set}
use the_pipe.Utils.Segments.{InclusiveIntegralRange}
use the_pipe.Utils.Segments.Cover.{contains, covers}
use the_pipe.OsServices.ProcMgmt.{
  SystemCall, dup2, close_range, execve, write_errno, IoRedirection, Answers, stdin_fileno,
  stdout_fileno, stderr_fileno, redirect, after_execve, ranges_to_close, do_exec, build_argv,
  build_env, run_child,
}
use the_pipe.OsServices.ProcMgmt.Kept.{fails, any_fails, ranges_to_close-covers}

-- Calls that succeed, on a table that tells for a descriptor the file, if it is open, and the flag
-- that execve closes it.
pub record FileTable : Type 1 where
  pub State : Type 0
  pub File : Type 0
  pub file : State → ℕ → Option File
  pub on_exec : State → ℕ → Bool
  pub dup2 : State → ℕ → ℕ → State
  pub close_range : State → InclusiveIntegralRange → State
  pub execve : State → State
  -- The new descriptor does not share the flag of the old one.
  pub dup2-file :
      (s : State) (old new g : ℕ)
      → file (dup2 s old new) g ≡ (if new == g then file s old else file s g)
  pub dup2-on_exec :
      (s : State) (old new g : ℕ)
      → (old == new) ≡ false
      → on_exec (dup2 s old new) g ≡ (if new == g then false else on_exec s g)
  -- With CLOSE_RANGE_CLOEXEC.
  pub close_range-file :
      (s : State) (r : InclusiveIntegralRange) (g : ℕ) → file (close_range s r) g ≡ file s g
  pub close_range-on_exec :
      (s : State) (r : InclusiveIntegralRange) (g : ℕ)
      → on_exec (close_range s r) g ≡ (contains r g || on_exec s g)
  pub execve-file :
      (s : State) (g : ℕ) → file (execve s) g ≡ (if on_exec s g then none else file s g)

-- A stream is redirected to a descriptor above the standard streams, if at all.
abbrev pub IsAbove : Option ℕ → Type 0
IsAbove none = Unit
IsAbove (some fd) = 3 ≤ fd

module _ (t : FileTable) where
  -- The table behind the calls.
  abbrev pub perform : {Text : Type 0} → List (SystemCall Text) → t.State → t.State
  perform [] s = s
  perform (dup2 old new ∷ calls) s = perform calls (t.dup2 s old new)
  perform (close_range r ∷ calls) s = perform calls (t.close_range s r)
  perform (execve path argv env ∷ calls) s = perform calls (t.execve s)
  perform (write_errno errno ∷ calls) s = perform calls s

  -- What a descriptor is in the program if nothing is done to it, and what a standard stream is if it
  -- is redirected or not.
  abbrev pub inherited : t.State → ℕ → Option t.File
  inherited s g = if t.on_exec s g then none else t.file s g

  abbrev pub standard : t.State → Option ℕ → ℕ → Option t.File
  standard s none target = inherited s target
  standard s (some fd) target = t.file s fd

  abbrev redirected : t.State → Option ℕ → ℕ → t.State
  redirected s none target = s
  redirected s (some fd) target = t.dup2 s fd target

  perform-redirect :
      {Text : Type 0} (stream : Option ℕ) (target : ℕ) (answer : Call)
      (rest : List (SystemCall Text)) (s : t.State)
      → fails stream answer ≡ false
      → perform (redirect stream target answer rest) s ≡ perform rest (redirected s stream target)
  perform-redirect none target answer rest s h = refl
  perform-redirect (some fd) target answer rest s h = rw h refl

  perform-close_range :
      {Text : Type 0} (rs : List InclusiveIntegralRange) (path : Text)
      (argv env : List (Option Text)) (s : t.State) (g : ℕ)
      → t.file (perform (map close_range rs ++ execve path argv env ∷ []) s) g
        ≡ (if covers rs g then none else inherited s g)
  perform-close_range [] path argv env s g = t.execve-file s g
  perform-close_range (r ∷ rs) path argv env s g =
      perform-close_range rs path argv env (t.close_range s r) g
      ∙ rw (t.close_range-on_exec s r g, t.close_range-file s r g)
          (either (covers rs g) (contains r g) (t.on_exec s g) (t.file s g))
    where
      either :
          (a b c : Bool) (x : Option t.File)
          → (if a then none else (if b || c then none else x))
            ≡ (if b || a then none else (if c then none else x))
      either true true c x = refl
      either true false c x = refl
      either false true c x = refl
      either false false c x = refl

  inherited-redirected :
      (s : t.State) (stream : Option ℕ) (target g : ℕ)
      → IsAbove stream
      → target < 3
      → inherited (redirected s stream target) g
        ≡ (if target == g then standard s stream target else inherited s g)
  inherited-redirected s none target g above low = elim (Bool-cases (target == g)) [
    | inl same ↦ rw same (ap (inherited s) (sym ((==_iff target g).0 same)))
    | inr other ↦ rw other refl
  ]
  inherited-redirected s (some fd) target g above low =
      let apart : (fd == target) ≡ false = ground arith in
      elim (Bool-cases (target == g)) [
        | inl same ↦ rw (t.dup2-on_exec s fd target g apart, t.dup2-file s fd target g, same) refl
        | inr other ↦ rw (t.dup2-on_exec s fd target g apart, t.dup2-file s fd target g, other) refl
      ]

  standard-redirected :
      (s : t.State) (other stream : Option ℕ) (target' target : ℕ)
      → IsAbove other
      → IsAbove stream
      → target' < 3
      → (target' == target) ≡ false
      → standard (redirected s other target') stream target ≡ standard s stream target
  standard-redirected s other none target' target o h low apart =
      inherited-redirected s other target' target o low ∙ rw apart refl
  standard-redirected s none (some fd) target' target o h low apart = refl
  standard-redirected s (some g) (some fd) target' target o h low apart =
      t.dup2-file s g target' fd ∙ ground arith

-- Above the standard streams only what is forwarded is left.
choose {ℓ} :
    {F : Type ℓ} (g : ℕ) (forwarded last : Bool) (a b c x n : F)
    → g < 4294967295
    → (if leb 3 g && leb g 4294967295 && not forwarded && not (g == 4294967295 && last)
        then n
        else (if 2 == g then a else (if 1 == g then b else (if 0 == g then c else x))))
      ≡ (if 2 == g
          then a
          else (if 1 == g then b else (if 0 == g then c else (if forwarded then x else n))))
choose g forwarded last a b c x n small = ground arith

none_fails : (a b c : Bool) → (a || b || c) ≡ false → (a ≡ false) × (b ≡ false) × (c ≡ false)
none_fails a b c h = (ground arith, ground arith, ground arith)

module _ (t : FileTable) {Text : Type 0} (path : Text) (argv env : List Text)
    (io_redir : IoRedirection) (answers : Answers) (fds_to_forward : List ℕ)
    (fine : any_fails path argv env io_redir answers ≡ false)
    (started : answers.execve_errno ≡ none) (sysin_above : IsAbove io_redir.sysin)
    (sysout_above : IsAbove io_redir.sysout) (syserr_above : IsAbove io_redir.syserr) where
  -- What the program has at a descriptor.
  abbrev pub expected : t.State → ℕ → Option t.File
  expected s g =
      if stderr_fileno == g
      then standard t s io_redir.syserr stderr_fileno
      else (if stdout_fileno == g
          then standard t s io_redir.sysout stdout_fileno
          else (if stdin_fileno == g
              then standard t s io_redir.sysin stdin_fileno
              else (if mem g fds_to_forward then inherited t s g else none)))

  module _ (s : t.State) where
    abbrev after_sysin : t.State
    after_sysin = redirected t s io_redir.sysin stdin_fileno

    abbrev after_sysout : t.State
    after_sysout = redirected t after_sysin io_redir.sysout stdout_fileno

    abbrev after_syserr : t.State
    after_syserr = redirected t after_sysout io_redir.syserr stderr_fileno

    perform-redirects :
        (rest : List (SystemCall Text))
        → perform t
            (redirect io_redir.sysin stdin_fileno answers.dup2_stdin (
              redirect io_redir.sysout stdout_fileno answers.dup2_stdout
                (redirect io_redir.syserr stderr_fileno answers.dup2_stderr rest)))
            s
          ≡ perform t rest after_syserr
    perform-redirects rest =
        let (sysin, sysout, syserr) = none_fails _ _ _ fine in
        perform-redirect t io_redir.sysin stdin_fileno answers.dup2_stdin _ s sysin
        ∙ perform-redirect t io_redir.sysout stdout_fileno answers.dup2_stdout _ after_sysin sysout
        ∙ perform-redirect t io_redir.syserr stderr_fileno answers.dup2_stderr rest after_sysout
            syserr

    inherited-after_syserr :
        (g : ℕ)
        → inherited t after_syserr g ≡ (
            if stderr_fileno == g
            then standard t s io_redir.syserr stderr_fileno
            else (if stdout_fileno == g
                then standard t s io_redir.sysout stdout_fileno
                else (if stdin_fileno == g
                    then standard t s io_redir.sysin stdin_fileno
                    else inherited t s g)))
    inherited-after_syserr g =
        let syserr : standard t after_sysout io_redir.syserr stderr_fileno
            ≡ standard t s io_redir.syserr stderr_fileno =
          standard-redirected t after_sysin io_redir.sysout io_redir.syserr stdout_fileno
            stderr_fileno sysout_above syserr_above (omega arith) refl
          ∙ standard-redirected t s io_redir.sysin io_redir.syserr stdin_fileno stderr_fileno
              sysin_above syserr_above (omega arith) refl in
        let sysout : standard t after_sysin io_redir.sysout stdout_fileno
            ≡ standard t s io_redir.sysout stdout_fileno =
          standard-redirected t s io_redir.sysin io_redir.sysout stdin_fileno stdout_fileno
            sysin_above sysout_above (omega arith) refl in
        inherited-redirected t after_sysout io_redir.syserr stderr_fileno g syserr_above
          (omega arith)
        ∙ ap (λ x. if stderr_fileno == g then x else inherited t after_sysout g) syserr
        ∙ ap (λ x. if stderr_fileno == g then standard t s io_redir.syserr stderr_fileno else x)
            (inherited-redirected t after_sysin io_redir.sysout stdout_fileno g sysout_above
                (omega arith)
              ∙ ap (λ x. if stdout_fileno == g then x else inherited t after_sysin g) sysout
              ∙ ap
                  (λ x.
                    if stdout_fileno == g then standard t s io_redir.sysout stdout_fileno else x)
                  (inherited-redirected t s io_redir.sysin stdin_fileno g sysin_above
                    (omega arith)))

  -- All redirections and execve succeed, and streams are redirected to descriptors above the standard
  -- streams, if at all. Then the program has at each standard stream the file of the descriptor that
  -- it is redirected to, or what is inherited at that stream; it inherits the descriptors that are
  -- forwarded; and of the other descriptors below the last unsigned int it has none.
  pub perform-run_child :
      (s : t.State) (g : ℕ)
      → g < 4294967295
      → t.file (perform t (run_child path argv env io_redir fds_to_forward answers) s) g
        ≡ expected s g
  unfolding run_child do_exec
  perform-run_child s g small =
      let ranges = ranges_to_close (flat_set fds_to_forward) in
      let rest =
        map close_range ranges ++ execve path (build_argv path argv) (build_env env) ∷ [] in
      rw started (
        ap (λ (s' : t.State). t.file s' g) (perform-redirects s rest)
        ∙ perform-close_range t ranges path (build_argv path argv) (build_env env) (after_syserr s)
            g
        ∙ rw (ranges_to_close-covers fds_to_forward g, inherited-after_syserr s g)
            (choose g (mem g fds_to_forward) (mem 4294967294 fds_to_forward) _ _ _ _ none small))

-- ===== src/Host/Load/Clients.antt =====
-- The client that load starts: what load passes to spawn, and what the main function of the client
-- makes of it.
use the_pipe.Base.{◌≤◌, ◌≡◌, refl, ◌∙◌, false, none, some, List, [], ◌∷◌, arith}
use the_pipe.Base.Int.{ℤ, pos}
use the_pipe.Jopp.{Jopp}
use the_pipe.Log.{Severity, Configuration, LogState}
use the_pipe.ClientCtl.StartupConfig.{
  int_max, Doubles, Fstat, socket, StartupConfig, connected_to_host, socket_fd,
  startup_config_to_jopp_object,
}
use the_pipe.Client.{Texts, main}
use the_pipe.Client.Outcome.{said, main-to_jopp_object}
use the_pipe.OsServices.ProcMgmt.{Answers, run_child, SystemCall}
use the_pipe.OsServices.ProcMgmt.Kept.{marks, run_child_lem}
use the_pipe.Host.Load.{LoadAnswers}

module _ (j : Jopp) (d : Doubles j.Number) (t : Texts j.Object) where
  -- The configuration that load writes: the host is at socket b.
  unfoldable pub config_of : LoadAnswers → StartupConfig
  config_of a =
      connected_to_host (record { address = socket_fd (record { native_handle = pos a.socket_b }) })

  -- The arguments of the client, without its path.
  unfoldable pub args_of : LoadAnswers → List t.Text
  unfolding config_of
  args_of a = t.to_string (startup_config_to_jopp_object j d (config_of a)) ∷ []

  -- The calls of the child that load lets spawn start.
  unfoldable pub client_calls : t.Text → LoadAnswers → Answers → List (SystemCall t.Text)
  unfolding args_of run_child
  client_calls path a answers =
      run_child path (args_of a) []
        (record { sysin = none; sysout = none; syserr = some a.log_write_end }) (a.socket_b ∷ [])
        answers

  -- The child never marks socket b to be closed by execve. If its number is an int and fstat finds a
  -- socket there, the main function of the client accepts the arguments that load has made: it
  -- returns 0 and says that it ended normally.
  pub main-args_of :
      (W : Type 0) (log_cfg : Configuration W) (fstat : ℤ → Fstat) (s : LogState W) (path : t.Text)
      (a : LoadAnswers) (answers : Answers)
      → a.socket_b ≤ int_max
      → fstat (pos a.socket_b) ≡ socket
      → (marks a.socket_b (client_calls path a answers) ≡ false)
        × (main j d t W log_cfg fstat (path ∷ args_of a) s
            ≡ (pos 0, said j d t W log_cfg fstat s Severity.info "Process exited normally"))
  unfolding client_calls args_of config_of
  main-args_of W log_cfg fstat s path a answers small found = (
    (run_child_lem path (args_of a) []
          (record { sysin = none; sysout = none; syserr = some a.log_write_end }) answers
          (a.socket_b ∷ []) a.socket_b).1
        ∙ ground arith,
    main-to_jopp_object j d t W log_cfg fstat s path (config_of a) (a.socket_b, refl, small, found),
  )

-- ===== src/Client/Outcome.antt =====
-- What main writes and returns.
use the_pipe.Base.{◌≡◌, ◌⊎◌, refl, List, [], ◌∷◌, length, String, inl, inr}
use the_pipe.Base.Int.{ℤ, pos, minus_one}
use the_pipe.Base.Results.{Error, runtime_error, Result, ok, err}
use the_pipe.Jopp.{Jopp}
use the_pipe.ClientCtl.StartupConfig.{Doubles, Fstat, StartupConfig, startup_config_to_jopp_object}
use the_pipe.ClientCtl.StartupConfig.RoundTrip.{IsWritable, make_startup_config-to_jopp_object}
use the_pipe.Log.{Severity, Configuration, LogState, write_message, enter_context, leave_context}
use the_pipe.Client.{Texts, load_config, report, main}

module _ (j : Jopp) (d : Doubles j.Number) (t : Texts j.Object) (W : Type 0)
    (log_cfg : Configuration W) (fstat : ℤ → Fstat) (s : LogState W) where
  -- The state behind main when the message was the only one, written by the writer of main with a
  -- time of the clock of main: the configuration of the log is as before.
  abbrev pub said : Severity → String → LogState W
  said severity message =
      let (when, w) = log_cfg.now s.world in
      record s {
        world = log_cfg.write (record { when = when; severity = severity; message = message }) w;
      }

  main-ok :
      (argv : List t.Text) (config : StartupConfig)
      → load_config j d t fstat argv ≡ ok config
      → main j d t W log_cfg fstat argv s ≡ (pos 0, said Severity.info "Process exited normally")
  unfolding main report write_message enter_context leave_context
  main-ok argv config h = rw (h, report) refl

  main-err :
      (argv : List t.Text) (e : Error)
      → load_config j d t fstat argv ≡ err e
      → main j d t W log_cfg fstat argv s ≡ (minus_one, said Severity.error (t.what e))
  unfolding main report write_message enter_context leave_context
  main-err argv e h = rw (h, report) refl

  load_config-cases :
      (argv : List t.Text) (r : Result StartupConfig)
      → load_config j d t fstat argv ≡ r
      → ((config : StartupConfig) × (load_config j d t fstat argv ≡ ok config))
        ⊎ ((e : Error) × (load_config j d t fstat argv ≡ err e))
  load_config-cases argv (ok config) h = inl (config, h)
  load_config-cases argv (err e) h = inr (e, h)

  -- Main writes exactly one message, and the configuration of the log is as before. It returns 0 and
  -- says that it ended normally if the configuration could be read, and -1 with the text of the
  -- exception otherwise; with any number of arguments but two that is the one about their number.
  pub main_lem :
      (argv : List t.Text)
      → ((config : StartupConfig) × (length argv ≡ 2)
          × (load_config j d t fstat argv ≡ ok config)
          × (main j d t W log_cfg fstat argv s
              ≡ (pos 0, said Severity.info "Process exited normally")))
        ⊎ ((e : Error) × ((length argv ≡ 2) ⊎ (e ≡ runtime_error (t.wrong_number (length argv))))
            × (load_config j d t fstat argv ≡ err e)
            × (main j d t W log_cfg fstat argv s ≡ (minus_one, said Severity.error (t.what e))))
  unfolding load_config
  main_lem (program ∷ first ∷ []) =
      let argv = program ∷ first ∷ [] in
      elim (load_config-cases argv (load_config j d t fstat argv) refl) [
        | inl (config, h) ↦ inl (config, refl, h, main-ok argv config h)
        | inr (e, h) ↦ inr (e, inl refl, h, main-err argv e h)
      ]
  main_lem [] = inr (runtime_error (t.wrong_number 0), inr refl, refl, main-err [] _ refl)
  main_lem (program ∷ []) =
      inr (runtime_error (t.wrong_number 1), inr refl, refl, main-err (program ∷ []) _ refl)
  main_lem (program ∷ first ∷ second ∷ rest) =
      let argv = program ∷ first ∷ second ∷ rest in
      inr (runtime_error (t.wrong_number (length argv)), inr refl, refl, main-err argv _ refl)

  -- Main accepts what was written for it: started with the text of the object of a configuration
  -- whose socket fstat confirms, or whose port names are distinct, it returns 0 and says that it
  -- ended normally.
  pub main-to_jopp_object :
      (program : t.Text) (cfg : StartupConfig)
      → IsWritable j d fstat cfg
      → main j d t W log_cfg fstat
          (program ∷ t.to_string (startup_config_to_jopp_object j d cfg) ∷ [])
          s
        ≡ (pos 0, said Severity.info "Process exited normally")
  unfolding load_config
  main-to_jopp_object program cfg h =
      let (r, e, same) = make_startup_config-to_jopp_object j d fstat cfg h in
      main-ok (program ∷ t.to_string (startup_config_to_jopp_object j d cfg) ∷ []) r
        (rw (t.parse-to_string (startup_config_to_jopp_object j d cfg), e) refl)

-- ===== src/Log/Nesting.antt =====
-- Contexts that are nested as the scopes of a program are.
use the_pipe.Base.{◌≡◌, refl, ap, ◌∙◌, String}
use the_pipe.Log.{
  Severity, Configuration, LogState, write_message, configure, enter_context, leave_context,
}

-- What a thread does to the log: it writes a message, or runs a scope with a context of its own,
-- and goes on.
pub data Script (W : Type 0) : Type 0 where
  done : Script W
  say : Severity → String → Script W → Script W
  within : Configuration W → Script W → Script W → Script W

module _ {W : Type 0} where
  unfoldable pub run : Script W → LogState W → LogState W
  run done s = s
  run (say severity message rest) s = run rest (write_message W severity message s)
  run (within cfg body rest) s =
      let (c, s') = enter_context W cfg s in run rest (leave_context W c (run body s'))

  -- The world after the script, with each message written by the configuration of its scope.
  unfoldable pub scoped : Configuration W → Script W → W → W
  scoped cfg done w = w
  scoped cfg (say severity message rest) w =
      let (when, w') = cfg.now w in
      scoped cfg rest
        (cfg.write (record { when = when; severity = severity; message = message }) w')
  scoped cfg (within inner body rest) w = scoped cfg rest (scoped inner body w)

  -- After any script of nested contexts the configuration is the one from before, and every
  -- message went through the writer and the clock of the innermost context around it.
  pub run-scoped :
      (p : Script W) (s : LogState W)
      → run p s ≡ record { log_cfg = s.log_cfg; world = scoped s.log_cfg p s.world }
  unfolding run scoped write_message enter_context leave_context configure
  run-scoped done s = refl
  run-scoped (say severity message rest) s = run-scoped rest (write_message W severity message s)
  run-scoped (within cfg body rest) s =
      ap (λ t. run rest (leave_context W (record { old_cfg = s.log_cfg }) t))
        (run-scoped body (record s { log_cfg = cfg }))
      ∙ run-scoped rest (record s { world = scoped cfg body s.world })

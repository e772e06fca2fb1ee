-- ===== src/Log.antt =====
-- src/log/log.hpp and log.cpp: items, severities, and the global configuration with its contexts.
-- A writer and a clock act on a world `W`. Each operation is one step, as it is under the mutex.
pub mod Texts
pub mod Nesting
pub mod Captured
pub mod Threads
mod Tests
use the_pipe.Base.{ℕ, Bool, List, [], ◌∷◌, String, if◌then◌else◌, str_eq}
use the_pipe.Base.Int.{ℤ, pos}
use the_pipe.Base.Results.{Result, ok, err, runtime_error}

pub data Severity : Type 0 where
  info warning error : Severity

-- The time is counted in ticks of the clock since its epoch.
pub record Item : Type 0 where
  pub when : ℤ
  pub severity : Severity
  pub message : String

unfoldable pub to_string : Severity → String
to_string info = "info"
to_string warning = "warning"
to_string error = "error"

unfoldable pub make_severity : String → Result Severity
make_severity str =
    if str_eq str "info"
    then ok info
    else (if str_eq str "warning"
        then ok warning
        else (if str_eq str "error" then ok error else err (runtime_error "Unknown severity")))

unfoldable pub make_severity_with_fallback : String → Severity → Severity
make_severity_with_fallback str fallback =
    if str_eq str "info"
    then info
    else (if str_eq str "warning"
        then warning
        else (if str_eq str "error" then error else fallback))

module _ (W : Type 0) where
  -- type_erased_writer and type_erased_timestamp_generator.
  pub record Configuration : Type 0 where
    pub write : Item → W → W
    pub now : W → ℤ × W

  -- What the wrappers do when nothing was captured: the item is dropped, the time is the epoch.
  unfoldable null_write : Item → W → W
  null_write item w = w

  unfoldable null_now : W → ℤ × W
  null_now w = (pos 0, w)

  unfoldable pub null_configuration : Configuration
  unfolding null_write null_now
  null_configuration = record { write = null_write; now = null_now }

  -- `log_cfg`, and the world behind the writers and clocks.
  pub record LogState : Type 0 where
    pub log_cfg : Configuration
    pub world : W

  -- The old configuration, and the state with the new one.
  unfoldable pub configure : Configuration → LogState → Configuration × LogState
  configure cfg s = (s.log_cfg, record s { log_cfg = cfg })

  unfoldable pub write_message : Severity → String → LogState → LogState
  write_message severity message s =
      let (when, w) = s.log_cfg.now s.world in
      record s {
        world = s.log_cfg.write (record { when = when; severity = severity; message = message }) w;
      }

  -- What a context object holds: `m_old_cfg`.
  pub record Context : Type 0 where
    pub old_cfg : Configuration

  unfoldable pub enter_context : Configuration → LogState → Context × LogState
  unfolding configure
  enter_context log_cfg s = let (old, s') = configure log_cfg s in (record { old_cfg = old }, s')

  unfoldable pub leave_context : Context → LogState → LogState
  unfolding configure
  leave_context c s = (configure c.old_cfg s).1

-- ===== src/Client.antt =====
-- src/client/main.cpp. What main uses of other code is an interface: the text of JSON objects, the
-- texts of exceptions, and the conversions and answers that reading a configuration needs.
pub mod Outcome
pub mod Logged
pub mod Received
mod Tests
use the_pipe.Base.{ℕ, ◌≡◌, not, List, [], ◌∷◌, length, String, ◌==◌, if◌then◌else◌}
use the_pipe.Base.Int.{ℤ, pos, minus_one}
use the_pipe.Base.Results.{Error, runtime_error, json_error, Result, ok, err, ◌>>=◌}
use the_pipe.Jopp.{Jopp}
use the_pipe.ClientCtl.StartupConfig.{Doubles, Fstat, StartupConfig, make_startup_config}
use the_pipe.Log.{
  Severity, Configuration, LogState, write_message, Context, enter_context, leave_context,
}

-- `jopp::parse` with `get<jopp::object>`, which throw, and `to_string` of the library; the result of
-- `what`; and the message about the number of arguments, which std::format makes.
-- An argument of the program is of the type `Text`.
pub record Texts (Object : Type 0) : Type 1 where
  pub Text : Type 0
  pub to_string : Object → Text
  pub parse : Text → Result Object
  pub what : Error → String
  pub wrong_number : ℕ → String
  pub parse-to_string : (o : Object) → parse (to_string o) ≡ ok o

module _ (j : Jopp) (d : Doubles j.Number) (t : Texts j.Object) where
  -- The body of the `try` block. `argc` is the length of `argv`.
  unfoldable pub load_config : (ℤ → Fstat) → List t.Text → Result StartupConfig
  unfolding make_startup_config
  load_config fstat (program ∷ first ∷ []) =
      t.parse first >>= λ object. make_startup_config j d fstat object
  load_config fstat [] = err (runtime_error (t.wrong_number 0))
  load_config fstat (program ∷ []) = err (runtime_error (t.wrong_number 1))
  load_config fstat (program ∷ first ∷ second ∷ rest) =
      err (runtime_error (t.wrong_number (length (program ∷ first ∷ second ∷ rest))))

  module _ (W : Type 0) where
    -- The message and the exit code.
    unfoldable pub report : Result StartupConfig → LogState W → ℤ × LogState W
    unfolding write_message
    report (err e) s = (minus_one, write_message W Severity.error (t.what e) s)
    report (ok config) s = (pos 0, write_message W Severity.info "Process exited normally" s)

    -- The context is entered before the `try` block and left when main returns.
    unfoldable pub main : Configuration W → (ℤ → Fstat) → List t.Text → LogState W → ℤ × LogState W
    unfolding load_config report enter_context leave_context
    main log_cfg fstat argv s =
        let (log_ctxt, inside) = enter_context W log_cfg s in
        let (code, left) = report (load_config fstat argv) inside in
        (code, leave_context W log_ctxt left)

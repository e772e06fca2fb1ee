-- ===== src/Client/Logged.antt =====
-- The client's main with the writer and the clock that it makes.
use the_pipe.Base.{
  Option, ℕ, ◌<◌, ◌≡◌, ◌⊎◌, refl, ap, ◌∙◌, none, some, List, ◌∷◌, length, String, inl, inr, arith,
}
use the_pipe.Base.Int.{ℤ, pos, minus_one}
use the_pipe.Base.Results.{Error, ok, err}
use the_pipe.Jopp.{Jopp}
use the_pipe.Log.{Severity, Item, Configuration, LogState, write_message}
use the_pipe.Log.Captured.{Place, IsKept, capture, stamped, write_message-captured}
use the_pipe.ClientCtl.StartupConfig.{Doubles, Fstat, StartupConfig}
use the_pipe.JsonLog.Converter.{Seconds}
use the_pipe.JsonLog.Writer.{Serializer, WriteAnswer, io_failed}
use the_pipe.JsonLog.Writer.Several.{text_of}
use the_pipe.JsonLog.Writer.Channel.{
  default_writer, make_writer, Channel, Progress, returned, still_trying, threw, write_item,
  write_item-io_failed,
}
use the_pipe.Client.{Texts, load_config, main}
use the_pipe.Client.Outcome.{said, main_lem}

module _ (j : Jopp) (d : Doubles j.Number) (t : Texts j.Object) (fstat : ℤ → Fstat) where
  -- What main returns, and the severity and the message of its item.
  abbrev pub Says : List t.Text → ℤ → Severity → String → Type 0
  Says argv code severity message =
      ((config : StartupConfig) × (load_config j d t fstat argv ≡ ok config)
        × (code ≡ pos 0)
        × (severity ≡ Severity.info)
        × (message ≡ "Process exited normally"))
      ⊎ ((e : Error) × (load_config j d t fstat argv ≡ err e)
          × (code ≡ minus_one)
          × (severity ≡ Severity.error)
          × (message ≡ t.what e))

-- The buffer of the writer is not empty.
pub buffer_some : 0 < (make_writer 65536 2).buffer_size
unfolding make_writer
buffer_some = omega arith

-- An exception of the writer leaves main, and the program is terminated: there is no exit code.
unfoldable pub exit_code : ℤ → Progress → Option ℤ
exit_code code returned = some code
exit_code code still_trying = none
exit_code code (threw errno) = none

module _ (j : Jopp) (d : Doubles j.Number) (t : Texts j.Object) (c : Seconds j.Number)
    (z : Serializer j.Object) {W U : Type 0} (streams : ℕ → Place W Channel) (clock : Place W U)
    (now : U → ℤ × U) (fstat : ℤ → Fstat) where
  -- The log configuration of main. It writes through the descriptor of the writer.
  unfoldable pub client_config : Configuration W
  unfolding default_writer capture write_item
  client_config =
      capture (streams default_writer.output_fd) (write_item j c z default_writer) clock now

  -- Main writes one message, so that the last call of the writer is the only one.
  unfoldable pub logged_main : List t.Text → LogState W → Option ℤ × LogState W
  unfolding main client_config default_writer exit_code
  logged_main argv s =
      let (code, left) = main j d t W client_config fstat argv s in
      (exit_code code ((streams default_writer.output_fd).get left.world).progress, left)

  main-Says :
      (argv : List t.Text) (s : LogState W)
      → (code : ℤ) × (severity : Severity) × (message : String) × Says j d t fstat argv code
          severity message
        × (main j d t W client_config fstat argv s
            ≡ (code, said j d t W client_config fstat s severity message))
  main-Says argv s = elim (main_lem j d t W client_config fstat s argv) [
    | inl (config, two, h, e) ↦ (_, _, _, inl (config, h, refl, refl, refl), e)
    | inr (e, two, h, e') ↦ (_, _, _, inr (e, h, refl, refl, refl), e')
  ]

  said-stream :
      (severity : Severity) (message : String) (s : LogState W)
      → IsKept clock (streams 2)
      → (streams 2).get (said j d t W client_config fstat s severity message).world
        ≡ write_item j c z
            (make_writer 65536 2)
            (stamped clock now severity message s.world)
            ((streams 2).get s.world)
  unfolding client_config default_writer make_writer write_message
  said-stream severity message s h =
      write_message-captured (streams 2) (write_item j c z (make_writer 65536 2)) clock now severity
        message s.world h

  -- The stream behind main, in terms of the only write.
  pub logged_main-write :
      (argv : List t.Text) (s : LogState W)
      → IsKept clock (streams 2)
      → (code : ℤ) × (severity : Severity) × (message : String) × Says j d t fstat argv code
          severity message
        × (let ch =
              write_item j c z
                (make_writer 65536 2)
                (stamped clock now severity message s.world)
                ((streams 2).get s.world) in
            ((streams 2).get (logged_main argv s).1.world ≡ ch)
            × ((logged_main argv s).0 ≡ exit_code code ch.progress))
  unfolding logged_main default_writer make_writer
  logged_main-write argv s apart =
      let (code, severity, message, says, e) = main-Says argv s in
      let after = said-stream severity message s apart in
      let ran : (streams 2).get (main j d t W client_config fstat argv s).1.world
          ≡ (streams 2).get (said j d t W client_config fstat s severity message).world =
        ap (λ (r : ℤ × LogState W). (streams 2).get r.1.world) e in
      let same : (main j d t W client_config fstat argv s).0 ≡ code =
        ap (λ (r : ℤ × LogState W). r.0) e in
      (
        code,
        severity,
        message,
        says,
        (
          ran ∙ after,
          ap
                (λ (k : ℤ).
                  exit_code k
                    ((streams 2).get (main j d t W client_config fstat argv s).1.world).progress)
                same
              ∙ ap (λ (o : Channel). exit_code code o.progress) (ran ∙ after),
        ),
      )

  -- The clock is no part of the stream 2, where the first write fails, and the text of an item is
  -- never empty. Then the exception of the writer leaves main, so that the program is terminated,
  -- whether or not the configuration could be read; and nothing has been written.
  pub logged_main-terminated :
      (argv : List t.Text) (s : LogState W) (errno : ℕ) (left : List WriteAnswer)
      → IsKept clock (streams 2)
      → ((streams 2).get s.world).answers ≡ io_failed errno ∷ left
      → ((item : Item) → 0 < length (text_of j c z item))
      → ((logged_main argv s).0 ≡ none)
        × (((streams 2).get (logged_main argv s).1.world).sent ≡ ((streams 2).get s.world).sent)
  unfolding exit_code
  logged_main-terminated argv s errno left apart failing some_text =
      let (code, severity, message, says, (after, exit)) = logged_main-write argv s apart in
      let item = stamped clock now severity message s.world in
      let threw_it =
        write_item-io_failed j c z (make_writer 65536 2) item ((streams 2).get s.world) errno left
          buffer_some (some_text item) failing in
      (
        exit ∙ ap (λ (o : Channel). exit_code code o.progress) threw_it,
        ap (λ (o : Channel). o.sent) (after ∙ threw_it),
      )

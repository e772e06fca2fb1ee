-- ===== src/Host/Load/Delivery.antt =====
-- The log of the client that load starts, from the main function of the client to a reader at the
-- other end of the pipe that load has made.
mod Tests
use the_pipe.Base.{
  ℕ, ◌≤◌, ◌≡◌, sym, ap, ◌∙◌, subst, true, false, Option, none, some, List, [], ◌∷◌, ◌++◌, map,
  length, All, String, inl, inr, arith,
}
use the_pipe.Base.Int.{ℤ, pos, minus_one, is_minus_one}
use the_pipe.Base.Results.{ok}
use the_pipe.Jopp.{Jopp}
use the_pipe.Log.{Severity, Item, LogState, Configuration}
use the_pipe.Log.Captured.{Place, IsKept, stamped}
use the_pipe.OsServices.Fd.Activity.{ActivityStatus, can_read}
use the_pipe.ClientCtl.StartupConfig.{int_max, Doubles, Fstat, socket, StartupConfig}
use the_pipe.JsonLog.Converter.{Seconds}
use the_pipe.JsonLog.Reader.{Parser, bytes, ReadAnswer, handle_event}
use the_pipe.JsonLog.Reader.Stream.{concat, IsNonEmpty}
use the_pipe.JsonLog.Writer.{Serializer}
use the_pipe.JsonLog.Writer.Finished.{IsProgress}
use the_pipe.JsonLog.Writer.Several.{text_of}
use the_pipe.JsonLog.Writer.Channel.{Channel, returned}
use the_pipe.JsonLog.Delivery.{IsReadBack, received}
use the_pipe.Client.{Texts, load_config}
use the_pipe.Client.Outcome.{main_lem}
use the_pipe.Client.Logged.{Says, client_config, logged_main}
use the_pipe.Client.Received.{logged_main-received}
use the_pipe.OsServices.ProcMgmt.{Answers}
use the_pipe.OsServices.ProcMgmt.Inherited.{FileTable, perform, perform-run_child}
use the_pipe.Host.Load.{LoadAnswers}
use the_pipe.Host.Load.Clients.{args_of, client_calls, main-args_of}

module _ (j : Jopp) (d : Doubles j.Number) (t : Texts j.Object) (ft : FileTable) (path : t.Text)
    (a : LoadAnswers) (answers : Answers) (fs : ft.State) where
  -- The descriptors of the program that the child becomes.
  abbrev pub program_table : ft.State
  program_table = perform ft (client_calls j d t path a answers) fs

  -- Its standard error is the write end of the pipe.
  pub program_table-stderr :
      is_minus_one answers.dup2_stderr.result ≡ false
      → answers.execve_errno ≡ none
      → 3 ≤ a.log_write_end
      → ft.file program_table 2 ≡ ft.file fs a.log_write_end
  unfolding client_calls
  program_table-stderr redirected started above =
      perform-run_child ft path (args_of j d t a) []
        (record { sysin = none; sysout = none; syserr = some a.log_write_end }) answers
        (a.socket_b ∷ []) redirected started tt tt above fs 2 (omega arith)

  module _ (W : Type 0) (cfg : Configuration W) (fstat : ℤ → Fstat) (s : LogState W)
      (small : a.socket_b ≤ int_max) (found : fstat (pos a.socket_b) ≡ socket) where
    -- Its arguments are accepted, so that it says only one thing.
    pub load_config-args_of :
        (config : StartupConfig) × (load_config j d t fstat (path ∷ args_of j d t a) ≡ ok config)
    load_config-args_of =
        let fine = (main-args_of j d t W cfg fstat s path a answers small found).1 in
        elim (main_lem j d t W cfg fstat s (path ∷ args_of j d t a)) [
          | inl (config, two, h, e) ↦ (config, h)
          | inr (e, two, h, failed) ↦
              let clash : pos 0 ≡ minus_one =
                ap (λ (r : ℤ × LogState W). r.0) (sym fine ∙ failed) in
              cc
        ]

  module _ (c : Seconds j.Number) (z : Serializer j.Object) (p : Parser j.Value) {W U : Type 0}
      (pipes : Option ft.File → Place W Channel) (clock : Place W U) (now : U → ℤ × U)
      (fstat : ℤ → Fstat) where
    -- What is behind a descriptor of the program is given by its file.
    abbrev pub streams : ℕ → Place W Channel
    streams fd = pipes (ft.file program_table fd)

    abbrev pub run_client : LogState W → Option ℤ × LogState W
    run_client = logged_main j d t c z streams clock now fstat (path ∷ args_of j d t a)

    abbrev pub farewell : W → Item
    farewell = stamped clock now Severity.info "Process exited normally"

    Says-farewell :
        (config : StartupConfig) (code : ℤ) (severity : Severity) (message : String)
        → load_config j d t fstat (path ∷ args_of j d t a) ≡ ok config
        → Says j d t fstat (path ∷ args_of j d t a) code severity message
        → (code ≡ pos 0) × (severity ≡ Severity.info) × (message ≡ "Process exited normally")
    Says-farewell config code severity message h (inl (config', h', zero_code, is_info, same)) =
        (zero_code, is_info, same)
    Says-farewell config code severity message h (inr (e, h', failed, is_error, same)) =
        let clash = sym h ∙ h' in cc

    -- What is asked of the place that the client's log goes to, and what is read there.
    abbrev Delivers :
        LogState W → List (List ℕ) → ActivityStatus → List ReadAnswer → Place W Channel → Type 0
    Delivers s chunks status behind log =
        IsKept clock log
        → (log.get s.world).sent ≡ []
        → All IsProgress (log.get s.world).answers
        → length (text_of j c z (farewell s.world)) ≤ length (log.get s.world).answers
        → concat chunks ≡ (log.get (run_client s).1.world).sent
        → ((run_client s).0 ≡ some (pos 0))
          × (handle_event j c p status (map bytes chunks ++ bytes [] ∷ behind) p.initial
              ≡ some (record {
                events = received j c p z (farewell s.world) ∷ [];
                state = p.initial;
                stopped = true;
                exception = none;
              }))

    run_client-Delivers :
        (s : LogState W) (chunks : List (List ℕ)) (status : ActivityStatus)
        (behind : List ReadAnswer)
        → a.socket_b ≤ int_max
        → fstat (pos a.socket_b) ≡ socket
        → IsReadBack j c p z (farewell s.world)
        → p.current_depth p.initial ≡ 0
        → can_read status ≡ true
        → All IsNonEmpty chunks
        → Delivers s chunks status behind (streams 2)
    run_client-Delivers s chunks status behind small found back depth readable pieces apart empty
          good room cut =
        let (config, h) =
          load_config-args_of W (client_config j d t c z streams clock now fstat) fstat s small
            found in
        let (code, severity, message, says, exit, heard) =
          logged_main-received j d t c z streams clock now fstat p (path ∷ args_of j d t a) s status
            chunks behind apart empty good
            (λ code severity message says.
              let (zero_code, is_info, same) = Says-farewell config code severity message h says in
              rw (is_info, same) (back, room))
            depth readable pieces cut in
        let (zero_code, is_info, same) = Says-farewell config code severity message h says in
        (exit ∙ ap some zero_code, rw (is_info, same) at heard)

    -- The place behind the write end of the pipe that load has made.
    abbrev pub log_pipe : Place W Channel
    log_pipe = pipes (ft.file fs a.log_write_end)

    -- The write end of the pipe that load has made is above the standard streams, the child's
    -- redirection and execve succeed, and the number of socket b is an int at which fstat finds a
    -- socket. The clock is no part of the pipe, to which nothing was written yet; the answers to the
    -- writes there each make progress and are as many as the bytes of the item that says that main
    -- ended normally; and the parser takes the text of that item as an object with the same fields.
    -- Then the client that load starts returns 0, and however the bytes
    -- of the pipe are cut into pieces that are not empty, a reader gives its receiver exactly this
    -- item, with its time rounded as the way through a double rounds it, and stops without an error
    -- at the end of the stream.
    pub run_client-received :
        (s : LogState W) (chunks : List (List ℕ)) (status : ActivityStatus)
        (behind : List ReadAnswer)
        → is_minus_one answers.dup2_stderr.result ≡ false
        → answers.execve_errno ≡ none
        → 3 ≤ a.log_write_end
        → a.socket_b ≤ int_max
        → fstat (pos a.socket_b) ≡ socket
        → IsKept clock log_pipe
        → (log_pipe.get s.world).sent ≡ []
        → All IsProgress (log_pipe.get s.world).answers
        → length (text_of j c z (farewell s.world)) ≤ length (log_pipe.get s.world).answers
        → IsReadBack j c p z (farewell s.world)
        → p.current_depth p.initial ≡ 0
        → can_read status ≡ true
        → All IsNonEmpty chunks
        → concat chunks ≡ (log_pipe.get (run_client s).1.world).sent
        → ((run_client s).0 ≡ some (pos 0))
          × (handle_event j c p status (map bytes chunks ++ bytes [] ∷ behind) p.initial
              ≡ some (record {
                events = received j c p z (farewell s.world) ∷ [];
                state = p.initial;
                stopped = true;
                exception = none;
              }))
    run_client-received s chunks status behind redirected started above small found apart empty good
          room back depth readable pieces cut =
        subst (Delivers s chunks status behind)
          (ap pipes (program_table-stderr redirected started above))
          (run_client-Delivers s chunks status behind small found back depth readable pieces) apart
          empty good room cut

-- ===== src/Client/Received.antt =====
-- The client's main, and a reader of src/json_log at the other end of the stream that it writes to.
use mathlib.Core.List.{append-nil}
use the_pipe.Base.{
  ℕ, ◌≤◌, ◌≡◌, refl, sym, ap, ◌∙◌, true, none, some, List, [], ◌∷◌, ◌++◌, map, length, All, String,
}
use the_pipe.Base.Int.{ℤ}
use the_pipe.Jopp.{Jopp}
use the_pipe.Log.{Severity, LogState}
use the_pipe.Log.Captured.{Place, IsKept, stamped}
use the_pipe.OsServices.Fd.Activity.{ActivityStatus, can_read}
use the_pipe.ClientCtl.StartupConfig.{Doubles, Fstat}
use the_pipe.JsonLog.Converter.{Seconds}
use the_pipe.JsonLog.Reader.{Parser, bytes, at_end, ReadAnswer, handle_event, read_loop}
use the_pipe.JsonLog.Reader.Stream.{concat, IsNonEmpty}
use the_pipe.JsonLog.Writer.{Serializer}
use the_pipe.JsonLog.Writer.Finished.{IsProgress}
use the_pipe.JsonLog.Writer.Several.{text_of}
use the_pipe.JsonLog.Writer.Channel.{make_writer, Channel, write_item-Finished}
use the_pipe.JsonLog.Delivery.{IsReadBack, received, handle_event-texts}
use the_pipe.Client.{Texts}
use the_pipe.Client.Logged.{Says, buffer_some, exit_code, logged_main, logged_main-write}

module _ (j : Jopp) (d : Doubles j.Number) (t : Texts j.Object) (c : Seconds j.Number)
    (z : Serializer j.Object) {W U : Type 0} (streams : ℕ → Place W Channel) (clock : Place W U)
    (now : U → ℤ × U) (fstat : ℤ → Fstat) where
  module _ (p : Parser j.Value) where
    -- The end of the stream behind whole values.
    read_loop-end :
        (behind : List ReadAnswer)
        → p.current_depth p.initial ≡ 0
        → read_loop j c p (bytes [] ∷ behind) p.initial
          ≡ some (record { events = []; state = p.initial; stopped = true; exception = none })
    unfolding read_loop at_end
    read_loop-end behind h = rw h refl

    -- The clock is no part of the stream 2, to which nothing was written yet; the answers to the
    -- writes there each make progress and are as many as the bytes of the item, which the parser
    -- takes as an object with the same fields. Then main returns, and it has written one item: the one
    -- that says that it ended normally when it returns 0, and the one with the text of the exception
    -- when it returns -1. However the bytes of the stream are cut into pieces that are not
    -- empty, a reader gives its receiver exactly this item, with its time rounded as the way through
    -- a double rounds it, and stops without an error at the end of the stream.
    pub logged_main-received :
        (argv : List t.Text) (s : LogState W) (status : ActivityStatus) (chunks : List (List ℕ))
        (behind : List ReadAnswer)
        → IsKept clock (streams 2)
        → ((streams 2).get s.world).sent ≡ []
        → All IsProgress ((streams 2).get s.world).answers
        → ((code : ℤ) (severity : Severity) (message : String)
            → Says j d t fstat argv code severity message
            → IsReadBack j c p z (stamped clock now severity message s.world)
              × (length (text_of j c z (stamped clock now severity message s.world))
                  ≤ length ((streams 2).get s.world).answers))
        → p.current_depth p.initial ≡ 0
        → can_read status ≡ true
        → All IsNonEmpty chunks
        → concat chunks
          ≡ ((streams 2).get (logged_main j d t c z streams clock now fstat argv s).1.world).sent
        → (code : ℤ) × (severity : Severity) × (message : String) × Says j d t fstat argv code
            severity message
          × ((logged_main j d t c z streams clock now fstat argv s).0 ≡ some code)
          × (handle_event j c p status (map bytes chunks ++ bytes [] ∷ behind) p.initial
              ≡ some (record {
                events = received j c p z (stamped clock now severity message s.world) ∷ [];
                state = p.initial;
                stopped = true;
                exception = none;
              }))
    unfolding exit_code
    logged_main-received argv s status chunks behind apart empty good back depth readable pieces
          cut =
        let (code, severity, message, says, (after, exit)) =
          logged_main-write j d t c z streams clock now fstat argv s apart in
        let item = stamped clock now severity message s.world in
        let ch = (streams 2).get s.world in
        let (read_back, room) = back code severity message says in
        let (sent, done, _, _) =
          write_item-Finished j c z (make_writer 65536 2) item ch buffer_some good room in
        let whole : concat chunks ≡ text_of j c z item ++ [] =
          cut
          ∙ ap (λ (o : Channel). o.sent) after
          ∙ sent
          ∙ ap (λ bs. bs ++ text_of j c z item) empty
          ∙ sym (append-nil (text_of j c z item)) in
        (
          code,
          severity,
          message,
          says,
          exit ∙ ap (exit_code code) done,
          handle_event-texts j c p z (item ∷ []) status chunks (bytes [] ∷ behind) (read_back, tt)
                readable pieces whole
              ∙ rw (read_loop-end behind depth) refl,
        )

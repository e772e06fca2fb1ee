-- ===== src/JsonLog/Reader/Stream.antt =====
-- handle_event on a stream of bytes that arrives in pieces.
use mathlib.Core.List.{append_assoc}
use the_pipe.Base.{
  ℕ, zero, suc, ◌<◌, ◌≡◌, refl, sym, ap, ◌∙◌, true, Option, none, some, List, [], ◌∷◌, ◌++◌, map,
  length, All, length-append, arith,
}
use the_pipe.Jopp.{Jopp}
use the_pipe.JsonLog.Converter.{Seconds}
use the_pipe.JsonLog.Reader.{
  Parser, ParserState, good, jammed, Event, ReadAnswer, bytes, Parsed, parse_buffer, Handled,
  after_events, after_buffer, read_loop, handle_event,
}
use the_pipe.JsonLog.Reader.Buffer.{parse_buffer_total, parse_buffer-append, continue, prepend_all}
use the_pipe.OsServices.Fd.Activity.{ActivityStatus, can_read}

abbrev pub concat : List (List ℕ) → List ℕ
concat [] = []
concat (chunk ∷ chunks) = chunk ++ concat chunks

abbrev pub IsNonEmpty : List ℕ → Type 0
IsNonEmpty chunk = 0 < length chunk

module _ (j : Jopp) (c : Seconds j.Number) (p : Parser j.Value) where
  after_events-nil : (o : Option (Handled j c p)) → after_events j c p [] o ≡ o
  after_events-nil none = refl
  after_events-nil (some h) = refl

  after_events-append :
      (es fs : List Event) (o : Option (Handled j c p))
      → after_events j c p es (after_events j c p fs o) ≡ after_events j c p (es ++ fs) o
  after_events-append es fs none = refl
  after_events-append es fs (some h) =
      ap (λ gs. some (record h { events = gs })) (sym (append_assoc es fs h.events))

  abbrev Loop : Type 0
  Loop = p.State → Option (Handled j c p)

  after_buffer-prepend_all :
      (l : Loop) (es fs : List Event) (s : p.State) (st : ParserState)
      → after_events j c p es
          (after_buffer j c p l (some (record { events = fs; state = s; parser_state = st })))
        ≡ after_buffer j c p l
            (prepend_all j c p es (some (record { events = fs; state = s; parser_state = st })))
  after_buffer-prepend_all l es fs s good = after_events-append es fs (l s)
  after_buffer-prepend_all l es fs s jammed = refl

  -- One buffer and the loop behind it, against the parser's run over both.
  after_buffer-continue :
      (l k : Loop) (es : List Event) (s : p.State) (st : ParserState) (q : Parsed j c p)
      → l s ≡ after_buffer j c p k (some q)
      → after_buffer j c p l (some (record { events = es; state = s; parser_state = st }))
        ≡ after_buffer j c p k
            (continue j c p (record { events = es; state = s; parser_state = st }) (some q))
  after_buffer-continue l k es s good q e =
      ap (after_events j c p es) e ∙ after_buffer-prepend_all k es q.events q.state q.parser_state
  after_buffer-continue l k es s jammed q e = refl

  read_loop-concat :
      (g : ℕ) (chunks : List (List ℕ)) (answers : List ReadAnswer) (s : p.State)
      → All IsNonEmpty chunks
      → length (concat chunks) < g
      → read_loop j c p (map bytes chunks ++ answers) s
        ≡ after_buffer j c p (read_loop j c p answers) (parse_buffer j c p g (concat chunks) s)
  unfolding read_loop parse_buffer
  read_loop-concat zero chunks answers s h k = absurd (omega arith)
  read_loop-concat (suc g) [] answers s h k =
      rw (p.parse-nil s) (sym (after_events-nil (read_loop j c p answers s)))
  read_loop-concat (suc g) ([] ∷ chunks) answers s h k = absurd (omega arith)
  read_loop-concat (suc g) ((b ∷ bs) ∷ chunks) answers s h k =
      let (r, e) = parse_buffer_total j c p (suc (length (b ∷ bs))) (b ∷ bs) s (omega arith) in
      let (q, e') =
        parse_buffer_total j c p (suc g) (concat chunks) r.state
          (omega (arith, length-append (b ∷ bs) (concat chunks))) in
      let ih =
        read_loop-concat (suc g) chunks answers r.state h.1
          (omega (arith, length-append (b ∷ bs) (concat chunks))) in
      ap (after_buffer j c p (read_loop j c p (map bytes chunks ++ answers))) e
      ∙ after_buffer-continue (read_loop j c p (map bytes chunks ++ answers))
          (read_loop j c p answers) r.events r.state r.parser_state q
          (ih ∙ ap (after_buffer j c p (read_loop j c p answers)) e')
      ∙ ap (after_buffer j c p (read_loop j c p answers)) (
          sym (
            parse_buffer-append j c p (suc (length (b ∷ bs))) (suc g) (b ∷ bs) (concat chunks) s r k
              e
            ∙ ap (continue j c p r) e'))

  -- When a readable descriptor delivers its bytes in pieces that are not empty, followed by any
  -- other answers, the receiver's calls, the parser's state, the stop and the exception are those
  -- of one run of the parser over all the bytes, followed by the answers behind them: the cuts
  -- between the pieces make no difference.
  pub handle_event-concat :
      (status : ActivityStatus) (g : ℕ) (chunks : List (List ℕ)) (answers : List ReadAnswer)
      (s : p.State)
      → can_read status ≡ true
      → All IsNonEmpty chunks
      → length (concat chunks) < g
      → handle_event j c p status (map bytes chunks ++ answers) s
        ≡ after_buffer j c p (read_loop j c p answers) (parse_buffer j c p g (concat chunks) s)
  unfolding handle_event
  handle_event-concat status g chunks answers s readable h k =
      rw readable (read_loop-concat g chunks answers s h k)

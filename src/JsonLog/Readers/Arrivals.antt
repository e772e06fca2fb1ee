-- ===== src/JsonLog/Readers/Arrivals.antt =====
-- Events of reading for several readers.
use mathlib.Core.List.{append-nil}
use the_pipe.Base.{
  ℕ, suc, ◌≡◌, refl, ap, ◌∙◌, Bool, true, false, Option, none, some, List, [], ◌∷◌, ◌++◌, map,
  length, All, length-append, ◌==◌, if◌then◌else◌, Bool-cases, inl, inr, arith,
}
use the_pipe.Jopp.{Jopp}
use the_pipe.JsonLog.Converter.{Seconds}
use the_pipe.JsonLog.Reader.{
  Parser, ParserState, good, jammed, Event, would_block, bytes, Parsed, parse_buffer, after_buffer,
  read_loop, handle_event,
}
use the_pipe.JsonLog.Reader.Buffer.{
  parse_buffer_total, parse_buffer_fuel, parse_buffer-append, continue,
}
use the_pipe.JsonLog.Reader.Stream.{concat, IsNonEmpty, handle_event-concat}
use the_pipe.JsonLog.Readers.{Arrival, own}
use the_pipe.OsServices.Fd.Activity.{ActivityStatus, can_read}

abbrev pub tagged : ℕ → List Event → List (ℕ × Event)
tagged i es = map (λ (e : Event). (i, e)) es

pub own-tagged :
    (i k : ℕ) (es : List Event) (calls : List (ℕ × Event))
    → own i (tagged k es ++ calls) ≡ (if k == i then es ++ own i calls else own i calls)
own-tagged i k [] calls = ground arith
own-tagged i k (e ∷ es) calls =
    let ih = own-tagged i k es calls in
    elim (Bool-cases (k == i)) [
      | inl same ↦ rw same (ap (◌∷◌ e) (rw same at ih))
      | inr other ↦ rw other (rw other at ih)
    ]

-- The bytes that arrive for reader `i`.
abbrev pub bytes_for : ℕ → List (ℕ × List (List ℕ)) → List ℕ
bytes_for i [] = []
bytes_for i ((k, chunks) ∷ pieces) =
    if k == i then concat chunks ++ bytes_for i pieces else bytes_for i pieces

-- An event of reading: pieces arrive, and behind them there is nothing yet.
abbrev pub arrival : ℕ × List (List ℕ) → Arrival
arrival (i, chunks) = (i, ActivityStatus.read, map bytes chunks ++ would_block ∷ [])

abbrev pub is_jammed : ParserState → Bool
is_jammed good = false
is_jammed jammed = true

module _ (j : Jopp) (c : Seconds j.Number) (p : Parser j.Value) where
  abbrev pub parse_all : List ℕ → p.State → Option (Parsed j c p)
  parse_all bs s = parse_buffer j c p (suc (length bs)) bs s

  after_buffer-would_block :
      (es : List Event) (s : p.State) (st : ParserState)
      → after_buffer j c p
          (read_loop j c p (would_block ∷ []))
          (some (record { events = es; state = s; parser_state = st }))
        ≡ some (record { events = es; state = s; stopped = is_jammed st; exception = none })
  unfolding read_loop
  after_buffer-would_block es s good =
      ap
        (λ (fs : List Event).
          some (record { events = fs; state = s; stopped = false; exception = none }))
        (append-nil es)
  after_buffer-would_block es s jammed = refl

  pub handle_event-arrival :
      (chunks : List (List ℕ)) (s : p.State)
      → All IsNonEmpty chunks
      → (r : Parsed j c p) × (parse_all (concat chunks) s ≡ some r)
        × (handle_event j c p ActivityStatus.read (map bytes chunks ++ would_block ∷ []) s
            ≡ some (record {
              events = r.events;
              state = r.state;
              stopped = is_jammed r.parser_state;
              exception = none;
            }))
  unfolding can_read
  handle_event-arrival chunks s pieces =
      let enough = suc (length (concat chunks)) in
      let (r, e) = parse_buffer_total j c p enough (concat chunks) s (omega arith) in
      (
        r,
        e,
        handle_event-concat j c p ActivityStatus.read enough chunks (would_block ∷ []) s refl pieces
              (omega arith)
            ∙ ap (after_buffer j c p (read_loop j c p (would_block ∷ []))) e
            ∙ after_buffer-would_block r.events r.state r.parser_state,
      )

  -- The two parts of the input of one parser.
  pub parse_all-append :
      (bs cs : List ℕ) (s : p.State) (r : Parsed j c p)
      → parse_all bs s ≡ some r
      → parse_all (bs ++ cs) s ≡ continue j c p r (parse_all cs r.state)
  parse_all-append bs cs s r e =
      parse_buffer-append j c p (suc (length bs)) (suc (length (bs ++ cs))) bs cs s r (omega arith)
        e
      ∙ ap (continue j c p r) (
          parse_buffer_fuel j c p (suc (length (bs ++ cs))) (suc (length cs)) cs r.state
            (omega (arith, length-append bs cs)) (omega arith))

  pub some-events : (q r : Parsed j c p) → some q ≡ some r → q.events ≡ r.events
  some-events q r e = cc

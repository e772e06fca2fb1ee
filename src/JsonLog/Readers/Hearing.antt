-- ===== src/JsonLog/Readers/Hearing.antt =====
-- What a listener hears of the bytes that arrive for its reader.
use mathlib.Core.List.{append-nil}
use the_pipe.Base.{
  ℕ, suc, ◌≡◌, refl, sym, ap, ◌∙◌, subst, true, false, some, List, [], ◌∷◌, ◌++◌, length, ◌==◌,
  ==_iff, if◌then◌else◌, update, Bool-cases, inl, inr, arith,
}
use the_pipe.Jopp.{Jopp}
use the_pipe.JsonLog.Converter.{Seconds}
use the_pipe.JsonLog.Reader.{Parser, ParserState, good, jammed, Event, Parsed, parse_buffer}
use the_pipe.JsonLog.Reader.Buffer.{parse_buffer_total, continue}
use the_pipe.JsonLog.Reader.Stream.{concat}
use the_pipe.JsonLog.Readers.{Listener, own}
use the_pipe.JsonLog.Readers.Arrivals.{
  tagged, own-tagged, bytes_for, is_jammed, parse_all, parse_all-append, some-events,
}

module _ (j : Jopp) (c : Seconds j.Number) (p : Parser j.Value) where
  module _ (R : Type 0) where
    -- These are the calls of a listener for whose reader the bytes arrive.
    abbrev pub Hears : List ℕ → Listener j c p R → List Event → Type 0
    Hears bs l es =
        (l.is_listening ≡ true
          → (q : Parsed j c p) → parse_all j c p bs l.reader.state ≡ some q
          → es ≡ q.events)
        × (l.is_listening ≡ false → es ≡ [])

    abbrev pub behind : Listener j c p R → Parsed j c p → Listener j c p R
    behind l q = record {
      reader = record l.reader { state = q.state };
      is_listening = if is_jammed q.parser_state then false else true;
    }

    Hears-behind :
        (bs cs : List ℕ) (l : Listener j c p R) (fs es : List Event) (s : p.State)
        (st : ParserState)
        → l.is_listening ≡ true
        → parse_all j c p bs l.reader.state
          ≡ some (record { events = fs; state = s; parser_state = st })
        → Hears cs (behind l (record { events = fs; state = s; parser_state = st })) es
        → Hears (bs ++ cs) l (fs ++ es)
    Hears-behind bs cs l fs es s good on e h =
        let r : Parsed j c p = record { events = fs; state = s; parser_state = good } in
        let (q, e') = parse_buffer_total j c p (suc (length cs)) cs s (omega arith) in
        (
          λ _ q' e''.
              ap (λ gs. fs ++ gs) (h.0 refl q e')
              ∙ some-events j c p (record q { events = fs ++ q.events }) q'
                  (sym (ap (continue j c p r) e')
                    ∙ sym (parse_all-append j c p bs cs l.reader.state r e)
                    ∙ e''),
          λ off. cc,
        )
    Hears-behind bs cs l fs es s jammed on e h =
        let r : Parsed j c p = record { events = fs; state = s; parser_state = jammed } in
        (
          λ _ q' e''.
              ap (λ gs. fs ++ gs) (h.1 refl)
              ∙ append-nil fs
              ∙ some-events j c p r q'
                  (sym (parse_all-append j c p bs cs l.reader.state r e) ∙ e''),
          λ off. cc,
        )

    pub Hears-nil : (l : Listener j c p R) → Hears [] l []
    unfolding parse_buffer
    Hears-nil l =
        (λ on q e. some-events j c p _ q (rw (p.parse-nil l.reader.state) at e), λ off. refl)

    -- Nothing is read for a listener that has stopped.
    Hears-off :
        (bs cs : List ℕ) (l : Listener j c p R) (es : List Event)
        → l.is_listening ≡ false
        → Hears bs l es
        → Hears cs l es
    Hears-off bs cs l es off h = (λ on. cc, h.1)

    -- One event more, for reader `k`, and what reader `i` hears.
    pub Hears-event :
        (k i : ℕ) (chunks : List (List ℕ)) (pieces : List (ℕ × List (List ℕ)))
        (listeners : ℕ → Listener j c p R) (q : Parsed j c p) (calls : List (ℕ × Event))
        → (listeners k).is_listening ≡ true
        → parse_all j c p (concat chunks) (listeners k).reader.state ≡ some q
        → Hears (bytes_for i pieces) (update listeners k (behind (listeners k) q) i) (own i calls)
        → Hears
            (bytes_for i ((k, chunks) ∷ pieces))
            (listeners i)
            (own i (tagged k q.events ++ calls))
    Hears-event k i chunks pieces listeners q calls on e h = elim (Bool-cases (k == i)) [
      | inl same ↦
          let h' = rw same at h in
          rw (own-tagged i k q.events calls, same)
            (subst
              (λ (n : ℕ).
                Hears (concat chunks ++ bytes_for i pieces) (listeners n) (q.events ++ own i calls))
              ((==_iff k i).0 same)
              (Hears-behind (concat chunks) (bytes_for i pieces) (listeners k) q.events
                (own i calls) q.state q.parser_state on e h'))
      | inr other ↦ let h' = rw other at h in rw (own-tagged i k q.events calls, other) h'
    ]

    pub Hears-ignored :
        (k i : ℕ) (chunks : List (List ℕ)) (pieces : List (ℕ × List (List ℕ)))
        (listeners : ℕ → Listener j c p R) (es : List Event)
        → (listeners k).is_listening ≡ false
        → Hears (bytes_for i pieces) (listeners i) es
        → Hears (bytes_for i ((k, chunks) ∷ pieces)) (listeners i) es
    Hears-ignored k i chunks pieces listeners es off h = elim (Bool-cases (k == i)) [
      | inl same ↦
          let off' : (listeners i).is_listening ≡ false =
            ap (λ (n : ℕ). (listeners n).is_listening) (sym ((==_iff k i).0 same)) ∙ off in
          Hears-off (bytes_for i pieces) (bytes_for i ((k, chunks) ∷ pieces)) (listeners i) es off'
            h
      | inr other ↦ rw other h
    ]

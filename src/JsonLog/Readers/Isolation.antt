-- ===== src/JsonLog/Readers/Isolation.antt =====
-- What one of several readers hears does not depend on the others.
use the_pipe.Base.{
  ℕ, suc, ◌≡◌, refl, sym, ap, ◌∙◌, Bool, true, false, none, some, List, [], ◌∷◌, ◌++◌, map, length,
  All, ◌==◌, ==_iff, if◌then◌else◌, update, Bool-cases, inl, inr, arith, String,
}
use the_pipe.Jopp.{Jopp}
use the_pipe.JsonLog.Converter.{Seconds}
use the_pipe.JsonLog.Reader.{Parser, Event, would_block, bytes, Parsed}
use the_pipe.JsonLog.Reader.Buffer.{parse_buffer_total}
use the_pipe.JsonLog.Reader.Stream.{concat, IsNonEmpty}
use the_pipe.JsonLog.Reader.Receiver.{
  ItemReceiver, call_receiver, call_all, reader_handle_event-handled,
}
use the_pipe.JsonLog.Readers.{Listener, Arrival, after_event, serve_readers, call, perform, own}
use the_pipe.OsServices.Fd.Activity.{ActivityStatus}
use the_pipe.JsonLog.Readers.Arrivals.{
  tagged, bytes_for, arrival, is_jammed, parse_all, handle_event-arrival,
}
use the_pipe.JsonLog.Readers.Hearing.{Hears, behind, Hears-nil, Hears-event, Hears-ignored}

module _ (j : Jopp) (c : Seconds j.Number) (p : Parser j.Value) where
  module _ (R : Type 0) where
    -- The calls themselves.
    perform-tagged :
        (f : ℕ → Event → R → R) (receiver : ItemReceiver R) (who : String) (k : ℕ) (es : List Event)
        (calls : List (ℕ × Event)) (r : R)
        → ((e : Event) (r : R) → f k e r ≡ call_receiver receiver who e r)
        → perform f (tagged k es ++ calls) r ≡ perform f calls (call_all receiver who es r)
    unfolding call_all
    perform-tagged f receiver who k [] calls r h = refl
    perform-tagged f receiver who k (e ∷ es) calls r h =
        ap (perform f (tagged k es ++ calls)) (h e r)
        ∙ perform-tagged f receiver who k es calls (call_receiver receiver who e r) h

    perform-same :
        (f g : ℕ → Event → R → R) (calls : List (ℕ × Event)) (r : R)
        → ((i : ℕ) → f i ≡ g i)
        → perform f calls r ≡ perform g calls r
    perform-same f g [] r h = refl
    perform-same f g ((i, e) ∷ calls) r h =
        ap (λ (k : Event → R → R). perform f calls (k e r)) (h i)
        ∙ perform-same f g calls (g i e r) h

    -- A listener with the same reader but for its state.
    call-update :
        (listeners : ℕ → Listener j c p R) (k : ℕ) (s : p.State) (b : Bool) (i : ℕ)
        → call j c p R
            (update listeners k
              (record { reader = record (listeners k).reader { state = s }; is_listening = b }))
            i
          ≡ call j c p R listeners i
    call-update listeners k s b i = elim (Bool-cases (k == i)) [
      | inl same ↦ rw same (ap (call j c p R listeners) ((==_iff k i).0 same))
      | inr other ↦ rw other refl
    ]

    serve_readers-event :
        (k : ℕ) (chunks : List (List ℕ)) (arrivals : List Arrival)
        (listeners : ℕ → Listener j c p R) (r : R)
        → All IsNonEmpty chunks
        → (listeners k).is_listening ≡ true
        → (q : Parsed j c p) × (parse_all j c p (concat chunks) (listeners k).reader.state ≡ some q)
          × (serve_readers j c p R (arrival (k, chunks) ∷ arrivals) listeners r
              ≡ serve_readers j c p R arrivals
                  (update listeners k (behind j c p R (listeners k) q))
                  (call_all
                    (listeners k).reader.item_receiver
                    (listeners k).reader.name
                    q.events
                    r))
    unfolding serve_readers
    serve_readers-event k chunks arrivals listeners r some_bytes on =
        let (q, e, e') = handle_event-arrival j c p chunks (listeners k).reader.state some_bytes in
        let rest = serve_readers j c p R arrivals in
        let called =
          reader_handle_event-handled j c p R ActivityStatus.read
            (map bytes chunks ++ would_block ∷ []) (listeners k).reader r _ e' in
        (q, e, rw on (ap (after_event j c p R listeners k rest) called))

    pub serve_readers_lem :
        (pieces : List (ℕ × List (List ℕ))) (listeners : ℕ → Listener j c p R) (r : R)
        → All (λ (a : ℕ × List (List ℕ)). All IsNonEmpty a.1) pieces
        → (after : ℕ → Listener j c p R) × (calls : List (ℕ × Event)) × (serve_readers j c p R
              (map arrival pieces)
              listeners
              r
            ≡ some (after, perform (call j c p R listeners) calls r, none))
          × ((i : ℕ) → Hears j c p R (bytes_for i pieces) (listeners i) (own i calls))
    unfolding serve_readers
    serve_readers_lem [] listeners r h = (listeners, [], refl, λ i. Hears-nil j c p R (listeners i))
    serve_readers_lem ((k, chunks) ∷ pieces) listeners r (some_bytes, h) =
        elim (Bool-cases (listeners k).is_listening) [
          | inl on ↦
              let (q, e, e') =
                serve_readers-event k chunks (map arrival pieces) listeners r some_bytes on in
              let listeners' = update listeners k (behind j c p R (listeners k) q) in
              let (after, calls, e'', heard) = serve_readers_lem pieces listeners' _ h in
              (
                after,
                tagged k q.events ++ calls,
                e'
                    ∙ e''
                    ∙ ap (λ (r' : R). some (after, r', none))
                        (perform-same (call j c p R listeners') (call j c p R listeners) calls _ (
                            call-update listeners k q.state
                              (if is_jammed q.parser_state then false else true))
                          ∙ sym (
                              perform-tagged (call j c p R listeners)
                                (listeners k).reader.item_receiver (listeners k).reader.name k
                                q.events calls r (λ e r. refl))),
                λ i. Hears-event j c p R k i chunks pieces listeners q calls on e (heard i),
              )
          | inr off ↦
              let (after, calls, e, heard) = serve_readers_lem pieces listeners r h in
              (
                after,
                calls,
                rw off e,
                λ i. Hears-ignored j c p R k i chunks pieces listeners (own i calls) off (heard i),
              )
        ]

    -- Events of reading arrive for readers that share the state of their receivers, each with pieces
    -- that are not empty, and reader `i` listens at the beginning. Whatever the other readers get,
    -- and even where they meet errors: all events are handled without an exception; the receivers'
    -- state is that behind a sequence of calls; and the calls of reader `i` among them are those of
    -- one run of the parser over the bytes that arrived for it, however these were cut.
    pub serve_readers-own :
        (pieces : List (ℕ × List (List ℕ))) (listeners : ℕ → Listener j c p R) (r : R) (i : ℕ)
        → All (λ (a : ℕ × List (List ℕ)). All IsNonEmpty a.1) pieces
        → (listeners i).is_listening ≡ true
        → (after : ℕ → Listener j c p R) × (calls : List (ℕ × Event)) × (q : Parsed j c p)
          × (serve_readers j c p R (map arrival pieces) listeners r
              ≡ some (after, perform (call j c p R listeners) calls r, none))
          × (parse_all j c p (bytes_for i pieces) (listeners i).reader.state ≡ some q)
          × (own i calls ≡ q.events)
    serve_readers-own pieces listeners r i h on =
        let (after, calls, e, heard) = serve_readers_lem pieces listeners r h in
        let bs = bytes_for i pieces in
        let (q, e') =
          parse_buffer_total j c p (suc (length bs)) bs (listeners i).reader.state (omega arith) in
        (after, calls, q, e, e', (heard i).0 on q e')

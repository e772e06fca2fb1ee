-- ===== src/JsonLog/Delivery/Several.antt =====
-- Several writers of src/json_log, each with a reader at the other end of its pipe, where the readers
-- share the state of their receivers.
use the_pipe.Base.{ℕ, suc, ◌≡◌, ap, ◌∙◌, true, none, some, List, map, length, All, arith}
use the_pipe.Jopp.{Jopp}
use the_pipe.Log.{Item}
use the_pipe.JsonLog.Converter.{Seconds}
use the_pipe.JsonLog.Reader.{Parser, Event}
use the_pipe.JsonLog.Reader.Stream.{IsNonEmpty}
use the_pipe.JsonLog.Readers.{Listener, serve_readers, call, perform, own}
use the_pipe.JsonLog.Readers.Arrivals.{bytes_for, arrival, parse_all}
use the_pipe.JsonLog.Readers.Isolation.{serve_readers_lem}
use the_pipe.JsonLog.Writer.{Serializer}
use the_pipe.JsonLog.Writer.Several.{texts}
use the_pipe.JsonLog.Delivery.{IsReadBack, received, parse_buffer-texts}

module _ (j : Jopp) (c : Seconds j.Number) (p : Parser j.Value) (z : Serializer j.Object)
    (R : Type 0) where
  -- All readers listen and are in their initial states, and pieces that are not empty arrive for
  -- them in any order: for each reader its writer's texts, cut anywhere. The parser takes the text
  -- of each item as an object with the same fields. Then all events are handled without an
  -- exception, and the receivers' state is that behind a sequence of calls, in which the calls of
  -- each reader are its own writer's items, in order, each with its time rounded as the way through
  -- a double rounds it.
  pub serve_readers-received :
      (items : ℕ → List Item) (pieces : List (ℕ × List (List ℕ))) (listeners : ℕ → Listener j c p R)
      (r : R)
      → All (λ (a : ℕ × List (List ℕ)). All IsNonEmpty a.1) pieces
      → ((i : ℕ) → (listeners i).is_listening ≡ true)
      → ((i : ℕ) → (listeners i).reader.state ≡ p.initial)
      → ((i : ℕ) → bytes_for i pieces ≡ texts j c z (items i))
      → ((i : ℕ) → All (IsReadBack j c p z) (items i))
      → (after : ℕ → Listener j c p R) × (calls : List (ℕ × Event)) × (serve_readers j c p R
            (map arrival pieces)
            listeners
            r
          ≡ some (after, perform (call j c p R listeners) calls r, none))
        × ((i : ℕ) → own i calls ≡ map (received j c p z) (items i))
  serve_readers-received items pieces listeners r h on at_start arrived back =
      let (after, calls, e, heard) = serve_readers_lem j c p R pieces listeners r h in
      (
        after,
        calls,
        e,
        λ i. (heard i).0 (on i) _ (
            ap (parse_all j c p (bytes_for i pieces)) (at_start i)
            ∙ ap (λ bs. parse_all j c p bs p.initial) (arrived i)
            ∙ parse_buffer-texts j c p z (suc (length (texts j c z (items i)))) (items i) (back i)
                (omega arith)),
      )

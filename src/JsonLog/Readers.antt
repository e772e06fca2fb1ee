-- ===== src/JsonLog/Readers.antt =====
-- Several readers of src/json_log/reader.hpp that share the state of their receivers, called for one
-- event after the other by a loop that drops a reader when it stops listening.
pub mod Arrivals
pub mod Hearing
pub mod Isolation
mod Tests
use the_pipe.Base.{
  ℕ, ◌≡◌, refl, ap, ◌∙◌, Bool, true, false, Option, none, some, List, [], ◌∷◌, ◌++◌, map, ◌==◌,
  if◌then◌else◌, update,
}
use the_pipe.Jopp.{Jopp}
use the_pipe.JsonLog.Converter.{Seconds}
use the_pipe.JsonLog.Reader.{Parser, Event, ReadAnswer}
use the_pipe.JsonLog.Reader.Receiver.{Reader, call_receiver, call_all, reader_handle_event}
use the_pipe.OsServices.Fd.Activity.{ActivityStatus}

-- An event: for which reader, its status, and what `read` answers.
abbrev pub Arrival : Type 0
Arrival = ℕ × ActivityStatus × List ReadAnswer

module _ (j : Jopp) (c : Seconds j.Number) (p : Parser j.Value) (R : Type 0) where
  pub record Listener : Type 0 where
    pub reader : Reader j c p R
    pub is_listening : Bool

  -- The listeners, the state of the receivers, and the errno of an exception, which ends the loop.
  abbrev pub Served : Type 0
  Served = (ℕ → Listener) × R × Option ℕ

  -- Behind the call for reader `i`.
  abbrev pub after_event :
      (ℕ → Listener)
      → ℕ
      → ((ℕ → Listener) → R → Option Served)
      → Option (Reader j c p R × R × Bool × Option ℕ)
      → Option Served
  after_event listeners i loop none = none
  after_event listeners i loop (some (reader, r, stopped, some errno)) =
      some (update listeners i (record { reader = reader; is_listening = true }), r, some errno)
  after_event listeners i loop (some (reader, r, stopped, none)) =
      loop
        (update listeners i
          (record { reader = reader; is_listening = if stopped then false else true }))
        r

  -- `none` means that the answers for one of the events ended too early.
  unfoldable pub serve_readers : List Arrival → (ℕ → Listener) → R → Option Served
  unfolding reader_handle_event
  serve_readers [] listeners r = some (listeners, r, none)
  serve_readers ((i, status, answers) ∷ arrivals) listeners r =
      let rest = serve_readers arrivals in
      if (listeners i).is_listening
      then after_event listeners i rest
          (reader_handle_event j c p R status answers (listeners i).reader r)
      else rest listeners r

  -- The receiver's calls of several readers, in order.
  abbrev pub call : (ℕ → Listener) → ℕ → Event → R → R
  call listeners i = call_receiver (listeners i).reader.item_receiver (listeners i).reader.name

abbrev pub perform : {R : Type 0} → (ℕ → Event → R → R) → List (ℕ × Event) → R → R
perform f [] r = r
perform f ((i, e) ∷ calls) r = perform f calls (f i e r)

-- Those of reader `i`.
abbrev pub own : ℕ → List (ℕ × Event) → List Event
own i [] = []
own i ((k, e) ∷ calls) = if k == i then e ∷ own i calls else own i calls

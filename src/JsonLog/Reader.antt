-- ===== src/JsonLog/Reader.antt =====
-- src/json_log/reader.hpp and reader.cpp. The state of the JSON parser, with the container that it
-- fills, and its steps are an interface; the answers of `read` are a list.
pub mod Buffer
pub mod Stream
pub mod Toy
pub mod Receiver
use the_pipe.Base.{
  ℕ, zero, suc, ◌+◌, ◌≤◌, ◌<◌, ◌≡◌, Bool, true, false, Option, none, some, List, [], ◌∷◌, ◌++◌,
  String, ◌==◌, not, length, drop, if◌then◌else◌,
}
use the_pipe.Jopp.{Jopp}
use the_pipe.Log.{Item}
use the_pipe.JsonLog.Converter.{Expected, value, unexpected, Seconds, make_log_item}
use the_pipe.OsServices.Fd.Activity.{ActivityStatus, can_read}

-- jopp::parser_error_code: `failed` stands for every code but the first two.
pub data ParserErrorCode : Type 0 where
  completed more_data_needed : ParserErrorCode
  failed : ℕ → ParserErrorCode

-- The parser, byte by byte: after a call its new state, the number of bytes taken, and the code.
pub record Parser (Value : Type 0) : Type 1 where
  pub State : Type 0
  pub initial : State
  pub parse : State → List ℕ → State × ℕ × ParserErrorCode
  pub container : State → Value
  pub current_depth : State → ℕ
  -- With no input it asks for more and stays as it is.
  pub parse-nil : (s : State) → parse s [] ≡ (s, 0, more_data_needed)
  -- To complete a value takes some of the bytes.
  pub parse-progress :
      (s s' : State) (bs : List ℕ) (n : ℕ)
      → parse s bs ≡ (s', n, completed)
      → (0 < n) × (n ≤ length bs)
  -- Asking for more it has taken all bytes, and goes on from there.
  pub parse-more :
      (s s' : State) (bs cs : List ℕ) (n : ℕ)
      → parse s bs ≡ (s', n, more_data_needed)
      → (n ≡ length bs)
        × (parse s (bs ++ cs) ≡ ((parse s' cs).0, length bs + (parse s' cs).1, (parse s' cs).2))
  -- Otherwise it does not look at what follows.
  pub parse-completed :
      (s s' : State) (bs cs : List ℕ) (n : ℕ)
      → parse s bs ≡ (s', n, completed)
      → parse s (bs ++ cs) ≡ (s', n, completed)
  pub parse-failed :
      (s s' : State) (bs cs : List ℕ) (n ec : ℕ)
      → parse s bs ≡ (s', n, failed ec)
      → parse s (bs ++ cs) ≡ (s', n, failed ec)

pub data ParserState : Type 0 where
  good jammed : ParserState

-- The calls of the item receiver. `who` is the reader's name in each of them.
pub data Event : Type 0 where
  consume : Item → Event
  on_parse_error : ParserErrorCode → Event
  on_invalid_log_item : String → Event

-- What one call of `read` gives: EAGAIN, an exception with its errno, or bytes, none at the end.
pub data ReadAnswer : Type 0 where
  would_block : ReadAnswer
  io_failed : ℕ → ReadAnswer
  bytes : List ℕ → ReadAnswer

module _ (j : Jopp) (c : Seconds j.Number) (p : Parser j.Value) where
  -- The body of the case `completed`, up to the reset of the state.
  unfoldable pub on_completed : p.State → Event
  on_completed s = elim (j.as_object (p.container s)) [
    | none ↦ on_invalid_log_item "A log item must be an object"
    | some o ↦ elim (make_log_item j c o) [
      | value item ↦ consume item
      | unexpected message ↦ on_invalid_log_item message
    ]
  ]

  pub record Parsed : Type 0 where
    pub events : List Event
    pub state : p.State
    pub parser_state : ParserState

  abbrev prepend : Event → Option Parsed → Option Parsed
  prepend e none = none
  prepend e (some r) = some (record r { events = e ∷ r.events })

  -- One round of the loop, given what the parser returned and the rest of the rounds.
  abbrev round :
      (List ℕ → p.State → Option Parsed) → List ℕ → p.State × ℕ × ParserErrorCode → Option Parsed
  round loop input (s, n, completed) = prepend (on_completed s) (loop (drop n input) p.initial)
  round loop input (s, n, more_data_needed) =
      some (record { events = []; state = s; parser_state = good })
  round loop input (s, n, failed ec) =
      some (record { events = on_parse_error (failed ec) ∷ []; state = s; parser_state = jammed })

  -- `none` means that the fuel ran out.
  unfoldable pub parse_buffer : ℕ → List ℕ → p.State → Option Parsed
  unfolding on_completed
  parse_buffer zero input s = none
  parse_buffer (suc fuel) input s = round (parse_buffer fuel) input (p.parse s input)

  -- The receiver's calls, the state, whether listening was stopped, and the errno of an exception.
  pub record Handled : Type 0 where
    pub events : List Event
    pub state : p.State
    pub stopped : Bool
    pub exception : Option ℕ

  abbrev pub after_events : List Event → Option Handled → Option Handled
  after_events es none = none
  after_events es (some h) = some (record h { events = es ++ h.events })

  -- After a buffer: on with the loop, or stop.
  abbrev pub after_buffer : (p.State → Option Handled) → Option Parsed → Option Handled
  after_buffer loop none = none
  after_buffer loop (some r) = elim r.parser_state [
    | good ↦ after_events r.events (loop r.state)
    | jammed ↦
        some (record { events = r.events; state = r.state; stopped = true; exception = none })
  ]

  unfoldable pub at_end : p.State → Handled
  at_end s = record {
    events = if not (p.current_depth s == 0) then on_parse_error more_data_needed ∷ [] else [];
    state = s;
    stopped = true;
    exception = none;
  }

  -- The loop over the answers of `read`. A buffer of n bytes gets fuel for n + 1 rounds. `none`
  -- means that the answers ended before the loop did.
  unfoldable pub read_loop : List ReadAnswer → p.State → Option Handled
  unfolding parse_buffer at_end
  read_loop [] s = none
  read_loop (would_block ∷ answers) s =
      some (record { events = []; state = s; stopped = false; exception = none })
  read_loop (io_failed errno ∷ answers) s =
      some (record { events = []; state = s; stopped = false; exception = some errno })
  read_loop (bytes [] ∷ answers) s = some (at_end s)
  read_loop (bytes (b ∷ bs) ∷ answers) s =
      after_buffer (read_loop answers) (parse_buffer (suc (length (b ∷ bs))) (b ∷ bs) s)

  unfoldable pub handle_event : ActivityStatus → List ReadAnswer → p.State → Option Handled
  unfolding read_loop
  handle_event status answers s =
      if not (can_read status)
      then some (record { events = []; state = s; stopped = false; exception = none })
      else read_loop answers s

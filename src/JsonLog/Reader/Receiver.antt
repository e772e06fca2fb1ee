-- ===== src/JsonLog/Reader/Receiver.antt =====
-- The class of src/json_log/reader.hpp, and several readers that share an item receiver.

use the_pipe.Base.{ℕ, ◌≡◌, ap, Bool, Option, none, some, List, [], ◌∷◌, String}
use the_pipe.Jopp.{Jopp}
use the_pipe.Log.{Item}
use the_pipe.JsonLog.Converter.{Seconds}
use the_pipe.JsonLog.Reader.{
  ParserErrorCode, Parser, Event, consume, on_parse_error, on_invalid_log_item, ReadAnswer, Handled,
  handle_event,
}
use the_pipe.OsServices.Fd.Activity.{ActivityStatus}

-- What an item_receiver does to its state `R`, told the name of the reader.
pub record ItemReceiver (R : Type 0) : Type 0 where
  pub consume : String → Item → R → R
  pub on_parse_error : String → ParserErrorCode → R → R
  pub on_invalid_log_item : String → String → R → R

module _ {R : Type 0} where
  -- A call through type_erased_item_receiver.
  unfoldable pub call_receiver : ItemReceiver R → String → Event → R → R
  call_receiver receiver who (consume item) r = receiver.consume who item r
  call_receiver receiver who (on_parse_error ec) r = receiver.on_parse_error who ec r
  call_receiver receiver who (on_invalid_log_item message) r =
      receiver.on_invalid_log_item who message r

  unfoldable pub call_all : ItemReceiver R → String → List Event → R → R
  unfolding call_receiver
  call_all receiver who [] r = r
  call_all receiver who (e ∷ es) r = call_all receiver who es (call_receiver receiver who e r)

module _ (j : Jopp) (c : Seconds j.Number) (p : Parser j.Value) (R : Type 0) where
  -- The members of a reader, but for the contents of the input buffer between two calls.
  pub record Reader : Type 0 where
    pub buffer_size : ℕ
    pub item_receiver : ItemReceiver R
    pub name : String
    pub state : p.State

  unfoldable pub make_reader : String → ItemReceiver R → ℕ → Reader
  make_reader name receiver buffer_size = record {
    buffer_size = buffer_size;
    item_receiver = receiver;
    name = name;
    state = p.initial;
  }

  -- The reader and its receiver behind a call, whether listening was stopped, and the errno of an
  -- exception.
  abbrev pub after_call : Reader → R → Handled j c p → Reader × R × Bool × Option ℕ
  after_call reader r h = (
    record reader { state = h.state },
    call_all reader.item_receiver reader.name h.events r,
    h.stopped,
    h.exception,
  )

  unfoldable pub reader_handle_event :
      ActivityStatus → List ReadAnswer → Reader → R → Option (Reader × R × Bool × Option ℕ)
  unfolding handle_event call_all
  reader_handle_event status answers reader r =
      elim (handle_event j c p status answers reader.state) [
        | none ↦ none
        | some h ↦ some (after_call reader r h)
      ]

  pub reader_handle_event-handled :
      (status : ActivityStatus) (answers : List ReadAnswer) (reader : Reader) (r : R)
      (h : Handled j c p)
      → handle_event j c p status answers reader.state ≡ some h
      → reader_handle_event status answers reader r ≡ some (after_call reader r h)
  unfolding reader_handle_event
  reader_handle_event-handled status answers reader r h e =
      ap
        (λ (o : Option (Handled j c p)). elim o as (λ _. Option (Reader × R × Bool × Option ℕ)) [
          | none ↦ none
          | some h ↦ some (after_call reader r h)
        ])
        e

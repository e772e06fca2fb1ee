-- ===== src/JsonLog/Delivery.antt =====
-- The writer and the reader of src/json_log at the two ends of a pipe.
pub mod Prefix
pub mod Partial
pub mod Several
mod Tests
use the_pipe.Base.{
  ℕ, zero, suc, ◌+◌, ◌≤◌, ◌<◌, ◌≡◌, refl, sym, ap, ◌∙◌, true, none, some, Option, List, [], ◌∷◌,
  ◌++◌, map, length, drop, All, length-append, String, arith,
}
use the_pipe.Jopp.{Jopp, string_field, number_field}
use the_pipe.Log.{Item}
use the_pipe.OsServices.Fd.Activity.{ActivityStatus, can_read}
use the_pipe.JsonLog.Converter.{value, Seconds, to_jopp_object, make_log_item}
use the_pipe.JsonLog.Converter.Laws.{make_log_item-to_jopp_object}
use the_pipe.JsonLog.Reader.{
  completed, Parser, good, Event, consume, ReadAnswer, bytes, Parsed, parse_buffer, on_completed,
  Handled, after_events, after_buffer, read_loop, handle_event,
}
use the_pipe.JsonLog.Reader.Stream.{concat, IsNonEmpty, handle_event-concat}
use the_pipe.JsonLog.Writer.{Serializer, WriteAnswer, Written}
use the_pipe.JsonLog.Writer.Finished.{IsProgress}
use the_pipe.JsonLog.Writer.Several.{write_all, text_of, texts, write_all-Finished}

pub drop-length-append : (xs ys : List ℕ) → drop (length xs) (xs ++ ys) ≡ ys
drop-length-append [] ys = refl
drop-length-append (x ∷ xs) ys = drop-length-append xs ys

module _ (j : Jopp) (c : Seconds j.Number) (p : Parser j.Value) (z : Serializer j.Object) where
  -- The parser takes the text of the item's object as one value, which is an object with the same
  -- fields.
  abbrev pub IsReadBack : Item → Type 0
  IsReadBack item =
      (s : p.State) × (o : j.Object) × (p.parse p.initial (text_of j c z item)
        ≡ (s, length (text_of j c z item), completed))
      × (j.as_object (p.container s) ≡ some o)
      × ((k : String) → j.find k o ≡ j.find k (to_jopp_object j c item))

  -- The receiver's call for an item, whose time has gone through a double.
  abbrev pub received : Item → Event
  received item = consume (record item { when = c.to_ticks (c.of_ticks item.when) })

  pub make_log_item-find :
      (o o' : j.Object)
      → ((k : String) → j.find k o ≡ j.find k o')
      → make_log_item j c o ≡ make_log_item j c o'
  unfolding make_log_item
  make_log_item-find o o' same =
      let when : number_field j "when" o ≡ number_field j "when" o' =
        ap (λ (v : Option j.Value). elim v [ none ↦ none | some n ↦ j.as_number n ])
          (same "when") in
      let severity : string_field j "severity" o ≡ string_field j "severity" o' =
        ap (λ (v : Option j.Value). elim v [ none ↦ none | some n ↦ j.as_string n ])
          (same "severity") in
      let message : string_field j "message" o ≡ string_field j "message" o' =
        ap (λ (v : Option j.Value). elim v [ none ↦ none | some n ↦ j.as_string n ])
          (same "message") in
      rw (when, severity, message) refl

  pub on_completed-received :
      (item : Item) (s : p.State) (o : j.Object)
      → j.as_object (p.container s) ≡ some o
      → ((k : String) → j.find k o ≡ j.find k (to_jopp_object j c item))
      → on_completed j c p s ≡ received item
  unfolding on_completed
  on_completed-received item s o e same =
      let read =
        make_log_item-find o (to_jopp_object j c item) same
        ∙ make_log_item-to_jopp_object j c item in
      rw (on_completed, e, read) refl

  pub parse_buffer-texts :
      (g : ℕ) (items : List Item)
      → All IsReadBack items
      → length (texts j c z items) < g
      → parse_buffer j c p g (texts j c z items) p.initial
        ≡ some (record { events = map received items; state = p.initial; parser_state = good })
  unfolding parse_buffer
  parse_buffer-texts zero items h k = absurd (omega arith)
  parse_buffer-texts (suc g) [] h k = rw (p.parse-nil p.initial) refl
  parse_buffer-texts (suc g) (item ∷ items) ((s, o, e, object, same), h) k =
      let t = text_of j c z item in
      let rest = texts j c z items in
      let (some_byte, _) = p.parse-progress p.initial s t (length t) e in
      let ih = parse_buffer-texts g items h (omega (arith, length-append t rest)) in
      rw
        (
          p.parse-completed p.initial s t rest (length t) e,
          drop-length-append t rest,
          ih,
          on_completed-received item s o object same,
        )
        refl

  -- A readable descriptor that delivers the texts of the items in pieces.
  pub handle_event-texts :
      (items : List Item) (status : ActivityStatus) (chunks : List (List ℕ))
      (behind : List ReadAnswer)
      → All IsReadBack items
      → can_read status ≡ true
      → All IsNonEmpty chunks
      → concat chunks ≡ texts j c z items
      → handle_event j c p status (map bytes chunks ++ behind) p.initial
        ≡ after_events j c p (map received items) (read_loop j c p behind p.initial)
  handle_event-texts items status chunks behind back readable pieces cut =
      let enough = suc (length (concat chunks)) in
      handle_event-concat j c p status enough chunks behind p.initial readable pieces (omega arith)
      ∙ ap
          (λ (bs : List ℕ).
            after_buffer j c p (read_loop j c p behind) (parse_buffer j c p enough bs p.initial))
          cut
      ∙ ap (after_buffer j c p (read_loop j c p behind))
          (parse_buffer-texts enough items back (rw cut (omega arith)))

  -- The buffer of the writer is not empty, its rounds are more than the bytes of all items, the
  -- answers to its writes each make progress and are as many as those bytes, and the parser takes
  -- the text of each item as an object with the same fields. Then the writer writes all items
  -- without an exception; and however the bytes are cut into pieces that are not empty, a reader in
  -- its initial state gives its receiver exactly these items, in order, each with its time rounded
  -- as the way through a double rounds it, and goes on with the answers behind them.
  pub handle_event-write_all :
      (fuel buffer_size : ℕ) (items : List Item) (answers : List WriteAnswer)
      (status : ActivityStatus) (chunks : List (List ℕ)) (behind : List ReadAnswer)
      → 0 < buffer_size
      → length (texts j c z items) < fuel
      → All IsProgress answers
      → length (texts j c z items) ≤ length answers
      → All IsReadBack items
      → can_read status ≡ true
      → All IsNonEmpty chunks
      → concat chunks ≡ texts j c z items
      → (w : Written) × (write_all j c z fuel buffer_size items answers ≡ some w)
        × (w.exception ≡ none)
        × (w.sent ≡ concat chunks)
        × (handle_event j c p status (map bytes chunks ++ behind) p.initial
            ≡ after_events j c p (map received items) (read_loop j c p behind p.initial))
  handle_event-write_all fuel size items answers status chunks behind h k progress l back readable
        pieces cut =
      let (w, e, sent, fine, _, _) =
        write_all-Finished j c z fuel size items answers h k progress l in
      (
        w,
        e,
        fine,
        sent ∙ sym cut,
        handle_event-texts items status chunks behind back readable pieces cut,
      )

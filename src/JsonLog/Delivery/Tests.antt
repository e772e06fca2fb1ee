-- ===== src/JsonLog/Delivery/Tests.antt =====
-- Two items over a pipe, in pieces that cut through them.
use the_pipe.Base.{
  zero, suc, true, String, All, ℕ, ◌≡◌, refl, none, some, List, [], ◌∷◌, ◌++◌, map, arith,
}
use the_pipe.Jopp.Sample.{sample, Value, obj}
use the_pipe.Log.{Item}
use the_pipe.OsServices.Fd.Activity.{ActivityStatus, can_read}
use the_pipe.JsonLog.Converter.{to_jopp_object}
use the_pipe.JsonLog.Reader.Receiver.{ItemReceiver, make_reader}
use the_pipe.JsonLog.Readers.{Listener, serve_readers, call, perform, own}
use the_pipe.JsonLog.Readers.Arrivals.{bytes_for, arrival}
use the_pipe.JsonLog.Delivery.Several.{serve_readers-received}
use the_pipe.JsonLog.Writer.Several.{texts}
use the_pipe.JsonLog.Reader.{
  Event, Parser, bytes, would_block, after_events, read_loop, handle_event,
}
use the_pipe.JsonLog.Reader.Toy.{toy, toy_parse}
use the_pipe.JsonLog.Writer.{WriteAnswer, transferred, io_failed, Written, write}
use the_pipe.JsonLog.Delivery.Partial.{handle_event-broken_off}
use the_pipe.JsonLog.Writer.Several.{write_all}
use the_pipe.JsonLog.Writer.Fixed.{is_nil, exact, disk, fixed_text}
use the_pipe.JsonLog.Delivery.{IsReadBack, received, handle_event-write_all}

-- Every value is the object of one item.
abbrev disk_parser : Parser Value
disk_parser = record toy { container = λ s. obj (to_jopp_object sample exact disk) }

abbrev two_disks : List Item
two_disks = disk ∷ disk ∷ []

abbrev writes : List WriteAnswer
writes =
    transferred 1
    ∷ transferred 2
    ∷ transferred 1
    ∷ transferred 1
    ∷ transferred 5
    ∷ transferred 1
    ∷ []

abbrev pieces : List (List ℕ)
pieces = (b'{' ∷ []) ∷ (b'0' ∷ b'}' ∷ b'{' ∷ b'0' ∷ []) ∷ (b'}' ∷ []) ∷ []

disk-IsReadBack : IsReadBack sample exact disk_parser fixed_text disk
unfolding toy_parse
disk-IsReadBack = (b'0' ∷ b'{' ∷ [], to_jopp_object sample exact disk, refl, refl, λ k. refl)

handle_event-write_all_example :
    (w : Written) × (write_all sample exact fixed_text 7 2 two_disks writes ≡ some w)
    × (w.exception ≡ none)
    × (w.sent ≡ b'{' ∷ b'0' ∷ b'}' ∷ b'{' ∷ b'0' ∷ b'}' ∷ [])
    × (handle_event sample exact disk_parser ActivityStatus.read
          (map bytes pieces ++ would_block ∷ [])
          []
        ≡ after_events sample exact disk_parser
            (map (received sample exact disk_parser fixed_text) two_disks)
            (read_loop sample exact disk_parser (would_block ∷ []) []))
unfolding can_read
handle_event-write_all_example =
    handle_event-write_all sample exact disk_parser fixed_text 7 2 two_disks writes
      ActivityStatus.read pieces (would_block ∷ []) (omega arith) (omega arith) (omega arith)
      (omega arith) (disk-IsReadBack, (disk-IsReadBack, tt)) refl (omega arith) refl

-- The second item is broken off by an exception behind its first byte.
abbrev broken : List WriteAnswer
broken = transferred 2 ∷ transferred 1 ∷ transferred 1 ∷ io_failed 5 ∷ []

abbrev broken_off : Written
broken_off = record { sent = b'{' ∷ b'0' ∷ b'}' ∷ b'{' ∷ []; answers = []; exception = some 5 }

write_all-broken : write_all sample exact fixed_text 7 2 two_disks broken ≡ some broken_off
unfolding write_all write is_nil
write_all-broken = refl

abbrev broken_pieces : List (List ℕ)
broken_pieces = (b'{' ∷ b'0' ∷ []) ∷ (b'}' ∷ b'{' ∷ []) ∷ []

handle_event-broken_off_example :
    (front : List Item) × (rest : List Item) × (s : List ℕ) × (two_disks ≡ front ++ rest)
    × (handle_event sample exact disk_parser ActivityStatus.read
          (map bytes broken_pieces ++ would_block ∷ [])
          []
        ≡ after_events sample exact disk_parser
            (map (received sample exact disk_parser fixed_text) front)
            (read_loop sample exact disk_parser (would_block ∷ []) s))
    × (broken_off.exception ≡ none → rest ≡ [])
unfolding can_read
handle_event-broken_off_example =
    handle_event-broken_off sample exact disk_parser fixed_text 7 2 two_disks broken broken_off
      ActivityStatus.read broken_pieces (would_block ∷ []) (disk-IsReadBack, (disk-IsReadBack, tt))
      write_all-broken refl (omega arith) refl

-- The two items again, now from two writers whose pieces alternate.
abbrev Calls : Type 0
Calls = List (String × Item)

abbrev recorder : ItemReceiver Calls
recorder = record {
  consume = λ who item calls. (who, item) ∷ calls;
  on_parse_error = λ who ec calls. calls;
  on_invalid_log_item = λ who message calls. calls;
}

abbrev both : ℕ → Listener sample exact disk_parser Calls
both i = record {
  reader = make_reader sample exact disk_parser Calls "host" recorder 65536;
  is_listening = true;
}

abbrev one_each : ℕ → List Item
one_each zero = disk ∷ []
one_each (suc zero) = disk ∷ []
one_each (suc (suc i)) = []

abbrev alternating : List (ℕ × List (List ℕ))
alternating =
    (0, (b'{' ∷ []) ∷ [])
    ∷ (1, (b'{' ∷ b'0' ∷ []) ∷ [])
    ∷ (0, (b'0' ∷ []) ∷ (b'}' ∷ []) ∷ [])
    ∷ (1, (b'}' ∷ []) ∷ [])
    ∷ []

alternating-arrived : (i : ℕ) → bytes_for i alternating ≡ texts sample exact fixed_text (one_each i)
alternating-arrived zero = refl
alternating-arrived (suc zero) = refl
alternating-arrived (suc (suc i)) = ground arith

one_each-IsReadBack : (i : ℕ) → All (IsReadBack sample exact disk_parser fixed_text) (one_each i)
one_each-IsReadBack zero = (disk-IsReadBack, tt)
one_each-IsReadBack (suc zero) = (disk-IsReadBack, tt)
one_each-IsReadBack (suc (suc i)) = tt

serve_readers-received_example :
    (after : ℕ → Listener sample exact disk_parser Calls) × (calls : List (ℕ × Event))
    × (serve_readers sample exact disk_parser Calls (map arrival alternating) both []
        ≡ some (after, perform (call sample exact disk_parser Calls both) calls [], none))
    × ((i : ℕ) → own i calls ≡ map (received sample exact disk_parser fixed_text) (one_each i))
unfolding make_reader
serve_readers-received_example =
    serve_readers-received sample exact disk_parser fixed_text Calls one_each alternating both []
      (omega arith) (λ i. refl) (λ i. refl) alternating-arrived one_each-IsReadBack

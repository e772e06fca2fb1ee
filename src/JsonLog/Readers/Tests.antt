-- ===== src/JsonLog/Readers/Tests.antt =====
-- Two readers, the second of which meets an error between two pieces of the first one's value.
use the_pipe.Base.{
  ℕ, ◌≡◌, refl, none, some, true, List, [], ◌∷◌, map, String, ◌==◌, if◌then◌else◌, arith,
}
use the_pipe.Jopp.Sample.{sample}
use the_pipe.JsonLog.Reader.{Event, consume, on_parse_error, on_invalid_log_item, Parsed}
use the_pipe.JsonLog.Reader.Receiver.{ItemReceiver, make_reader}
use the_pipe.JsonLog.Reader.Toy.{toy}
use the_pipe.JsonLog.Readers.{Listener, serve_readers, call, perform, own}
use the_pipe.JsonLog.Readers.Arrivals.{arrival, parse_all}
use the_pipe.JsonLog.Readers.Isolation.{serve_readers-own}
use the_pipe.JsonLog.Writer.Fixed.{exact}

-- The calls with the names of the readers, the last in front.
abbrev Calls : Type 0
Calls = List (String × Event)

abbrev recorder : ItemReceiver Calls
recorder = record {
  consume = λ who item calls. (who, consume item) ∷ calls;
  on_parse_error = λ who ec calls. (who, on_parse_error ec) ∷ calls;
  on_invalid_log_item = λ who message calls. (who, on_invalid_log_item message) ∷ calls;
}

abbrev two_readers : ℕ → Listener sample exact toy Calls
two_readers i = record {
  reader = make_reader sample exact toy Calls (if i == 0 then "first" else "second") recorder 65536;
  is_listening = true;
}

abbrev pieces : List (ℕ × List (List ℕ))
pieces =
    (0, (b'{' ∷ []) ∷ (b'0' ∷ []) ∷ [])
    ∷ (1, (b'{' ∷ 0 ∷ []) ∷ [])
    ∷ (0, (b'}' ∷ []) ∷ [])
    ∷ (1, (b'}' ∷ []) ∷ [])
    ∷ []

serve_readers-own_example :
    (after : ℕ → Listener sample exact toy Calls) × (calls : List (ℕ × Event)) × (q : Parsed sample
      exact toy)
    × (serve_readers sample exact toy Calls (map arrival pieces) two_readers []
        ≡ some (after, perform (call sample exact toy Calls two_readers) calls [], none))
    × (parse_all sample exact toy (b'{' ∷ b'0' ∷ b'}' ∷ []) [] ≡ some q)
    × (own 0 calls ≡ q.events)
unfolding make_reader
serve_readers-own_example =
    serve_readers-own sample exact toy Calls pieces two_readers [] 0 (omega arith) refl

-- ===== src/JsonLog/Tests.antt =====
-- The theorems about src/json_log at concrete streams.
use the_pipe.Base.{ℕ, ◌≡◌, ◌↔◌, ◌⊎◌, refl, false, none, some, List, [], ◌∷◌, ◌++◌, map, arith}
use the_pipe.Base.Int.{pos}
use the_pipe.Base.Dict.{lookup}
use the_pipe.Jopp.{string_field}
use the_pipe.Jopp.Sample.{sample, items, Fields, num, end, field}
use the_pipe.Log.{make_severity_with_fallback}
use the_pipe.OsServices.Fd.Activity.{ActivityStatus, can_read}
use the_pipe.JsonLog.Converter.{unexpected, make_log_item}
use the_pipe.JsonLog.Converter.Laws.{about_severity, make_log_item-about_severity}
use the_pipe.JsonLog.Reader.{
  Parsed, parse_buffer, consume, bytes, would_block, after_buffer, read_loop, handle_event,
}
use the_pipe.JsonLog.Reader.Buffer.{parse_buffer_total}
use the_pipe.JsonLog.Reader.Stream.{concat, handle_event-concat}
use the_pipe.JsonLog.Reader.Toy.{toy, toy_parse}
use the_pipe.JsonLog.Writer.{WriteAnswer, io_failed, transferred, Written, write}
use the_pipe.JsonLog.Writer.EmptyBuffer.{write-empty_buffer}
use the_pipe.JsonLog.Writer.Fixed.{exact, disk, fixed_text, is_nil}

-- A number `when` and nothing else.
abbrev only_when : Fields
only_when = field "when" (num (pos 3)) end

make_log_item-about_severity_example :
    (make_log_item sample exact only_when ≡ unexpected about_severity) ↔ (
      (string_field sample "severity" only_when ≡ none)
      ⊎ (string_field sample "message" only_when ≡ none))
unfolding lookup items
make_log_item-about_severity_example = make_log_item-about_severity sample exact only_when (λ e. cc)

-- Two values, the second of which is not complete.
abbrev first_piece : List ℕ
first_piece = b'{' ∷ b'"' ∷ []

abbrev second_piece : List ℕ
second_piece = b'}' ∷ b'{' ∷ []

handle_event-pieces :
    handle_event sample exact toy ActivityStatus.read
      (bytes first_piece ∷ bytes second_piece ∷ would_block ∷ [])
      []
    ≡ some (record {
      events = consume disk ∷ [];
      state = b'{' ∷ [];
      stopped = false;
      exception = none;
    })
unfolding handle_event can_read toy_parse make_log_item make_severity_with_fallback lookup items
handle_event-pieces = refl

parse_buffer_total_example :
    (r : Parsed sample exact toy) × (parse_buffer sample exact toy 5
        (first_piece ++ second_piece)
        []
      ≡ some r)
parse_buffer_total_example =
    parse_buffer_total sample exact toy 5 (first_piece ++ second_piece) [] (omega arith)

handle_event-concat_example :
    handle_event sample exact toy ActivityStatus.read
      (map bytes (first_piece ∷ second_piece ∷ []) ++ would_block ∷ [])
      []
    ≡ after_buffer sample exact toy
        (read_loop sample exact toy (would_block ∷ []))
        (parse_buffer sample exact toy 5 (concat (first_piece ∷ second_piece ∷ [])) [])
unfolding can_read
handle_event-concat_example =
    handle_event-concat sample exact toy ActivityStatus.read 5 (first_piece ∷ second_piece ∷ [])
      (would_block ∷ []) [] refl (omega arith) (omega arith)

abbrev broken : List WriteAnswer
broken = transferred 1 ∷ WriteAnswer.would_block ∷ io_failed 5 ∷ []

abbrev broken_off : Written
broken_off = record { sent = b'{' ∷ []; answers = []; exception = some 5 }

write-broken : write sample exact fixed_text 4 2 disk broken ≡ some broken_off
unfolding write is_nil
write-broken = refl

write-empty_buffer_example :
    write sample exact fixed_text 1000 0 disk (transferred 3 ∷ transferred 3 ∷ []) ≡ none
write-empty_buffer_example =
    write-empty_buffer sample exact fixed_text 1000 disk (transferred 3 ∷ transferred 3 ∷ [])
      (omega arith)

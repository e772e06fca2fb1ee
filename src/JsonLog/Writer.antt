-- ===== src/JsonLog/Writer.antt =====
-- src/json_log/writer.hpp and writer.cpp. The serializer is an interface; the answers of `write`
-- are a list.
pub mod Finished
pub mod Complete
pub mod Several
pub mod Fixed
pub mod EmptyBuffer
pub mod Channel
use the_pipe.Base.{
  ℕ, zero, suc, ◌+◌, ◌≤◌, ◌<◌, ◌≡◌, Bool, true, false, Option, none, some, List, [], ◌∷◌, ◌++◌,
  length, take, drop,
}
use the_pipe.Jopp.{Jopp}
use the_pipe.Log.{Item}
use the_pipe.JsonLog.Converter.{Seconds, to_jopp_object}

-- jopp::serializer. `serialize` fills a buffer of some size: the new state, the bytes that it put
-- there, and whether it has completed. `pending` is what is still to come.
pub record Serializer (Object : Type 0) : Type 1 where
  pub State : Type 0
  pub text : Object → List ℕ
  pub start : Object → State
  pub serialize : State → ℕ → State × List ℕ × Bool
  pub pending : State → List ℕ
  pub pending-start : (o : Object) → pending (start o) ≡ text o
  pub pending-serialize :
      (s : State) (size : ℕ) → pending s ≡ (serialize s size).1 ++ pending (serialize s size).0
  pub serialize-completed :
      (s : State) (size : ℕ) → (serialize s size).2 ≡ true → pending (serialize s size).0 ≡ []
  pub serialize-more :
      (s : State) (size : ℕ)
      → 0 < size
      → (serialize s size).2 ≡ false
      → 0 < length (serialize s size).1
  pub serialize-fits : (s : State) (size : ℕ) → length (serialize s size).1 ≤ size

-- What one call of `write` gives: EAGAIN, an exception with its errno, or a number of bytes.
pub data WriteAnswer : Type 0 where
  would_block : WriteAnswer
  io_failed : ℕ → WriteAnswer
  transferred : ℕ → WriteAnswer

-- The bytes written, the answers left, and the errno of an exception.
pub record Written : Type 0 where
  pub sent : List ℕ
  pub answers : List WriteAnswer
  pub exception : Option ℕ

abbrev pub prepend : List ℕ → Option Written → Option Written
prepend bs none = none
prepend bs (some w) = some (record w { sent = bs ++ w.sent })

-- The inner loop: until all data is written. `none` means that the answers ran out.
unfoldable pub write_data : List WriteAnswer → List ℕ → Option Written
write_data answers [] = some (record { sent = []; answers = answers; exception = none })
write_data [] (d ∷ ds) = none
write_data (would_block ∷ answers) (d ∷ ds) = write_data answers (d ∷ ds)
write_data (io_failed errno ∷ answers) (d ∷ ds) =
    some (record { sent = []; answers = answers; exception = some errno })
write_data (transferred n ∷ answers) (d ∷ ds) =
    prepend (take n (d ∷ ds)) (write_data answers (drop n (d ∷ ds)))

-- Behind the inner loop: an exception, the end, or another round.
abbrev pub after_data : Bool → (List WriteAnswer → Option Written) → Option Written → Option Written
after_data fin loop none = none
after_data fin loop (some w) = elim w.exception [
  | some errno ↦ some w
  | none ↦ elim fin [ true ↦ some w | false ↦ prepend w.sent (loop w.answers) ]
]

module _ {Object : Type 0} (z : Serializer Object) where
  -- The outer loop. `none` means that the fuel or the answers ran out.
  unfoldable pub write_loop : ℕ → ℕ → z.State → List WriteAnswer → Option Written
  unfolding write_data
  write_loop zero buffer_size s answers = none
  write_loop (suc fuel) buffer_size s answers =
      after_data (z.serialize s buffer_size).2
        (write_loop fuel buffer_size (z.serialize s buffer_size).0)
        (write_data answers (z.serialize s buffer_size).1)

module _ (j : Jopp) (c : Seconds j.Number) (z : Serializer j.Object) where
  unfoldable pub write : ℕ → ℕ → Item → List WriteAnswer → Option Written
  unfolding write_loop to_jopp_object
  write fuel buffer_size item answers =
      write_loop z fuel buffer_size (z.start (to_jopp_object j c item)) answers

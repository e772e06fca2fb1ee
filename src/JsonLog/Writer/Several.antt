-- ===== src/JsonLog/Writer/Several.antt =====
-- Several items, which the writer of src/json_log/writer.cpp writes one after the other; an exception
-- ends the sequence.
use the_pipe.Base.{
  ℕ, ◌≤◌, ◌<◌, refl, false, none, some, Option, List, [], ◌∷◌, ◌++◌, length, All, length-append,
  arith,
}
use the_pipe.Jopp.{Jopp}
use the_pipe.Log.{Item}
use the_pipe.JsonLog.Converter.{Seconds, to_jopp_object}
use the_pipe.JsonLog.Writer.{Serializer, WriteAnswer, Written, after_data, write}
use the_pipe.JsonLog.Writer.Finished.{IsProgress, Finished, after_data-Finished}
use the_pipe.JsonLog.Writer.Complete.{write-Finished}

module _ (j : Jopp) (c : Seconds j.Number) (z : Serializer j.Object) where
  unfoldable pub write_all : ℕ → ℕ → List Item → List WriteAnswer → Option Written
  unfolding write
  write_all fuel buffer_size [] answers =
      some (record { sent = []; answers = answers; exception = none })
  write_all fuel buffer_size (item ∷ items) answers =
      after_data false (write_all fuel buffer_size items)
        (write j c z fuel buffer_size item answers)

  -- The text of an item, and the texts of several.
  abbrev pub text_of : Item → List ℕ
  text_of item = z.text (to_jopp_object j c item)

  abbrev pub texts : List Item → List ℕ
  texts [] = []
  texts (item ∷ items) = text_of item ++ texts items

  pub write_all-Finished :
      (fuel buffer_size : ℕ) (items : List Item) (answers : List WriteAnswer)
      → 0 < buffer_size
      → length (texts items) < fuel
      → All IsProgress answers
      → length (texts items) ≤ length answers
      → Finished answers (texts items) (write_all fuel buffer_size items answers)
  unfolding write_all
  write_all-Finished fuel size [] answers h k p l = (_, refl, refl, refl, omega arith, p)
  write_all-Finished fuel size (item ∷ items) answers h k p l =
      let split = length-append (text_of item) (texts items) in
      after_data-Finished z answers (text_of item) (texts items) false (write_all fuel size items) _
        (write-Finished j c z fuel size item answers h (omega (arith, split)) p
          (omega (arith, split)))
        (λ e. cc)
        (λ more left good room.
          write_all-Finished fuel size items left h (omega (arith, split)) good room)
        (omega (arith, split))

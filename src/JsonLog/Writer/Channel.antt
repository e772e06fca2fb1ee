-- ===== src/JsonLog/Writer/Channel.antt =====
-- The class of src/json_log/writer.hpp, and its calls by src/log.
use mathlib.Core.List.{append-nil}
use the_pipe.Base.{
  Bool-cases, inl, inr, ◌∷◌, [], ◌∙◌, length-append, ℕ, suc, ◌+◌, ◌≤◌, ◌<◌, ◌≡◌, refl, ap, Option,
  none, some, List, ◌++◌, length, All, arith,
}
use the_pipe.Jopp.{Jopp}
use the_pipe.Log.{Item}
use the_pipe.JsonLog.Converter.{Seconds, to_jopp_object}
use the_pipe.JsonLog.Writer.{
  Serializer, WriteAnswer, Written, write, write_data, write_loop, io_failed,
}
use the_pipe.JsonLog.Writer.Finished.{IsProgress, Finished}
use the_pipe.JsonLog.Writer.Complete.{write-Finished}
use the_pipe.JsonLog.Writer.Several.{text_of}

-- `m_output_fd` and `m_buffer_size`; what is in the buffer between two calls is not looked at.
pub record Writer : Type 0 where
  pub output_fd : ℕ
  pub buffer_size : ℕ

unfoldable pub make_writer : ℕ → ℕ → Writer
make_writer buffer_size output_fd = record { output_fd = output_fd; buffer_size = buffer_size }

-- The default arguments: 65536 bytes, and the standard error stream.
unfoldable pub default_writer : Writer
unfolding make_writer
default_writer = make_writer 65536 2

-- How the last call of `write` came out: it returned, it threw with an errno, or it still tries.
pub data Progress : Type 0 where
  returned still_trying : Progress
  threw : ℕ → Progress

-- What is behind the writer's descriptor: the answers to come, and the bytes that were taken.
pub record Channel : Type 0 where
  pub answers : List WriteAnswer
  pub sent : List ℕ
  pub progress : Progress

module _ (j : Jopp) (c : Seconds j.Number) (z : Serializer j.Object) where
  abbrev after_write : Channel → Option Written → Channel
  after_write ch none = record ch { progress = still_trying }
  after_write ch (some w) = record {
    answers = w.answers;
    sent = ch.sent ++ w.sent;
    progress = elim w.exception [ none ↦ returned | some errno ↦ threw errno ];
  }

  -- One call of `write`. The outer loop makes at most one round more than there are bytes.
  unfoldable pub write_item : Writer → Item → Channel → Channel
  unfolding write
  write_item writer item ch =
      after_write ch
        (write j c z (suc (length (text_of j c z item))) writer.buffer_size item ch.answers)

  after_write-Finished :
      (ch : Channel) (bs : List ℕ) (o : Option Written)
      → Finished ch.answers bs o
      → ((after_write ch o).sent ≡ ch.sent ++ bs)
        × ((after_write ch o).progress ≡ returned)
        × (length ch.answers ≤ length (after_write ch o).answers + length bs)
        × All IsProgress (after_write ch o).answers
  after_write-Finished ch bs o (w, e, sent, fine, left, good) =
      rw (e, fine) (ap (λ ds. ch.sent ++ ds) sent, refl, left, good)

  -- When the buffer is not empty, and the answers each make progress and are as many as the bytes
  -- of the item, a call returns when exactly these bytes have been taken.
  pub write_item-Finished :
      (writer : Writer) (item : Item) (ch : Channel)
      → 0 < writer.buffer_size
      → All IsProgress ch.answers
      → length (text_of j c z item) ≤ length ch.answers
      → ((write_item writer item ch).sent ≡ ch.sent ++ text_of j c z item)
        × ((write_item writer item ch).progress ≡ returned)
        × (length ch.answers
            ≤ length (write_item writer item ch).answers + length (text_of j c z item))
        × All IsProgress (write_item writer item ch).answers
  unfolding write_item
  write_item-Finished writer item ch size good room =
      after_write-Finished ch (text_of j c z item) _ (
        write-Finished j c z (suc (length (text_of j c z item))) writer.buffer_size item ch.answers
          size (omega arith) good room)

-- The first bytes of a text that is not empty go into a buffer that is not empty.
serialize-some :
    {Object : Type 0} (z : Serializer Object) (s : z.State) (size : ℕ)
    → 0 < size
    → 0 < length (z.pending s)
    → 0 < length (z.serialize s size).1
serialize-some z s size h k = elim (Bool-cases (z.serialize s size).2) [
  | inl last ↦
      let whole : length (z.pending s) ≡ length (z.serialize s size).1 + 0 =
        ap (length {A = ℕ}) (z.pending-serialize s size)
        ∙ length-append (z.serialize s size).1 (z.pending (z.serialize s size).0)
        ∙ ap (λ (bs : List ℕ). length (z.serialize s size).1 + length bs)
            (z.serialize-completed s size last) in
      omega (arith, whole)
  | inr more ↦ z.serialize-more s size h more
]

write_data-io_failed :
    (errno : ℕ) (left : List WriteAnswer) (bs : List ℕ)
    → 0 < length bs
    → write_data (io_failed errno ∷ left) bs
      ≡ some (record { sent = []; answers = left; exception = some errno })
unfolding write_data
write_data-io_failed errno left [] h = absurd (omega arith)
write_data-io_failed errno left (b ∷ bs) h = refl

module _ (j : Jopp) (c : Seconds j.Number) (z : Serializer j.Object) where
  -- When the first write fails, the call throws, and nothing has been written.
  pub write_item-io_failed :
      (writer : Writer) (item : Item) (ch : Channel) (errno : ℕ) (left : List WriteAnswer)
      → 0 < writer.buffer_size
      → 0 < length (text_of j c z item)
      → ch.answers ≡ io_failed errno ∷ left
      → write_item j c z writer item ch
        ≡ record { answers = left; sent = ch.sent; progress = threw errno }
  unfolding write_item write write_loop
  write_item-io_failed writer item ch errno left size some_text e =
      let s = z.start (to_jopp_object j c item) in
      let some_bytes =
        serialize-some z s writer.buffer_size size
          (rw (z.pending-start (to_jopp_object j c item)) some_text) in
      rw (e, write_data-io_failed errno left (z.serialize s writer.buffer_size).1 some_bytes)
        (ap
          (λ (bs : List ℕ).
            let r : Channel = record { answers = left; sent = bs; progress = threw errno } in r)
          (append-nil ch.sent))

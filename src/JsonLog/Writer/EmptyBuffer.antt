-- ===== src/JsonLog/Writer/EmptyBuffer.antt =====
-- A writer whose buffer size is 0, which its constructor allows.
use the_pipe.Base.{
  ℕ, zero, suc, ◌≤◌, ◌<◌, ◌≡◌, refl, sym, ap, ◌∙◌, none, List, [], ◌∷◌, ◌++◌, length, Bool-cases,
  inl, inr, arith,
}
use the_pipe.Jopp.{Jopp}
use the_pipe.Log.{Item}
use the_pipe.JsonLog.Converter.{Seconds, to_jopp_object}
use the_pipe.JsonLog.Writer.{Serializer, WriteAnswer, write_data, write_loop, write}
use the_pipe.JsonLog.Writer.Several.{text_of}

nil-length : (bs : List ℕ) → length bs ≤ 0 → bs ≡ []
nil-length [] h = refl
nil-length (b ∷ bs) h = absurd (omega arith)

module _ {Object : Type 0} (z : Serializer Object) where
  open z use {State, pending, serialize}

  nothing_out : (s : State) → (serialize s 0).1 ≡ []
  nothing_out s = nil-length (serialize s 0).1 (z.serialize-fits s 0)

  still_pending : (s : State) → pending (serialize s 0).0 ≡ pending s
  still_pending s =
      sym (z.pending-serialize s 0 ∙ ap (λ bs. bs ++ pending (serialize s 0).0) (nothing_out s))

  write_loop-empty_buffer :
      (fuel : ℕ) (s : State) (answers : List WriteAnswer)
      → 0 < length (pending s)
      → write_loop z fuel 0 s answers ≡ none
  unfolding write_loop write_data
  write_loop-empty_buffer zero s answers h = refl
  write_loop-empty_buffer (suc fuel) s answers h = elim (Bool-cases (serialize s 0).2) [
    | inl last ↦
        let no_more = sym (still_pending s) ∙ z.serialize-completed s 0 last in
        absurd (omega (arith, ap (length {A = ℕ}) no_more))
    | inr more ↦
        let ih = write_loop-empty_buffer fuel (serialize s 0).0 answers (rw (still_pending s) h) in
        rw (nothing_out s, more, ih) refl
  ]

module _ (j : Jopp) (c : Seconds j.Number) (z : Serializer j.Object) where
  -- The text of the item is not empty. With a buffer of size 0 no number of rounds ends the loop of
  -- `write`, whatever the answers of the kernel.
  pub write-empty_buffer :
      (fuel : ℕ) (item : Item) (answers : List WriteAnswer)
      → 0 < length (text_of j c z item)
      → write j c z fuel 0 item answers ≡ none
  unfolding write
  write-empty_buffer fuel item answers h =
      write_loop-empty_buffer z fuel (z.start (to_jopp_object j c item)) answers
        (rw (z.pending-start (to_jopp_object j c item)) h)

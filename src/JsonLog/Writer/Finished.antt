-- ===== src/JsonLog/Writer/Finished.antt =====
-- The loops of the writer finish when every answer makes progress.
use mathlib.Core.List.{append-nil}
use the_pipe.Base.{
  ℕ, zero, suc, ◌+◌, ◌≤◌, ◌<◌, ◌≡◌, refl, sym, ap, ◌∙◌, Bool, true, false, Option, none, some, List,
  [], ◌∷◌, ◌++◌, length, take, drop, take-append-drop, length-append, length-drop, All, arith,
}
use the_pipe.JsonLog.Writer.{
  Serializer, WriteAnswer, would_block, io_failed, transferred, Written, write_data, after_data,
  write_loop,
}

-- The answer made progress.
abbrev pub IsProgress : WriteAnswer → Type 0
IsProgress would_block = ⊥
IsProgress (io_failed errno) = ⊥
IsProgress (transferred n) = 0 < n

-- All data was written without an exception, by at most as many answers as there are bytes.
abbrev pub Finished : List WriteAnswer → List ℕ → Option Written → Type 0
Finished answers bs o =
    (w : Written) × (o ≡ some w)
    × (w.sent ≡ bs)
    × (w.exception ≡ none)
    × (length answers ≤ length w.answers + length bs)
    × All IsProgress w.answers

write_data-Finished :
    (answers : List WriteAnswer) (bs : List ℕ)
    → All IsProgress answers
    → length bs ≤ length answers
    → Finished answers bs (write_data answers bs)
unfolding write_data
write_data-Finished answers [] h k = (_, refl, refl, refl, omega arith, h)
write_data-Finished [] (d ∷ ds) h k = absurd (omega arith)
write_data-Finished (would_block ∷ answers) (d ∷ ds) h k = absurd h.0
write_data-Finished (io_failed errno ∷ answers) (d ∷ ds) h k = absurd h.0
write_data-Finished (transferred n ∷ answers) (d ∷ ds) h k =
    let (w, e, sent, fine, left, good) =
      write_data-Finished answers (drop n (d ∷ ds)) h.1 (omega (arith, length-drop n (d ∷ ds))) in
    (
      record w { sent = take n (d ∷ ds) ++ w.sent },
      rw e,
      rw sent (take-append-drop n (d ∷ ds)),
      fine,
      omega (arith, length-drop n (d ∷ ds)),
      good,
    )

module _ {Object : Type 0} (z : Serializer Object) where
  open z use {State, pending, serialize}

  pub after_data-Finished :
      (answers : List WriteAnswer) (out rest : List ℕ) (fin : Bool)
      (loop : List WriteAnswer → Option Written) (o : Option Written)
      → Finished answers out o
      → (fin ≡ true → rest ≡ [])
      → (fin ≡ false
          → (left : List WriteAnswer) → All IsProgress left
          → length rest ≤ length left
          → Finished left rest (loop left))
      → length out + length rest ≤ length answers
      → Finished answers (out ++ rest) (after_data fin loop o)
  after_data-Finished answers out rest true loop o (w, e, sent, fine, left, good) last more room =
      rw (e, fine)
        (
          w,
          refl,
          sent ∙ sym (append-nil out) ∙ ap (λ bs. out ++ bs) (sym (last refl)),
          fine,
          omega (arith, length-append out rest),
          good,
        )
  after_data-Finished answers out rest false loop o (w, e, sent, fine, left, good) last more room =
      let (v, e', sent', fine', left', good') = more refl w.answers good (omega arith) in
      rw (e, fine, e')
        (
          record v { sent = w.sent ++ v.sent },
          refl,
          rw (sent, sent'),
          fine',
          omega (arith, length-append out rest),
          good',
        )

  pub write_loop-Finished :
      (fuel buffer_size : ℕ) (s : State) (answers : List WriteAnswer)
      → 0 < buffer_size
      → length (pending s) < fuel
      → All IsProgress answers
      → length (pending s) ≤ length answers
      → Finished answers (pending s) (write_loop z fuel buffer_size s answers)
  unfolding write_loop
  write_loop-Finished zero size s answers h k p l = absurd (omega arith)
  write_loop-Finished (suc fuel) size s answers h k p l =
      let s' = (serialize s size).0 in
      let out = (serialize s size).1 in
      let split =
        ap (length {A = ℕ}) (z.pending-serialize s size) ∙ length-append out (pending s') in
      rw (z.pending-serialize s size) (
        after_data-Finished answers out (pending s') (serialize s size).2
          (write_loop z fuel size s') _ (write_data-Finished answers out p (omega (arith, split)))
          (z.serialize-completed s size)
          (λ more left good room.
            write_loop-Finished fuel size s' left h
              (omega (arith, split, z.serialize-more s size h more)) good room)
          (omega (arith, split)))

-- ===== src/JsonLog/Writer/Complete.antt =====
-- The writer writes the whole text of an item.
use mathlib.Core.List.{append_assoc, append-nil}
use the_pipe.Base.{
  ℕ, zero, suc, ◌≤◌, ◌<◌, ◌≡◌, refl, sym, ap, ◌∙◌, Bool, true, false, Option, none, some, List, [],
  ◌∷◌, ◌++◌, length, take, drop, take-append-drop, All,
}
use the_pipe.Jopp.{Jopp}
use the_pipe.Log.{Item}
use the_pipe.JsonLog.Converter.{Seconds, to_jopp_object}
use the_pipe.JsonLog.Writer.{
  Serializer, WriteAnswer, would_block, io_failed, transferred, Written, prepend, write_data,
  after_data, write_loop, write,
}
use the_pipe.JsonLog.Writer.Finished.{IsProgress, Finished, write_loop-Finished}

-- The bytes sent are a first part of the data, and all of it unless there was an exception.
abbrev pub Sends : List ℕ → Written → Type 0
Sends bs w = (rest : List ℕ) × (w.sent ++ rest ≡ bs) × (w.exception ≡ none → rest ≡ [])

pub prepend-some :
    (bs : List ℕ) (o : Option Written) (w : Written)
    → prepend bs o ≡ some w
    → (v : Written) × (o ≡ some v) × (w ≡ record v { sent = bs ++ v.sent })
prepend-some bs none w e = cc
prepend-some bs (some v) w e = (v, refl, cc)

pub some-eq : (v w : Written) → some v ≡ some w → w ≡ v
some-eq v w e = cc

Sends-prepend :
    (bs cs : List ℕ) (v w : Written)
    → w ≡ record v { sent = bs ++ v.sent }
    → Sends cs v
    → Sends (bs ++ cs) w
Sends-prepend bs cs v w e (rest, whole, all) =
    rw e (rest, append_assoc bs v.sent rest ∙ ap (λ ds. bs ++ ds) whole, all)

write_data-Sends :
    (answers : List WriteAnswer) (bs : List ℕ) (w : Written)
    → write_data answers bs ≡ some w
    → Sends bs w
unfolding write_data
write_data-Sends answers [] w e = rw (some-eq _ w e) ([], refl, λ h. refl)
write_data-Sends [] (d ∷ ds) w e = cc
write_data-Sends (would_block ∷ answers) (d ∷ ds) w e = write_data-Sends answers (d ∷ ds) w e
write_data-Sends (io_failed errno ∷ answers) (d ∷ ds) w e =
    rw (some-eq _ w e) (d ∷ ds, refl, λ h. cc)
write_data-Sends (transferred n ∷ answers) (d ∷ ds) w e =
    let (v, e', e'') = prepend-some (take n (d ∷ ds)) _ w e in
    rw (← take-append-drop n (d ∷ ds)) (
      Sends-prepend (take n (d ∷ ds)) (drop n (d ∷ ds)) v w e''
        (write_data-Sends answers (drop n (d ∷ ds)) v e'))

module _ {Object : Type 0} (z : Serializer Object) where
  open z use {State, pending, serialize}

  after_data-Sends :
      (out rest : List ℕ) (fin : Bool) (loop : List WriteAnswer → Option Written)
      (o : Option Written) (w : Written)
      → ((v : Written) → o ≡ some v → Sends out v)
      → (fin ≡ true → rest ≡ [])
      → ((left : List WriteAnswer) (v : Written) → loop left ≡ some v → Sends rest v)
      → after_data fin loop o ≡ some w
      → Sends (out ++ rest) w
  after_data-Sends out rest fin loop none w part last more e = cc
  after_data-Sends out rest fin loop (some v) w part last more e = go v.exception refl fin refl e
    where
      before : (u : List ℕ) → v.sent ++ u ≡ out → v.sent ++ (u ++ rest) ≡ out ++ rest
      before u h = sym (append_assoc v.sent u rest) ∙ ap (λ bs. bs ++ rest) h

      go :
          (x : Option ℕ)
          → v.exception ≡ x
          → (f : Bool) → fin ≡ f
          → after_data fin loop (some v) ≡ some w
          → Sends (out ++ rest) w
      go (some errno) ex f ef e =
          let w≡v : w ≡ v = some-eq v w (rw ex at e) in
          let (u, whole, all) = part v refl in
          rw w≡v
            (u ++ rest, before u whole, λ h. (let clash : some errno ≡ none = sym ex ∙ h in cc))
      go none ex true ef e =
          let w≡v : w ≡ v = some-eq v w (rw (ex, ef) at e) in
          let (u, whole, all) = part v refl in
          rw w≡v (u ++ rest, before u whole, λ h. rw (all ex, last ef))
      go none ex false ef e =
          let (x, e', e'') = prepend-some v.sent _ w (rw (ex, ef) at e) in
          let (u, whole, all) = part v refl in
          let sent : v.sent ≡ out =
            sym (append-nil v.sent) ∙ ap (λ bs. v.sent ++ bs) (sym (all ex)) ∙ whole in
          rw (← sent) (Sends-prepend v.sent rest x w e'' (more v.answers x e'))

  write_loop-Sends :
      (fuel buffer_size : ℕ) (s : State) (answers : List WriteAnswer) (w : Written)
      → write_loop z fuel buffer_size s answers ≡ some w
      → Sends (pending s) w
  unfolding write_loop
  write_loop-Sends zero size s answers w e = cc
  write_loop-Sends (suc fuel) size s answers w e = rw (z.pending-serialize s size) (
      after_data-Sends (serialize s size).1 (pending (serialize s size).0) (serialize s size).2
        (write_loop z fuel size (serialize s size).0) _ w
        (write_data-Sends answers (serialize s size).1) (z.serialize-completed s size)
        (write_loop-Sends fuel size (serialize s size).0) e)

module _ (j : Jopp) (c : Seconds j.Number) (z : Serializer j.Object) where
  pub write-Finished :
      (fuel buffer_size : ℕ) (item : Item) (answers : List WriteAnswer)
      → 0 < buffer_size
      → length (z.text (to_jopp_object j c item)) < fuel
      → All IsProgress answers
      → length (z.text (to_jopp_object j c item)) ≤ length answers
      → Finished answers
          (z.text (to_jopp_object j c item))
          (write j c z fuel buffer_size item answers)
  unfolding write
  write-Finished fuel size item answers h k p l =
      let o = to_jopp_object j c item in
      let text = z.pending-start o in
      rw (← text) (write_loop-Finished z fuel size (z.start o) answers h (rw text k) p (rw text l))

  -- With a buffer that is not empty, more rounds than bytes, and answers that each make progress
  -- and are as many as the bytes, the writer returns without an exception and has written the
  -- whole text of the item's object.
  pub write-completes :
      (fuel buffer_size : ℕ) (item : Item) (answers : List WriteAnswer)
      → 0 < buffer_size
      → length (z.text (to_jopp_object j c item)) < fuel
      → All IsProgress answers
      → length (z.text (to_jopp_object j c item)) ≤ length answers
      → (w : Written) × (write j c z fuel buffer_size item answers ≡ some w)
        × (w.sent ≡ z.text (to_jopp_object j c item))
        × (w.exception ≡ none)
  write-completes fuel size item answers h k p l =
      let (w, e, sent, fine, _, _) = write-Finished fuel size item answers h k p l in
      (w, e, sent, fine)

  -- Whatever the answers are, also where writes are cut short or would block: when the writer
  -- ends, what it has written is a first part of the text of the item's object, and the whole text
  -- unless an exception ended it.
  pub write-Sends :
      (fuel buffer_size : ℕ) (item : Item) (answers : List WriteAnswer) (w : Written)
      → write j c z fuel buffer_size item answers ≡ some w
      → Sends (z.text (to_jopp_object j c item)) w
  unfolding write
  write-Sends fuel size item answers w e =
      let o = to_jopp_object j c item in
      rw (← z.pending-start o) (write_loop-Sends z fuel size (z.start o) answers w e)

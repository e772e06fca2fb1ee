-- ===== src/JsonLog/Delivery/Partial.antt =====
-- A writer that is broken off, and the reader at the other end.
use mathlib.Core.List.{append_assoc, append-nil}
use the_pipe.Base.{
  ℕ, suc, ◌<◌, ◌≡◌, refl, sym, ap, ◌∙◌, true, false, none, some, Option, List, [], ◌∷◌, ◌++◌, map,
  length, All, arith,
}
use the_pipe.Jopp.{Jopp}
use the_pipe.Log.{Item}
use the_pipe.OsServices.Fd.Activity.{ActivityStatus, can_read}
use the_pipe.JsonLog.Converter.{Seconds}
use the_pipe.JsonLog.Reader.{
  Parser, ReadAnswer, bytes, parse_buffer, after_events, after_buffer, read_loop, handle_event,
}
use the_pipe.JsonLog.Reader.Stream.{concat, IsNonEmpty, handle_event-concat}
use the_pipe.JsonLog.Writer.{Serializer, WriteAnswer, Written, after_data, write}
use the_pipe.JsonLog.Writer.Complete.{Sends, prepend-some, some-eq, write-Sends}
use the_pipe.JsonLog.Writer.Several.{write_all, text_of, texts}
use the_pipe.JsonLog.Delivery.Prefix.{IsPart, Reaches, parse_buffer-front}
use the_pipe.JsonLog.Delivery.{IsReadBack, received}

All-split {ℓ} :
    {A : Type ℓ} (P : A → Type 0) (xs ys : List A) → All P (xs ++ ys) → All P xs × All P ys
All-split P [] ys h = (tt, h)
All-split P (x ∷ xs) ys (hx, h) = (let (a, b) = All-split P xs ys h in ((hx, a), b))

module _ (j : Jopp) (c : Seconds j.Number) (p : Parser j.Value) (z : Serializer j.Object) where
  -- What the writer of several items has reached.
  abbrev Reached : List Item → Written → Type 0
  Reached items w =
      (front : List Item) × (rest : List Item) × (part : List ℕ) × Reaches j c p z items w.sent
        front rest part
      × (w.exception ≡ none → rest ≡ [])

  nothing-IsPart : (items : List Item) → All (IsReadBack j c p z) items → IsPart j c p z items []
  nothing-IsPart [] back = refl
  nothing-IsPart (item ∷ items) ((s, o, e, _, _), back) =
      first (text_of j c z item) (p.parse-progress p.initial s (text_of j c z item) _ e).0
    where
      first : (bs : List ℕ) → 0 < length bs → (b : ℕ) × (r : List ℕ) × (b ∷ r ≡ bs)
      first [] h = absurd (omega arith)
      first (b ∷ r) h = (b, r, refl)

  broken_off-Reached :
      (item : Item) (items : List Item) (v : Written) (r : List ℕ)
      → All (IsReadBack j c p z) items
      → v.sent ++ r ≡ text_of j c z item
      → ¬ (v.exception ≡ none)
      → Reached (item ∷ items) v
  broken_off-Reached item items v [] back cut broken =
      let whole = sym (append-nil v.sent) ∙ cut in
      let sent : v.sent ≡ (text_of j c z item ++ []) ++ [] =
        whole
        ∙ sym (append-nil (text_of j c z item))
        ∙ sym (append-nil (text_of j c z item ++ [])) in
      (item ∷ [], items, [], (refl, sent, nothing-IsPart items back), λ fine. absurd (broken fine))
  broken_off-Reached item items v (b ∷ r) back cut broken =
      ([], item ∷ items, v.sent, (refl, refl, (b, r, cut)), λ fine. absurd (broken fine))

  completed-Reached :
      (item : Item) (items : List Item) (v x w : Written)
      → w ≡ record x { sent = v.sent ++ x.sent }
      → v.sent ≡ text_of j c z item
      → Reached items x
      → Reached (item ∷ items) w
  completed-Reached item items v x w e sent (front, rest, part, (split, bs, partly), all) =
      let t = text_of j c z item in
      let more : v.sent ++ x.sent ≡ (t ++ texts j c z front) ++ part =
        ap (λ ys. ys ++ x.sent) sent
        ∙ ap (λ ys. t ++ ys) bs
        ∙ sym (append_assoc t (texts j c z front) part) in
      (
        item ∷ front,
        rest,
        part,
        (ap (λ is. item ∷ is) split, ap (λ (u : Written). u.sent) e ∙ more, partly),
        λ fine. all (ap (λ (u : Written). u.exception) (sym e) ∙ fine),
      )

  after_data-Reached :
      (item : Item) (items : List Item) (loop : List WriteAnswer → Option Written)
      (o : Option Written) (w : Written)
      → All (IsReadBack j c p z) items
      → ((v : Written) → o ≡ some v → Sends (text_of j c z item) v)
      → ((left : List WriteAnswer) (x : Written) → loop left ≡ some x → Reached items x)
      → after_data false loop o ≡ some w
      → Reached (item ∷ items) w
  after_data-Reached item items loop none w back part more e = cc
  after_data-Reached item items loop (some v) w back part more e = go v.exception refl e
    where
      go :
          (x : Option ℕ)
          → v.exception ≡ x
          → after_data false loop (some v) ≡ some w
          → Reached (item ∷ items) w
      go (some errno) ex e =
          let w≡v : w ≡ v = some-eq v w (rw ex at e) in
          let (u, whole, all) = part v refl in
          rw w≡v (
            broken_off-Reached item items v u back whole
              (λ h. (let clash : some errno ≡ none = sym ex ∙ h in cc)))
      go none ex e =
          let (x, e', e'') = prepend-some v.sent _ w (rw ex at e) in
          let (u, whole, all) = part v refl in
          let sent : v.sent ≡ text_of j c z item =
            sym (append-nil v.sent) ∙ ap (λ bs. v.sent ++ bs) (sym (all ex)) ∙ whole in
          completed-Reached item items v x w e'' sent (more v.answers x e')

  write_all-Reached :
      (fuel buffer_size : ℕ) (items : List Item) (answers : List WriteAnswer) (w : Written)
      → All (IsReadBack j c p z) items
      → write_all j c z fuel buffer_size items answers ≡ some w
      → Reached items w
  unfolding write_all
  write_all-Reached fuel size [] answers w back e =
      rw (some-eq _ w e) ([], [], [], (refl, refl, refl), λ h. refl)
  write_all-Reached fuel size (item ∷ items) answers w (first, back) e =
      after_data-Reached item items (write_all j c z fuel size items)
        (write j c z fuel size item answers) w back
        (λ v. write-Sends j c z fuel size item answers v)
        (λ left x. write_all-Reached fuel size items left x back) e

  -- The parser takes the text of each item as an object with the same fields. Whatever the answers to
  -- the writes are, also where they are cut short, would block, or fail: when the writer ends, a
  -- reader in its initial state that gets the bytes in pieces that are not empty gives its receiver
  -- exactly the first of the items, in order, each with its time rounded as the way through a double
  -- rounds it, and reports no error on the part behind them; it goes on with the answers behind. If
  -- no exception ended the writer, these are all the items.
  pub handle_event-broken_off :
      (fuel buffer_size : ℕ) (items : List Item) (answers : List WriteAnswer) (w : Written)
      (status : ActivityStatus) (chunks : List (List ℕ)) (behind : List ReadAnswer)
      → All (IsReadBack j c p z) items
      → write_all j c z fuel buffer_size items answers ≡ some w
      → can_read status ≡ true
      → All IsNonEmpty chunks
      → concat chunks ≡ w.sent
      → (front : List Item) × (rest : List Item) × (s : p.State) × (items ≡ front ++ rest)
        × (handle_event j c p status (map bytes chunks ++ behind) p.initial
            ≡ after_events j c p (map (received j c p z) front) (read_loop j c p behind s))
        × (w.exception ≡ none → rest ≡ [])
  handle_event-broken_off fuel size items answers w status chunks behind back e readable pieces
        cut =
      let (front, rest, part, (split, bs, partly), all) =
        write_all-Reached fuel size items answers w back e in
      let enough = suc (length (concat chunks)) in
      let whole = cut ∙ bs in
      let (back_front, back_rest) = All-split (IsReadBack j c p z) front rest (rw split at back) in
      let (s, parsed) =
        parse_buffer-front j c p z enough front rest part back_front back_rest partly
          (omega (arith, ap (length {A = ℕ}) whole)) in
      (
        front,
        rest,
        s,
        split,
        handle_event-concat j c p status enough chunks behind p.initial readable pieces
              (omega arith)
            ∙ ap
                (λ (bs : List ℕ).
                  after_buffer j c p (read_loop j c p behind)
                    (parse_buffer j c p enough bs p.initial))
                whole
            ∙ ap (after_buffer j c p (read_loop j c p behind)) parsed,
        all,
      )

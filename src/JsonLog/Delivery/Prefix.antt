-- ===== src/JsonLog/Delivery/Prefix.antt =====
-- The reader of src/json_log on the texts of some items and a part of the next.
use mathlib.Core.List.{append_assoc}
use the_pipe.Base.{
  ℕ, zero, suc, ◌<◌, ◌≡◌, refl, sym, ap, ◌∙◌, some, List, [], ◌∷◌, ◌++◌, map, length, All,
  length-append, arith,
}
use the_pipe.Jopp.{Jopp}
use the_pipe.Log.{Item}
use the_pipe.JsonLog.Converter.{Seconds}
use the_pipe.JsonLog.Reader.{
  ParserErrorCode, completed, more_data_needed, failed, Parser, good, parse_buffer,
}
use the_pipe.JsonLog.Writer.{Serializer}
use the_pipe.JsonLog.Writer.Several.{text_of, texts}
use the_pipe.JsonLog.Delivery.{IsReadBack, received, drop-length-append, on_completed-received}

module _ (j : Jopp) (c : Seconds j.Number) (p : Parser j.Value) (z : Serializer j.Object) where
  -- A part of the text of an item that is not the whole.
  abbrev pub IsPart : List Item → List ℕ → Type 0
  IsPart [] part = part ≡ []
  IsPart (item ∷ items) part = (b : ℕ) × (bs : List ℕ) × (part ++ b ∷ bs ≡ text_of j c z item)

  -- The bytes are the texts of the first items, and a part of the text of the next.
  abbrev pub Reaches : List Item → List ℕ → List Item → List Item → List ℕ → Type 0
  Reaches items bs front rest part =
      (items ≡ front ++ rest) × (bs ≡ texts j c z front ++ part) × IsPart rest part

  parse-part :
      (item : Item) (part rest : List ℕ) (b : ℕ) (r : p.State × ℕ × ParserErrorCode)
      → IsReadBack j c p z item
      → part ++ b ∷ rest ≡ text_of j c z item
      → p.parse p.initial part ≡ r
      → r.2 ≡ more_data_needed
  parse-part item part rest b (s, n, completed) (s', o, e, _, _) cut h =
      let whole =
        sym (p.parse-completed p.initial s part (b ∷ rest) n h) ∙ ap (p.parse p.initial) cut ∙ e in
      let taken = ap (λ (x : p.State × ℕ × ParserErrorCode). x.1) whole in
      let (_, within) = p.parse-progress p.initial s part n h in
      absurd (omega (arith, taken, within, ap (length {A = ℕ}) cut, length-append part (b ∷ rest)))
  parse-part item part rest b (s, n, more_data_needed) back cut h = refl
  parse-part item part rest b (s, n, failed ec) (s', o, e, _, _) cut h =
      let whole =
        sym (p.parse-failed p.initial s part (b ∷ rest) n ec h) ∙ ap (p.parse p.initial) cut ∙ e in
      let clash = ap (λ (x : p.State × ℕ × ParserErrorCode). x.2) whole in cc

  parse-rest :
      (rest : List Item) (part : List ℕ)
      → All (IsReadBack j c p z) rest
      → IsPart rest part
      → (p.parse p.initial part).2 ≡ more_data_needed
  parse-rest [] part back nothing =
      ap (λ (bs : List ℕ). (p.parse p.initial bs).2) nothing
      ∙ ap (λ (x : p.State × ℕ × ParserErrorCode). x.2) (p.parse-nil p.initial)
  parse-rest (item ∷ items) part (back, _) (b, bs, cut) =
      parse-part item part bs b (p.parse p.initial part) back cut refl

  pub parse_buffer-front :
      (g : ℕ) (front rest : List Item) (part : List ℕ)
      → All (IsReadBack j c p z) front
      → All (IsReadBack j c p z) rest
      → IsPart rest part
      → length (texts j c z front ++ part) < g
      → (s : p.State) × (parse_buffer j c p g (texts j c z front ++ part) p.initial
          ≡ some (record { events = map (received j c p z) front; state = s; parser_state = good }))
  unfolding parse_buffer
  parse_buffer-front zero front rest part back next partly enough = absurd (omega arith)
  parse_buffer-front (suc g) [] rest part back next partly enough =
      let (s, n, _) = p.parse p.initial part in
      let code = parse-rest rest part next partly in
      let e : p.parse p.initial part ≡ (s, n, more_data_needed) = λ i. (s, n, code i) in
      (s, rw e refl)
  parse_buffer-front (suc g) (item ∷ items) rest part ((s, o, e, object, same), back) next partly
        enough =
      let t = text_of j c z item in
      let others = texts j c z items in
      let (some_byte, _) = p.parse-progress p.initial s t (length t) e in
      let assoc = append_assoc t others part in
      let (s', ih) =
        parse_buffer-front g items rest part back next partly
          (omega (arith, ap (length {A = ℕ}) assoc, length-append t (others ++ part))) in
      (
        s',
        rw
            (
              assoc,
              p.parse-completed p.initial s t (others ++ part) (length t) e,
              drop-length-append t (others ++ part),
              ih,
              on_completed-received j c p z item s o object same,
            )
            refl,
      )

-- ===== src/JsonLog/Reader/Buffer.antt =====
-- parse_buffer ends, and does not depend on where its input is cut.
use the_pipe.Base.{
  ℕ, zero, suc, ◌+◌, ◌≤◌, ◌<◌, ◌≡◌, refl, sym, ap, ◌∙◌, Option, none, some, List, [], ◌∷◌, ◌++◌,
  length, drop, length-drop, length-append, arith,
}
use the_pipe.Jopp.{Jopp}
use the_pipe.JsonLog.Converter.{Seconds}
use the_pipe.JsonLog.Reader.{
  ParserErrorCode, completed, more_data_needed, failed, Parser, ParserState, good, jammed, Event,
  Parsed, prepend, round, on_completed, parse_buffer,
}

drop-append : (n : ℕ) (bs cs : List ℕ) → n ≤ length bs → drop n (bs ++ cs) ≡ drop n bs ++ cs
drop-append zero bs cs h = refl
drop-append (suc n) [] cs h = absurd (omega arith)
drop-append (suc n) (b ∷ bs) cs h = drop-append n bs cs (omega arith)

drop-add : (n : ℕ) (bs cs : List ℕ) → drop (length bs + n) (bs ++ cs) ≡ drop n cs
drop-add n [] cs = ap (λ (k : ℕ). drop k cs) (omega arith)
drop-add n (b ∷ bs) cs =
    ap (λ (k : ℕ). drop k (b ∷ bs ++ cs))
      (let e : suc (length bs) + n ≡ suc (length bs + n) = omega arith in e)
    ∙ drop-add n bs cs

module _ (j : Jopp) (c : Seconds j.Number) (p : Parser j.Value) where
  prepend-some :
      (e : Event) (o : Option (Parsed j c p)) (r : Parsed j c p)
      → prepend j c p e o ≡ some r
      → (q : Parsed j c p) × (o ≡ some q) × (r ≡ record q { events = e ∷ q.events })
  prepend-some e none r h = cc
  prepend-some e (some q) r h = (q, refl, cc)

  abbrev pub prepend_all : List Event → Option (Parsed j c p) → Option (Parsed j c p)
  prepend_all es none = none
  prepend_all es (some r) = some (record r { events = es ++ r.events })

  abbrev Loop : Type 0
  Loop = List ℕ → p.State → Option (Parsed j c p)

  round_mono :
      (l k : Loop) (bs : List ℕ) (t : p.State × ℕ × ParserErrorCode) (r : Parsed j c p)
      → ((cs : List ℕ) (s : p.State) (q : Parsed j c p) → l cs s ≡ some q → k cs s ≡ some q)
      → round j c p l bs t ≡ some r
      → round j c p k bs t ≡ some r
  round_mono l k bs (s, n, completed) r h e =
      let (q, eq, er) = prepend-some (on_completed j c p s) _ r e in
      rw (h (drop n bs) p.initial q eq) (ap some (sym er))
  round_mono l k bs (s, n, more_data_needed) r h e = e
  round_mono l k bs (s, n, failed ec) r h e = e

  -- More fuel changes nothing.
  pub parse_buffer_mono :
      (f g : ℕ) (bs : List ℕ) (s : p.State) (r : Parsed j c p)
      → f ≤ g
      → parse_buffer j c p f bs s ≡ some r
      → parse_buffer j c p g bs s ≡ some r
  unfolding parse_buffer
  parse_buffer_mono zero g bs s r h e = cc
  parse_buffer_mono (suc f) zero bs s r h e = absurd (omega arith)
  parse_buffer_mono (suc f) (suc g) bs s r h e =
      round_mono (parse_buffer j c p f) (parse_buffer j c p g) bs (p.parse s bs) r
        (λ cs s' q e'. parse_buffer_mono f g cs s' q (omega arith) e') e

  round_total :
      (l : Loop) (bs : List ℕ) (s : p.State) (t : p.State × ℕ × ParserErrorCode)
      → p.parse s bs ≡ t
      → ((cs : List ℕ) → length cs < length bs → (r : Parsed j c p) × (l cs p.initial ≡ some r))
      → (r : Parsed j c p) × (round j c p l bs t ≡ some r)
  round_total l bs s (s', n, completed) e h =
      let m = p.parse-progress s s' bs n e in
      let (q, eq) = h (drop n bs) (omega (arith, length-drop n bs)) in
      (record q { events = on_completed j c p s' ∷ q.events }, rw eq)
  round_total l bs s (s', n, more_data_needed) e h =
      (record { events = []; state = s'; parser_state = good }, refl)
  round_total l bs s (s', n, failed ec) e h = (_, refl)

  -- With more rounds than bytes the loop of parse_buffer returns.
  pub parse_buffer_total :
      (f : ℕ) (bs : List ℕ) (s : p.State)
      → length bs < f
      → (r : Parsed j c p) × (parse_buffer j c p f bs s ≡ some r)
  unfolding parse_buffer
  parse_buffer_total zero bs s h = absurd (omega arith)
  parse_buffer_total (suc f) bs s h =
      round_total (parse_buffer j c p f) bs s (p.parse s bs) refl
        (λ cs k. parse_buffer_total f cs p.initial (omega arith))

  -- So any two amounts that are enough give the same.
  pub parse_buffer_fuel :
      (f g : ℕ) (bs : List ℕ) (s : p.State)
      → length bs < f
      → length bs < g
      → parse_buffer j c p f bs s ≡ parse_buffer j c p g bs s
  parse_buffer_fuel f g bs s h k =
      let (r, e) = parse_buffer_total (suc (length bs)) bs s (omega arith) in
      parse_buffer_mono _ f bs s r h e ∙ sym (parse_buffer_mono _ g bs s r k e)

  -- What follows a first part of the input: nothing after an error, else the second part.
  abbrev pub continue : Parsed j c p → Option (Parsed j c p) → Option (Parsed j c p)
  continue r o = elim r.parser_state [ good ↦ prepend_all r.events o | jammed ↦ some r ]

  prepend-continue :
      (e : Event) (es : List Event) (s : p.State) (st : ParserState) (o : Option (Parsed j c p))
      → prepend j c p e (continue (record { events = es; state = s; parser_state = st }) o)
        ≡ continue (record { events = e ∷ es; state = s; parser_state = st }) o
  prepend-continue e es s good none = refl
  prepend-continue e es s good (some r) = refl
  prepend-continue e es s jammed o = refl

  prepend_all-nil : (o : Option (Parsed j c p)) → prepend_all [] o ≡ o
  prepend_all-nil none = refl
  prepend_all-nil (some r) = refl

  round-shift :
      (k : Loop) (bs cs : List ℕ) (t : p.State × ℕ × ParserErrorCode)
      → round j c p k (bs ++ cs) (t.0, length bs + t.1, t.2) ≡ round j c p k cs t
  round-shift k bs cs (s, n, completed) =
      ap (λ ds. prepend j c p (on_completed j c p s) (k ds p.initial)) (drop-add n bs cs)
  round-shift k bs cs (s, n, more_data_needed) = refl
  round-shift k bs cs (s, n, failed ec) = refl

  some-eq : (q r : Parsed j c p) → some q ≡ some r → r ≡ q
  some-eq q r e = cc

  round-append :
      (l k : Loop) (bs cs : List ℕ) (s : p.State) (t : p.State × ℕ × ParserErrorCode)
      (r : Parsed j c p)
      → p.parse s bs ≡ t
      → round j c p l bs t ≡ some r
      → ((n : ℕ) (q : Parsed j c p)
          → 0 < n
          → n ≤ length bs
          → l (drop n bs) p.initial ≡ some q
          → k (drop n bs ++ cs) p.initial ≡ continue q (round j c p k cs (p.parse q.state cs)))
      → round j c p k (bs ++ cs) (p.parse s (bs ++ cs))
        ≡ continue r (round j c p k cs (p.parse r.state cs))
  round-append l k bs cs s (s', n, completed) r e er h =
      let (some_taken, in_input) = p.parse-progress s s' bs n e in
      let (q, eq, er') = prepend-some (on_completed j c p s') _ r er in
      rw
        (
          p.parse-completed s s' bs cs n e,
          er',
          drop-append n bs cs in_input,
          h n q some_taken in_input eq,
        )
        (prepend-continue (on_completed j c p s') q.events q.state q.parser_state _)
  round-append l k bs cs s (s', n, more_data_needed) r e er h =
      rw (some-eq _ r er, (p.parse-more s s' bs cs n e).1)
        (round-shift k bs cs (p.parse s' cs) ∙ sym (prepend_all-nil _))
  round-append l k bs cs s (s', n, failed ec) r e er h =
      rw (some-eq _ r er, p.parse-failed s s' bs cs n ec e)

  -- If a first part of the input gives a result, the whole input gives what continues it over the
  -- second part.
  pub parse_buffer-append :
      (f g : ℕ) (bs cs : List ℕ) (s : p.State) (r : Parsed j c p)
      → length (bs ++ cs) < g
      → parse_buffer j c p f bs s ≡ some r
      → parse_buffer j c p g (bs ++ cs) s ≡ continue r (parse_buffer j c p g cs r.state)
  unfolding parse_buffer
  parse_buffer-append zero g bs cs s r h e = cc
  parse_buffer-append (suc f) zero bs cs s r h e = absurd (omega arith)
  parse_buffer-append (suc f) (suc g) bs cs s r h e =
      round-append (parse_buffer j c p f) (parse_buffer j c p g) bs cs s (p.parse s bs) r refl e
        λ n q some_taken in_input eq.
          parse_buffer-append f g (drop n bs) cs p.initial q
            (omega (arith, length-append bs cs, length-append (drop n bs) cs, length-drop n bs)) eq
          ∙ ap (continue q) (
              parse_buffer_fuel g (suc g) cs q.state (omega (arith, length-append bs cs))
                (omega (arith, length-append bs cs)))

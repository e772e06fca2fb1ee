-- ===== src/JsonLog/Reader/Toy.antt =====
-- A parser that meets the laws of the interface: `}` completes a value, a zero byte is an error,
-- and any other byte is taken. Every value is the object of one log item.
use the_pipe.Base.{
  ℕ, suc, ◌+◌, ◌≤◌, ◌<◌, ◌≡◌, refl, List, [], ◌∷◌, ◌++◌, length, ◌==◌, if◌then◌else◌, arith,
  Bool-cases, inl, inr, ap, ◌∙◌,
}
use the_pipe.Base.Int.{pos}
use the_pipe.Jopp.Sample.{Value, text, num, obj, end, field}
use the_pipe.JsonLog.Reader.{ParserErrorCode, completed, more_data_needed, failed, Parser}

abbrev pub toy_item : Value
toy_item = obj (
    field "when" (num (pos 3))
      (field "severity" (text "error") (field "message" (text "disk") end)))

abbrev pub one_more : List ℕ × ℕ × ParserErrorCode → List ℕ × ℕ × ParserErrorCode
one_more (s, n, ec) = (s, suc n, ec)

-- The state holds the bytes of the value that is being read.
unfoldable pub toy_parse : List ℕ → List ℕ → List ℕ × ℕ × ParserErrorCode
toy_parse s [] = (s, 0, more_data_needed)
toy_parse s (b ∷ bs) =
    let rest = one_more (toy_parse (b ∷ s) bs) in
    if b == 125 then (s, 1, completed) else (if b == 0 then (s, 1, failed 7) else rest)

abbrev pub Answer : Type 0
Answer = List ℕ × ℕ × ParserErrorCode

-- How many bytes an answer has taken of so many.
abbrev Takes : ℕ → Answer → Type 0
Takes len (s, n, completed) = (0 < n) × (n ≤ len)
Takes len (s, n, more_data_needed) = n ≡ len
Takes len (s, n, failed ec) = Unit {0}

Takes-one_more : (len : ℕ) (t : Answer) → Takes len t → Takes (suc len) (one_more t)
Takes-one_more len (s, n, completed) h = omega arith
Takes-one_more len (s, n, more_data_needed) h = omega arith
Takes-one_more len (s, n, failed ec) h = tt

toy_parse-Takes : (s bs : List ℕ) → Takes (length bs) (toy_parse s bs)
unfolding toy_parse
toy_parse-Takes s [] = refl
toy_parse-Takes s (b ∷ bs) = elim (Bool-cases (b == 125)) [
  | inl stop ↦ rw stop (omega arith)
  | inr on ↦ elim (Bool-cases (b == 0)) [
    | inl bad ↦ rw (on, bad) tt
    | inr fine ↦
        rw (on, fine)
          (Takes-one_more (length bs) (toy_parse (b ∷ s) bs) (toy_parse-Takes (b ∷ s) bs))
  ]
]

-- The answer over a longer input.
abbrev extend : List ℕ → ℕ → Answer → Answer
extend cs len (s, n, completed) = (s, n, completed)
extend cs len (s, n, more_data_needed) =
    ((toy_parse s cs).0, len + (toy_parse s cs).1, (toy_parse s cs).2)
extend cs len (s, n, failed ec) = (s, n, failed ec)

extend-one_more :
    (cs : List ℕ) (len : ℕ) (t : Answer)
    → one_more (extend cs len t) ≡ extend cs (suc len) (one_more t)
extend-one_more cs len (s, n, completed) = refl
extend-one_more cs len (s, n, more_data_needed) =
    let e : suc (len + (toy_parse s cs).1) ≡ suc len + (toy_parse s cs).1 = omega arith in
    λ i. ((toy_parse s cs).0, e i, (toy_parse s cs).2)
extend-one_more cs len (s, n, failed ec) = refl

toy_parse-append :
    (s bs cs : List ℕ) → toy_parse s (bs ++ cs) ≡ extend cs (length bs) (toy_parse s bs)
unfolding toy_parse
toy_parse-append s [] cs =
    let e : (toy_parse s cs).1 ≡ 0 + (toy_parse s cs).1 = omega arith in
    λ i. ((toy_parse s cs).0, e i, (toy_parse s cs).2)
toy_parse-append s (b ∷ bs) cs = elim (Bool-cases (b == 125)) [
  | inl stop ↦ rw stop
  | inr on ↦ elim (Bool-cases (b == 0)) [
    | inl bad ↦ rw (on, bad)
    | inr fine ↦
        rw (on, fine)
          (ap one_more (toy_parse-append (b ∷ s) bs cs) ∙ extend-one_more cs (length bs) _)
  ]
]

pub parse-nil : (s : List ℕ) → toy_parse s [] ≡ (s, 0, more_data_needed)
unfolding toy_parse
parse-nil s = refl

-- Each law is one of the two lemmas at the answer at hand.
module _ (s s' bs : List ℕ) (n : ℕ) where
  pub parse-progress : toy_parse s bs ≡ (s', n, completed) → (0 < n) × (n ≤ length bs)
  parse-progress e = rw e at (toy_parse-Takes s bs)

  pub parse-more :
      (cs : List ℕ)
      → toy_parse s bs ≡ (s', n, more_data_needed)
      → (n ≡ length bs)
        × (toy_parse s (bs ++ cs)
            ≡ ((toy_parse s' cs).0, length bs + (toy_parse s' cs).1, (toy_parse s' cs).2))
  parse-more cs e =
      (rw e at (toy_parse-Takes s bs), toy_parse-append s bs cs ∙ ap (extend cs (length bs)) e)

  pub parse-completed :
      (cs : List ℕ)
      → toy_parse s bs ≡ (s', n, completed)
      → toy_parse s (bs ++ cs) ≡ (s', n, completed)
  parse-completed cs e = toy_parse-append s bs cs ∙ ap (extend cs (length bs)) e

  pub parse-failed :
      (cs : List ℕ) (ec : ℕ)
      → toy_parse s bs ≡ (s', n, failed ec)
      → toy_parse s (bs ++ cs) ≡ (s', n, failed ec)
  parse-failed cs ec e = toy_parse-append s bs cs ∙ ap (extend cs (length bs)) e

abbrev pub toy : Parser Value
toy = record {
  State = List ℕ;
  initial = [];
  parse = toy_parse;
  container = λ s. toy_item;
  current_depth = length;
  parse-nil = parse-nil;
  parse-progress = parse-progress;
  parse-more = λ s s' bs cs n. parse-more s s' bs n cs;
  parse-completed = λ s s' bs cs n. parse-completed s s' bs n cs;
  parse-failed = λ s s' bs cs n. parse-failed s s' bs n cs;
}

-- ===== src/Log/Texts.antt =====
-- Severities as texts.
use the_pipe.Base.{◌≡◌, refl, ◌↔◌, String, sym, arith, eq_iff, str_eq, Bool-cases, inl, inr}
use the_pipe.Base.Results.{ok, err, runtime_error}
use the_pipe.Log.{
  Severity, info, warning, error, to_string, make_severity, make_severity_with_fallback,
}

make_severity-to_string : (s : Severity) → make_severity (to_string s) ≡ ok s
unfolding make_severity to_string
make_severity-to_string info = refl
make_severity-to_string warning = refl
make_severity-to_string error = refl

same_text : (str : String) (t s : Severity) → to_string t ≡ str → ok t ≡ ok s → to_string s ≡ str
same_text str t s h e = let t≡s : t ≡ s = cc in rw (← t≡s) h

to_string_of_make_severity :
    (str : String) (s : Severity) → make_severity str ≡ ok s → to_string s ≡ str
unfolding make_severity to_string
to_string_of_make_severity str s e = elim (Bool-cases (str_eq str "info")) [
  | inl a ↦ same_text str info s (sym ((eq_iff str "info").0 a)) (rw a at e)
  | inr a ↦ elim (Bool-cases (str_eq str "warning")) [
    | inl b ↦ same_text str warning s (sym ((eq_iff str "warning").0 b)) (rw (a, b) at e)
    | inr b ↦ elim (Bool-cases (str_eq str "error")) [
      | inl c ↦ same_text str error s (sym ((eq_iff str "error").0 c)) (rw (a, b, c) at e)
      | inr c ↦
          let refused : err (runtime_error "Unknown severity") ≡ ok s = rw (a, b, c) at e in cc
    ]
  ]
]

-- A text is read as a severity exactly when it is the text of that severity.
pub make_severity_iff :
    (str : String) (s : Severity) → (make_severity str ≡ ok s) ↔ (to_string s ≡ str)
make_severity_iff str s =
    (to_string_of_make_severity str s, λ e. rw (← e) (make_severity-to_string s))

-- Reading with a fallback is reading, with the fallback in place of the exception.
pub make_severity_with_fallback_lem :
    (str : String) (fallback : Severity)
    → make_severity_with_fallback str fallback
      ≡ elim (make_severity str) [ ok s ↦ s | err e ↦ fallback ]
unfolding make_severity make_severity_with_fallback
make_severity_with_fallback_lem str fallback = ground arith

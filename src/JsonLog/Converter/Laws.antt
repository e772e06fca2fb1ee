-- ===== src/JsonLog/Converter/Laws.antt =====
-- What survives the way through a JSON object, and what is reported when it does not.
use the_pipe.Base.{◌≡◌, ◌≢◌, refl, ◌⊎◌, ◌↔◌, inl, inr, none, String, arith, Option-cases}
use the_pipe.Jopp.{Jopp, string_field, number_field}
use the_pipe.Jopp.Fields.{find-three_fields, string_field_of_find, number_field_of_find}
use the_pipe.Log.{Item, Severity, info, warning, error, to_string, make_severity_with_fallback}
use the_pipe.JsonLog.Converter.{value, unexpected, Seconds, to_jopp_object, make_log_item}

abbrev pub about_severity : String
about_severity = "Failed to extract mandatory field `severity` from received log item"

module _ (j : Jopp) (c : Seconds j.Number) where
  fallback-to_string : (s : Severity) → make_severity_with_fallback (to_string s) info ≡ s
  unfolding make_severity_with_fallback to_string
  fallback-to_string info = refl
  fallback-to_string warning = refl
  fallback-to_string error = refl

  -- A log item comes back with its severity and its message, and with its time rounded as the way
  -- through a double rounds it.
  pub make_log_item-to_jopp_object :
      (item : Item)
      → make_log_item j c (to_jopp_object j c item)
        ≡ value (record item { when = c.to_ticks (c.of_ticks item.when) })
  unfolding make_log_item to_jopp_object
  make_log_item-to_jopp_object item =
      let o = to_jopp_object j c item in
      let (when, message, severity) =
        find-three_fields j "when" "message" "severity" (j.of_number (c.of_ticks item.when))
          (j.of_string item.message) (j.of_string (to_string item.severity)) refl refl refl in
      rw (
        number_field_of_find j "when" _ o when,
        string_field_of_find j "severity" _ o severity,
        string_field_of_find j "message" _ o message,
        fallback-to_string item.severity,
      )

  -- An object with a number `when` is reported as one without `severity` exactly when its
  -- `severity` or its `message` is no text: a missing `message` is reported under the wrong name.
  pub make_log_item-about_severity :
      (o : j.Object)
      → number_field j "when" o ≢ none
      → (make_log_item j c o ≡ unexpected about_severity)
        ↔ ((string_field j "severity" o ≡ none) ⊎ (string_field j "message" o ≡ none))
  unfolding make_log_item
  make_log_item-about_severity o h = elim (Option-cases (number_field j "when" o)) [
    | inl e ↦ absurd (h e)
    | inr (w, e) ↦ elim (Option-cases (string_field j "severity" o)) [
      | inl s ↦ (λ _. inl s, λ _. rw (e, s))
      | inr (s, s') ↦ elim (Option-cases (string_field j "message" o)) [
        | inl m ↦ (λ _. inr m, λ _. rw (e, s', m))
        | inr (m, m') ↦ (λ k. not_reported _ _ (rw (e, s', m') at k), λ k. ground (arith, k))
      ]
    ]
  ]
    where
      not_reported :
          (i : Item) (s : String)
          → value i ≡ unexpected s
          → (string_field j "severity" o ≡ none) ⊎ (string_field j "message" o ≡ none)
      not_reported i s k = cc

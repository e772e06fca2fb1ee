-- ===== src/JsonLog/Converter.antt =====
-- src/json_log/item_converter.hpp.
pub mod Laws
use the_pipe.Base.{Option, none, some, String}
use the_pipe.Base.Int.{ℤ}
use the_pipe.Jopp.{Jopp, string_field, number_field}
use the_pipe.Log.{Item, Severity, info, to_string, make_severity_with_fallback}

-- std::expected with a message.
pub data Expected {ℓ} (A : Type ℓ) : Type ℓ where
  value : A → Expected A
  unexpected : String → Expected A

-- The conversions between ticks of the clock and seconds as a double.
pub record Seconds (Number : Type 0) : Type 0 where
  pub of_ticks : ℤ → Number
  pub to_ticks : Number → ℤ

module _ (j : Jopp) (c : Seconds j.Number) where
  unfoldable pub to_jopp_object : Item → j.Object
  to_jopp_object item = j.insert "severity" (j.of_string (to_string item.severity)) (
      j.insert "message" (j.of_string item.message)
        (j.insert "when" (j.of_number (c.of_ticks item.when)) j.empty))

  -- `bind` of an optional field, with the message for a field that is not there.
  abbrev or_else_report {ℓ κ} :
      {A : Type ℓ} {B : Type κ} → Option A → String → (A → Expected B) → Expected B
  or_else_report none message f = unexpected message
  or_else_report (some a) message f = f a

  unfoldable pub make_log_item : j.Object → Expected Item
  make_log_item obj =
      or_else_report (number_field j "when" obj)
        "Failed to extract mandatory field `when` from received log item"
        λ when.
          or_else_report (string_field j "severity" obj)
            "Failed to extract mandatory field `severity` from received log item"
            λ severity.
              or_else_report (string_field j "message" obj)
                "Failed to extract mandatory field `severity` from received log item"
                λ message. value (record {
                  when = c.to_ticks when;
                  severity = make_severity_with_fallback severity info;
                  message = message;
                })

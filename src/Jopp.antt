-- ===== src/Jopp.antt =====
-- The JSON library that the program calls, as an interface: its values, its objects and what the
-- program relies on. `get_if`, `try_get_field_as` and `get_field_as` give `none` here where the
-- library gives a null pointer or throws.
pub mod Maps
pub mod Fields
pub mod Sample
use the_pipe.Base.{◌≡◌, ◌≢◌, Option, none, some, List, String, if◌then◌else◌, str_eq}
use the_pipe.Base.Dict.{Dict, lookup, IsDistinct}
use the_pipe.Base.Results.{Result, or_throw, json_error}
use mathlib.Core.Option

pub record Jopp : Type 1 where
  pub Value : Type 0
  pub Object : Type 0
  pub Number : Type 0
  pub of_string : String → Value
  pub of_number : Number → Value
  pub of_object : Object → Value
  pub of_array : List Value → Value
  pub as_string : Value → Option String
  pub as_number : Value → Option Number
  pub as_object : Value → Option Object
  pub as_array : Value → Option (List Value)
  pub empty : Object
  pub insert : String → Value → Object → Object
  pub find : String → Object → Option Value
  -- The entries in the order of an iteration.
  pub items : Object → Dict Value
  pub as_string-of_string : (s : String) → as_string (of_string s) ≡ some s
  pub as_number-of_number : (n : Number) → as_number (of_number n) ≡ some n
  pub as_object-of_object : (o : Object) → as_object (of_object o) ≡ some o
  pub as_array-of_array : (a : List Value) → as_array (of_array a) ≡ some a
  pub find-empty : (k : String) → find k empty ≡ none
  -- An entry under a new key.
  pub find-insert :
      (j k : String) (v : Value) (o : Object)
      → find j o ≡ none
      → find k (insert j v o) ≡ (if str_eq j k then some v else find k o)
  pub lookup-items : (k : String) (o : Object) → lookup k (items o) ≡ find k o
  pub items-IsDistinct : (o : Object) → IsDistinct (items o)

module _ (j : Jopp) where
  open j use {Value, Object, Number, find, as_string, as_number, as_object, as_array}

  -- `try_get_field_as` and `get_field_as`: the field, if there is one of this type.
  abbrev pub string_field : String → Object → Option String
  string_field k o = elim (find k o) [ none ↦ none | some v ↦ as_string v ]

  abbrev pub number_field : String → Object → Option Number
  number_field k o = elim (find k o) [ none ↦ none | some v ↦ as_number v ]

  abbrev pub object_field : String → Object → Option Object
  object_field k o = elim (find k o) [ none ↦ none | some v ↦ as_object v ]

  -- The variants that throw.
  abbrev pub get_string : String → Object → Result String
  get_string k o = or_throw (string_field k o) json_error

  abbrev pub get_number : String → Object → Result Number
  get_number k o = or_throw (number_field k o) json_error

  abbrev pub get_object : String → Object → Result Object
  get_object k o = or_throw (object_field k o) json_error

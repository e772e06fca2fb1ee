-- ===== src/Jopp/Fields.antt =====
-- Reading back fields that were inserted.
use text.Mathlib.TextPositions.{eq_refl}
use the_pipe.Base.{◌≡◌, refl, ◌∙◌, false, none, some, String, str_eq, eq_iff, arith}
use the_pipe.Base.Results.{ok, err, json_error}
use the_pipe.Jopp.{
  Jopp, string_field, number_field, object_field, get_string, get_number, get_object,
}

module _ (j : Jopp) where
  pub find-insert_self :
      (k : String) (v : j.Value) (o : j.Object)
      → j.find k o ≡ none
      → j.find k (j.insert k v o) ≡ some v
  find-insert_self k v o h = j.find-insert k k v o h ∙ rw (eq_refl k) refl

  pub find-insert_ne :
      (i k : String) (v : j.Value) (o : j.Object)
      → j.find i o ≡ none
      → str_eq i k ≡ false
      → j.find k (j.insert i v o) ≡ j.find k o
  find-insert_ne i k v o h e = j.find-insert i k v o h ∙ rw e refl

  pub string_field_of_find :
      (k s : String) (o : j.Object)
      → j.find k o ≡ some (j.of_string s)
      → string_field j k o ≡ some s
  string_field_of_find k s o e = ground (arith, e, j.as_string-of_string s)

  pub number_field_of_find :
      (k : String) (n : j.Number) (o : j.Object)
      → j.find k o ≡ some (j.of_number n)
      → number_field j k o ≡ some n
  number_field_of_find k n o e = ground (arith, e, j.as_number-of_number n)

  pub object_field_of_find :
      (k : String) (p o : j.Object)
      → j.find k o ≡ some (j.of_object p)
      → object_field j k o ≡ some p
  object_field_of_find k p o e = ground (arith, e, j.as_object-of_object p)

  pub get_string_of_find :
      (k s : String) (o : j.Object) → j.find k o ≡ some (j.of_string s) → get_string j k o ≡ ok s
  get_string_of_find k s o e = ground (arith, e, j.as_string-of_string s)

  pub get_number_of_find :
      (k : String) (n : j.Number) (o : j.Object)
      → j.find k o ≡ some (j.of_number n)
      → get_number j k o ≡ ok n
  get_number_of_find k n o e = ground (arith, e, j.as_number-of_number n)

  pub get_object_of_find :
      (k : String) (p o : j.Object) → j.find k o ≡ some (j.of_object p) → get_object j k o ≡ ok p
  get_object_of_find k p o e = ground (arith, e, j.as_object-of_object p)

  -- A missing field throws.
  pub get_object-missing :
      (k : String) (o : j.Object) → j.find k o ≡ none → get_object j k o ≡ err json_error
  get_object-missing k o e = ground (arith, e)

  str_eq_comm : (a b : String) → str_eq a b ≡ false → str_eq b a ≡ false
  str_eq_comm a b e = ground (arith, eq_iff a b, eq_iff b a)

  -- An object built by two insertions.
  abbrev pub two_fields : String → j.Value → String → j.Value → j.Object
  two_fields a v b w = j.insert b w (j.insert a v j.empty)

  find-one_field_other :
      (a k : String) (v : j.Value) → str_eq a k ≡ false → j.find k (j.insert a v j.empty) ≡ none
  find-one_field_other a k v e = find-insert_ne a k v j.empty (j.find-empty a) e ∙ j.find-empty k

  pub find-two_fields :
      (a b : String) (v w : j.Value)
      → str_eq a b ≡ false
      → (j.find a (two_fields a v b w) ≡ some v) × (j.find b (two_fields a v b w) ≡ some w)
  find-two_fields a b v w e = (
    find-insert_ne b a w _ (find-one_field_other a b v e) (str_eq_comm a b e)
        ∙ find-insert_self a v j.empty (j.find-empty a),
    find-insert_self b w _ (find-one_field_other a b v e),
  )

  find-two_fields_other :
      (a b k : String) (v w : j.Value)
      → str_eq a b ≡ false
      → str_eq a k ≡ false
      → str_eq b k ≡ false
      → j.find k (two_fields a v b w) ≡ none
  find-two_fields_other a b k v w e f g =
      find-insert_ne b k w _ (find-one_field_other a b v e) g ∙ find-one_field_other a k v f

  -- An object built by three insertions.
  abbrev pub three_fields : String → j.Value → String → j.Value → String → j.Value → j.Object
  three_fields a v b w c x = j.insert c x (two_fields a v b w)

  pub find-three_fields :
      (a b c : String) (v w x : j.Value)
      → str_eq a b ≡ false
      → str_eq a c ≡ false
      → str_eq b c ≡ false
      → let o = three_fields a v b w c x in
        (j.find a o ≡ some v) × (j.find b o ≡ some w) × (j.find c o ≡ some x)
  find-three_fields a b c v w x e f g =
      let fresh = find-two_fields_other a b c v w e f g in
      let (at_a, at_b) = find-two_fields a b v w e in
      (
        find-insert_ne c a x _ fresh (str_eq_comm a c f) ∙ at_a,
        find-insert_ne c b x _ fresh (str_eq_comm b c g) ∙ at_b,
        find-insert_self c x _ fresh,
      )

  pub find-three_fields_other :
      (a b c k : String) (v w x : j.Value)
      → str_eq a b ≡ false
      → str_eq a c ≡ false
      → str_eq b c ≡ false
      → str_eq a k ≡ false
      → str_eq b k ≡ false
      → str_eq c k ≡ false
      → j.find k (three_fields a v b w c x) ≡ none
  find-three_fields_other a b c k v w x e f g p q r =
      find-insert_ne c k x _ (find-two_fields_other a b c v w e f g) r
      ∙ find-two_fields_other a b k v w e p q

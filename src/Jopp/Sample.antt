-- ===== src/Jopp/Sample.antt =====
-- Concrete JSON values, which show that the laws of the interface can hold. Numbers are integers.
use the_pipe.Base.{
  ◌≡◌, refl, ap, Option, none, some, List, [], ◌∷◌, String, str_eq, if◌then◌else◌, arith,
}
use the_pipe.Base.Int.{ℤ}
use the_pipe.Base.Dict.{Dict, lookup, IsDistinct}
use the_pipe.Jopp.{Jopp}

mutual
  pub data Value : Type 0 where
    null : Value
    text : String → Value
    num : ℤ → Value
    obj : Fields → Value
    arr : Items → Value

  pub data Fields : Type 0 where
    end : Fields
    field : String → Value → Fields → Fields

  pub data Items : Type 0 where
    nil : Items
    cons : Value → Items → Items

abbrev pub to_list : Items → List Value
to_list nil = []
to_list (cons v vs) = v ∷ to_list vs

abbrev pub of_list : List Value → Items
of_list [] = nil
of_list (v ∷ vs) = cons v (of_list vs)

pub to_list-of_list : (vs : List Value) → to_list (of_list vs) ≡ vs
to_list-of_list [] = refl
to_list-of_list (v ∷ vs) = ap (◌∷◌ v) (to_list-of_list vs)

abbrev pub add_entry : String → Value → Option Value → Dict Value → Dict Value
add_entry k v none d = (k, v) ∷ d
add_entry k v (some _) d = d

-- A key that stands twice counts at its last place.
unfoldable pub items : Fields → Dict Value
unfolding lookup
items end = []
items (field k v fs) = add_entry k v (lookup k (items fs)) (items fs)

pub items-IsDistinct : (fs : Fields) → IsDistinct (items fs)
unfolding items
items-IsDistinct end = tt
items-IsDistinct (field k v fs) = ground (arith, items-IsDistinct fs)

pub find-insert :
    (j k : String) (v : Value) (fs : Fields)
    → lookup j (items fs) ≡ none
    → lookup k (items (field j v fs)) ≡ (if str_eq j k then some v else lookup k (items fs))
unfolding items lookup
find-insert j k v fs h = rw h

abbrev pub as_string : Value → Option String
as_string (text s) = some s
as_string _ = none

abbrev pub as_number : Value → Option ℤ
as_number (num n) = some n
as_number _ = none

abbrev pub as_object : Value → Option Fields
as_object (obj o) = some o
as_object _ = none

abbrev pub as_array : Value → Option (List Value)
as_array (arr vs) = some (to_list vs)
as_array _ = none

pub find-end : (k : String) → lookup k (items end) ≡ none
unfolding items lookup
find-end k = refl

abbrev pub sample : Jopp
sample = record {
  Value = Value;
  Object = Fields;
  Number = ℤ;
  of_string = text;
  of_number = num;
  of_object = obj;
  of_array = λ vs. arr (of_list vs);
  as_string = as_string;
  as_number = as_number;
  as_object = as_object;
  as_array = as_array;
  empty = end;
  insert = field;
  find = λ k o. lookup k (items o);
  items = items;
  as_string-of_string = λ s. refl;
  as_number-of_number = λ n. refl;
  as_object-of_object = λ o. refl;
  as_array-of_array = λ a. ap some (to_list-of_list a);
  find-empty = find-end;
  find-insert = find-insert;
  lookup-items = λ k o. refl;
  items-IsDistinct = items-IsDistinct;
}

-- ===== src/Jopp/Maps.antt =====
-- Maps to objects and back, for any kind of element that has a conversion to a value and back.
use the_pipe.Base.{
  ◌≡◌, refl, sym, ap, ◌∙◌, Option, none, some, [], ◌∷◌, String, str_eq, eq_iff, arith, Bool-cases,
  inl, inr, subst,
}
use the_pipe.Base.Dict.{Dict, lookup, insert, IsDistinct, lookup-insert}
use the_pipe.Base.Results.{Result, ok, ◌>>=◌}
use the_pipe.Jopp.{Jopp}
use text.Mathlib.TextPositions.{eq_refl}

module _ (j : Jopp) {A : Type 0} where
  -- The loop over a map that inserts each entry into the object.
  unfoldable pub insert_all : (A → j.Value) → Dict A → j.Object → j.Object
  insert_all to_value [] ret = ret
  insert_all to_value ((k, a) ∷ d) ret = insert_all to_value d (j.insert k (to_value a) ret)

  -- The loop over an object that inserts each entry into the map.
  unfoldable pub read_all : (j.Value → Result A) → Dict j.Value → Dict A → Result (Dict A)
  read_all of_value [] ret = ok ret
  read_all of_value ((k, v) ∷ d) ret = of_value v >>= λ a. read_all of_value d (insert k a ret)

  abbrev convert : (A → j.Value) → Option A → Option j.Value
  convert to_value none = none
  convert to_value (some a) = some (to_value a)

  abbrev IsFresh : Dict A → j.Object → Type 0
  IsFresh d o = (k : String) (a : A) → lookup k d ≡ some a → j.find k o ≡ none

  IsFresh-head :
      (i : String) (a : A) (d : Dict A) (o : j.Object) → IsFresh ((i, a) ∷ d) o → j.find i o ≡ none
  unfolding lookup
  IsFresh-head i a d o f = f i a (rw (eq_refl i))

  IsFresh-insert :
      (to_value : A → j.Value) (i : String) (a : A) (d : Dict A) (o : j.Object)
      → IsDistinct ((i, a) ∷ d)
      → IsFresh ((i, a) ∷ d) o
      → IsFresh d (j.insert i (to_value a) o)
  unfolding lookup
  IsFresh-insert to_value i a d o h f k b e = elim (Bool-cases (str_eq i k)) [
    | inl same ↦ ground (arith, h.0, (eq_iff i k).0 same)
    | inr other ↦
        rw (j.find-insert i k (to_value a) o (IsFresh-head i a d o f), other) (f k b (rw other e))
  ]

  find-insert_all :
      (to_value : A → j.Value) (d : Dict A) (o : j.Object) (k : String)
      → IsDistinct d
      → IsFresh d o
      → j.find k (insert_all to_value d o)
        ≡ elim (lookup k d) [ none ↦ j.find k o | some a ↦ some (to_value a) ]
  unfolding insert_all lookup
  find-insert_all to_value [] o k h f = refl
  find-insert_all to_value ((i, a) ∷ d) o k h f =
      rw
        (find-insert_all to_value d (j.insert i (to_value a) o) k h.1
          (IsFresh-insert to_value i a d o h f))
        (ground (arith, j.find-insert i k (to_value a) o (IsFresh-head i a d o f), h.0, eq_iff i k))

  -- The object built from a map has the converted entries of the map, and no others.
  pub find-insert_all_empty :
      (to_value : A → j.Value) (d : Dict A) (k : String)
      → IsDistinct d
      → j.find k (insert_all to_value d j.empty) ≡ convert to_value (lookup k d)
  find-insert_all_empty to_value d k h =
      rw (find-insert_all to_value d j.empty k h (λ i a e. j.find-empty i))
        (ground (arith, j.find-empty k))

  -- Every value of the list comes from an element.
  abbrev Comes : (A → j.Value) → Dict j.Value → Type 0
  Comes to_value [] = Unit {0}
  Comes to_value ((k, v) ∷ d) = ((a : A) × (v ≡ to_value a)) × Comes to_value d

  module _ (to_value : A → j.Value) (of_value : j.Value → Result A)
      (back : (a : A) → of_value (to_value a) ≡ ok a) where
    read_all-Comes :
        (vs : Dict j.Value) (acc : Dict A)
        → Comes to_value vs
        → IsDistinct vs
        → (r : Dict A) × (read_all of_value vs acc ≡ ok r)
          × ((k : String)
              → convert to_value (lookup k r)
                ≡ elim (lookup k acc) [ none ↦ lookup k vs | some a ↦ some (to_value a) ])
    unfolding read_all lookup
    read_all-Comes [] acc c h = (acc, refl, λ k. ground arith)
    read_all-Comes ((i, v) ∷ vs) acc ((a, e), c) h =
        let (r, e', look) = read_all-Comes vs (insert i a acc) c h.1 in
        (
          r,
          rw (e, back a) e',
          λ k. look k ∙ ground (arith, e, lookup-insert i k a acc, h.0, eq_iff i k),
        )

    abbrev IsImage : Option j.Value → Type 0
    IsImage none = Unit {0}
    IsImage (some v) = (a : A) × (v ≡ to_value a)

    Comes-items :
        (vs : Dict j.Value)
        → IsDistinct vs
        → ((k : String) → IsImage (lookup k vs))
        → Comes to_value vs
    unfolding lookup
    Comes-items [] h f = tt
    Comes-items ((i, v) ∷ vs) h f = (rw (eq_refl i) at (f i), Comes-items vs h.1 rest)
      where
        rest : (k : String) → IsImage (lookup k vs)
        rest k = elim (Bool-cases (str_eq i k)) [
          | inl same ↦ rw (← (eq_iff i k).0 same, h.0) tt
          | inr other ↦ rw other at (f k)
        ]

    IsImage-convert : (o : Option A) → IsImage (convert to_value o)
    IsImage-convert none = tt
    IsImage-convert (some a) = (a, refl)

    ok-injective : (a b : A) → ok a ≡ ok b → a ≡ b
    ok-injective a b e = cc

    convert-injective : (o p : Option A) → convert to_value o ≡ convert to_value p → o ≡ p
    convert-injective none none e = refl
    convert-injective none (some a) e = cc
    convert-injective (some a) none e = cc
    convert-injective (some a) (some b) e = ap some (
        ok-injective a b
          (sym (back a) ∙ ap of_value (let v : to_value a ≡ to_value b = cc in v) ∙ back b))

    -- Reading the object of a map gives the entries of the map.
    pub read_all-insert_all :
        (d : Dict A)
        → IsDistinct d
        → (r : Dict A) × (read_all of_value (j.items (insert_all to_value d j.empty)) [] ≡ ok r)
          × ((k : String) → lookup k r ≡ lookup k d)
    unfolding lookup
    read_all-insert_all d h =
        let o = insert_all to_value d j.empty in
        let found = λ (k : String). j.lookup-items k o ∙ find-insert_all_empty to_value d k h in
        let (r, e, look) =
          read_all-Comes (j.items o) []
            (Comes-items (j.items o) (j.items-IsDistinct o)
              (λ k. subst IsImage (sym (found k)) (IsImage-convert (lookup k d))))
            (j.items-IsDistinct o) in
        (r, e, λ k. convert-injective (lookup k r) (lookup k d) (look k ∙ found k))

-- ===== src/Utils/FlatSet.antt =====
-- flat_set of src/utils/utils.hpp over an unsigned type: a vector that is sorted and freed of
-- duplicates when it is built.
use the_pipe.Base.{
  ℕ, ◌≤◌, ◌<◌, ◌≡◌, refl, ◌∙◌, ◌||◌, List, [], ◌∷◌, map, arith, leb, ◌==◌, mem, if◌then◌else◌,
}

-- `std::ranges::sort`, as an insertion sort.
insert_sorted : ℕ → List ℕ → List ℕ
insert_sorted x [] = x ∷ []
insert_sorted x (y ∷ ys) = if leb x y then x ∷ y ∷ ys else y ∷ insert_sorted x ys

pub sort : List ℕ → List ℕ
unfolding insert_sorted
sort [] = []
sort (x ∷ xs) = insert_sorted x (sort xs)

-- `std::ranges::unique` and the `erase` behind it: of equal neighbours the first stays. `prev` is
-- the element that was kept last.
unique_after : ℕ → List ℕ → List ℕ
unique_after prev [] = []
unique_after prev (x ∷ xs) =
    let rest = unique_after prev xs in
    let fresh = x ∷ unique_after x xs in if prev == x then rest else fresh

pub unique : List ℕ → List ℕ
unfolding unique_after
unique [] = []
unique (x ∷ xs) = x ∷ unique_after x xs

pub sort_and_remove_duplicates : List ℕ → List ℕ
unfolding sort unique
sort_and_remove_duplicates values = unique (sort values)

-- The constructor from a range.
unfoldable pub flat_set : List ℕ → List ℕ
unfolding sort_and_remove_duplicates
flat_set values = sort_and_remove_duplicates values

-- The constructor that converts each element first.
unfoldable pub flat_set_of {ℓ} : {A : Type ℓ} → (A → ℕ) → List A → List ℕ
unfolding sort_and_remove_duplicates
flat_set_of conv values = sort_and_remove_duplicates (map conv values)

-- Every element is above the bound.
abbrev pub IsAbove : ℕ → List ℕ → Type 0
IsAbove n [] = Unit {0}
IsAbove n (x ∷ xs) = (n < x) × IsAbove x xs

abbrev pub IsStrictlyIncreasing : List ℕ → Type 0
IsStrictlyIncreasing [] = Unit {0}
IsStrictlyIncreasing (x ∷ xs) = IsAbove x xs

-- Weakly increasing, from a bound on.
abbrev IsFrom : ℕ → List ℕ → Type 0
IsFrom n [] = Unit {0}
IsFrom n (x ∷ xs) = (n ≤ x) × IsFrom x xs

insert_sorted-IsFrom : (n x : ℕ) (xs : List ℕ) → n ≤ x → IsFrom n xs → IsFrom n (insert_sorted x xs)
unfolding insert_sorted
insert_sorted-IsFrom n x [] h s = (h, tt)
insert_sorted-IsFrom n x (y ∷ ys) h s = ground (arith, insert_sorted-IsFrom y x ys)

sort-IsFrom : (xs : List ℕ) → IsFrom 0 (sort xs)
unfolding sort
sort-IsFrom [] = tt
sort-IsFrom (x ∷ xs) = insert_sorted-IsFrom 0 x (sort xs) (omega arith) (sort-IsFrom xs)

unique_after-IsAbove : (p : ℕ) (xs : List ℕ) → IsFrom p xs → IsAbove p (unique_after p xs)
unfolding unique_after
unique_after-IsAbove p [] s = tt
unique_after-IsAbove p (x ∷ xs) s =
    ground (arith, unique_after-IsAbove p xs, unique_after-IsAbove x xs)

unique-IsStrictlyIncreasing : (xs : List ℕ) → IsFrom 0 xs → IsStrictlyIncreasing (unique xs)
unfolding unique
unique-IsStrictlyIncreasing [] s = tt
unique-IsStrictlyIncreasing (x ∷ xs) s = unique_after-IsAbove x xs s.1

mem-insert_sorted : (a x : ℕ) (xs : List ℕ) → mem a (insert_sorted x xs) ≡ (a == x || mem a xs)
unfolding insert_sorted
mem-insert_sorted a x [] = refl
mem-insert_sorted a x (y ∷ ys) = ground (arith, mem-insert_sorted a x ys)

mem-sort : (a : ℕ) (xs : List ℕ) → mem a (sort xs) ≡ mem a xs
unfolding sort
mem-sort a [] = refl
mem-sort a (x ∷ xs) = ground (arith, mem-insert_sorted a x (sort xs), mem-sort a xs)

mem-unique_after :
    (a p : ℕ) (xs : List ℕ) → (a == p || mem a (unique_after p xs)) ≡ (a == p || mem a xs)
unfolding unique_after
mem-unique_after a p [] = refl
mem-unique_after a p (x ∷ xs) = ground (arith, mem-unique_after a p xs, mem-unique_after a x xs)

mem-unique : (a : ℕ) (xs : List ℕ) → mem a (unique xs) ≡ mem a xs
unfolding unique
mem-unique a [] = refl
mem-unique a (x ∷ xs) = mem-unique_after a x xs

-- A flat set built from any values is strictly increasing, and holds exactly the values given.
pub flat_set_lem :
    (values : List ℕ)
    → IsStrictlyIncreasing (flat_set values) × ((a : ℕ) → mem a (flat_set values) ≡ mem a values)
unfolding flat_set
flat_set_lem values = (
  unique-IsStrictlyIncreasing (sort values) (sort-IsFrom values),
  λ a. mem-unique a (sort values) ∙ mem-sort a values,
)

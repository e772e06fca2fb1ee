-- ===== src/Utils/Segments/Trim.antt =====
-- What `trim` keeps of a strictly increasing list.
use the_pipe.Base.{
  ℕ, zero, suc, ◌+◌, ◌-◌, ◌≤◌, ◌≡◌, refl, Bool, true, false, ◌&&◌, ◌||◌, List, [], ◌∷◌, arith, leb,
  ltb, ◌==◌, length, take, drop, mem, Bool-cases, inl, inr, ap, ==_iff, if◌then◌else◌,
}
use the_pipe.Utils.FlatSet.{IsAbove, IsStrictlyIncreasing}
use the_pipe.Utils.Segments.{InclusiveIntegralRange, find_if, trim}

-- Strictly increasing, from `low` to `high`.
abbrev pub Within : ℕ → ℕ → List ℕ → Type 0
Within low high [] = Unit {0}
Within low high (x ∷ xs) = (low ≤ x) × (x ≤ high) × Within (suc x) high xs

mem_above : (a n : ℕ) (xs : List ℕ) → IsAbove n xs → a ≤ n → mem a xs ≡ false
mem_above a n [] s h = refl
mem_above a n (x ∷ xs) s h = ground (arith, mem_above a x xs s.1)

-- The elements from `stop_at` on are cut off.
take-find_if-Within :
    (low stop n : ℕ) (xs : List ℕ)
    → low ≤ suc n
    → IsAbove n xs
    → Within low stop (take (find_if (λ val. ltb stop val) xs) xs)
unfolding find_if
take-find_if-Within low stop n [] h s = tt
take-find_if-Within low stop n (x ∷ xs) h s = ground (arith, take-find_if-Within (suc x) stop x xs)

mem-take-find_if :
    (a stop n : ℕ) (xs : List ℕ)
    → IsAbove n xs
    → mem a (take (find_if (λ val. ltb stop val) xs) xs) ≡ (leb a stop && mem a xs)
unfolding find_if
mem-take-find_if a stop n [] s = ground arith
mem-take-find_if a stop n (x ∷ xs) s =
    ground (arith, mem-take-find_if a stop x xs, mem_above a x xs)

-- The list without what lies below `start_at`, cut at `stop_at`.
trimmed : ℕ → ℕ → List ℕ → List ℕ
trimmed start stop xs =
    let ys = drop (find_if (λ val. leb start val) xs) xs in
    take (find_if (λ val. ltb stop val) ys) ys

increasing_of_above : (n : ℕ) (xs : List ℕ) → IsAbove n xs → IsStrictlyIncreasing xs
increasing_of_above n [] s = tt
increasing_of_above n (x ∷ xs) s = s.1

mem-trimmed :
    (a start stop : ℕ) (xs : List ℕ)
    → IsStrictlyIncreasing xs
    → mem a (trimmed start stop xs) ≡ (leb start a && leb a stop && mem a xs)
unfolding trimmed find_if
mem-trimmed a start stop [] s = ground arith
mem-trimmed a start stop (x ∷ xs) s = elim (Bool-cases (leb start x)) [
  | inl from ↦ ground (arith, mem-take-find_if a stop x xs, mem_above a x xs)
  | inr before ↦ ground (arith, mem-trimmed a start stop xs (increasing_of_above x xs s))
]

trimmed-Within :
    (start stop : ℕ) (xs : List ℕ)
    → IsStrictlyIncreasing xs
    → Within start stop (trimmed start stop xs)
unfolding trimmed find_if
trimmed-Within start stop [] s = tt
trimmed-Within start stop (x ∷ xs) s = elim (Bool-cases (leb start x)) [
  | inl from ↦ ground (arith, take-find_if-Within (suc x) stop x xs)
  | inr before ↦ ground (arith, trimmed-Within start stop xs (increasing_of_above x xs s))
]

drop_all :
    (xs : List ℕ) (test : ℕ → Bool) → find_if test xs ≡ length xs → drop (find_if test xs) xs ≡ []
unfolding find_if
drop_all [] test e = refl
drop_all (x ∷ xs) test e = ground (arith, drop_all xs test)

take_nil : (n : ℕ) → take {A = ℕ} n [] ≡ []
take_nil zero = refl
take_nil (suc n) = refl

cut :
    (s c n : ℕ) (ys : List ℕ)
    → (s ≡ n → ys ≡ [])
    → (if s == n || s + c == 0 then [] else take (s + c - s) ys) ≡ take c ys
cut s c n ys none_left = elim (Bool-cases (s == n)) [
  | inl e ↦ rw (e, none_left ((==_iff s n).0 e), take_nil c)
  | inr e ↦ elim (Bool-cases (s + c == 0)) [
    | inl z ↦ rw (e, z) (ground (arith, ap (λ (k : ℕ). take k ys) (c_zero z)))
    | inr z ↦ rw (e, z) (ap (λ (k : ℕ). take k ys) (omega arith))
  ]
]
  where
    c_zero : (s + c == 0) ≡ true → c ≡ 0
    c_zero z = ground arith

-- The early return changes nothing: what it cuts off is empty.
trim-eq-trimmed :
    (b : InclusiveIntegralRange) (xs : List ℕ) → trim b xs ≡ trimmed b.start_at b.stop_at xs
unfolding trim trimmed
trim-eq-trimmed b xs =
    cut (find_if (λ val. leb b.start_at val) xs) _ (length xs) _
      (drop_all xs (λ val. leb b.start_at val))

-- Trimming a flat set keeps it strictly increasing and within the boundaries.
pub trim-Within :
    (b : InclusiveIntegralRange) (xs : List ℕ)
    → IsStrictlyIncreasing xs
    → Within b.start_at b.stop_at (trim b xs)
trim-Within b xs s = rw (trim-eq-trimmed b xs) (trimmed-Within b.start_at b.stop_at xs s)

-- What trimming keeps is what lies within the boundaries.
pub mem-trim :
    (a : ℕ) (b : InclusiveIntegralRange) (xs : List ℕ)
    → IsStrictlyIncreasing xs
    → mem a (trim b xs) ≡ (leb b.start_at a && leb a b.stop_at && mem a xs)
mem-trim a b xs s = rw (trim-eq-trimmed b xs) (mem-trimmed a b.start_at b.stop_at xs s)

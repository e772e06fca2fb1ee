-- ===== src/Utils/Segments.antt =====
-- inclusive_integral_range, trim and for_each_disjoint_segment of src/utils/utils.hpp. The values
-- are unsigned integers below the modulus `m`, so `++` and `--` wrap at `m`. The calls of `func`
-- are the list that for_each_disjoint_segment returns.
pub mod Trim
pub mod Cover
pub mod Order
use the_pipe.Base.{
  ℕ, zero, suc, ◌+◌, ◌-◌, ◌%◌, Bool, ◌&&◌, ◌||◌, not, List, [], ◌∷◌, ◌++◌, leb, ltb, ◌==◌, length,
  take, drop, if◌then◌else◌,
}

pub record InclusiveIntegralRange : Type 0 where
  pub start_at : ℕ
  pub stop_at : ℕ

-- `std::find_if` as a position; the list's length when nothing is found.
find_if : (ℕ → Bool) → List ℕ → ℕ
find_if test [] = 0
find_if test (x ∷ xs) = if test x then 0 else suc (find_if test xs)

pub trim : InclusiveIntegralRange → List ℕ → List ℕ
unfolding find_if
trim boundaries vals =
    let start_at = find_if (λ val. leb boundaries.start_at val) vals in
    let stop_at = start_at + find_if (λ val. ltb boundaries.stop_at val) (drop start_at vals) in
    if start_at == length vals || stop_at == 0
    then []
    else take (stop_at - start_at) (drop start_at vals)

-- `back` of the list with this head and tail.
back : ℕ → List ℕ → ℕ
back x [] = x
back x (y ∷ ys) = back y ys

-- The `while` loop: the value of `index_start` behind it, and the calls that it made.
gaps : ℕ → ℕ → List ℕ → ℕ × List InclusiveIntegralRange
gaps m index_start [] = (index_start, [])
gaps m index_start (index_stop ∷ i) =
    let (last, calls) = gaps m ((index_stop + 1) % m) i in
    (
      last,
      if not (index_start == index_stop)
          then record { start_at = index_start; stop_at = (index_stop + m - 1) % m } ∷ calls
          else calls,
    )

-- The block behind the loop.
last_segment : ℕ → ℕ → ℕ → List InclusiveIntegralRange
last_segment index_start index_stop split_back =
    if not (index_start == index_stop) && not (index_stop == split_back)
    then record { start_at = index_start; stop_at = index_stop } ∷ []
    else []

-- The loop and the block behind it.
segments_from : ℕ → ℕ → ℕ → ℕ → List ℕ → List InclusiveIntegralRange
unfolding gaps last_segment
segments_from m index_start index_stop split_back i =
    let (last, calls) = gaps m index_start i in calls ++ last_segment last index_stop split_back

-- The body from the test for no split points on.
disjoint_segments : ℕ → InclusiveIntegralRange → List ℕ → List InclusiveIntegralRange
unfolding segments_from back
disjoint_segments m boundaries [] = boundaries ∷ []
disjoint_segments m boundaries (first ∷ rest) =
    if first == boundaries.start_at
    then segments_from m ((boundaries.start_at + 1) % m) boundaries.stop_at (back first rest) rest
    else segments_from m boundaries.start_at boundaries.stop_at (back first rest) (first ∷ rest)

unfoldable pub for_each_disjoint_segment :
    ℕ → InclusiveIntegralRange → List ℕ → List InclusiveIntegralRange
unfolding disjoint_segments trim
for_each_disjoint_segment m boundaries split_points =
    disjoint_segments m boundaries (trim boundaries split_points)

-- ===== src/Utils/Segments/Order.antt =====
-- The order of the segments.
use the_pipe.Base.{
  ℕ, suc, ◌+◌, ◌-◌, ◌%◌, ◌≤◌, ◌<◌, ◌≡◌, refl, List, [], ◌∷◌, arith, ◌==◌, ==_iff, Bool-cases, inl,
  inr,
}
use the_pipe.Utils.FlatSet.{IsStrictlyIncreasing}
use the_pipe.Utils.Segments.{
  InclusiveIntegralRange, trim, back, gaps, last_segment, segments_from, disjoint_segments,
  for_each_disjoint_segment,
}
use the_pipe.Utils.Segments.Trim.{Within, trim-Within}
use the_pipe.Utils.Segments.Cover.{pred_mod, succ_mod}

-- Non-empty segments between `low` and `high`, in increasing order, with a value left out between
-- each two.
abbrev pub IsSeparated : ℕ → ℕ → List InclusiveIntegralRange → Type 0
IsSeparated low high [] = Unit {0}
IsSeparated low high (r ∷ rs) =
    (low ≤ r.start_at)
    × (r.start_at ≤ r.stop_at)
    × (r.stop_at ≤ high)
    × IsSeparated (r.stop_at + 2) high rs

IsSeparated-mono :
    (k l high : ℕ) (rs : List InclusiveIntegralRange)
    → k ≤ l
    → IsSeparated l high rs
    → IsSeparated k high rs
IsSeparated-mono k l high [] h s = tt
IsSeparated-mono k l high (r ∷ rs) h s = ground arith

module _ (m stop : ℕ) (bound : stop < m) where
  segments_from-IsSeparated :
      (start x : ℕ) (xs : List ℕ)
      → Within start stop (x ∷ xs)
      → IsSeparated start stop (segments_from m start stop (back x xs) (x ∷ xs))
  unfolding segments_from gaps last_segment back
  segments_from-IsSeparated start x [] w = ground (arith, succ_mod m x, pred_mod m x)
  segments_from-IsSeparated start x (y ∷ ys) w =
      let rest = segments_from-IsSeparated (suc x) y ys w.2 in
      rw (succ_mod m x (omega arith)) (elim (Bool-cases (start == x)) [
        | inl e ↦ rw e (IsSeparated-mono start (suc x) stop _ (omega arith) rest)
        | inr e ↦
            rw (e, pred_mod m x (ground arith) (omega arith))
              (
                omega arith,
                ground arith,
                omega arith,
                IsSeparated-mono (x - 1 + 2) (suc x) stop _ (ground arith) rest,
              )
      ])

  first_split-IsSeparated :
      (s : ℕ) (xs : List ℕ)
      → s ≤ stop
      → Within (suc s) stop xs
      → IsSeparated s stop (segments_from m ((s + 1) % m) stop (back s xs) xs)
  unfolding segments_from gaps last_segment back
  first_split-IsSeparated s [] h w = ground (arith, succ_mod m s)
  first_split-IsSeparated s (x ∷ xs) h w =
      rw (succ_mod m s (omega arith))
        (IsSeparated-mono s (suc s) stop _ (omega arith) (segments_from-IsSeparated (suc s) x xs w))

  disjoint_segments-IsSeparated :
      (b : InclusiveIntegralRange) (xs : List ℕ)
      → b.stop_at ≡ stop
      → b.start_at ≤ stop
      → Within b.start_at stop xs
      → IsSeparated b.start_at stop (disjoint_segments m b xs)
  unfolding disjoint_segments
  disjoint_segments-IsSeparated b [] e h w = ground arith
  disjoint_segments-IsSeparated b (x ∷ xs) e h w = elim (Bool-cases (x == b.start_at)) [
    | inl first ↦
        rw (first, e, ← (==_iff x b.start_at).0 first)
          (first_split-IsSeparated x xs (omega arith) w.2)
    | inr later ↦ rw (later, e) (segments_from-IsSeparated b.start_at x xs w)
  ]

-- For boundaries below the modulus and strictly increasing split points, the segments come in
-- increasing order, are not empty, stay within the boundaries, and each two have a value between
-- them that is in neither.
pub for_each_disjoint_segment-IsSeparated :
    (m : ℕ) (b : InclusiveIntegralRange) (split_points : List ℕ)
    → b.start_at ≤ b.stop_at
    → b.stop_at < m
    → IsStrictlyIncreasing split_points
    → IsSeparated b.start_at b.stop_at (for_each_disjoint_segment m b split_points)
unfolding for_each_disjoint_segment
for_each_disjoint_segment-IsSeparated m b split_points h k s =
    disjoint_segments-IsSeparated m b.stop_at k b (trim b split_points) refl h
      (trim-Within b split_points s)

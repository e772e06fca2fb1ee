-- ===== src/Utils/Segments/Cover.antt =====
-- Which values the segments cover.
use native.Mathlib.Nat.{mod-eq_of_lt}
use the_pipe.Base.{
  ℕ, suc, ◌+◌, ◌-◌, ◌%◌, ◌≤◌, ◌<◌, ◌≡◌, refl, Bool, false, not, ◌&&◌, ◌||◌, List, [], ◌∷◌, ◌++◌,
  arith, leb, ltb, ◌==◌, mem, ==_iff, Bool-cases, inl, inr, if◌then◌else◌,
}
use the_pipe.Utils.FlatSet.{IsStrictlyIncreasing}
use the_pipe.Utils.Segments.{
  InclusiveIntegralRange, trim, back, gaps, last_segment, segments_from, disjoint_segments,
  for_each_disjoint_segment,
}
use the_pipe.Utils.Segments.Trim.{Within, trim-Within, mem-trim}

abbrev pub contains : InclusiveIntegralRange → ℕ → Bool
contains r a = leb r.start_at a && leb a r.stop_at

-- Some segment holds the value.
abbrev pub covers : List InclusiveIntegralRange → ℕ → Bool
covers [] a = false
covers (r ∷ rs) a = contains r a || covers rs a

covers-append :
    (a : ℕ) (rs ss : List InclusiveIntegralRange)
    → covers (rs ++ ss) a ≡ (covers rs a || covers ss a)
covers-append a [] ss = refl
covers-append a (r ∷ rs) ss = ground (arith, covers-append a rs ss)

-- The number just below `stop` is in the list.
abbrev precedes : ℕ → List ℕ → Bool
precedes stop [] = false
precedes stop (x ∷ xs) = x + 1 == stop || precedes stop xs

mem_below : (a low high : ℕ) (xs : List ℕ) → Within low high xs → a < low → mem a xs ≡ false
mem_below a low high [] w h = refl
mem_below a low high (x ∷ xs) w h = ground (arith, mem_below a (suc x) high xs)

precedes_below :
    (a low high : ℕ) (xs : List ℕ) → Within low high xs → a ≤ low → precedes a xs ≡ false
precedes_below a low high [] w h = refl
precedes_below a low high (x ∷ xs) w h = ground (arith, precedes_below a (suc x) high xs)

pub pred_mod : (m x : ℕ) → 0 < x → x < m → (x + m - 1) % m ≡ x - 1
pred_mod m x h k = grind arith

pub succ_mod : (m x : ℕ) → x + 1 < m → (x + 1) % m ≡ suc x
succ_mod m x h = omega (arith, mod-eq_of_lt h)

-- One gap: from `index_start` up to a split point, which may be `index_start` itself.
gap_covers :
    (m start x a : ℕ) (calls rest : List InclusiveIntegralRange)
    → start ≤ x
    → x < m
    → covers
        ((if not (start == x)
            then record { start_at = start; stop_at = (x + m - 1) % m } ∷ calls
            else calls)
          ++ rest)
        a
      ≡ (leb start a && ltb a x || covers (calls ++ rest) a)
gap_covers m start x a calls rest h k = elim (Bool-cases (start == x)) [
  | inl e ↦ rw e (ground arith)
  | inr e ↦ rw e (ground (arith, pred_mod m x))
]

module _ (m stop a : ℕ) (bound : stop < m) where
  segments_from-covers :
      (start x : ℕ) (xs : List ℕ)
      → Within start stop (x ∷ xs)
      → covers (segments_from m start stop (back x xs) (x ∷ xs)) a ≡ (
          leb start a
          && leb a stop
          && not (mem a (x ∷ xs))
          && not (a == stop && precedes stop (x ∷ xs)))
  unfolding segments_from gaps last_segment back
  segments_from-covers start x [] w =
      rw (gap_covers m start x a [] (last_segment ((x + 1) % m) stop x) w.0 (omega arith))
        (ground (arith, succ_mod m x))
  segments_from-covers start x (y ∷ ys) w =
      rw
        (
          gap_covers m start x a (gaps m ((x + 1) % m) (y ∷ ys)).1
              (last_segment (gaps m ((x + 1) % m) (y ∷ ys)).0 stop (back y ys)) w.0 (omega arith),
          succ_mod m x (omega arith),
          segments_from-covers (suc x) y ys w.2,
        )
        (ground (arith, mem_below a (suc x) stop (y ∷ ys), precedes_below stop y stop (y ∷ ys)))

  -- The first split point is the start of the range.
  first_split-covers :
      (s : ℕ) (xs : List ℕ)
      → s ≤ stop
      → Within (suc s) stop xs
      → covers (segments_from m ((s + 1) % m) stop (back s xs) xs) a ≡ (
          leb s a
          && leb a stop
          && not (mem a (s ∷ xs))
          && not (a == stop && precedes stop (s ∷ xs)))
  unfolding segments_from gaps last_segment back
  first_split-covers s [] h w = ground (arith, succ_mod m s)
  first_split-covers s (x ∷ xs) h w =
      rw (succ_mod m s (omega arith), segments_from-covers (suc s) x xs w)
        (ground
          (arith, mem_below a (suc s) stop (x ∷ xs) w, precedes_below stop (suc s) stop (x ∷ xs) w))

  disjoint_segments-covers :
      (b : InclusiveIntegralRange) (xs : List ℕ)
      → b.stop_at ≡ stop
      → b.start_at ≤ stop
      → Within b.start_at stop xs
      → covers (disjoint_segments m b xs) a
        ≡ (contains b a && not (mem a xs) && not (a == stop && precedes stop xs))
  unfolding disjoint_segments
  disjoint_segments-covers b [] e h w = ground arith
  disjoint_segments-covers b (x ∷ xs) e h w = elim (Bool-cases (x == b.start_at)) [
    | inl first ↦
        rw (first, e, ← (==_iff x b.start_at).0 first) (first_split-covers x xs (omega arith) w.2)
    | inr later ↦ rw (later, e) (segments_from-covers b.start_at x xs w)
  ]

precedes-mem : (stop : ℕ) (xs : List ℕ) → precedes stop xs ≡ (ltb 0 stop && mem (stop - 1) xs)
precedes-mem stop [] = ground arith
precedes-mem stop (x ∷ xs) = ground (arith, precedes-mem stop xs)

-- For boundaries below the modulus and strictly increasing split points, a value is in one of the
-- segments exactly when it lies within the boundaries, is no split point, and is not the end of
-- a longer range whose second last value is a split point: that end is skipped.
pub for_each_disjoint_segment-covers :
    (m : ℕ) (b : InclusiveIntegralRange) (split_points : List ℕ) (a : ℕ)
    → b.start_at ≤ b.stop_at
    → b.stop_at < m
    → IsStrictlyIncreasing split_points
    → covers (for_each_disjoint_segment m b split_points) a ≡ (
        contains b a
        && not (mem a split_points)
        && not (a == b.stop_at && ltb b.start_at b.stop_at && mem (b.stop_at - 1) split_points))
unfolding for_each_disjoint_segment
for_each_disjoint_segment-covers m b split_points a h k s =
    rw
      (
        disjoint_segments-covers m b.stop_at a k b (trim b split_points) refl h
            (trim-Within b split_points s),
        precedes-mem b.stop_at (trim b split_points),
        mem-trim a b split_points s,
        mem-trim (b.stop_at - 1) b split_points s,
      )
      (ground arith)

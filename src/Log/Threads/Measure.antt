-- ===== src/Log/Threads/Measure.antt =====
-- How many steps the threads of src/log have left.
use the_pipe.Base.{
  update, ℕ, zero, suc, ◌+◌, ◌*◌, ◌≤◌, ◌<◌, ◌≡◌, refl, ap, ◌∙◌, true, false, ◌==◌, ==_iff, length,
  arith, Bool-cases, inl, inr,
}
use the_pipe.Log.Threads.{Pc, idle, holding, timed, releasing, Thread, System, Step}

-- The values of a function at the first `n` numbers, added up.
pub sum_below : (ℕ → ℕ) → ℕ → ℕ
sum_below g zero = 0
sum_below g (suc n) = g n + sum_below g n

self : (i : ℕ) → (i == i) ≡ true
self i = (==_iff i i).1 refl

module _ (g h : ℕ → ℕ) (i : ℕ) (elsewhere : (j : ℕ) → (i == j) ≡ false → h j ≡ g j) where
  sum_below-same : (n : ℕ) → n ≤ i → sum_below h n ≡ sum_below g n
  unfolding sum_below
  sum_below-same zero small = refl
  sum_below-same (suc n) small =
      omega (arith, elsewhere n (ground arith), sum_below-same n (omega arith))

  sum_below-at : (n : ℕ) → i < n → sum_below h n + g i ≡ sum_below g n + h i
  unfolding sum_below
  sum_below-at zero small = absurd (omega arith)
  sum_below-at (suc n) small = elim (Bool-cases (i == n)) [
    | inl last ↦
        let here = (==_iff i n).0 last in
        omega (arith, ap g here, ap h here, sum_below-same n (omega arith))
    | inr earlier ↦
        omega (arith, elsewhere n earlier, sum_below-at n (ground (arith, earlier, small)))
  ]

place : Pc → ℕ
place idle = 3
place holding = 2
place (timed when) = 1
place releasing = 0

module _ {W : Type 0} where
  weight : Thread W → ℕ
  weight t = 4 * length t.program + place t.pc

  -- The steps that the first `n` threads have left.
  pub left_of : (ℕ → Thread W) → ℕ → ℕ
  left_of threads n = sum_below (λ j. weight (threads j)) n

  left_of-update :
      (threads : ℕ → Thread W) (i n : ℕ) (t : Thread W)
      → i < n
      → left_of (update threads i t) n + weight (threads i) ≡ left_of threads n + weight t
  unfolding left_of
  left_of-update threads i n t small =
      sum_below-at (λ j. weight (threads j)) (λ j. weight (update threads i t j)) i
        (λ j apart. rw apart refl) n small
      ∙ ap (λ (u : Thread W). left_of threads n + weight u) (rw (self i) refl)

  pub Step-fewer :
      (n i : ℕ) (s t : System W) → i < n → Step W s i t → left_of t.threads n < left_of s.threads n
  unfolding weight place
  Step-fewer n i s _ lt (Step.lock op rest p q l) =
      omega (arith, left_of-update s.threads i n _ lt, ap place p)
  Step-fewer n i s _ lt (Step.exchange_enter cfg rest p q) =
      omega (arith, left_of-update s.threads i n _ lt, ap place p)
  Step-fewer n i s _ lt (Step.exchange_leave c outer rest p q e) =
      omega (arith, left_of-update s.threads i n _ lt, ap place p)
  Step-fewer n i s _ lt (Step.now severity message rest p q) =
      omega (arith, left_of-update s.threads i n _ lt, ap place p)
  Step-fewer n i s _ lt (Step.write severity message rest when p q) =
      omega (arith, left_of-update s.threads i n _ lt, ap place p)
  Step-fewer n i s _ lt (Step.unlock op rest p q) =
      omega (arith, left_of-update s.threads i n _ lt, ap place p, ap length q)

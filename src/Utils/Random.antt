-- ===== src/Utils/Random.antt =====
-- random_bytes and random_printable_ascii_string of src/utils/utils.cpp. What
-- std::uniform_int_distribution draws from the device is an interface.
use the_pipe.Base.{
  ℕ, zero, suc, ◌+◌, ◌≤◌, ◌<◌, ◌≡◌, List, [], ◌∷◌, ◌++◌, length, All, length-append, arith,
}

-- A distribution with its bounds, over the state of the device.
pub record UniformIntDistribution (low high : ℕ) (Device : Type 0) : Type 0 where
  pub draw : Device → ℕ × Device
  pub draw-bounds : (rng : Device) → (low ≤ (draw rng).0) × ((draw rng).0 ≤ high)

module _ {low high : ℕ} {Device : Type 0} (source : UniformIntDistribution low high Device) where
  -- The loop, with the rounds that are left: `push_back` of what is drawn.
  unfoldable pub push_back_drawn : ℕ → List ℕ → Device → List ℕ × Device
  push_back_drawn zero ret rng = (ret, rng)
  push_back_drawn (suc k) ret rng =
      let (value, rng') = source.draw rng in push_back_drawn k (ret ++ value ∷ []) rng'

  abbrev pub InBounds : ℕ → Type 0
  InBounds value = (low ≤ value) × (value ≤ high)

  All-append : (xs : List ℕ) (y : ℕ) → All InBounds xs → InBounds y → All InBounds (xs ++ y ∷ [])
  All-append [] y h k = (k, tt)
  All-append (x ∷ xs) y (hx, h) k = (hx, All-append xs y h k)

  pub push_back_drawn-InBounds :
      (n : ℕ) (ret : List ℕ) (rng : Device)
      → All InBounds ret
      → (length (push_back_drawn n ret rng).0 ≡ length ret + n)
        × All InBounds (push_back_drawn n ret rng).0
  unfolding push_back_drawn
  push_back_drawn-InBounds zero ret rng h = (omega arith, h)
  push_back_drawn-InBounds (suc n) ret rng h =
      let value = (source.draw rng).0 in
      let (size, bounds) =
        push_back_drawn-InBounds n (ret ++ value ∷ []) (source.draw rng).1
          (All-append ret value h (source.draw-bounds rng)) in
      (omega (arith, size, length-append ret (value ∷ [])), bounds)

module _ {Device : Type 0} where
  unfoldable pub random_bytes : UniformIntDistribution 0 255 Device → ℕ → Device → List ℕ
  unfolding push_back_drawn
  random_bytes byte_source n rng = (push_back_drawn byte_source n [] rng).0

  unfoldable pub random_printable_ascii_string :
      UniformIntDistribution 33 126 Device → ℕ → Device → List ℕ
  unfolding push_back_drawn
  random_printable_ascii_string char_source n rng = (push_back_drawn char_source n [] rng).0

  -- A random string has the length that was asked for, and each character is one of the printable
  -- ones behind the space: it lies from 33 to 126, so that there are 94 of them.
  pub random_printable_ascii_string_lem :
      (char_source : UniformIntDistribution 33 126 Device) (n : ℕ) (rng : Device)
      → (length (random_printable_ascii_string char_source n rng) ≡ n)
        × All
            (λ char. (33 ≤ char) × (char < 33 + 94))
            (random_printable_ascii_string char_source n rng)
  unfolding random_printable_ascii_string
  random_printable_ascii_string_lem char_source n rng =
      let (size, bounds) = push_back_drawn-InBounds char_source n [] rng tt in
      (omega (arith, size), below (push_back_drawn char_source n [] rng).0 bounds)
    where
      below :
          (cs : List ℕ)
          → All (λ char. (33 ≤ char) × (char ≤ 126)) cs
          → All (λ char. (33 ≤ char) × (char < 33 + 94)) cs
      below [] h = tt
      below (c ∷ cs) (h, hs) = (omega (arith, h), below cs hs)

-- ===== src/OsServices/Fd/Opened/Counts.antt =====
-- How often a descriptor is in the list of those that are open, and what closing does to it.
use the_pipe.Base.{
  ℕ, ◌+◌, ◌≤◌, ◌≡◌, refl, Option, none, some, List, [], ◌∷◌, ◌++◌, ◌==◌, if◌then◌else◌, arith,
}
use the_pipe.OsServices.Fd.Opened.{close_descriptor}

-- 1 for the descriptor itself.
abbrev pub one : ℕ → ℕ → ℕ
one fd g = if fd == g then 1 else 0

-- 1 for the descriptor that an owner has.
abbrev pub owned : Option ℕ → ℕ → ℕ
owned none g = 0
owned (some fd) g = one fd g

unfoldable pub count : ℕ → List ℕ → ℕ
count g [] = 0
count g (fd ∷ fds) = one fd g + count g fds

pub count-cons : (g fd : ℕ) (fds : List ℕ) → count g (fd ∷ fds) ≡ one fd g + count g fds
unfolding count
count-cons g fd fds = refl

pub count-append : (g : ℕ) (xs ys : List ℕ) → count g (xs ++ ys) ≡ count g xs + count g ys
unfolding count
count-append g [] ys = omega arith
count-append g (x ∷ xs) ys = omega (arith, count-append g xs ys)

pub count-close_descriptor :
    (fd g : ℕ) (opened : List ℕ)
    → 1 ≤ count fd opened
    → count g (close_descriptor fd opened) + one fd g ≡ count g opened
unfolding count close_descriptor
count-close_descriptor fd g [] h = absurd (omega arith)
count-close_descriptor fd g (x ∷ opened) h = ground (arith, count-close_descriptor fd g opened)

pub one_self : (fd : ℕ) → one fd fd ≡ 1
one_self fd = ground arith

-- The destructor of an owner that is null or has a descriptor.
unfoldable pub close_owned : Option ℕ → List ℕ → List ℕ
close_owned none opened = opened
close_owned (some fd) opened = close_descriptor fd opened

pub count-close_owned :
    (o : Option ℕ) (opened : List ℕ) (rest : ℕ → ℕ)
    → ((h : ℕ) → count h opened ≡ owned o h + rest h)
    → (g : ℕ) → count g (close_owned o opened) ≡ rest g
unfolding close_owned
count-close_owned none opened rest h g = omega (arith, h g)
count-close_owned (some fd) opened rest h g =
    omega (arith, h g, h fd, one_self fd, count-close_descriptor fd g opened)

-- The destructors of several owners.
unfoldable pub close_all : List ℕ → List ℕ → List ℕ
close_all [] opened = opened
close_all (fd ∷ fds) opened = close_all fds (close_descriptor fd opened)

pub count-close_all :
    (fds opened : List ℕ) (rest : ℕ → ℕ)
    → ((h : ℕ) → count h opened ≡ count h fds + rest h)
    → (g : ℕ) → count g (close_all fds opened) ≡ rest g
unfolding close_all count
count-close_all [] opened rest h g = omega (arith, h g)
count-close_all (fd ∷ fds) opened rest h g =
    count-close_all fds (close_descriptor fd opened) rest
      (λ k. omega (
        arith,
        h k,
        h fd,
        one_self fd,
        count-cons k fd fds,
        count-cons fd fd fds,
        count-close_descriptor fd k opened,
      ))
      g

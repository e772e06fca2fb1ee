-- ===== src/OsServices/ProcMgmt/Parent/Counts.antt =====
-- spawn leaves every descriptor alone that was open before.
use the_pipe.Base.{ℕ, ◌+◌, ◌≡◌, refl, List, [], ◌∷◌, ◌==◌, arith, Bool-cases, inl, inr}
use the_pipe.Base.Int.{to_unsigned, is_minus_one}
use the_pipe.Base.Results.{Result, ok, err}
use the_pipe.OsServices.Fd.Opened.{close_descriptor}
use the_pipe.OsServices.Fd.Opened.Counts.{one, one_self, count, count-cons, count-close_descriptor}
use the_pipe.OsServices.Io.{IoResult, io_result, bytes_transferred}
use the_pipe.OsServices.ProcMgmt.Parent.{
  ParentAnswers, delete_pidfd, after_read, after_fork, after_pipe, spawn,
}

-- `before` tells how often a descriptor was open: what spawn returns is open in addition, or, if it
-- throws, some descriptors of its own.
abbrev pub Spawned : (ℕ → ℕ) → Result (ℕ × ℕ) × List ℕ → Type 0
Spawned before (ok (pid, pidfd), opened) = (g : ℕ) → count g opened ≡ one pidfd g + before g
Spawned before (err e, opened) =
    (extra : List ℕ) × ((g : ℕ) → count g opened ≡ count g extra + before g)

-- One descriptor is closed.
less :
    (fd : ℕ) (opened : List ℕ) (rest : ℕ → ℕ)
    → ((g : ℕ) → count g opened ≡ one fd g + rest g)
    → (g : ℕ) → count g (close_descriptor fd opened) ≡ rest g
less fd opened rest h g = omega (arith, h g, h fd, one_self fd, count-close_descriptor fd g opened)

after_read-Spawned :
    (a : ParentAnswers) (event pidfd : ℕ) (opened : List ℕ) (r : Result IoResult) (before : ℕ → ℕ)
    → ((g : ℕ) → count g opened ≡ one pidfd g + (one event g + (one a.read_end g + before g)))
    → Spawned before (after_read a event pidfd opened r)
unfolding after_read delete_pidfd count
after_read-Spawned a event pidfd opened (err e) before h =
    elim (Bool-cases (is_minus_one a.send_signal.result)) [
      | inl failed ↦ rw failed (
        pidfd ∷ a.read_end ∷ [],
        λ g. omega (
          arith,
          less event opened (λ k. one pidfd k + (one a.read_end k + before k))
              (λ k. omega (arith, h k)) g,
        ),
      )
      | inr sent ↦
          let gone = less pidfd opened (λ k. one event k + (one a.read_end k + before k)) h in
          rw sent (
            a.read_end ∷ [],
            λ g. omega (
              arith,
              less event (close_descriptor pidfd opened) (λ k. one a.read_end k + before k) gone g,
            ),
          )
    ]
after_read-Spawned a event pidfd opened (ok r) before h =
    let unread =
      less a.read_end opened (λ k. one pidfd k + (one event k + before k))
        (λ k. omega (arith, h k)) in
    elim (Bool-cases (bytes_transferred r == 0)) [
      | inl silent ↦ rw silent (
          less event (close_descriptor a.read_end opened) (λ k. one pidfd k + before k)
            (λ k. omega (arith, unread k)))
      | inr told ↦ elim (Bool-cases (is_minus_one a.send_signal.result)) [
        | inl failed ↦
            rw (told, failed)
              (
                pidfd ∷ [],
                λ g. omega (
                  arith,
                  less event (close_descriptor a.read_end opened) (λ k. one pidfd k + before k)
                      (λ k. omega (arith, unread k)) g,
                ),
              )
        | inr sent ↦
            let gone =
              less pidfd (close_descriptor a.read_end opened) (λ k. one event k + before k)
                unread in
            rw (told, sent)
              (
                [],
                λ g. omega (
                  arith,
                  less event (close_descriptor pidfd (close_descriptor a.read_end opened)) before
                      gone g,
                ),
              )
      ]
    ]

after_fork-Spawned :
    (a : ParentAnswers) (event : ℕ) (opened : List ℕ) (before : ℕ → ℕ)
    → ((g : ℕ) → count g opened ≡ one event g + (one a.read_end g + (one a.write_end g + before g)))
    → Spawned before (after_fork a event opened)
unfolding after_fork count
after_fork-Spawned a event opened before h =
    let left = close_descriptor a.write_end opened in
    let pidfd = to_unsigned a.pidfd_open.result in
    let unwritten =
      less a.write_end opened (λ k. one event k + (one a.read_end k + before k))
        (λ k. omega (arith, h k)) in
    let gone = less event left (λ k. one a.read_end k + before k) unwritten in
    elim (Bool-cases (is_minus_one a.fork.result)) [
      | inl failed ↦ rw failed (a.read_end ∷ [], λ g. omega (arith, gone g))
      | inr forked ↦ elim (Bool-cases (is_minus_one a.pidfd_open.result)) [
        | inl failed ↦ rw (forked, failed) (a.read_end ∷ [], λ g. omega (arith, gone g))
        | inr has ↦
            rw (forked, has)
              (after_read-Spawned a event pidfd (pidfd ∷ left)
                (io_result a.read.result a.read.errno) before
                (λ g. omega (arith, unwritten g, count-cons g pidfd left)))
      ]
    ]

after_pipe-Spawned :
    (a : ParentAnswers) (opened : List ℕ) (before : ℕ → ℕ)
    → ((g : ℕ) → count g opened ≡ one a.read_end g + (one a.write_end g + before g))
    → Spawned before (after_pipe a opened)
unfolding after_pipe count
after_pipe-Spawned a opened before h =
    let event = to_unsigned a.eventfd.result in
    let unread = less a.read_end opened (λ k. one a.write_end k + before k) h in
    elim (Bool-cases (is_minus_one a.fcntl.result)) [
      | inl failed ↦ rw failed (
        [],
        λ g. omega (arith, less a.write_end (close_descriptor a.read_end opened) before unread g),
      )
      | inr set ↦ elim (Bool-cases (is_minus_one a.eventfd.result)) [
        | inl failed ↦
            rw (set, failed)
              (
                a.read_end ∷ [],
                λ g. omega (
                  arith,
                  less a.write_end opened (λ k. one a.read_end k + before k)
                      (λ k. omega (arith, h k)) g,
                ),
              )
        | inr made ↦
            rw (set, made)
              (after_fork-Spawned a event (event ∷ opened) before
                (λ g. omega (arith, h g, count-cons g event opened)))
      ]
    ]

-- Whatever the kernel answers: the descriptors that were open before spawn are open behind it, each
-- as often, with the pidfd if it returns one.
pub spawn-Spawned :
    (a : ParentAnswers) (opened : List ℕ) → Spawned (λ g. count g opened) (spawn a opened)
unfolding spawn count
spawn-Spawned a opened = elim (Bool-cases (is_minus_one a.pipe.result)) [
  | inl failed ↦ rw failed ([], λ g. omega arith)
  | inr made ↦
      rw made
        (after_pipe-Spawned a (a.read_end ∷ a.write_end ∷ opened) (λ g. count g opened) (λ g. refl))
]

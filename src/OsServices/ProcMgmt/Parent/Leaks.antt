-- ===== src/OsServices/ProcMgmt/Parent/Leaks.antt =====
-- What spawn leaves open.
use the_pipe.Base.{
  ℕ, ◌≡◌, ◌⊎◌, refl, true, false, List, ◌∷◌, ◌==◌, if◌then◌else◌, arith, Bool-cases, inl, inr,
}
use the_pipe.Base.Int.{pos, to_unsigned, is_minus_one}
use the_pipe.Base.Results.{Error, system_error, ok, err}
use the_pipe.OsServices.Fd.Opened.{close_descriptor}
use the_pipe.OsServices.Io.{io_result, bytes_transferred}
use the_pipe.OsServices.ProcMgmt.Parent.{
  ParentAnswers, delete_pidfd, launch_error, after_read, after_fork, after_pipe, spawn,
}

-- The kernel gives new descriptors.
pub record AreDistinct (a : ParentAnswers) : Type 0 where
  pub ends : (a.read_end == a.write_end) ≡ false
  pub event_write : (to_unsigned a.eventfd.result == a.write_end) ≡ false
  pub event_read : (to_unsigned a.eventfd.result == a.read_end) ≡ false
  pub process_event : (to_unsigned a.pidfd_open.result == to_unsigned a.eventfd.result) ≡ false
  pub process_read : (to_unsigned a.pidfd_open.result == a.read_end) ≡ false

same : (n : ℕ) → (n == n) ≡ true
same n = ground arith

module _ (a : ParentAnswers) (opened : List ℕ) (d : AreDistinct a) where
  -- The descriptors that the kernel gives are distinct. When the pipe is made and its read end is
  -- released, but eventfd, fork or pidfd_open fails, the error is thrown and the read end stays open
  -- without an owner.
  pub spawn-leaves_read_end :
      is_minus_one a.pipe.result ≡ false
      → is_minus_one a.fcntl.result ≡ false
      → (is_minus_one a.eventfd.result ≡ true)
        ⊎ ((is_minus_one a.eventfd.result ≡ false)
            × ((is_minus_one a.fork.result ≡ true)
                ⊎ ((is_minus_one a.fork.result ≡ false)
                    × (is_minus_one a.pidfd_open.result ≡ true))))
      → (e : Error) × (spawn a opened ≡ (err e, a.read_end ∷ opened))
  unfolding spawn after_pipe after_fork close_descriptor
  spawn-leaves_read_end p f (inl e) = (
    system_error "Failed to create eventfd" a.eventfd.errno,
    rw (p, f, e, d.ends, same a.write_end) refl,
  )
  spawn-leaves_read_end p f (inr (e, inl g)) = (
    system_error "Fork failed: " a.fork.errno,
    rw (p, f, e, g, d.ends, d.event_write, same a.write_end, same (to_unsigned a.eventfd.result))
        refl,
  )
  spawn-leaves_read_end p f (inr (e, inr (g, h))) = (
    system_error "Failed to create pidfd" a.pidfd_open.errno,
    rw (p, f, e, g, h, d.ends, d.event_write, same a.write_end, same (to_unsigned a.eventfd.result))
        refl,
  )

  -- The descriptors that the kernel gives are distinct. When every call up to `read` succeeds: if
  -- the child sends nothing, spawn returns its pid and its pidfd, and only the pidfd is open in
  -- addition; otherwise it throws, and the pidfd stays open exactly if the signal of the deleter
  -- fails.
  pub spawn_lem :
      (pid pidfd count : ℕ)
      → is_minus_one a.pipe.result ≡ false
      → is_minus_one a.fcntl.result ≡ false
      → is_minus_one a.eventfd.result ≡ false
      → a.fork.result ≡ pos pid
      → a.pidfd_open.result ≡ pos pidfd
      → a.read.result ≡ pos count
      → spawn a opened ≡ (
          if count == 0 then (ok (pid, pidfd), pidfd ∷ opened) else (
            err (launch_error a.wait a.child_errno),
            if is_minus_one a.send_signal.result then pidfd ∷ opened else opened,
          ))
  unfolding spawn after_pipe after_fork after_read close_descriptor delete_pidfd bytes_transferred
      io_result
  spawn_lem pid pidfd count p f e g h r =
      let event = to_unsigned a.eventfd.result in
      let apart : (pidfd == event) ≡ false = rw h at d.process_event in
      let other : (pidfd == a.read_end) ≡ false = rw h at d.process_read in
      elim (Bool-cases (count == 0)) [
        | inl silent ↦
            rw
              (
                p,
                f,
                e,
                g,
                h,
                r,
                silent,
                d.event_write,
                d.ends,
                same a.write_end,
                other,
                d.event_read,
                same a.read_end,
                apart,
                same event,
              )
              refl
        | inr told ↦ elim (Bool-cases (is_minus_one a.send_signal.result)) [
          | inl failed ↦
              rw
                (
                  p,
                  f,
                  e,
                  g,
                  h,
                  r,
                  told,
                  failed,
                  d.event_write,
                  d.ends,
                  same a.write_end,
                  other,
                  d.event_read,
                  same a.read_end,
                  apart,
                  same event,
                )
                refl
          | inr sent ↦
              rw
                (
                  p,
                  f,
                  e,
                  g,
                  h,
                  r,
                  told,
                  sent,
                  d.event_write,
                  d.ends,
                  same a.write_end,
                  other,
                  d.event_read,
                  same a.read_end,
                  same pidfd,
                  same event,
                )
                refl
        ]
      ]

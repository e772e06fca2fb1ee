-- ===== src/Host/Load/Outcome.antt =====
-- What load leaves behind.
use the_pipe.Base.{
  ℕ, ◌+◌, ◌≡◌, ◌⊎◌, refl, true, none, some, List, [], ◌∷◌, arith, Bool-cases, inl, inr, ap,
}
use the_pipe.Base.Int.{is_minus_one}
use the_pipe.Base.Results.{Result, ok, err}
use the_pipe.OsServices.Fd.Activity.{ActivityStatus}
use the_pipe.OsServices.Fd.Opened.Counts.{one, count, close_owned, close_all, count-close_all}
use the_pipe.OsServices.Ipc.Pipe.{make_pipe, destroy_pipe}
use the_pipe.OsServices.Ipc.SocketPair.{make_socket_pair, destroy_socket_pair}
use the_pipe.OsServices.ProcMgmt.Parent.{delete_pidfd, spawn}
use the_pipe.OsServices.ProcMgmt.Parent.Counts.{Spawned, spawn-Spawned}
use the_pipe.OsServices.IoMultiplexer.{
  Kernel, EpollInstance, ConfigTransaction, commit, close_transaction, remove_all,
}
use the_pipe.OsServices.IoMultiplexer.Invariant.{IsConsistent, HasIds}
use the_pipe.OsServices.IoMultiplexer.Pending.{IsUnchanged, remove_all-IsUnchanged}
use the_pipe.OsServices.IoMultiplexer.Transaction.{begin, begin-Pending, AreFree}
use the_pipe.OsServices.IoMultiplexer.Added.{Watches}
use the_pipe.OsServices.IoMultiplexer.Chain.{chain, Chained, chain-Chained}
use the_pipe.Host.Load.{LoadAnswers, Handlers, added, after_chain, after_spawn, load}

-- What is open when load calls spawn.
abbrev pub open_at_spawn : LoadAnswers → List ℕ → List ℕ
open_at_spawn a opened = a.socket_a ∷ a.socket_b ∷ a.log_read_end ∷ a.log_write_end ∷ opened

module _ {K : Kernel} {H : Type 0} (handlers : Handlers H) (a : LoadAnswers) (opened : List ℕ)
    (ep : EpollInstance K H) where
  -- The outcomes of load. When it returns, no descriptor is open in addition but the three that the
  -- epoll instance owns, and these are watched. When it throws, the epoll instance is as before, and
  -- so are the open descriptors, unless it was spawn that threw, which may have left some, or the
  -- signal of the pidfd's deleter has failed, which leaves the pidfd.
  abbrev pub Loaded : Result (Unit {0}) × List ℕ × EpollInstance K H → Type 0
  Loaded (ok done, left, ep') =
      ((g : ℕ) → count g left ≡ count g opened)
      × IsConsistent K H ep'
      × ((pid : ℕ) × (pidfd : ℕ) × ((spawn a.spawn (open_at_spawn a opened)).0 ≡ ok (pid, pidfd))
          × Watches ep' a.log_read_end ActivityStatus.read
          × Watches ep' a.socket_a ActivityStatus.write
          × Watches ep' pidfd ActivityStatus.read)
  Loaded (err e, left, ep') =
      IsUnchanged ep ep'
      × IsConsistent K H ep'
      × (((g : ℕ) → count g left ≡ count g opened)
          ⊎ ((((spawn a.spawn (open_at_spawn a opened)).0 ≡ err e)
                × ((extra : List ℕ) × ((g : ℕ) → count g left ≡ count g extra + count g opened)))
              ⊎ ((pid : ℕ) × (pidfd : ℕ) × ((spawn a.spawn (open_at_spawn a opened)).0
                    ≡ ok (pid, pidfd))
                  × (is_minus_one a.send_signal.result ≡ true)
                  × ((g : ℕ) → count g left ≡ one pidfd g + count g opened))))

  after_chain-Loaded :
      (left : List ℕ) (pid pidfd fd_to_keep : ℕ)
      (r : Result (ConfigTransaction K H) × ConfigTransaction K H)
      → (spawn a.spawn (open_at_spawn a opened)).0 ≡ ok (pid, pidfd)
      → ((g : ℕ) → count g left ≡ one pidfd g + one fd_to_keep g + count g opened)
      → IsConsistent K H ep
      → Chained ep (added K H handlers a pidfd) (begin ep) r
      → Loaded (after_chain K H handlers a pidfd (some fd_to_keep) left r)
  unfolding close_transaction commit remove_all close_all close_owned count delete_pidfd
  after_chain-Loaded left pid pidfd fd_to_keep (ok done, t) s h c0 c =
      let (log, others) = c.watched refl in
      (
        count-close_all (pidfd ∷ fd_to_keep ∷ []) left (λ g. count g opened)
            (λ g. omega (arith, h g)),
        c.pending.consistent,
        (pid, pidfd, s, log, others.0, others.1.0),
      )
  after_chain-Loaded left pid pidfd fd_to_keep (err e, t) s h c0 c =
      let (same, consistent) =
        remove_all-IsUnchanged t.added_ids ep t.monitor c0 c.pending.consistent c.pending.undoes in
      elim (Bool-cases (is_minus_one a.send_signal.result)) [
        | inl failed ↦
            let kept =
              count-close_all (fd_to_keep ∷ []) left (λ g. one pidfd g + count g opened)
                (λ g. omega (arith, h g)) in
            (same, consistent, inr (inr (pid, pidfd, s, failed, rw failed kept)))
        | inr sent ↦
            let closed =
              count-close_all (pidfd ∷ fd_to_keep ∷ []) left (λ g. count g opened)
                (λ g. omega (arith, h g)) in
            (same, consistent, inl (rw sent closed))
      ]

  module _ (c0 : IsConsistent K H ep) (ids : HasIds K H ep 3)
      (free : (pid pidfd : ℕ)
        → (spawn a.spawn (open_at_spawn a opened)).0 ≡ ok (pid, pidfd)
        → AreFree (added K H handlers a pidfd) ep) where
    after_spawn-Loaded :
        (r : Result (ℕ × ℕ) × List ℕ)
        → spawn a.spawn (open_at_spawn a opened) ≡ r
        → Spawned (λ g. count g (open_at_spawn a opened)) r
        → Loaded (
            after_spawn K H handlers a ep
              (record { read_end = some a.log_read_end; write_end = some a.log_write_end })
              (record { socket_a = some a.socket_a; socket_b = none })
              (some a.socket_b)
              r)
    unfolding destroy_pipe destroy_socket_pair close_all close_owned count
    after_spawn-Loaded (err e, left) s (extra, h) =
        let threw = ap (λ (x : Result (ℕ × ℕ) × List ℕ). x.0) s in
        let closed =
          count-close_all (a.log_write_end ∷ a.socket_b ∷ a.socket_a ∷ a.log_read_end ∷ []) left
            (λ g. count g extra + count g opened) (λ g. omega (arith, h g)) in
        ((λ id. refl, λ fd. refl), c0, inr (inl (threw, (extra, closed))))
    after_spawn-Loaded (ok (pid, pidfd), left) s h =
        let returned = ap (λ (x : Result (ℕ × ℕ) × List ℕ). x.0) s in
        after_chain-Loaded _ pid pidfd a.socket_b
          (chain (added K H handlers a pidfd) (ok (begin ep), begin ep)) returned
          (count-close_all (a.log_write_end ∷ a.log_read_end ∷ a.socket_a ∷ []) left
            (λ g. one pidfd g + one a.socket_b g + count g opened) (λ g. omega (arith, h g)))
          c0
          (chain-Chained (added K H handlers a pidfd) ep (begin ep) (begin ep) c0
            (begin-Pending ep c0) (free pid pidfd returned) ids)

    -- The epoll instance and the kernel agree, three ids are left, and the read end, socket a and a
    -- pidfd that spawn returns are distinct and not watched yet. When load returns, spawn has
    -- returned a pidfd, the kernel watches the read end and the pidfd for reading and socket a for
    -- writing, and no other descriptor is open in addition. When it throws, every listener and every
    -- descriptor that is watched is as before, and so are the open descriptors, but for some that
    -- spawn has left open if it was spawn that threw, and for the pidfd if spawn has returned and
    -- the signal of the pidfd's deleter fails. In both cases the epoll instance and the kernel
    -- agree.
    pub load_lem : Loaded (load K H handlers a opened ep)
    unfolding load make_pipe make_socket_pair destroy_pipe close_all close_owned count
    load_lem = elim (Bool-cases (is_minus_one a.logpipe.result)) [
      | inl failed ↦ rw failed ((λ id. refl, λ fd. refl), c0, inl (λ g. refl))
      | inr piped ↦ elim (Bool-cases (is_minus_one a.ctl_sockets.result)) [
        | inl failed ↦
            let closed =
              count-close_all (a.log_read_end ∷ a.log_write_end ∷ [])
                (a.log_read_end ∷ a.log_write_end ∷ opened) (λ g. count g opened)
                (λ g. omega arith) in
            rw (piped, failed) ((λ id. refl, λ fd. refl), c0, inl closed)
        | inr paired ↦
            rw (piped, paired)
              (after_spawn-Loaded (spawn a.spawn (open_at_spawn a opened)) refl
                (spawn-Spawned a.spawn (open_at_spawn a opened)))
      ]
    ]

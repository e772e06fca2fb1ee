-- ===== src/OsServices/IoMultiplexer/Lifetime.antt =====
-- The constructor of epoll_instance and its destructor, which ends the listeners and then the epoll
-- descriptor.
use the_pipe.Base.{
  ℕ, ◌≡◌, refl, ◌∙◌, Bool, true, false, ◌||◌, none, some, List, [], ◌∷◌, ◌==◌, if◌then◌else◌, arith,
  Bool-cases, Option-cases, inl, inr,
}
use the_pipe.Base.Results.{Result, ok, err}
use the_pipe.OsServices.Fd.Opened.{close_descriptor}
use the_pipe.OsServices.Io.{Call}
use the_pipe.OsServices.Ipc.{take_descriptor}
use the_pipe.OsServices.IoMultiplexer.{Kernel, Entry, EpollInstance, delete_fd}
use the_pipe.OsServices.IoMultiplexer.Listeners.{fd_of}
use the_pipe.OsServices.IoMultiplexer.Invariant.{Closes, delete_fd-closed, IsConsistent}

-- Whether a listener has the descriptor.
unfoldable covers : {H : Type 0} → ℕ → List (Entry H) → Bool
covers g [] = false
covers g (e ∷ es) = (e.fd == g) || covers g es

covers-fd_of :
    {H : Type 0} (id g : ℕ) (es : List (Entry H)) → fd_of id es ≡ some g → covers g es ≡ true
unfolding covers fd_of
covers-fd_of id g [] h = cc
covers-fd_of id g (e ∷ es) h = ground (arith, covers-fd_of id g es)

module _ (K : Kernel) (H : Type 0) where
  -- The instance with its epoll descriptor.
  abbrev pub with_epoll_fd : K.State → Result ℕ × List ℕ → Result (ℕ × EpollInstance K H) × List ℕ
  with_epoll_fd k (err e, opened) = (err e, opened)
  with_epoll_fd k (ok epoll_fd, opened) = (
    ok (epoll_fd, record { kernel = k; listeners = []; current_id = record { value = 0 } }),
    opened,
  )

  unfoldable pub make_epoll_instance :
      Call → K.State → List ℕ → Result (ℕ × EpollInstance K H) × List ℕ
  make_epoll_instance c k opened =
      with_epoll_fd k (take_descriptor "Failed to an fd activity monitor" c opened)

  unfoldable pub close_listeners : List (Entry H) → K.State → K.State
  close_listeners [] k = k
  close_listeners (e ∷ es) k = close_listeners es (delete_fd K H k e.fd)

  unfoldable pub destroy_epoll_instance : ℕ → EpollInstance K H → List ℕ → K.State × List ℕ
  unfolding close_listeners close_descriptor
  destroy_epoll_instance epoll_fd ep opened =
      (close_listeners ep.listeners ep.kernel, close_descriptor epoll_fd opened)

  delete_fd-interest :
      (k : K.State) (fd g : ℕ)
      → Closes K H g
      → K.interest (delete_fd K H k fd) g ≡ (if fd == g then none else K.interest k g)
  delete_fd-interest k fd g closes = elim (Bool-cases (K.stays_open k fd)) [
    | inl stays ↦ rw stays (ground (arith, closes k, stays))
    | inr closed ↦ delete_fd-closed K H k fd g closed
  ]

  close_listeners-interest :
      (es : List (Entry H)) (k : K.State) (g : ℕ)
      → Closes K H g
      → K.interest (close_listeners es k) g ≡ (if covers g es then none else K.interest k g)
  unfolding close_listeners covers
  close_listeners-interest [] k g closes = refl
  close_listeners-interest (e ∷ es) k g closes =
      let ih = close_listeners-interest es (delete_fd K H k e.fd) g closes in
      ground (arith, ih, delete_fd-interest k e.fd g closes)

  -- If the epoll instance and the kernel agree, a descriptor whose deleter closes it is not watched
  -- any more when the listeners have ended.
  pub destroy_epoll_instance-interest :
      (epoll_fd : ℕ) (ep : EpollInstance K H) (opened : List ℕ) (g : ℕ)
      → Closes K H g
      → IsConsistent K H ep
      → K.interest (destroy_epoll_instance epoll_fd ep opened).0 g ≡ none
  unfolding destroy_epoll_instance
  destroy_epoll_instance-interest epoll_fd ep opened g closes c =
      elim (Option-cases (K.interest ep.kernel g)) [
        | inl unwatched ↦
            ground (arith, close_listeners-interest ep.listeners ep.kernel g closes, unwatched)
        | inr ((events, id), at_g) ↦
            let covered = covers-fd_of id g ep.listeners (c.linked g events id at_g) in
            close_listeners-interest ep.listeners ep.kernel g closes ∙ rw covered refl
      ]

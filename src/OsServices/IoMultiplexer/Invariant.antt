-- ===== src/OsServices/IoMultiplexer/Invariant.antt =====
-- The listeners and the kernel's interest list agree: no pointer in the kernel dangles, and every
-- listener is watched.
use the_pipe.Base.{
  ℕ, ◌+◌, ◌%◌, ◌^◌, ◌≤◌, ◌<◌, ◌≡◌, refl, sym, ◌∙◌, false, Option, none, some, ◌∷◌, ◌==◌,
  if◌then◌else◌, arith, Bool-cases, Option-cases, inl, inr, ap,
}
use the_pipe.OsServices.Fd.Activity.{ActivityStatus, next}
use the_pipe.OsServices.IoMultiplexer.{
  Kernel, Entry, find, EpollInstance, delete_fd, destroy, watch, add, remove, to_epoll_event,
}
use the_pipe.OsServices.IoMultiplexer.Listeners.{fd_of, fd_of-find, find-id, fd_of-erase}

-- `owner` gives the descriptor of a listener, `interest` the events and the listener that the kernel
-- keeps for a descriptor, and no listener has an id from `current` on.
pub record Agree (owner : ℕ → Option ℕ) (interest : ℕ → Option (ℕ × ℕ)) (current : ℕ) : Type 0 where
  pub fresh : (id : ℕ) → current ≤ id → owner id ≡ none
  pub linked : (fd events id : ℕ) → interest fd ≡ some (events, id) → owner id ≡ some fd
  pub watched : (id fd : ℕ) → owner id ≡ some fd → (events : ℕ) × (interest fd ≡ some (events, id))

module _ {owner : ℕ → Option ℕ} {interest : ℕ → Option (ℕ × ℕ)} {current : ℕ}
    (a : Agree owner interest current) where
  -- A listener is taken away, and its descriptor is not watched any more.
  pub unlink :
      (owner' : ℕ → Option ℕ) (interest' : ℕ → Option (ℕ × ℕ)) (id fd : ℕ)
      → owner id ≡ some fd
      → ((j : ℕ) → owner' j ≡ (if id == j then none else owner j))
      → ((g : ℕ) → interest' g ≡ (if fd == g then none else interest g))
      → Agree owner' interest' current
  unlink owner' interest' id fd mine o i = record {
    fresh = λ j h. ground (arith, o j, a.fresh j h);
    linked = λ g events j e. ground (arith, o j, i g, a.linked g events j, mine);
    watched = λ j g e.
        let still : owner j ≡ some g = ground (arith, o j) in
        let (events, at_g) = a.watched j g still in
        let (mine_events, at_fd) = a.watched id fd mine in
        (events, ground (arith, i g, o j, at_g, at_fd));
  }

  -- A listener under the next id is added, on a descriptor that was not watched.
  pub link :
      (owner' : ℕ → Option ℕ) (interest' : ℕ → Option (ℕ × ℕ)) (fd events : ℕ)
      → interest fd ≡ none
      → ((j : ℕ) → owner' j ≡ (if current == j then some fd else owner j))
      → ((g : ℕ) → interest' g ≡ (if fd == g then some (events, current) else interest g))
      → Agree owner' interest' (current + 1)
  link owner' interest' fd events unwatched o i = record {
    fresh = λ j h. ground (arith, o j, a.fresh j);
    linked = λ g ev j e. ground (arith, o j, i g, a.linked g ev j, a.fresh current);
    watched = λ j g e. elim (Bool-cases (current == j)) [
      | inl new ↦ (events, ground (arith, i g, o j))
      | inr old ↦
          let still : owner j ≡ some g = ground (arith, o j) in
          let (ev, at_g) = a.watched j g still in (ev, ground (arith, i g, at_g, unwatched))
    ];
  }

  -- The events of a listener are changed.
  pub relink :
      (interest' : ℕ → Option (ℕ × ℕ)) (id fd events : ℕ)
      → owner id ≡ some fd
      → ((g : ℕ) → interest' g ≡ (if fd == g then some (events, id) else interest g))
      → Agree owner interest' current
  relink interest' id fd events mine i = record {
    fresh = a.fresh;
    linked = λ g ev j e. ground (arith, i g, a.linked g ev j, mine);
    watched = λ j g e. elim (Bool-cases (fd == g)) [
      | inl changed ↦
          let (ev, at_g) = a.watched j g e in
          let (ev', at_fd) = a.watched id fd mine in (events, ground (arith, i g, at_g, at_fd))
      | inr other ↦ let (ev, at_g) = a.watched j g e in (ev, ground (arith, i g, at_g))
    ];
  }

  -- Nothing that can be seen has changed, but that ids may have been passed over.
  pub keep :
      (owner' : ℕ → Option ℕ) (interest' : ℕ → Option (ℕ × ℕ)) (current' : ℕ)
      → current ≤ current'
      → ((j : ℕ) → owner' j ≡ owner j)
      → ((g : ℕ) → interest' g ≡ interest g)
      → Agree owner' interest' current'
  keep owner' interest' current' h o i = record {
    fresh = λ j k. ground (arith, o j, a.fresh j);
    linked = λ g ev j e. ground (arith, o j, i g, a.linked g ev j);
    watched = λ j g e.
        let still : owner j ≡ some g = ground (arith, o j) in
        let (ev, at_g) = a.watched j g still in (ev, ground (arith, i g, at_g));
  }

module _ (K : Kernel) (H : Type 0) where
  -- The deleter of the descriptor closes it, whatever the kernel answers.
  abbrev pub Closes : ℕ → Type 0
  Closes fd = (k : K.State) → K.stays_open k fd ≡ false

  pub delete_fd-closed :
      (k : K.State) (fd g : ℕ)
      → K.stays_open k fd ≡ false
      → K.interest (delete_fd K H k fd) g ≡ (if fd == g then none else K.interest k g)
  delete_fd-closed k fd g closed = rw closed (K.close-interest k fd g)

  pub delete_fd-unwatched :
      (k : K.State) (fd g : ℕ)
      → K.interest k fd ≡ none
      → K.interest (delete_fd K H k fd) g ≡ K.interest k g
  delete_fd-unwatched k fd g unwatched = elim (Bool-cases (K.stays_open k fd)) [
    | inl stays ↦ rw stays refl
    | inr closed ↦ rw closed (K.close-interest k fd g ∙ ground (arith, unwatched))
  ]

  -- Behind EPOLL_CTL_DEL the descriptor is not watched, also where its deleter leaves it open.
  pub delete_fd-ctl_del :
      (k : K.State) (fd g : ℕ)
      → K.interest (delete_fd K H (K.ctl_del k fd) fd) g
        ≡ (if fd == g then none else K.interest k g)
  delete_fd-ctl_del k fd g =
      delete_fd-unwatched (K.ctl_del k fd) fd g (K.ctl_del-interest k fd fd ∙ ground arith)
      ∙ K.ctl_del-interest k fd g

  -- The kernel's pointers and the listeners of an epoll instance agree.
  abbrev pub IsConsistent : EpollInstance K H → Type 0
  IsConsistent ep =
      Agree (λ id. fd_of id ep.listeners) (λ fd. K.interest ep.kernel fd) ep.current_id.value

  pub destroy-IsConsistent :
      (ep : EpollInstance K H) (id : ℕ) (e : Entry H)
      → IsConsistent ep
      → find id ep.listeners ≡ some e
      → K.stays_open ep.kernel e.fd ≡ false
      → IsConsistent (destroy K H ep e)
  unfolding destroy
  destroy-IsConsistent ep id e c h closed =
      let same = find-id id ep.listeners e h in
      unlink c _ _ id e.fd (fd_of-find id ep.listeners e h)
        (λ j. rw same (fd_of-erase id j ep.listeners))
        (λ g. delete_fd-closed ep.kernel e.fd g closed)

  -- Removing a listener, or an id that is not there, keeps the listeners and the kernel in
  -- agreement.
  pub remove-IsConsistent :
      (ep : EpollInstance K H) (id : ℕ) → IsConsistent ep → IsConsistent (remove K H ep id)
  unfolding remove destroy
  remove-IsConsistent ep id c = elim (Option-cases (find id ep.listeners)) [
    | inl missing ↦ rw (missing, remove) c
    | inr (e, h) ↦
        let same = find-id id ep.listeners e h in
        rw (h, remove)
          (unlink c _ _ id e.fd (fd_of-find id ep.listeners e h)
            (λ j. rw same (fd_of-erase id j ep.listeners))
            (λ g. delete_fd-ctl_del ep.kernel e.fd g))
  ]

  -- The ids have not run out.
  abbrev pub HasIds : EpollInstance K H → ℕ → Type 0
  HasIds ep count = ep.current_id.value + count < 2 ^ 64

  pub absent :
      (ep : EpollInstance K H) → IsConsistent ep → find ep.current_id.value ep.listeners ≡ none
  absent ep c = elim (Option-cases (find ep.current_id.value ep.listeners)) [
    | inl missing ↦ missing
    | inr (e, h) ↦
        let owned = fd_of-find ep.current_id.value ep.listeners e h in
        let free = c.fresh ep.current_id.value (omega arith) in
        let clash : some e.fd ≡ none = sym owned ∙ free in cc
  ]

  watch-IsConsistent :
      (ep : EpollInstance K H) (fd events : ℕ) (h : H) (r : K.State × Option ℕ)
      → IsConsistent ep
      → K.interest ep.kernel fd ≡ none
      → K.ctl_add ep.kernel fd events ep.current_id.value ≡ r
      → IsConsistent
          (watch K H
            (record ep { current_id = record { value = ep.current_id.value + 1 } })
            (record { id = ep.current_id.value; fd = fd; event_handler = h })
            r).1
  unfolding fd_of destroy
  watch-IsConsistent ep fd events h (k, none) c free e =
      link c _ _ fd events free (λ j. refl)
        (λ g.
          ap (λ (s : K.State × Option ℕ). K.interest s.0 g) (sym e)
          ∙ K.ctl_add-done ep.kernel fd events ep.current_id.value g
              (ap (λ (s : K.State × Option ℕ). s.1) e))
  watch-IsConsistent ep fd events h (k, some errno) c free e =
      let same : (g : ℕ) → K.interest k g ≡ K.interest ep.kernel g = λ g.
        ap (λ (s : K.State × Option ℕ). K.interest s.0 g) (sym e)
        ∙ K.ctl_add-failed ep.kernel fd events ep.current_id.value g errno
            (ap (λ (s : K.State × Option ℕ). s.1) e) in
      keep c _ _ (ep.current_id.value + 1) (omega arith)
        (λ j.
          fd_of-erase ep.current_id.value j
            (record { id = ep.current_id.value; fd = fd; event_handler = h } ∷ ep.listeners)
          ∙ ground (arith, c.fresh ep.current_id.value))
        (λ g. delete_fd-unwatched k fd g (same fd ∙ free) ∙ same g)

  -- While the ids last, adding a descriptor that is not watched keeps the listeners and the kernel
  -- in agreement, also where epoll_ctl fails.
  pub add-IsConsistent :
      (ep : EpollInstance K H) (fd : ℕ) (status : ActivityStatus) (h : H)
      → IsConsistent ep
      → K.interest ep.kernel fd ≡ none
      → HasIds ep 1
      → IsConsistent (add K H ep fd status h).1
  unfolding add next
  add-IsConsistent ep fd status h c free ids =
      let step : (ep.current_id.value + 1) % 2 ^ 64 ≡ ep.current_id.value + 1 = omega arith in
      rw (absent ep c, add, step) (watch-IsConsistent ep fd (to_epoll_event status) h _ c free refl)

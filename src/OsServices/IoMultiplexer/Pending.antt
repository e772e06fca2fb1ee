-- ===== src/OsServices/IoMultiplexer/Pending.antt =====
-- A transaction that has begun: what it has added can be taken back.
use the_pipe.Base.{
  ℕ, ◌+◌, ◌%◌, ◌^◌, ◌≡◌, refl, sym, ◌∙◌, Option, none, some, List, [], ◌∷◌, ◌==◌, ==_iff,
  if◌then◌else◌, arith, Option-cases, inl, inr, ap,
}
use the_pipe.Base.Results.{Result, ok, err}
use the_pipe.OsServices.Fd.Activity.{ActivityStatus, next}
use the_pipe.OsServices.IoMultiplexer.{
  Kernel, Entry, find, erase, EpollInstance, delete_fd, destroy, watch, add, remove, to_epoll_event,
  ConfigTransaction, note_added, transaction_add, remove_all,
}
use the_pipe.OsServices.IoMultiplexer.Listeners.{
  fd_of, fd_of-find, fd_of-find_none, find-id, fd_of-erase,
}
use the_pipe.OsServices.IoMultiplexer.Invariant.{
  delete_fd-unwatched, delete_fd-ctl_del, IsConsistent, remove-IsConsistent, HasIds,
  add-IsConsistent, absent,
}
use the_pipe.OsServices.IoMultiplexer.Undo.{Undo, extend, shorten, pass, undisturbed, Undo-done}

module _ {K : Kernel} {H : Type 0} where
  abbrev pub owners : EpollInstance K H → ℕ → Option ℕ
  owners ep id = fd_of id ep.listeners

  abbrev pub interests : EpollInstance K H → ℕ → Option (ℕ × ℕ)
  interests ep fd = K.interest ep.kernel fd

  abbrev pub Undoes : EpollInstance K H → EpollInstance K H → List ℕ → Type 0
  Undoes ep0 ep ids = Undo (owners ep0) (owners ep) (interests ep0) (interests ep) ids

  -- Every listener has the descriptor it had, and every descriptor is watched as it was.
  abbrev pub IsUnchanged : EpollInstance K H → EpollInstance K H → Type 0
  IsUnchanged ep0 ep =
      ((id : ℕ) → fd_of id ep.listeners ≡ fd_of id ep0.listeners)
      × ((fd : ℕ) → K.interest ep.kernel fd ≡ K.interest ep0.kernel fd)

  remove-Undoes :
      (ep0 ep : EpollInstance K H) (item : ℕ) (ids : List ℕ)
      → IsConsistent K H ep0
      → IsConsistent K H ep
      → Undoes ep0 ep (item ∷ ids)
      → Undoes ep0 (remove K H ep item) ids
  unfolding remove destroy
  remove-Undoes ep0 ep item ids c0 c u = elim (Option-cases (find item ep.listeners)) [
    | inl missing ↦
        rw (missing, remove) (pass c0 c item ids u (fd_of-find_none item ep.listeners missing))
    | inr (e, h) ↦
        let same = find-id item ep.listeners e h in
        rw (h, remove)
          (shorten c0 c _ _ item e.fd ids u (fd_of-find item ep.listeners e h)
            (λ j. rw same (fd_of-erase item j ep.listeners))
            (λ g. delete_fd-ctl_del K H ep.kernel e.fd g))
  ]

  pub remove_all-IsUnchanged :
      (ids : List ℕ) (ep0 ep : EpollInstance K H)
      → IsConsistent K H ep0
      → IsConsistent K H ep
      → Undoes ep0 ep ids
      → IsUnchanged ep0 (remove_all K H ids ep) × IsConsistent K H (remove_all K H ids ep)
  unfolding remove_all
  remove_all-IsUnchanged [] ep0 ep c0 c u = (Undo-done c0 c u, c)
  remove_all-IsUnchanged (item ∷ ids) ep0 ep c0 c u =
      remove_all-IsUnchanged ids ep0 (remove K H ep item) c0 (remove-IsConsistent K H ep item c)
        (remove-Undoes ep0 ep item ids c0 c u)

  -- What holds between the additions of a transaction that began at `ep0`: all can be taken back.
  pub record Pending (ep0 : EpollInstance K H) (t : ConfigTransaction K H) : Type 0 where
    pub consistent : IsConsistent K H t.monitor
    pub undoes : Undoes ep0 t.monitor t.added_ids

  -- What one addition does to the ids and to the other descriptors.
  pub record Step (fd : ℕ) (before after : EpollInstance K H) : Type 0 where
    pub one_id : after.current_id.value ≡ before.current_id.value + 1
    pub elsewhere : (g : ℕ) → ¬ (fd ≡ g) → K.interest after.kernel g ≡ K.interest before.kernel g

  note_added-Undoes :
      (ep0 : EpollInstance K H) (t : ConfigTransaction K H) (fd events : ℕ) (h : H)
      (r : K.State × Option ℕ)
      → IsConsistent K H ep0
      → Pending ep0 t
      → K.interest t.monitor.kernel fd ≡ none
      → K.ctl_add t.monitor.kernel fd events t.monitor.current_id.value ≡ r
      → let ep' : EpollInstance K H = record t.monitor {
        current_id = record { value = t.monitor.current_id.value + 1 };
      } in
        let e : Entry H = record { id = t.monitor.current_id.value; fd = fd; event_handler = h } in
        let t' = (note_added K H t (watch K H ep' e r)).1 in
        Undoes ep0 t'.monitor t'.added_ids × Step fd t.monitor t'.monitor
  unfolding fd_of destroy
  note_added-Undoes ep0 t fd events h (k, none) c0 p free e =
      let i : (g : ℕ)
          → K.interest k g ≡ (
              if fd == g
              then some (events, t.monitor.current_id.value)
              else K.interest t.monitor.kernel g) =
        λ g.
          ap (λ (s : K.State × Option ℕ). K.interest s.0 g) (sym e)
          ∙ K.ctl_add-done t.monitor.kernel fd events t.monitor.current_id.value g
              (ap (λ (s : K.State × Option ℕ). s.1) e) in
      (
        extend c0 p.consistent t.added_ids _ _ fd events p.undoes free (λ j. refl) i,
        record { one_id = refl; elsewhere = λ g n. ground (arith, i g, ==_iff fd g) },
      )
  note_added-Undoes ep0 t fd events h (k, some errno) c0 p free e =
      let id = t.monitor.current_id.value in
      let same : (g : ℕ) → K.interest k g ≡ K.interest t.monitor.kernel g = λ g.
        ap (λ (s : K.State × Option ℕ). K.interest s.0 g) (sym e)
        ∙ K.ctl_add-failed t.monitor.kernel fd events id g errno
            (ap (λ (s : K.State × Option ℕ). s.1) e) in
      let i : (g : ℕ) → K.interest (delete_fd K H k fd) g ≡ K.interest t.monitor.kernel g =
        λ g. delete_fd-unwatched K H k fd g (same fd ∙ free) ∙ same g in
      let o : (j : ℕ)
          → fd_of j
              (erase id (record { id = id; fd = fd; event_handler = h } ∷ t.monitor.listeners))
            ≡ fd_of j t.monitor.listeners =
        λ j.
          fd_of-erase id j (record { id = id; fd = fd; event_handler = h } ∷ t.monitor.listeners)
          ∙ ground (arith, p.consistent.fresh id) in
      (
        undisturbed c0 p.consistent _ _ p.undoes o i,
        record { one_id = refl; elsewhere = λ g n. i g },
      )

  pub transaction_add-Undoes :
      (ep0 : EpollInstance K H) (t : ConfigTransaction K H) (fd : ℕ) (status : ActivityStatus)
      (h : H)
      → IsConsistent K H ep0
      → Pending ep0 t
      → K.interest t.monitor.kernel fd ≡ none
      → HasIds K H t.monitor 1
      → let t' = (transaction_add K H t fd status h).1 in
        Undoes ep0 t'.monitor t'.added_ids × Step fd t.monitor t'.monitor
  unfolding transaction_add add next
  transaction_add-Undoes ep0 t fd status h c0 p free ids =
      let step : (t.monitor.current_id.value + 1) % 2 ^ 64 ≡ t.monitor.current_id.value + 1 =
        omega arith in
      rw (absent K H t.monitor p.consistent, transaction_add, add, step)
        (note_added-Undoes ep0 t fd (to_epoll_event status) h _ c0 p free refl)

  note_added-monitor :
      (t : ConfigTransaction K H) (r : Result ℕ × EpollInstance K H)
      → (note_added K H t r).1.monitor ≡ r.1
  note_added-monitor t (ok id, ep) = refl
  note_added-monitor t (err e, ep) = refl

  pub transaction_add-Pending :
      (ep0 : EpollInstance K H) (t : ConfigTransaction K H) (fd : ℕ) (status : ActivityStatus)
      (h : H)
      → IsConsistent K H ep0
      → Pending ep0 t
      → K.interest t.monitor.kernel fd ≡ none
      → HasIds K H t.monitor 1
      → Pending ep0 (transaction_add K H t fd status h).1
  unfolding transaction_add
  transaction_add-Pending ep0 t fd status h c0 p free ids = record {
    consistent =
        rw (note_added-monitor t (add K H t.monitor fd status h))
          (add-IsConsistent K H t.monitor fd status h p.consistent free ids);
    undoes = (transaction_add-Undoes ep0 t fd status h c0 p free ids).0;
  }

-- ===== src/OsServices/IoMultiplexer/Dispatch.antt =====
-- The dispatching of events: no dangling entry is used.
use the_pipe.Base.{
  ℕ, ◌≡◌, refl, sym, ◌∙◌, true, false, none, some, List, [], ◌∷◌, arith, Option-cases, inl, inr,
  subst,
}
use the_pipe.OsServices.Fd.Activity.{ActivityStatus}
use the_pipe.OsServices.IoMultiplexer.{
  Kernel, Entry, find, erase, set_handler, EpollInstance, destroy, remove, Action, stop_listening,
  remove_listener, epoll_event_to_activity_status,
}
use the_pipe.OsServices.IoMultiplexer.Loop.{
  Outcome, done, thrown, use_after_free, run_actions, after_process, process_event, then_dispatch,
  dispatch,
}
use the_pipe.OsServices.IoMultiplexer.Listeners.{
  fd_of, fd_of-find, find-fd_of, find-id, fd_of-set_handler, find-erase,
}
use the_pipe.OsServices.IoMultiplexer.Invariant.{Closes, keep, IsConsistent}
use the_pipe.OsServices.IoMultiplexer.Handling.{
  ActsWithin, Ends, Leaves, Ends-mono, run_actions-Ends, after_process-Ends,
}

-- An id is not among the entries of some events.
abbrev pub NotIn : ℕ → List (ℕ × ℕ) → Type 0
NotIn id [] = Unit
NotIn id ((events, ptr) ∷ rest) = ¬ (id ≡ ptr) × NotIn id rest

module _ {H : Type 0} where
  -- Each event points to a listener of its own, which is none that may be removed.
  abbrev pub IsDeliverable : (ℕ → Type 0) → List (Entry H) → List (ℕ × ℕ) → Type 0
  IsDeliverable R es [] = Unit
  IsDeliverable R es ((events, ptr) ∷ rest) =
      ((fd : ℕ) × (fd_of ptr es ≡ some fd)) × ¬ R ptr × NotIn ptr rest × IsDeliverable R es rest

module _ {K : Kernel} {H : Type 0} (R : ℕ → Type 0) where
  module _ (handle : H → ActivityStatus → ℕ → H × List Action) where
    process_event-Ends :
        (ep : EpollInstance K H) (events ptr fd : ℕ)
        → ((h : H) (status : ActivityStatus) (g : ℕ)
            → ActsWithin R (Closes K H g) (handle h status g).1)
        → ¬ R ptr
        → fd_of ptr ep.listeners ≡ some fd
        → IsConsistent K H ep
        → Ends K H (Leaves R ptr ep) (process_event K H handle ep (events, ptr))
    unfolding process_event
    process_event-Ends ep events ptr fd only own live c =
        let (e, f, g, k) = find-fd_of ptr fd ep.listeners live in
        let acted = handle e.event_handler (epoll_event_to_activity_status events) e.fd in
        let marked : EpollInstance K H = record ep {
          listeners = set_handler ptr acted.0 ep.listeners;
        } in
        let same : (j : ℕ) → fd_of j marked.listeners ≡ fd_of j ep.listeners =
          λ j. fd_of-set_handler ptr j acted.0 ep.listeners in
        let c' : IsConsistent K H marked =
          keep c _ _ ep.current_id.value (omega arith) same (λ g. refl) in
        let run =
          run_actions-Ends R ptr fd acted.1 marked false own
            (subst (λ x. ActsWithin R (Closes K H x) acted.1) g
              (only e.event_handler (epoll_event_to_activity_status events) e.fd))
            (λ h. cc) (same ptr ∙ live) c' in
        rw (f, process_event)
          (Ends-mono R (after_process K H ptr (run_actions K H ptr acted.1 marked false))
            (λ x h. (h.0, λ j r n. h.1 j r n ∙ same j))
            (after_process-Ends R ptr fd marked _ own (same ptr ∙ live) run))

    IsDeliverable-after :
        (ptr : ℕ) (before after : EpollInstance K H) (events : List (ℕ × ℕ))
        → Leaves R ptr before after
        → NotIn ptr events
        → IsDeliverable R before.listeners events
        → IsDeliverable R after.listeners events
    IsDeliverable-after ptr before after [] l n d = tt
    IsDeliverable-after ptr before after ((ev, p) ∷ events) l (n, ns) ((fd, live), own, apart, d) =
        (
          (fd, l.1 p own (λ same. n (sym same)) ∙ live),
          own,
          apart,
          IsDeliverable-after ptr before after events l ns d,
        )

    then_dispatch-Ends :
        (ptr : ℕ) (events : List (ℕ × ℕ)) (ep : EpollInstance K H)
        (rest : EpollInstance K H → Outcome K H (EpollInstance K H))
        (o : Outcome K H (EpollInstance K H))
        → ((ep' : EpollInstance K H) → Leaves R ptr ep ep' → Ends K H (IsConsistent K H) (rest ep'))
        → Ends K H (Leaves R ptr ep) o
        → Ends K H (IsConsistent K H) (then_dispatch K H handle rest o)
    then_dispatch-Ends ptr events ep rest (done ep') go h = go ep' h
    then_dispatch-Ends ptr events ep rest (thrown e ep') go h = h
    then_dispatch-Ends ptr events ep rest use_after_free go h = h

    -- If each of the events belongs to a listener of its own, handlers remove no listener whose event
    -- is among them, and they stop listening only on descriptors that their deleters close, whatever
    -- the kernel answers to them, then no dangling entry is used, and the listeners and the kernel agree
    -- when the loop ends, also by an exception.
    pub dispatch-Ends :
        (events : List (ℕ × ℕ)) (ep : EpollInstance K H)
        → ((h : H) (status : ActivityStatus) (g : ℕ)
            → ActsWithin R (Closes K H g) (handle h status g).1)
        → IsConsistent K H ep
        → IsDeliverable R ep.listeners events
        → Ends K H (IsConsistent K H) (dispatch K H handle events ep)
    unfolding dispatch
    dispatch-Ends [] ep only c d = c
    dispatch-Ends ((ev, ptr) ∷ events) ep only c ((fd, live), own, apart, d) =
        then_dispatch-Ends ptr events ep (dispatch K H handle events)
          (process_event K H handle ep (ev, ptr))
          (λ ep' l.
            dispatch-Ends events ep' only l.0 (IsDeliverable-after ptr ep ep' events l apart d))
          (process_event-Ends ep ev ptr fd only own live c)

module _ {K : Kernel} {H : Type 0} where
  find-remove : (id : ℕ) (ep : EpollInstance K H) → find id (remove K H ep id).listeners ≡ none
  unfolding remove destroy
  find-remove id ep = elim (Option-cases (find id ep.listeners)) [
    | inl missing ↦ rw (missing, remove) missing
    | inr (e, h) ↦
        let same = find-id id ep.listeners e h in
        rw (h, remove) (find-erase e.id id ep.listeners ∙ ground (arith, same))
  ]

  -- If the handler of an event removes the listener of the event behind it, and does nothing else,
  -- the loop uses an entry that has been destroyed.
  pub dispatch-use_after_free :
      (handle : H → ActivityStatus → ℕ → H × List Action) (ep : EpollInstance K H) (e : Entry H)
      (events ptr events' ptr' : ℕ) (rest : List (ℕ × ℕ))
      → find ptr ep.listeners ≡ some e
      → (handle e.event_handler (epoll_event_to_activity_status events) e.fd).1
        ≡ remove_listener ptr' ∷ []
      → dispatch K H handle ((events, ptr) ∷ (events', ptr') ∷ rest) ep ≡ use_after_free
  unfolding dispatch process_event run_actions
  dispatch-use_after_free handle ep e events ptr events' ptr' rest owned acts =
      let h = (handle e.event_handler (epoll_event_to_activity_status events) e.fd).0 in
      let marked : EpollInstance K H = record ep { listeners = set_handler ptr h ep.listeners } in
      rw (owned, process_event, acts, run_actions, find-remove ptr' marked) refl

  -- If the handler of an event stops listening, and does nothing else, and the deleter of its
  -- descriptor leaves that open, then the kernel keeps the entry, which no listener has any more, and
  -- the loop uses an entry that has been destroyed when the kernel reports it the next time.
  pub dispatch-dangling :
      (handle : H → ActivityStatus → ℕ → H × List Action) (ep : EpollInstance K H) (e : Entry H)
      (events ptr : ℕ)
      → find ptr ep.listeners ≡ some e
      → (handle e.event_handler (epoll_event_to_activity_status events) e.fd).1
        ≡ stop_listening ∷ []
      → K.stays_open ep.kernel e.fd ≡ true
      → IsConsistent K H ep
      → (ep' : EpollInstance K H) × (dispatch K H handle ((events, ptr) ∷ []) ep ≡ done ep')
        × ((kept : ℕ) × (K.interest ep'.kernel e.fd ≡ some (kept, ptr)))
        × ((events' : ℕ) (rest : List (ℕ × ℕ))
            → dispatch K H handle ((events', ptr) ∷ rest) ep' ≡ use_after_free)
  unfolding dispatch process_event run_actions destroy
  dispatch-dangling handle ep e events ptr owned stops stays c =
      let h = (handle e.event_handler (epoll_event_to_activity_status events) e.fd).0 in
      let marked = set_handler ptr h ep.listeners in
      let live : fd_of ptr marked ≡ some e.fd =
        fd_of-set_handler ptr ptr h ep.listeners ∙ fd_of-find ptr ep.listeners e owned in
      let (e', f, g, k) = find-fd_of ptr e.fd marked live in
      let gone : find ptr (erase e'.id marked) ≡ none =
        find-erase e'.id ptr marked ∙ ground (arith, k) in
      (
        destroy K H (record ep { listeners = marked }) e',
        rw (owned, process_event, stops, run_actions, after_process, f) refl,
        rw g (rw stays (c.watched ptr e.fd (fd_of-find ptr ep.listeners e owned))),
        λ events' rest. rw (gone, process_event) refl,
      )

-- ===== src/Host/Handlers/Idle.antt =====
-- Whatever events the host gets for what load has added, it does nothing.
use the_pipe.OsServices.IoMultiplexer.Added.{Watches}
use the_pipe.OsServices.IoMultiplexer.Invariant.{keep, IsConsistent, HasIds}
use the_pipe.OsServices.IoMultiplexer.Transaction.{AreFree}
use the_pipe.OsServices.ProcMgmt.Parent.{spawn}
use the_pipe.Host.Load.{added}
use the_pipe.Host.Load.Outcome.{open_at_spawn, load_lem}
use the_pipe.Host.Handlers.{
  HostHandler, log_reader, client_process, client_process_repository, host_handlers, host_handle,
  log_reader_handle_event, repository_handle_event, client_process_handle_event,
}
use the_pipe.Base.{
  ℕ, ◌≡◌, refl, ap, subst, ◌∙◌, Bool, true, false, some, List, [], ◌∷◌, All, if◌then◌else◌, arith,
}
use the_pipe.Base.Results.{ok}
use the_pipe.OsServices.Fd.Activity.{ActivityStatus, can_read}
use the_pipe.OsServices.IoMultiplexer.{
  Kernel, set_handler, EpollInstance, epoll_event_to_activity_status,
}
use the_pipe.OsServices.IoMultiplexer.Loop.{
  done, process_event, then_dispatch, dispatch, run_actions,
}
use the_pipe.OsServices.IoMultiplexer.Listeners.{fd_of, find-fd_of, fd_of-set_handler}
use the_pipe.Host.Load.{LoadAnswers, load}
use the_pipe.Host.Load.Outcome.{Loaded}

if_same : {A : Type 0} (b : Bool) (x : A) → (if b then x else x) ≡ x
if_same true x = refl
if_same false x = refl

host_handle-nothing :
    (h : HostHandler) (status : ActivityStatus) (fd : ℕ) → host_handle h status fd ≡ (h, [])
unfolding host_handle log_reader_handle_event repository_handle_event client_process_handle_event
host_handle-nothing log_reader status fd =
    ap (λ acts. (log_reader, acts)) (if_same (can_read status) [])
host_handle-nothing client_process status fd =
    ap (λ acts. (client_process, acts)) (if_same (can_read status) [])
host_handle-nothing client_process_repository status fd =
    ap (λ acts. (client_process_repository, acts)) (if_same (can_read status) [])

module _ {K : Kernel} where
  -- The same descriptors are watched by the same listeners.
  abbrev pub IsAsBefore : EpollInstance K HostHandler → EpollInstance K HostHandler → Type 0
  IsAsBefore before after =
      (after.kernel ≡ before.kernel)
      × ((id : ℕ) → fd_of id after.listeners ≡ fd_of id before.listeners)
      × (after.current_id.value ≡ before.current_id.value)

  process_event-IsAsBefore :
      (ep : EpollInstance K HostHandler) (events ptr fd : ℕ)
      → fd_of ptr ep.listeners ≡ some fd
      → (after : EpollInstance K HostHandler) × (process_event K HostHandler host_handle ep
            (events, ptr)
          ≡ done after)
        × IsAsBefore ep after
  unfolding process_event run_actions
  process_event-IsAsBefore ep events ptr fd live =
      let (e, f, g, k) = find-fd_of ptr fd ep.listeners live in
      let status = epoll_event_to_activity_status events in
      (
        record ep { listeners = set_handler ptr e.event_handler ep.listeners },
        rw (f, process_event, host_handle-nothing e.event_handler status e.fd) refl,
        (refl, (λ id. fd_of-set_handler ptr id e.event_handler ep.listeners), refl),
      )

  -- Every event is of an entry that has a listener.
  abbrev pub IsOwned : EpollInstance K HostHandler → ℕ × ℕ → Type 0
  IsOwned ep (events, ptr) = (fd : ℕ) × (fd_of ptr ep.listeners ≡ some fd)

  All-IsOwned :
      (before after : EpollInstance K HostHandler) (events : List (ℕ × ℕ))
      → IsAsBefore before after
      → All (IsOwned before) events
      → All (IsOwned after) events
  All-IsOwned before after [] h owned = tt
  All-IsOwned before after ((ev, ptr) ∷ events) h ((fd, live), owned) =
      ((fd, h.1 ptr ∙ live), All-IsOwned before after events h owned)

  pub dispatch-IsAsBefore :
      (events : List (ℕ × ℕ)) (ep : EpollInstance K HostHandler)
      → All (IsOwned ep) events
      → (after : EpollInstance K HostHandler) × (dispatch K HostHandler host_handle events ep
          ≡ done after)
        × IsAsBefore ep after
  unfolding dispatch
  dispatch-IsAsBefore [] ep owned = (ep, refl, (refl, (λ id. refl), refl))
  dispatch-IsAsBefore ((ev, ptr) ∷ events) ep ((fd, live), owned) =
      let (next, e, h) = process_event-IsAsBefore ep ev ptr fd live in
      let (after, e', h') = dispatch-IsAsBefore events next (All-IsOwned ep next events h owned) in
      (
        after,
        ap (then_dispatch K HostHandler host_handle (dispatch K HostHandler host_handle events)) e
            ∙ e',
        (h'.0 ∙ h.0, (λ id. h'.1 id ∙ h.1 id), h'.2 ∙ h.2),
      )

  -- epoll reports only what is in the interest list.
  abbrev pub IsReported : EpollInstance K HostHandler → ℕ × ℕ → Type 0
  IsReported ep (events, ptr) =
      (fd : ℕ) × (watched : ℕ) × (K.interest ep.kernel fd ≡ some (watched, ptr))

  All-IsReported :
      (ep : EpollInstance K HostHandler) (events : List (ℕ × ℕ))
      → IsConsistent K HostHandler ep
      → All (IsReported ep) events
      → All (IsOwned ep) events
  All-IsReported ep [] c h = tt
  All-IsReported ep ((ev, ptr) ∷ events) c ((fd, watched, e), h) =
      ((fd, c.linked fd watched ptr e), All-IsReported ep events c h)

  Watches-same :
      (before after : EpollInstance K HostHandler) (fd : ℕ) (status : ActivityStatus)
      → after.kernel ≡ before.kernel
      → Watches before fd status
      → Watches after fd status
  Watches-same before after fd status same (id, e) =
      (id, ap (λ (k : K.State). K.interest k fd) same ∙ e)

  Loaded-IsAsBefore :
      (a : LoadAnswers) (opened left : List ℕ) (ep before after : EpollInstance K HostHandler)
      → IsAsBefore before after
      → Loaded host_handlers a opened ep (ok tt, left, before)
      → Loaded host_handlers a opened ep (ok tt, left, after)
  Loaded-IsAsBefore a opened left ep before after (kernel, owners, ids)
        (counts, c, (pid, pidfd, s, log, client, process)) =
      (
        counts,
        keep c _ _ after.current_id.value (omega (arith, ids)) owners
            (λ fd. ap (λ (k : K.State). K.interest k fd) kernel),
        (
          pid,
          pidfd,
          s,
          Watches-same before after a.log_read_end ActivityStatus.read kernel log,
          Watches-same before after a.socket_a ActivityStatus.write kernel client,
          Watches-same before after pidfd ActivityStatus.read kernel process,
        ),
      )

  -- The epoll instance and the kernel agree, three ids are left, and what load adds is distinct and
  -- not watched yet. When load has returned, then whatever events of watched descriptors epoll
  -- reports in a round, repeated ones included, the loop ends without an exception and without the
  -- use of a dangling entry, and all that holds behind load holds still: the three descriptors are
  -- open and watched as they were.
  pub load-dispatch :
      (a : LoadAnswers) (opened left : List ℕ) (ep loaded : EpollInstance K HostHandler)
      (events : List (ℕ × ℕ))
      → IsConsistent K HostHandler ep
      → HasIds K HostHandler ep 3
      → ((pid pidfd : ℕ)
          → (spawn a.spawn (open_at_spawn a opened)).0 ≡ ok (pid, pidfd)
          → AreFree (added K HostHandler host_handlers a pidfd) ep)
      → load K HostHandler host_handlers a opened ep ≡ (ok tt, left, loaded)
      → All (IsReported loaded) events
      → (after : EpollInstance K HostHandler) × (dispatch K HostHandler host_handle events loaded
          ≡ done after)
        × Loaded host_handlers a opened ep (ok tt, left, after)
  load-dispatch a opened left ep loaded events c ids free e reported =
      let l =
        subst (Loaded host_handlers a opened ep) e
          (load_lem host_handlers a opened ep c ids free) in
      let (after, d, same) =
        dispatch-IsAsBefore events loaded (All-IsReported loaded events l.1 reported) in
      (after, d, Loaded-IsAsBefore a opened left ep loaded after same l)

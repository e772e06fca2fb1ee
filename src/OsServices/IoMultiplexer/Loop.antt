-- ===== src/OsServices/IoMultiplexer/Loop.antt =====
-- epoll_fd_activity and epoll_instance::wait_for_and_distpatch_events in src/os_services/io_multiplexer:
-- the loop over the events, and what handlers do.
use the_pipe.Base.{ℕ, Bool, true, false, Option, none, some, List, [], ◌∷◌}
use the_pipe.Base.Results.{Error, system_error}
use the_pipe.OsServices.Fd.Activity.{ActivityStatus}
use the_pipe.OsServices.IoMultiplexer.{
  Kernel, find, set_handler, EpollInstance, destroy, remove, to_epoll_event,
  epoll_event_to_activity_status, Action, update_listening_status, stop_listening, remove_listener,
}

module _ (K : Kernel) (H : Type 0) where
  -- How the handling of an event ends. A dangling entry may have been used.
  pub data Outcome (A : Type 0) : Type 0 where
    done : A → Outcome A
    thrown : Error → EpollInstance K H → Outcome A
    use_after_free : Outcome A

  abbrev pub after_update :
      EpollInstance K H
      → K.State × Option ℕ
      → (EpollInstance K H → Outcome (EpollInstance K H × Bool))
      → Outcome (EpollInstance K H × Bool)
  after_update ep (k, none) rest = rest (record ep { kernel = k })
  after_update ep (k, some errno) rest =
      thrown (system_error "Failed to update epoll event" errno) (record ep { kernel = k })

  -- What the handler of entry `ptr` does, in order; the flag is m_item_should_be_removed.
  unfoldable pub run_actions :
      ℕ → List Action → EpollInstance K H → Bool → Outcome (EpollInstance K H × Bool)
  unfolding find to_epoll_event remove
  run_actions ptr [] ep should_be_removed = done (ep, should_be_removed)
  run_actions ptr (update_listening_status status ∷ actions) ep should_be_removed =
      elim (find ptr ep.listeners) [
        | none ↦ use_after_free
        | some e ↦
            after_update ep (K.ctl_mod ep.kernel e.fd (to_epoll_event status) ptr)
              (λ ep'. run_actions ptr actions ep' should_be_removed)
      ]
  run_actions ptr (stop_listening ∷ actions) ep should_be_removed = run_actions ptr actions ep true
  run_actions ptr (remove_listener id ∷ actions) ep should_be_removed =
      run_actions ptr actions (remove K H ep id) should_be_removed

  -- Behind `process`: the removal of an entry that asked for it.
  abbrev pub after_process : ℕ → Outcome (EpollInstance K H × Bool) → Outcome (EpollInstance K H)
  after_process ptr use_after_free = use_after_free
  after_process ptr (thrown e ep) = thrown e ep
  after_process ptr (done (ep, false)) = done ep
  after_process ptr (done (ep, true)) = elim (find ptr ep.listeners) [
    | none ↦ use_after_free
    | some e ↦ done (destroy K H ep e)
  ]

  module _ (handle : H → ActivityStatus → ℕ → H × List Action) where
    -- The body of the loop over the events.
    unfoldable pub process_event : EpollInstance K H → ℕ × ℕ → Outcome (EpollInstance K H)
    unfolding find set_handler run_actions epoll_event_to_activity_status destroy
    process_event ep (events, ptr) = elim (find ptr ep.listeners) [
      | none ↦ use_after_free
      | some e ↦
          let (h, actions) = handle e.event_handler (epoll_event_to_activity_status events) e.fd in
          after_process ptr (
            run_actions ptr actions (record ep { listeners = set_handler ptr h ep.listeners })
              false)
    ]

    abbrev pub then_dispatch :
        (EpollInstance K H → Outcome (EpollInstance K H))
        → Outcome (EpollInstance K H)
        → Outcome (EpollInstance K H)
    then_dispatch rest (done ep) = rest ep
    then_dispatch rest (thrown e ep) = thrown e ep
    then_dispatch rest use_after_free = use_after_free

    -- The loop over the events that epoll_wait has filled in.
    unfoldable pub dispatch : List (ℕ × ℕ) → EpollInstance K H → Outcome (EpollInstance K H)
    unfolding process_event
    dispatch [] ep = done ep
    dispatch (item ∷ events) ep = then_dispatch (dispatch events) (process_event ep item)

    -- epoll_wait failed with an errno other than EINTR, or has filled in the events.
    pub data Waited : Type 0 where
      failed : ℕ → Waited
      ready : List (ℕ × ℕ) → Waited

    unfoldable pub wait_for_and_distpatch_events :
        Waited → EpollInstance K H → Outcome (EpollInstance K H)
    unfolding dispatch
    wait_for_and_distpatch_events (failed errno) ep =
        thrown (system_error "Failed to wait for events" errno) ep
    wait_for_and_distpatch_events (ready events) ep = dispatch events ep

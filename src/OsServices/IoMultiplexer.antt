-- ===== src/OsServices/IoMultiplexer.antt =====
-- src/os_services/io_multiplexer/epoll_instance.hpp and epoll_instance.cpp. The kernel's interest
-- list is an interface. The pointer to an entry that the kernel keeps is given by the entry's id:
-- it dangles when no listener has that id. A native handle is a number from zero on.
pub mod Lifetime
pub mod Listeners
pub mod Invariant
pub mod Loop
pub mod Handling
pub mod Dispatch
pub mod Undo
pub mod Pending
pub mod Transaction
pub mod Added
pub mod Chain
pub mod Table
mod Tests
use Prim.Native.Nat.{bit_and, bit_or}
use the_pipe.Base.{
  ℕ, ◌+◌, ◌%◌, ◌^◌, ◌≡◌, Bool, true, false, not, ◌&&◌, Option, none, some, List, [], ◌∷◌, ◌++◌,
  ◌==◌, if◌then◌else◌, String,
}
use the_pipe.Base.Results.{Error, runtime_error, system_error, Result, ok, err}
use the_pipe.OsServices.Fd.Activity.{ActivityStatus, EventHandlerId, next}

abbrev pub epollin : ℕ
epollin = 0x1

abbrev pub epollout : ℕ
epollout = 0x4

unfoldable pub to_epoll_event : ActivityStatus → ℕ
to_epoll_event ActivityStatus.none = 0
to_epoll_event ActivityStatus.read = epollin
to_epoll_event ActivityStatus.write = epollout
to_epoll_event ActivityStatus.read_or_write = bit_or epollin epollout

unfoldable pub epoll_event_to_activity_status : ℕ → ActivityStatus
epoll_event_to_activity_status event =
    let has = λ (flag : ℕ). not (bit_and event flag == 0) in
    if has epollin && has epollout
    then ActivityStatus.read_or_write
    else (if has epollin
        then ActivityStatus.read
        else (if has epollout then ActivityStatus.write else ActivityStatus.none))

-- epoll_ctl and close: the interest list gives for a descriptor its events and its entry. A call
-- returns the errno of its failure. A closed descriptor leaves the list, since it is not shared
-- with a duplicate. `stays_open` says of a descriptor that it is one of a process to which the
-- signal of its deleter can not be sent.
pub record Kernel : Type 1 where
  pub State : Type 0
  pub interest : State → ℕ → Option (ℕ × ℕ)
  pub ctl_add : State → ℕ → ℕ → ℕ → State × Option ℕ
  pub ctl_mod : State → ℕ → ℕ → ℕ → State × Option ℕ
  pub ctl_del : State → ℕ → State
  pub close : State → ℕ → State
  pub stays_open : State → ℕ → Bool
  pub ctl_add-done :
      (k : State) (fd events ptr g : ℕ)
      → (ctl_add k fd events ptr).1 ≡ none
      → interest (ctl_add k fd events ptr).0 g
        ≡ (if fd == g then some (events, ptr) else interest k g)
  pub ctl_add-failed :
      (k : State) (fd events ptr g errno : ℕ)
      → (ctl_add k fd events ptr).1 ≡ some errno
      → interest (ctl_add k fd events ptr).0 g ≡ interest k g
  pub ctl_mod-done :
      (k : State) (fd events ptr g : ℕ)
      → (ctl_mod k fd events ptr).1 ≡ none
      → interest (ctl_mod k fd events ptr).0 g
        ≡ (if fd == g then some (events, ptr) else interest k g)
  pub ctl_mod-failed :
      (k : State) (fd events ptr g errno : ℕ)
      → (ctl_mod k fd events ptr).1 ≡ some errno
      → interest (ctl_mod k fd events ptr).0 g ≡ interest k g
  pub ctl_del-interest :
      (k : State) (fd g : ℕ) → interest (ctl_del k fd) g ≡ (if fd == g then none else interest k g)
  pub close-interest :
      (k : State) (fd g : ℕ) → interest (close k fd) g ≡ (if fd == g then none else interest k g)

-- epoll_entry_data_impl: the entry owns its descriptor.
pub record Entry (H : Type 0) : Type 0 where
  pub id : ℕ
  pub fd : ℕ
  pub event_handler : H

-- What a handler does through the event that it is given, and on the epoll instance itself.
pub data Action : Type 0 where
  update_listening_status : ActivityStatus → Action
  stop_listening : Action
  remove_listener : ℕ → Action

module _ {H : Type 0} where
  -- m_listeners.find
  unfoldable pub find : ℕ → List (Entry H) → Option (Entry H)
  find i [] = none
  find i (e ∷ es) = if e.id == i then some e else find i es

  -- m_listeners.erase
  unfoldable pub erase : ℕ → List (Entry H) → List (Entry H)
  erase i [] = []
  erase i (e ∷ es) = let rest = erase i es in if e.id == i then rest else e ∷ rest

  -- The handler of an entry has changed its own state.
  unfoldable pub set_handler : ℕ → H → List (Entry H) → List (Entry H)
  set_handler i h [] = []
  set_handler i h (e ∷ es) =
      (if e.id == i then record e { event_handler = h } else e) ∷ set_handler i h es

module _ (K : Kernel) (H : Type 0) where
  pub record EpollInstance : Type 0 where
    pub kernel : K.State
    pub listeners : List (Entry H)
    pub current_id : EventHandlerId

  -- The deleter of a descriptor that an entry owns: it closes the descriptor, but that of a process
  -- returns without closing when its signal fails.
  abbrev pub delete_fd : K.State → ℕ → K.State
  delete_fd k fd = if K.stays_open k fd then k else K.close k fd

  -- m_listeners.erase destroys the entry, and with it the owner of its descriptor.
  unfoldable pub destroy : EpollInstance → Entry H → EpollInstance
  unfolding erase
  destroy ep e = record ep {
    kernel = delete_fd ep.kernel e.fd;
    listeners = erase e.id ep.listeners;
  }

  -- Behind `emplace`: epoll_ctl, and the removal of the entry if that fails.
  abbrev pub watch : EpollInstance → Entry H → K.State × Option ℕ → Result ℕ × EpollInstance
  watch ep e (k, none) = (ok e.id, record ep { kernel = k; listeners = e ∷ ep.listeners })
  watch ep e (k, some errno) = (
    err (system_error "Failed to add file descriptor to epoll instance" errno),
    destroy (record ep { kernel = k; listeners = e ∷ ep.listeners }) e,
  )

  -- If the id is taken, the owner that was moved into the call ends.
  unfoldable pub add : EpollInstance → ℕ → ActivityStatus → H → Result ℕ × EpollInstance
  unfolding find next to_epoll_event destroy
  add ep fd_to_watch initial_listen_status eh =
      let (id, current_id) = next ep.current_id in
      let e : Entry H = record { id = id.value; fd = fd_to_watch; event_handler = eh } in
      elim (find id.value ep.listeners) [
        | some taken ↦ (
          err (runtime_error "File descriptor already added"),
          record ep { kernel = delete_fd ep.kernel fd_to_watch; current_id = current_id },
        )
        | none ↦
            watch (record ep { current_id = current_id }) e
              (K.ctl_add ep.kernel fd_to_watch (to_epoll_event initial_listen_status) id.value)
      ]

  unfoldable pub remove : EpollInstance → ℕ → EpollInstance
  unfolding find destroy
  remove ep id = elim (find id ep.listeners) [
    | none ↦ ep
    | some e ↦ destroy (record ep { kernel = K.ctl_del ep.kernel e.fd }) e
  ]

  -- config_transaction: the ids in `m_added_ids`.
  pub record ConfigTransaction : Type 0 where
    pub monitor : EpollInstance
    pub added_ids : List ℕ

  abbrev pub note_added :
      ConfigTransaction → Result ℕ × EpollInstance → Result ConfigTransaction × ConfigTransaction
  note_added t (ok id, ep) =
      let t' : ConfigTransaction = record { monitor = ep; added_ids = t.added_ids ++ id ∷ [] } in
      (ok t', t')
  note_added t (err e, ep) = (err e, record t { monitor = ep })

  -- `add` of the transaction: the exception of the inner `add` passes through.
  unfoldable pub transaction_add :
      ConfigTransaction → ℕ → ActivityStatus → H → Result ConfigTransaction × ConfigTransaction
  unfolding add
  transaction_add t fd_to_watch initial_listen_status eh =
      note_added t (add t.monitor fd_to_watch initial_listen_status eh)

  unfoldable pub commit : ConfigTransaction → ConfigTransaction
  commit t = record t { added_ids = [] }

  -- The loop of the destructor.
  unfoldable pub remove_all : List ℕ → EpollInstance → EpollInstance
  unfolding remove
  remove_all [] ep = ep
  remove_all (item ∷ ids) ep = remove_all ids (remove ep item)

  -- The destructor.
  unfoldable pub close_transaction : ConfigTransaction → EpollInstance
  unfolding remove_all
  close_transaction t = remove_all t.added_ids t.monitor

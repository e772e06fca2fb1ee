-- ===== src/OsServices/IoMultiplexer/Listeners.antt =====
-- The map of listeners, and the status of an event.
use Prim.Native.Nat.{bit_and}
use the_pipe.Base.{
  ℕ, ◌≡◌, refl, not, Option, none, some, List, [], ◌∷◌, ◌==◌, ==_iff, if◌then◌else◌, arith,
  Bool-cases, inl, inr,
}
use the_pipe.OsServices.Fd.Activity.{ActivityStatus, can_read, can_write}
use the_pipe.OsServices.IoMultiplexer.{
  epollin, epollout, to_epoll_event, epoll_event_to_activity_status, Entry, find, erase,
  set_handler,
}

pub to_epoll_event_back :
    (status : ActivityStatus) → epoll_event_to_activity_status (to_epoll_event status) ≡ status
unfolding epoll_event_to_activity_status to_epoll_event
to_epoll_event_back ActivityStatus.none = refl
to_epoll_event_back ActivityStatus.read = refl
to_epoll_event_back ActivityStatus.write = refl
to_epoll_event_back ActivityStatus.read_or_write = refl

-- A status survives the way through the flags of epoll, and whatever flags arrive, reading is
-- possible exactly if the flag EPOLLIN is set, and writing exactly if EPOLLOUT is set.
pub epoll_event_to_activity_status_lem :
    (status : ActivityStatus) (event : ℕ)
    → (epoll_event_to_activity_status (to_epoll_event status) ≡ status)
      × (can_read (epoll_event_to_activity_status event) ≡ not (bit_and event epollin == 0))
      × (can_write (epoll_event_to_activity_status event) ≡ not (bit_and event epollout == 0))
unfolding epoll_event_to_activity_status can_read can_write
epoll_event_to_activity_status_lem status event = elim (Bool-cases (bit_and event epollin == 0)) [
  | inl a ↦ elim (Bool-cases (bit_and event epollout == 0)) [
    | inl b ↦ (to_epoll_event_back status, rw (a, b), rw (a, b))
    | inr b ↦ (to_epoll_event_back status, rw (a, b), rw (a, b))
  ]
  | inr a ↦ elim (Bool-cases (bit_and event epollout == 0)) [
    | inl b ↦ (to_epoll_event_back status, rw (a, b), rw (a, b))
    | inr b ↦ (to_epoll_event_back status, rw (a, b), rw (a, b))
  ]
]

module _ {H : Type 0} where
  pub find-erase :
      (i j : ℕ) (es : List (Entry H)) → find j (erase i es) ≡ (if i == j then none else find j es)
  unfolding find erase
  find-erase i j [] = ground arith
  find-erase i j (e ∷ es) = ground (arith, find-erase i j es)

  -- The entry under an id has that id.
  pub find-id : (i : ℕ) (es : List (Entry H)) (e : Entry H) → find i es ≡ some e → e.id ≡ i
  unfolding find
  find-id i [] e h = cc
  find-id i (x ∷ es) e h = elim (Bool-cases (x.id == i)) [
    | inl same ↦ ground (arith, h, ==_iff x.id i)
    | inr other ↦ find-id i es e (rw other at h)
  ]

  -- The descriptor of the entry under an id.
  unfoldable pub fd_of : ℕ → List (Entry H) → Option ℕ
  fd_of i [] = none
  fd_of i (e ∷ es) = if e.id == i then some e.fd else fd_of i es

  pub fd_of-find :
      (i : ℕ) (es : List (Entry H)) (e : Entry H) → find i es ≡ some e → fd_of i es ≡ some e.fd
  unfolding find fd_of
  fd_of-find i [] e h = cc
  fd_of-find i (x ∷ es) e h = ground (arith, fd_of-find i es e)

  pub fd_of-find_none : (i : ℕ) (es : List (Entry H)) → find i es ≡ none → fd_of i es ≡ none
  unfolding find fd_of
  fd_of-find_none i [] h = refl
  fd_of-find_none i (x ∷ es) h = ground (arith, fd_of-find_none i es)

  -- The entry behind a descriptor that is known.
  pub find-fd_of :
      (i fd : ℕ) (es : List (Entry H))
      → fd_of i es ≡ some fd
      → (e : Entry H) × (find i es ≡ some e) × (e.fd ≡ fd) × (e.id ≡ i)
  unfolding find fd_of
  find-fd_of i fd [] h = cc
  find-fd_of i fd (x ∷ es) h = elim (Bool-cases (x.id == i)) [
    | inl same ↦ (x, rw same refl, ground (arith, h), (==_iff x.id i).0 same)
    | inr other ↦ let (e, f, g, k) = find-fd_of i fd es (rw other at h) in (e, rw other f, g, k)
  ]

  pub fd_of-erase :
      (i j : ℕ) (es : List (Entry H)) → fd_of j (erase i es) ≡ (if i == j then none else fd_of j es)
  unfolding fd_of erase
  fd_of-erase i j [] = ground arith
  fd_of-erase i j (e ∷ es) = ground (arith, fd_of-erase i j es)

  pub fd_of-set_handler :
      (i j : ℕ) (h : H) (es : List (Entry H)) → fd_of j (set_handler i h es) ≡ fd_of j es
  unfolding fd_of set_handler
  fd_of-set_handler i j h [] = refl
  fd_of-set_handler i j h (e ∷ es) = ground (arith, fd_of-set_handler i j h es)

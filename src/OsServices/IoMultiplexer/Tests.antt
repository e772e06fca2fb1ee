-- ===== src/OsServices/IoMultiplexer/Tests.antt =====
-- An epoll instance with two listeners, and runs.
use the_pipe.Base.{
  ℕ, suc, ◌≡◌, refl, some, List, [], ◌∷◌, ◌==◌, if◌then◌else◌, arith, Bool-cases, inl, inr,
}
use the_pipe.OsServices.Fd.Activity.{ActivityStatus}
use the_pipe.OsServices.IoMultiplexer.{
  EpollInstance, add, Action, update_listening_status, stop_listening, remove_listener,
  close_transaction, commit,
}
use the_pipe.OsServices.IoMultiplexer.Loop.{done, dispatch, use_after_free}
use the_pipe.OsServices.IoMultiplexer.Handling.{ActsWithin, Ends}
use the_pipe.OsServices.IoMultiplexer.Listeners.{fd_of}
use the_pipe.OsServices.IoMultiplexer.Invariant.{Closes, IsConsistent, add-IsConsistent}
use the_pipe.OsServices.IoMultiplexer.Dispatch.{
  dispatch-Ends, dispatch-use_after_free, dispatch-dangling,
}
use the_pipe.OsServices.IoMultiplexer.Pending.{IsUnchanged}
use the_pipe.OsServices.IoMultiplexer.Transaction.{close_transaction_lem, adds, begin}
use the_pipe.OsServices.IoMultiplexer.Table.{table_kernel, empty, empty-IsConsistent}

-- Listener 0 on descriptor 5.
abbrev one : EpollInstance table_kernel ℕ
one = (add table_kernel ℕ empty 5 ActivityStatus.read 100).1

add-IsConsistent_example : IsConsistent table_kernel ℕ one
add-IsConsistent_example =
    add-IsConsistent table_kernel ℕ empty 5 ActivityStatus.read 100 empty-IsConsistent refl
      (omega arith)

-- Listener 1 on descriptor 6 as well.
abbrev two : EpollInstance table_kernel ℕ
two = (add table_kernel ℕ one 6 ActivityStatus.write 200).1

two-IsConsistent : IsConsistent table_kernel ℕ two
unfolding add
two-IsConsistent =
    add-IsConsistent table_kernel ℕ one 6 ActivityStatus.write 200 add-IsConsistent_example refl
      (omega arith)

-- The handler counts, changes what it listens to, and removes listener 7, and itself if it is not
-- that of descriptor 13.
abbrev count_and_stop : ℕ → ActivityStatus → ℕ → ℕ × List Action
count_and_stop h status fd = (
  suc h,
  update_listening_status ActivityStatus.write
      ∷ remove_listener 7
      ∷ (if fd == 13 then [] else stop_listening ∷ []),
)

abbrev Seven : ℕ → Type 0
Seven id = id ≡ 7

count_and_stop-ActsWithin :
    (h : ℕ) (status : ActivityStatus) (g : ℕ)
    → ActsWithin Seven (Closes table_kernel ℕ g) (count_and_stop h status g).1
count_and_stop-ActsWithin h status g = elim (Bool-cases (g == 13)) [
  | inl pidfd ↦ rw pidfd (refl, tt)
  | inr other ↦ rw other (refl, ((λ k. other), tt))
]

dispatch-Ends_example :
    Ends table_kernel ℕ
      (IsConsistent table_kernel ℕ)
      (dispatch table_kernel ℕ count_and_stop ((4, 1) ∷ (1, 0) ∷ []) two)
unfolding add fd_of
dispatch-Ends_example =
    dispatch-Ends Seven count_and_stop ((4, 1) ∷ (1, 0) ∷ []) two count_and_stop-ActsWithin
      two-IsConsistent
      (
        (6, refl),
        (λ e. absurd (omega arith)),
        ((λ e. absurd (omega arith)), tt),
        ((5, refl), (λ e. absurd (omega arith)), tt, tt),
      )

-- The handler removes listener 0, whose event is the next one.
dispatch-use_after_free_example :
    dispatch table_kernel ℕ (λ h status fd. (h, remove_listener 0 ∷ [])) ((4, 1) ∷ (1, 0) ∷ []) two
    ≡ use_after_free
unfolding add
dispatch-use_after_free_example =
    dispatch-use_after_free (λ h status fd. (h, remove_listener 0 ∷ [])) two
      (record { id = 1; fd = 6; event_handler = 200 }) 4 1 1 0 [] refl refl

-- Listener 1 on descriptor 13, to whose process no signal can be sent.
abbrev with_pidfd : EpollInstance table_kernel ℕ
with_pidfd = (add table_kernel ℕ one 13 ActivityStatus.read 300).1

with_pidfd-IsConsistent : IsConsistent table_kernel ℕ with_pidfd
unfolding add
with_pidfd-IsConsistent =
    add-IsConsistent table_kernel ℕ one 13 ActivityStatus.read 300 add-IsConsistent_example refl
      (omega arith)

abbrev stop : ℕ → ActivityStatus → ℕ → ℕ × List Action
stop h status fd = (h, stop_listening ∷ [])

dispatch-dangling_example :
    (ep' : EpollInstance table_kernel ℕ) × (dispatch table_kernel ℕ stop ((1, 1) ∷ []) with_pidfd
      ≡ done ep')
    × ((kept : ℕ) × (ep'.kernel 13 ≡ some (kept, 1)))
    × ((events' : ℕ) (rest : List (ℕ × ℕ))
        → dispatch table_kernel ℕ stop ((events', 1) ∷ rest) ep' ≡ use_after_free)
unfolding add
dispatch-dangling_example =
    dispatch-dangling stop with_pidfd (record { id = 1; fd = 13; event_handler = 300 }) 1 1 refl
      refl refl with_pidfd-IsConsistent

-- The second addition fails.
abbrev items : List (ℕ × ActivityStatus × ℕ)
items =
    (7, ActivityStatus.read, 1) ∷ (9, ActivityStatus.read, 2) ∷ (8, ActivityStatus.write, 3) ∷ []

close_transaction_lem_example :
    (IsUnchanged two (close_transaction table_kernel ℕ (adds items (begin two)))
      × IsConsistent table_kernel ℕ (close_transaction table_kernel ℕ (adds items (begin two))))
    × (close_transaction table_kernel ℕ (commit table_kernel ℕ (adds items (begin two)))
        ≡ (adds items (begin two)).monitor)
unfolding add
close_transaction_lem_example =
    close_transaction_lem items two two-IsConsistent
      (
        refl,
        ((λ e. absurd (omega arith)), ((λ e. absurd (omega arith)), tt)),
        (refl, ((λ e. absurd (omega arith)), tt), (refl, tt, tt)),
      )
      (omega arith)

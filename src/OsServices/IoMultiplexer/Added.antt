-- ===== src/OsServices/IoMultiplexer/Added.antt =====
-- What an addition that succeeds, alone or in a transaction, leaves behind.
use the_pipe.Base.{ℕ, ◌+◌, ◌%◌, ◌^◌, ◌≡◌, refl, sym, ◌∙◌, ap, Option, none, some, arith}
use the_pipe.Base.Results.{ok}
use the_pipe.OsServices.Fd.Activity.{ActivityStatus, next}
use the_pipe.OsServices.IoMultiplexer.{
  Kernel, Entry, EpollInstance, watch, add, to_epoll_event, ConfigTransaction, note_added,
  transaction_add,
}
use the_pipe.OsServices.IoMultiplexer.Invariant.{IsConsistent, absent, HasIds}

module _ {K : Kernel} {H : Type 0} where
  -- The kernel watches the descriptor for what is to be listened to.
  abbrev pub Watches : EpollInstance K H → ℕ → ActivityStatus → Type 0
  Watches ep fd status = (id : ℕ) × (K.interest ep.kernel fd ≡ some (to_epoll_event status, id))

  watch-Watches :
      (t : ConfigTransaction K H) (fd : ℕ) (status : ActivityStatus) (h : H)
      (r : K.State × Option ℕ) (t' : ConfigTransaction K H)
      → K.ctl_add t.monitor.kernel fd (to_epoll_event status) t.monitor.current_id.value ≡ r
      → let ep' : EpollInstance K H = record t.monitor {
        current_id = record { value = t.monitor.current_id.value + 1 };
      } in
        let e : Entry H = record { id = t.monitor.current_id.value; fd = fd; event_handler = h } in
        (note_added K H t (watch K H ep' e r)).0 ≡ ok t'
        → Watches (note_added K H t (watch K H ep' e r)).1.monitor fd status
  watch-Watches t fd status h (k, none) t' e success = (
    t.monitor.current_id.value,
    ap (λ (s : K.State × Option ℕ). K.interest s.0 fd) (sym e)
        ∙ K.ctl_add-done t.monitor.kernel fd (to_epoll_event status) t.monitor.current_id.value fd
            (ap (λ (s : K.State × Option ℕ). s.1) e)
        ∙ ground arith,
  )
  watch-Watches t fd status h (k, some errno) t' e success = cc

  -- A descriptor that was added is watched.
  pub transaction_add-Watches :
      (t : ConfigTransaction K H) (fd : ℕ) (status : ActivityStatus) (h : H)
      (t' : ConfigTransaction K H)
      → IsConsistent K H t.monitor
      → HasIds K H t.monitor 1
      → (transaction_add K H t fd status h).0 ≡ ok t'
      → Watches (transaction_add K H t fd status h).1.monitor fd status
  unfolding transaction_add add next
  transaction_add-Watches t fd status h t' c ids success =
      let step : (t.monitor.current_id.value + 1) % 2 ^ 64 ≡ t.monitor.current_id.value + 1 =
        omega arith in
      rw (absent K H t.monitor c, transaction_add, add, step)
        (watch-Watches t fd status h _ t' refl
          (rw (absent K H t.monitor c, transaction_add, add, step) at success))

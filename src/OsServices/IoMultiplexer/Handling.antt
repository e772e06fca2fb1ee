-- ===== src/OsServices/IoMultiplexer/Handling.antt =====
-- The handling of one event: no dangling entry is used, and other listeners stay.
use the_pipe.Base.{
  ℕ, ◌≡◌, refl, sym, ◌∙◌, Bool, true, false, Option, none, some, List, [], ◌∷◌, ◌==◌, ==_iff,
  if◌then◌else◌, arith, Bool-cases, Option-cases, inl, inr, ap, subst,
}
use the_pipe.OsServices.IoMultiplexer.{
  Kernel, find, EpollInstance, destroy, remove, to_epoll_event, Action, update_listening_status,
  stop_listening, remove_listener,
}
use the_pipe.OsServices.IoMultiplexer.Loop.{
  Outcome, done, thrown, use_after_free, after_update, run_actions, after_process,
}
use the_pipe.OsServices.IoMultiplexer.Listeners.{fd_of, find-fd_of, find-id, fd_of-erase}
use the_pipe.OsServices.IoMultiplexer.Invariant.{
  Closes, keep, relink, IsConsistent, destroy-IsConsistent, remove-IsConsistent,
}

-- A handler removes no other ids than the ones that may be removed, and stops listening only if it
-- may.
abbrev pub ActsWithin : (ℕ → Type 0) → Type 0 → List Action → Type 0
ActsWithin R S [] = Unit
ActsWithin R S (update_listening_status status ∷ actions) = ActsWithin R S actions
ActsWithin R S (stop_listening ∷ actions) = S × ActsWithin R S actions
ActsWithin R S (remove_listener id ∷ actions) = R id × ActsWithin R S actions

module _ (K : Kernel) (H : Type 0) where
  -- The handling ends without the use of a dangling entry, and in agreement with the kernel.
  abbrev pub Ends : {A : Type 0} → (A → Type 0) → Outcome K H A → Type 0
  Ends P (done x) = P x
  Ends P (thrown e ep) = IsConsistent K H ep
  Ends P use_after_free = ⊥

  -- Listeners that may not be removed, other than those that are set apart, have stayed.
  abbrev pub Stays : (ℕ → Type 0) → EpollInstance K H → EpollInstance K H → Type 0
  Stays R before after =
      IsConsistent K H after
      × ((j : ℕ) → ¬ R j → fd_of j after.listeners ≡ fd_of j before.listeners)

  -- The same, where the entry with descriptor `fd` is to be removed only if its deleter closes it.
  abbrev pub Acted : (ℕ → Type 0) → ℕ → EpollInstance K H → EpollInstance K H × Bool → Type 0
  Acted R fd before (after, should_be_removed) =
      Stays R before after × (should_be_removed ≡ true → Closes K H fd)

still :
    (R : ℕ → Type 0) (id j : ℕ) (x : Option ℕ) → R id → ¬ R j → (if id == j then none else x) ≡ x
still R id j x r kept = elim (Bool-cases (id == j)) [
  | inl same ↦ absurd (kept (subst R ((==_iff id j).0 same) r))
  | inr other ↦ rw other refl
]

other : (id j : ℕ) (x : Option ℕ) → ¬ (id ≡ j) → (if id == j then none else x) ≡ x
other id j x n = elim (Bool-cases (id == j)) [
  | inl same ↦ absurd (n ((==_iff id j).0 same))
  | inr differ ↦ rw differ refl
]

module _ {K : Kernel} {H : Type 0} (R : ℕ → Type 0) where
  remove-Stays :
      (ep : EpollInstance K H) (id : ℕ)
      → R id
      → IsConsistent K H ep
      → Stays K H R ep (remove K H ep id)
  unfolding remove destroy
  remove-Stays ep id r c = (
    remove-IsConsistent K H ep id c,
    λ j kept. elim (Option-cases (find id ep.listeners)) [
      | inl missing ↦ rw (missing, remove) refl
      | inr (e, h) ↦
          let same = find-id id ep.listeners e h in
          rw (h, remove)
            (fd_of-erase e.id j ep.listeners
              ∙ still R e.id j (fd_of j ep.listeners) (subst R (sym same) r) kept)
    ],
  )

  after_update-Ends :
      (ptr own_fd : ℕ) (actions : List Action) (ep : EpollInstance K H) (fd events : ℕ)
      (r : K.State × Option ℕ) (rest : EpollInstance K H → Outcome K H (EpollInstance K H × Bool))
      → IsConsistent K H ep
      → fd_of ptr ep.listeners ≡ some fd
      → K.ctl_mod ep.kernel fd events ptr ≡ r
      → ((k : K.State)
          → IsConsistent K H (record ep { kernel = k })
          → Ends K H (Acted K H R own_fd ep) (rest (record ep { kernel = k })))
      → Ends K H (Acted K H R own_fd ep) (after_update K H ep r rest)
  after_update-Ends ptr own_fd actions ep fd events (k, none) rest c live e go = go k (
      relink c _ ptr fd events live (λ g.
        ap (λ (s : K.State × Option ℕ). K.interest s.0 g) (sym e)
        ∙ K.ctl_mod-done ep.kernel fd events ptr g (ap (λ (s : K.State × Option ℕ). s.1) e)))
  after_update-Ends ptr own_fd actions ep fd events (k, some errno) rest c live e go =
      keep c _ _ ep.current_id.value (omega arith) (λ j. refl)
        (λ g.
          ap (λ (s : K.State × Option ℕ). K.interest s.0 g) (sym e)
          ∙ K.ctl_mod-failed ep.kernel fd events ptr g errno
              (ap (λ (s : K.State × Option ℕ). s.1) e))

  pub Ends-mono :
      {A : Type 0} {P Q : A → Type 0} (o : Outcome K H A)
      → ((x : A) → P x → Q x)
      → Ends K H P o
      → Ends K H Q o
  Ends-mono (done x) f h = f x h
  Ends-mono (thrown e ep) f h = h
  Ends-mono use_after_free f h = h

  pub run_actions-Ends :
      (ptr fd : ℕ) (actions : List Action) (ep : EpollInstance K H) (flag : Bool)
      → ¬ R ptr
      → ActsWithin R (Closes K H fd) actions
      → (flag ≡ true → Closes K H fd)
      → fd_of ptr ep.listeners ≡ some fd
      → IsConsistent K H ep
      → Ends K H (Acted K H R fd ep) (run_actions K H ptr actions ep flag)
  unfolding run_actions
  run_actions-Ends ptr fd [] ep flag own only may live c = ((c, λ j k. refl), may)
  run_actions-Ends ptr fd (update_listening_status status ∷ actions) ep flag own only may live c =
      let (e, f, g, k) = find-fd_of ptr fd ep.listeners live in
      rw (f, run_actions)
        (after_update-Ends ptr fd actions ep e.fd (to_epoll_event status) _ _ c (rw g live) refl
          (λ k' c'.
            run_actions-Ends ptr fd actions (record ep { kernel = k' }) flag own only may live c'))
  run_actions-Ends ptr fd (stop_listening ∷ actions) ep flag own (stop, only) may live c =
      run_actions-Ends ptr fd actions ep true own only (λ h. stop) live c
  run_actions-Ends ptr fd (remove_listener id ∷ actions) ep flag own (r, only) may live c =
      let (c', s) = remove-Stays ep id r c in
      Ends-mono (run_actions K H ptr actions (remove K H ep id) flag)
        (λ x h. ((h.0.0, λ j k. h.0.1 j k ∙ s j k), h.1))
        (run_actions-Ends ptr fd actions (remove K H ep id) flag own only may (s ptr own ∙ live) c')

  -- Listeners other than that of the event stay as well, unless they may be removed.
  abbrev pub Leaves : ℕ → EpollInstance K H → EpollInstance K H → Type 0
  Leaves ptr before after =
      IsConsistent K H after
      × ((j : ℕ) → ¬ R j → ¬ (j ≡ ptr) → fd_of j after.listeners ≡ fd_of j before.listeners)

  pub after_process-Ends :
      (ptr fd : ℕ) (ep : EpollInstance K H) (o : Outcome K H (EpollInstance K H × Bool))
      → ¬ R ptr
      → fd_of ptr ep.listeners ≡ some fd
      → Ends K H (Acted K H R fd ep) o
      → Ends K H (Leaves ptr ep) (after_process K H ptr o)
  unfolding destroy
  after_process-Ends ptr fd ep use_after_free own live h = h
  after_process-Ends ptr fd ep (thrown e ep') own live h = h
  after_process-Ends ptr fd ep (done (ep', false)) own live h = (h.0.0, λ j k n. h.0.1 j k)
  after_process-Ends ptr fd ep (done (ep', true)) own live h =
      let (e, f, g, k) = find-fd_of ptr fd ep'.listeners (h.0.1 ptr own ∙ live) in
      rw (f, Ends)
        (
          destroy-IsConsistent K H ep' ptr e h.0.0 f (rw g (h.1 refl ep'.kernel)),
          λ j r n.
              fd_of-erase e.id j ep'.listeners
              ∙ other e.id j (fd_of j ep'.listeners) (λ same. n (sym same ∙ k))
              ∙ h.0.1 j r,
        )

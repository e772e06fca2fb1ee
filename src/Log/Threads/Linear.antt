-- ===== src/Log/Threads/Linear.antt =====
-- The threads of src/log run as if each operation were one step.
use the_pipe.Base.{
  update, ℕ, ◌≡◌, refl, sym, ap, ◌∙◌, ◌==◌, ==_iff, true, false, List, [], ◌∷◌, ◌++◌, Bool-cases,
  inl, inr,
}
use mathlib.Core.List.{append_assoc, append-nil}
use the_pipe.Log.{LogState}
use the_pipe.Log.Threads.{is_idle, idle, Operation, Thread, System, Step, Reach}
use the_pipe.Log.Threads.Serial.{replay, own}
use the_pipe.Log.Threads.Invariant.{Status, owner, Step-Status}

module _ (W : Type 0) where
  -- What a thread was given is what has ended of it, and then what is left.
  abbrev pub Ordered : (ℕ → List (Operation W)) → System W → Type 0
  Ordered programs s = (j : ℕ) → programs j ≡ own W j s.history ++ (s.threads j).program

  unchanged :
      (threads : ℕ → Thread W) (i j : ℕ) (t : Thread W)
      → t.program ≡ (threads i).program
      → (update threads i t j).program ≡ (threads j).program
  unchanged threads i j t h = elim (Bool-cases (i == j)) [
    | inl same ↦ rw same (h ∙ ap (λ (k : ℕ). (threads k).program) ((==_iff i j).0 same))
    | inr apart ↦ rw apart refl
  ]

  pub Step-Ordered :
      (programs : ℕ → List (Operation W)) (i : ℕ) (s t : System W)
      → Ordered programs s
      → Step W s i t
      → Ordered programs t
  Step-Ordered programs i s _ o (Step.lock op rest p q l) j =
      o j ∙ ap (λ x. own W j s.history ++ x) (sym (unchanged s.threads i j _ refl))
  Step-Ordered programs i s _ o (Step.exchange_enter cfg rest p q) j =
      o j ∙ ap (λ x. own W j s.history ++ x) (sym (unchanged s.threads i j _ refl))
  Step-Ordered programs i s _ o (Step.exchange_leave c outer rest p q e) j =
      o j ∙ ap (λ x. own W j s.history ++ x) (sym (unchanged s.threads i j _ refl))
  Step-Ordered programs i s _ o (Step.now severity message rest p q) j =
      o j ∙ ap (λ x. own W j s.history ++ x) (sym (unchanged s.threads i j _ refl))
  Step-Ordered programs i s _ o (Step.write severity message rest when p q) j =
      o j ∙ ap (λ x. own W j s.history ++ x) (sym (unchanged s.threads i j _ refl))
  Step-Ordered programs i s _ o (Step.unlock op rest p q) j = elim (Bool-cases (i == j)) [
    | inl same ↦
        let mine : (s.threads j).program ≡ op ∷ rest =
          ap (λ (k : ℕ). (s.threads k).program) (sym ((==_iff i j).0 same)) ∙ q in
        rw same (
          o j
          ∙ ap (λ x. own W j s.history ++ x) mine
          ∙ sym (append_assoc (own W j s.history) (op ∷ []) rest))
    | inr apart ↦ rw (apart, append-nil (own W j s.history)) (o j)
  ]

  pub Reach-Status :
      (log : LogState W) (programs : ℕ → List (Operation W)) {s : System W}
      → Reach W log programs s
      → Status W (replay W s.history log) s × Ordered programs s
  unfolding replay
  Reach-Status log programs Reach.start = (inl (refl, refl, λ j. (refl, refl)), λ j. refl)
  Reach-Status log programs (Reach.step {s} {t} i r st) =
      let (status, ordered) = Reach-Status log programs r in
      (Step-Status W log i s t status st, Step-Ordered programs i s t ordered st)

  -- At most one thread is within an operation.
  pub Reach-excludes :
      (log : LogState W) (programs : ℕ → List (Operation W)) {s : System W} (i j : ℕ)
      → Reach W log programs s
      → is_idle (s.threads i).pc ≡ false
      → is_idle (s.threads j).pc ≡ false
      → i ≡ j
  Reach-excludes log programs {s} i j r busy other_busy =
      let (status, ordered) = Reach-Status log programs r in
      let (l, inside, others) = owner W (replay W s.history log) s i status busy in
      elim (Bool-cases (i == j)) [
        | inl same ↦ (==_iff i j).0 same
        | inr apart ↦
            (let clash : true ≡ false = sym (ap is_idle (others j apart).0) ∙ other_busy in cc)
      ]

  -- Threads run their operations in any interleaving of the steps. Whenever the mutex is free, the
  -- operations that have ended are for each thread the first ones of its program, in order; the log
  -- and the contexts of every thread are as if these operations had been performed one after the
  -- other, each as one step; and no thread is within an operation.
  pub Reach-serial :
      (log : LogState W) (programs : ℕ → List (Operation W)) {s : System W}
      → Reach W log programs s
      → s.locked ≡ false
      → (s.log ≡ (replay W s.history log).log)
        × ((j : ℕ)
            → (programs j ≡ own W j s.history ++ (s.threads j).program)
              × ((s.threads j).contexts ≡ (replay W s.history log).contexts j)
              × ((s.threads j).pc ≡ idle))
  Reach-serial log programs {s} r free =
      let (status, ordered) = Reach-Status log programs r in
      elim status [
        | inl (unlocked, same, all) ↦ (same, λ j. (ordered j, (all j).1, (all j).0))
        | inr (i, locked, _, _) ↦ (let clash : true ≡ false = sym locked ∙ free in cc)
      ]

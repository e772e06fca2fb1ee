-- ===== src/Log/Threads/Invariant.antt =====
-- What holds in every state that the threads reach: the threads that are not within an operation have
-- the contexts of the operations that have ended, and at most one is within one.
use the_pipe.Base.{
  update, ℕ, ◌≡◌, ◌⊎◌, refl, sym, ap, ◌∙◌, subst, ◌==◌, ==_iff, Bool, true, false, List, [], ◌∷◌,
  String, Bool-cases, inl, inr,
}
use the_pipe.Base.Int.{ℤ}
use the_pipe.Log.{
  Severity, Configuration, LogState, write_message, configure, Context, enter_context,
  leave_context,
}
use the_pipe.Log.Threads.{
  is_idle, Pc, idle, holding, timed, releasing, Operation, enter, leave, say, Thread, System, Step,
}
use the_pipe.Log.Threads.Serial.{Serial, perform, replay, perform-other}

module _ (W : Type 0) where
  -- What a thread that has the mutex has done to the state `a` before its operation.
  abbrev pub Inside :
      Serial W → ℕ → List (Operation W) → Pc → List (Context W) → LogState W → Type 0
  Inside a i (op ∷ rest) holding cs log = (cs ≡ a.contexts i) × (log ≡ a.log)
  Inside a i (say severity message ∷ rest) (timed when) cs log =
      (cs ≡ a.contexts i)
      × (log ≡ record a.log { world = (a.log.log_cfg.now a.log.world).1 })
      × (when ≡ (a.log.log_cfg.now a.log.world).0)
  Inside a i (op ∷ rest) releasing cs log =
      (cs ≡ (perform W i op a).contexts i) × (log ≡ (perform W i op a).log)
  Inside a i (enter cfg ∷ rest) (timed when) cs log = ⊥
  Inside a i (leave ∷ rest) (timed when) cs log = ⊥
  Inside a i (op ∷ rest) idle cs log = ⊥
  Inside a i [] pc cs log = ⊥

  -- No thread has the mutex, or one has it and the others are idle.
  abbrev pub Status : Serial W → System W → Type 0
  Status a s =
      ((s.locked ≡ false)
        × (s.log ≡ a.log)
        × ((j : ℕ) → ((s.threads j).pc ≡ idle) × ((s.threads j).contexts ≡ a.contexts j)))
      ⊎ ((i : ℕ) × (s.locked ≡ true)
          × Inside a i (s.threads i).program (s.threads i).pc (s.threads i).contexts s.log
          × ((j : ℕ)
              → (i == j) ≡ false
              → ((s.threads j).pc ≡ idle) × ((s.threads j).contexts ≡ a.contexts j)))

  self : (i : ℕ) → (i == i) ≡ true
  self i = (==_iff i i).1 refl

  -- The thread at `i` has the mutex, and the others are idle.
  abbrev pub Others : Serial W → (ℕ → Thread W) → ℕ → Type 0
  Others a threads i =
      (j : ℕ) → (i == j) ≡ false → ((threads j).pc ≡ idle) × ((threads j).contexts ≡ a.contexts j)

  pub owner :
      (a : Serial W) (s : System W) (i : ℕ)
      → Status a s
      → is_idle (s.threads i).pc ≡ false
      → (s.locked ≡ true)
        × Inside a i (s.threads i).program (s.threads i).pc (s.threads i).contexts s.log
        × Others a s.threads i
  owner a s i (inl (unlocked, same, all)) busy =
      (let clash : true ≡ false = sym (ap is_idle (all i).0) ∙ busy in cc)
  owner a s i (inr (k, locked, inside, others)) busy = elim (Bool-cases (k == i)) [
    | inl same ↦
        subst
          (λ (x : ℕ).
            (s.locked ≡ true)
            × Inside a x (s.threads x).program (s.threads x).pc (s.threads x).contexts s.log
            × Others a s.threads x)
          ((==_iff k i).0 same) (locked, inside, others)
    | inr apart ↦ (let clash : true ≡ false = sym (ap is_idle (others i apart).0) ∙ busy in cc)
  ]

  -- The thread has made a step within its operation.
  moved :
      (a : Serial W) (threads : ℕ → Thread W) (i : ℕ) (t : Thread W) (log : LogState W)
      (locked : Bool) (history : List (ℕ × Operation W))
      → locked ≡ true
      → Inside a i t.program t.pc t.contexts log
      → Others a threads i
      → Status a
          (record { log = log; locked = locked; threads = update threads i t; history = history })
  moved a threads i t log locked history l inside others =
      inr (i, l, rw (self i) inside, λ j apart. rw apart (others j apart))

  module _ (a : Serial W) (i : ℕ) (program : List (Operation W)) (pc : Pc) (cs : List (Context W))
      (log : LogState W) (rest : List (Operation W)) where
    Inside-enter :
        (cfg : Configuration W)
        → pc ≡ holding
        → program ≡ enter cfg ∷ rest
        → Inside a i program pc cs log
        → Inside a i program releasing
            (record { old_cfg = (configure W cfg log).0 } ∷ cs)
            (configure W cfg log).1
    unfolding perform configure enter_context
    Inside-enter cfg p q h =
        let (own_contexts, same) = rw (q, p) at h in rw (q, own_contexts, same, self i) (refl, refl)

    Inside-leave :
        (c : Context W) (outer : List (Context W))
        → pc ≡ holding
        → program ≡ leave ∷ rest
        → cs ≡ c ∷ outer
        → Inside a i program pc cs log
        → Inside a i program releasing outer (configure W c.old_cfg log).1
    unfolding perform configure leave_context
    Inside-leave c outer p q e h =
        let (own_contexts, same) = rw (q, p) at h in
        let alive : a.contexts i ≡ c ∷ outer = sym own_contexts ∙ e in
        rw (q, same, alive, perform, self i) (refl, refl)

    module _ (severity : Severity) (message : String) where
      Inside-now :
          pc ≡ holding
          → program ≡ say severity message ∷ rest
          → Inside a i program pc cs log
          → Inside a i program
              (timed (log.log_cfg.now log.world).0)
              cs
              (record log { world = (log.log_cfg.now log.world).1 })
      Inside-now p q h =
          let (own_contexts, same) = rw (q, p) at h in rw (q, same) (own_contexts, refl, refl)

      Inside-write :
          (when : ℤ)
          → pc ≡ timed when
          → program ≡ say severity message ∷ rest
          → Inside a i program pc cs log
          → Inside a i program releasing cs (record log {
            world =
                log.log_cfg.write
                  (record { when = when; severity = severity; message = message })
                  log.world;
          })
      unfolding perform write_message
      Inside-write when p q h =
          let (own_contexts, same, time) = rw (q, p) at h in rw (q, same, time) (own_contexts, refl)

  ended :
      (a : Serial W) (threads : ℕ → Thread W) (i : ℕ) (op : Operation W) (rest : List (Operation W))
      (j : ℕ)
      → (threads i).contexts ≡ (perform W i op a).contexts i
      → Others a threads i
      → ((update threads i (record (threads i) { pc = idle; program = rest }) j).pc ≡ idle)
        × ((update threads i (record (threads i) { pc = idle; program = rest }) j).contexts
            ≡ (perform W i op a).contexts j)
  ended a threads i op rest j h others = elim (Bool-cases (i == j)) [
    | inl same ↦
        rw same (refl, h ∙ ap (λ (k : ℕ). (perform W i op a).contexts k) ((==_iff i j).0 same))
    | inr apart ↦
        let (pc, contexts) = others j apart in
        rw apart (pc, contexts ∙ sym (perform-other W i j op a apart))
  ]

  pub Step-Status :
      (log : LogState W) (i : ℕ) (s t : System W)
      → Status (replay W s.history log) s
      → Step W s i t
      → Status (replay W t.history log) t
  unfolding replay
  Step-Status log i s _ (inl (unlocked, same, all)) (Step.lock op rest p q l) =
      inr (i, refl, rw (self i, q) ((all i).1, same), λ j apart. rw apart (all j))
  Step-Status log i s _ (inr (k, locked, _, _)) (Step.lock op rest p q l) =
      (let clash : true ≡ false = sym locked ∙ l in cc)
  Step-Status log i s _ st (Step.exchange_enter cfg rest p q) =
      let a = replay W s.history log in
      let (l, inside, others) = owner a s i st (rw p refl) in
      moved a s.threads i _ _ s.locked s.history l
        (Inside-enter a i (s.threads i).program _ (s.threads i).contexts s.log rest cfg p q inside)
        others
  Step-Status log i s _ st (Step.exchange_leave c outer rest p q e) =
      let a = replay W s.history log in
      let (l, inside, others) = owner a s i st (rw p refl) in
      moved a s.threads i _ _ s.locked s.history l
        (Inside-leave a i (s.threads i).program _ (s.threads i).contexts s.log rest c outer p q e
          inside)
        others
  Step-Status log i s _ st (Step.now severity message rest p q) =
      let a = replay W s.history log in
      let (l, inside, others) = owner a s i st (rw p refl) in
      moved a s.threads i _ _ s.locked s.history l
        (Inside-now a i (s.threads i).program _ (s.threads i).contexts s.log rest severity message p
          q inside)
        others
  Step-Status log i s _ st (Step.write severity message rest when p q) =
      let a = replay W s.history log in
      let (l, inside, others) = owner a s i st (rw p refl) in
      moved a s.threads i _ _ s.locked s.history l
        (Inside-write a i (s.threads i).program _ (s.threads i).contexts s.log rest severity message
          when p q inside)
        others
  Step-Status log i s _ st (Step.unlock op rest p q) =
      let a = replay W s.history log in
      let (l, inside, others) = owner a s i st (rw p refl) in
      let (contexts, same) = rw (q, p) at inside in
      inl (refl, same, λ j. ended a s.threads i op rest j contexts others)

-- ===== src/Log/Threads/Overlap.antt =====
-- Two threads whose contexts of src/log overlap without being nested.
use the_pipe.Base.{ℕ, ◌≡◌, refl, ap, ◌∙◌, false, List, [], ◌∷◌, arith}
use the_pipe.Log.{Configuration, LogState, configure, enter_context, leave_context}
use the_pipe.Log.Threads.{Operation, enter, leave, System, Reach}
use the_pipe.Log.Threads.Serial.{perform, replay}
use the_pipe.Log.Threads.Linear.{Reach-serial}

module _ {W : Type 0} (a b : Configuration W) where
  -- Thread 0 has a context with `a`, thread 1 has one with `b`, and then each ends its own; the last
  -- stands in front.
  abbrev pub overlapping : List (ℕ × Operation W)
  overlapping = (1, leave) ∷ (0, leave) ∷ (1, enter b) ∷ (0, enter a) ∷ []

  replay-overlapping :
      (log : LogState W)
      → ((replay W overlapping log).log ≡ record log { log_cfg = a })
        × ((j : ℕ) → (replay W overlapping log).contexts j ≡ [])
  unfolding replay perform enter_context leave_context configure
  replay-overlapping log = (refl, λ j. ground arith)

  -- Two threads whose contexts overlap have ended them, and the mutex is free. Then no context of
  -- theirs is alive, but the configuration is that of the first context, and not the one from before.
  pub overlap_lem :
      (log : LogState W) (programs : ℕ → List (Operation W)) {s : System W}
      → Reach W log programs s
      → s.locked ≡ false
      → s.history ≡ overlapping
      → ((j : ℕ) → (s.threads j).contexts ≡ []) × (s.log ≡ record log { log_cfg = a })
  overlap_lem log programs {s} r free h =
      let (same, threads) = Reach-serial W log programs r free in
      let (ended, none_left) = replay-overlapping log in
      (
        λ j. (threads j).1 ∙ ap (λ history. (replay W history log).contexts j) h ∙ none_left j,
        same ∙ ap (λ history. (replay W history log).log) h ∙ ended,
      )

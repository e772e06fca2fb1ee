-- ===== src/Log/Threads/Tests.antt =====
-- Two threads with a context each, which overlap.
use the_pipe.Base.{ℕ, zero, suc, ◌≡◌, ◌≤◌, ◌++◌, arith, refl, true, List, [], ◌∷◌}
use the_pipe.Base.Int.{pos}
use the_pipe.Log.{Item, Configuration, LogState, configure}
use the_pipe.Log.Threads.{Operation, enter, leave, System, Step, Reach, idle}
use the_pipe.Log.Threads.Serial.{replay, own}
use the_pipe.Log.Threads.Linear.{Reach-serial}
use the_pipe.Log.Threads.Scoped.{is_scoped}
use the_pipe.Log.Threads.Liveness.{Inevitably, Reach-finishes}
use the_pipe.Log.Threads.Overlap.{overlap_lem}

abbrev recorder : ℕ → Configuration (List Item)
recorder time = record { write = λ item w. item ∷ w; now = λ w. (pos time, w) }

abbrev before : LogState (List Item)
before = record { log_cfg = recorder 1; world = [] }

abbrev programs : ℕ → List (Operation (List Item))
programs zero = enter (recorder 2) ∷ leave ∷ []
programs (suc zero) = enter (recorder 3) ∷ leave ∷ []
programs (suc (suc j)) = []

abbrev Reached : Type 0
Reached = (s : System (List Item)) × Reach (List Item) before programs s

unfoldable entered : Reached
unfolding configure
entered = (
  _,
  Reach.step 1
      (Reach.step 1
        (Reach.step 1
          (Reach.step 0
            (Reach.step 0
              (Reach.step 0
                (Reach.step 1
                  (Reach.step 1
                    (Reach.step 1
                      (Reach.step 0
                        (Reach.step 0
                          (Reach.step 0 (Reach.start)
                            (Step.lock (enter (recorder 2)) _ refl refl refl))
                          (Step.exchange_enter (recorder 2) _ refl refl))
                        (Step.unlock (enter (recorder 2)) _ refl refl))
                      (Step.lock (enter (recorder 3)) _ refl refl refl))
                    (Step.exchange_enter (recorder 3) _ refl refl))
                  (Step.unlock (enter (recorder 3)) _ refl refl))
                (Step.lock leave _ refl refl refl))
              (Step.exchange_leave (record { old_cfg = recorder 1 }) _ _ refl refl refl))
            (Step.unlock leave _ refl refl))
          (Step.lock leave _ refl refl refl))
        (Step.exchange_leave (record { old_cfg = recorder 2 }) _ _ refl refl refl))
      (Step.unlock leave _ refl refl),
)

overlap_lem_example :
    ((j : ℕ) → (entered.0.threads j).contexts ≡ [])
    × (entered.0.log ≡ record { log_cfg = recorder 2; world = [] })
unfolding entered configure
overlap_lem_example = overlap_lem (recorder 2) (recorder 3) before programs entered.1 refl refl

-- Thread 0 has ended its first operation, and thread 1 has the mutex.
abbrev under_way : Reached
under_way = (
  _,
  Reach.step 1
      (Reach.step 0
        (Reach.step 0 (Reach.step 0 Reach.start (Step.lock (enter (recorder 2)) _ refl refl refl))
          (Step.exchange_enter (recorder 2) _ refl refl))
        (Step.unlock (enter (recorder 2)) _ refl refl))
      (Step.lock (enter (recorder 3)) _ refl refl refl),
)

only_two : (j : ℕ) → 2 ≤ j → programs j ≡ []
only_two zero h = absurd (omega arith)
only_two (suc zero) h = absurd (omega arith)
only_two (suc (suc j)) h = refl

scoped : (j : ℕ) → is_scoped (programs j) 0 ≡ true
scoped zero = refl
scoped (suc zero) = refl
scoped (suc (suc j)) = refl

Reach-finishes_example : Inevitably under_way.0
Reach-finishes_example = Reach-finishes before programs 2 only_two scoped under_way.1

Reach-serial_example :
    (entered.0.log ≡ (replay (List Item) entered.0.history before).log)
    × ((j : ℕ)
        → (programs j ≡ own (List Item) j entered.0.history ++ (entered.0.threads j).program)
          × ((entered.0.threads j).contexts
              ≡ (replay (List Item) entered.0.history before).contexts j)
          × ((entered.0.threads j).pc ≡ idle))
unfolding entered configure
Reach-serial_example = Reach-serial (List Item) before programs entered.1 refl

-- ===== src/Log/Threads.antt =====
-- src/log/log.cpp with several threads, which share the configuration and the mutex: what each does
-- between locking and unlocking it is several steps, and the steps of threads come in any order.
pub mod Serial
pub mod Invariant
pub mod Linear
pub mod Measure
pub mod Scoped
pub mod Liveness
pub mod Overlap
mod Tests
use the_pipe.Base.{ℕ, ◌≡◌, ◌==◌, Bool, true, false, List, [], ◌∷◌, String, if◌then◌else◌, update}
use the_pipe.Base.Int.{ℤ}
use the_pipe.Log.{Severity, Configuration, LogState, configure, Context}

-- Where a thread stands within an operation.
pub data Pc : Type 0 where
  idle : Pc
  holding : Pc  -- it has the mutex
  timed : (when : ℤ) → Pc  -- the clock has been read
  releasing : Pc  -- before the end of lock_guard

abbrev pub is_idle : Pc → Bool
is_idle idle = true
is_idle holding = false
is_idle (timed when) = false
is_idle releasing = false

module _ (W : Type 0) where
  -- The constructor and the destructor of a context, and a message.
  pub data Operation : Type 0 where
    enter : Configuration W → Operation
    leave : Operation
    say : Severity → String → Operation

  -- The operations that are left, with the one under way in front, and the contexts that are alive,
  -- the innermost in front.
  pub record Thread : Type 0 where
    pub program : List Operation
    pub pc : Pc
    pub contexts : List (Context W)

  pub record System : Type 0 where
    pub log : LogState W
    pub locked : Bool
    pub threads : ℕ → Thread
    pub history : List (ℕ × Operation)  -- what has ended, the last in front

  abbrev pub start_thread : List Operation → Thread
  start_thread program = record { program = program; pc = idle; contexts = [] }

  abbrev pub init : LogState W → (ℕ → List Operation) → System
  init log programs = record {
    log = log;
    locked = false;
    threads = λ i. start_thread (programs i);
    history = [];
  }

  -- A step of thread `i`.
  pub data Step (s : System) (i : ℕ) : System → Type 0 where
    lock :
        (op : Operation) (rest : List Operation)
        → (s.threads i).pc ≡ idle
        → (s.threads i).program ≡ op ∷ rest
        → s.locked ≡ false
        → Step s i (record s {
          locked = true;
          threads = update s.threads i (record (s.threads i) { pc = holding });
        })
    exchange_enter :
        (cfg : Configuration W) (rest : List Operation)
        → (s.threads i).pc ≡ holding
        → (s.threads i).program ≡ enter cfg ∷ rest
        → Step s i (record s {
          log = (configure W cfg s.log).1;
          threads = update s.threads i (record (s.threads i) {
            pc = releasing;
            contexts = record { old_cfg = (configure W cfg s.log).0 } ∷ (s.threads i).contexts;
          });
        })
    exchange_leave :
        (c : Context W) (outer : List (Context W)) (rest : List Operation)
        → (s.threads i).pc ≡ holding
        → (s.threads i).program ≡ leave ∷ rest
        → (s.threads i).contexts ≡ c ∷ outer
        → Step s i (record s {
          log = (configure W c.old_cfg s.log).1;
          threads = update s.threads i (record (s.threads i) { pc = releasing; contexts = outer });
        })
    now :
        (severity : Severity) (message : String) (rest : List Operation)
        → (s.threads i).pc ≡ holding
        → (s.threads i).program ≡ say severity message ∷ rest
        → Step s i (record s {
          log = record s.log { world = (s.log.log_cfg.now s.log.world).1 };
          threads =
              update s.threads i
                (record (s.threads i) { pc = timed (s.log.log_cfg.now s.log.world).0 });
        })
    write :
        (severity : Severity) (message : String) (rest : List Operation) (when : ℤ)
        → (s.threads i).pc ≡ timed when
        → (s.threads i).program ≡ say severity message ∷ rest
        → Step s i (record s {
          log = record s.log {
            world =
                s.log.log_cfg.write
                  (record { when = when; severity = severity; message = message })
                  s.log.world;
          };
          threads = update s.threads i (record (s.threads i) { pc = releasing });
        })
    unlock :
        (op : Operation) (rest : List Operation)
        → (s.threads i).pc ≡ releasing
        → (s.threads i).program ≡ op ∷ rest
        → Step s i (record s {
          locked = false;
          threads = update s.threads i (record (s.threads i) { pc = idle; program = rest });
          history = (i, op) ∷ s.history;
        })

  pub data Reach (log : LogState W) (programs : ℕ → List Operation) : System → Type 0 where
    start : Reach log programs (init log programs)
    step : {s t : System} (i : ℕ) → Reach log programs s → Step s i t → Reach log programs t

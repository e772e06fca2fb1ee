-- ===== src/Log/Threads/Serial.antt =====
-- The operations of src/log of several threads, each as one step.
use the_pipe.Base.{update, ℕ, ◌≡◌, refl, ◌==◌, false, List, [], ◌∷◌, ◌++◌, if◌then◌else◌}
use the_pipe.Log.{LogState, write_message, Context, enter_context, leave_context}
use the_pipe.Log.Threads.{Operation, enter, leave, say}

module _ (W : Type 0) where
  -- The log, and the contexts of each thread.
  pub record Serial : Type 0 where
    pub log : LogState W
    pub contexts : ℕ → List (Context W)

  -- An operation of thread `i` as one step, by the operations of src/log.
  unfoldable pub perform : ℕ → Operation W → Serial → Serial
  unfolding enter_context leave_context write_message
  perform i (enter cfg) a =
      let (c, log) = enter_context W cfg a.log in
      record { log = log; contexts = update a.contexts i (c ∷ a.contexts i) }
  perform i leave a = elim (a.contexts i) [
    | [] ↦ a
    | c ∷ outer ↦ record { log = leave_context W c a.log; contexts = update a.contexts i outer }
  ]
  perform i (say severity message) a = record a { log = write_message W severity message a.log }

  -- The operations of a history one after the other.
  unfoldable pub replay : List (ℕ × Operation W) → LogState W → Serial
  unfolding perform
  replay [] log = record { log = log; contexts = λ i. [] }
  replay ((i, op) ∷ history) log = perform i op (replay history log)

  -- The operations of one thread in a history, the first in front.
  abbrev pub own : ℕ → List (ℕ × Operation W) → List (Operation W)
  own i [] = []
  own i ((j, op) ∷ history) = own i history ++ (if j == i then op ∷ [] else [])

  pub perform-other :
      (i j : ℕ) (op : Operation W) (a : Serial)
      → (i == j) ≡ false
      → (perform i op a).contexts j ≡ a.contexts j
  unfolding perform
  perform-other i j (enter cfg) a apart = rw apart refl
  perform-other i j leave a apart = go (a.contexts i) refl
    where
      go :
          (cs : List (Context W))
          → a.contexts i ≡ cs
          → (perform i leave a).contexts j ≡ a.contexts j
      go [] e = rw (e, perform) refl
      go (c ∷ outer) e = rw (e, perform, apart) refl
  perform-other i j (say severity message) a apart = refl

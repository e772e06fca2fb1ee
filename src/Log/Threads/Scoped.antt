-- ===== src/Log/Threads/Scoped.antt =====
-- Threads end no context that they have not begun.
use the_pipe.Base.{
  update, ℕ, zero, suc, ◌≡◌, ◌==◌, Bool, true, false, List, [], ◌∷◌, length, Bool-cases, inl, inr,
}
use the_pipe.Log.Threads.{
  Pc, idle, holding, timed, releasing, Operation, enter, leave, say, Thread, System, Step,
}

module _ {W : Type 0} where
  -- No context is left that was not entered, when so many are alive.
  abbrev pub is_scoped : List (Operation W) → ℕ → Bool
  is_scoped [] depth = true
  is_scoped (enter cfg ∷ rest) depth = is_scoped rest (suc depth)
  is_scoped (leave ∷ rest) zero = false
  is_scoped (leave ∷ rest) (suc depth) = is_scoped rest depth
  is_scoped (say severity message ∷ rest) depth = is_scoped rest depth

  abbrev pub is_scoped_at : Pc → List (Operation W) → ℕ → Bool
  is_scoped_at idle program depth = is_scoped program depth
  is_scoped_at holding program depth = is_scoped program depth
  is_scoped_at (timed when) program depth = is_scoped program depth
  is_scoped_at releasing [] depth = true
  is_scoped_at releasing (op ∷ rest) depth = is_scoped rest depth

  abbrev pub scoped_thread : Thread W → Bool
  scoped_thread t = is_scoped_at t.pc t.program (length t.contexts)

  abbrev pub AllScoped : System W → Type 0
  AllScoped s = (j : ℕ) → scoped_thread (s.threads j) ≡ true

  scoped-update :
      (threads : ℕ → Thread W) (i j : ℕ) (t : Thread W)
      → ((k : ℕ) → scoped_thread (threads k) ≡ true)
      → scoped_thread t ≡ true
      → scoped_thread (update threads i t j) ≡ true
  scoped-update threads i j t all new = elim (Bool-cases (i == j)) [
    | inl same ↦ rw same new
    | inr apart ↦ rw apart (all j)
  ]

  pub Step-AllScoped : (i : ℕ) (s t : System W) → AllScoped s → Step W s i t → AllScoped t
  Step-AllScoped i s _ all (Step.lock op rest p q l) j =
      scoped-update s.threads i j _ all (rw p at (all i))
  Step-AllScoped i s _ all (Step.exchange_enter cfg rest p q) j =
      scoped-update s.threads i j _ all (rw q (rw (p, q) at (all i)))
  Step-AllScoped i s _ all (Step.exchange_leave c outer rest p q e) j =
      scoped-update s.threads i j _ all (rw q (rw (p, q, e) at (all i)))
  Step-AllScoped i s _ all (Step.now severity message rest p q) j =
      scoped-update s.threads i j _ all (rw p at (all i))
  Step-AllScoped i s _ all (Step.write severity message rest when p q) j =
      scoped-update s.threads i j _ all (rw q (rw (p, q) at (all i)))
  Step-AllScoped i s _ all (Step.unlock op rest p q) j =
      scoped-update s.threads i j _ all (rw (p, q) at (all i))

-- ===== src/Log/Threads/Liveness.antt =====
-- The threads of src/log always finish: nobody waits for the mutex for ever.
use the_pipe.Base.{
  ℕ, zero, suc, ◌≤◌, ◌<◌, ◌≡◌, ◌⊎◌, refl, sym, ap, ◌∙◌, ◌==◌, ==_iff, true, List, [], ◌∷◌, ◌++◌,
  length, leb, arith, Bool-cases, inl, inr,
}
use the_pipe.Log.{LogState, Context}
use the_pipe.Log.Threads.{
  Pc, idle, holding, timed, releasing, Operation, enter, leave, say, System, Step, Reach,
}
use the_pipe.Log.Threads.Serial.{Serial, replay, own}
use the_pipe.Log.Threads.Invariant.{Status, Inside, Step-Status}
use the_pipe.Log.Threads.Linear.{Ordered, Step-Ordered, Reach-Status}
use the_pipe.Log.Threads.Measure.{left_of, Step-fewer}
use the_pipe.Log.Threads.Scoped.{is_scoped, is_scoped_at, AllScoped, Step-AllScoped}

append-nil_left {ℓ} : {A : Type ℓ} (xs ys : List A) → xs ++ ys ≡ [] → ys ≡ []
append-nil_left [] ys e = e
append-nil_left (x ∷ xs) ys e = cc

module _ {W : Type 0} where
  -- Whatever thread makes the next step, all threads come to the end of their programs.
  pub data Inevitably : System W → Type 0 where
    done : {s : System W} → ((j : ℕ) → (s.threads j).program ≡ []) → Inevitably s
    later :
        {s : System W} (i : ℕ) (t : System W)
        → Step W s i t
        → ((k : ℕ) (u : System W) → Step W s k u → Inevitably u)
        → Inevitably s

  one_more :
      (n : ℕ) (program : ℕ → List (Operation W)) (last : List (Operation W))
      → program n ≡ last
      → ((j : ℕ) → j < n → program j ≡ [])
      → ((j : ℕ) → j < suc n → program j ≡ [])
        ⊎ ((i : ℕ) × (op : Operation W) × (rest : List (Operation W)) × (program i ≡ op ∷ rest))
  one_more n program [] e below = inl (λ j h. elim (Bool-cases (n == j)) [
    | inl same ↦ ap program (sym ((==_iff n j).0 same)) ∙ e
    | inr apart ↦ below j (ground arith)
  ])
  one_more n program (op ∷ rest) e below = inr (n, op, rest, e)

  find_work :
      (n : ℕ) (program : ℕ → List (Operation W))
      → ((j : ℕ) → j < n → program j ≡ [])
        ⊎ ((i : ℕ) × (op : Operation W) × (rest : List (Operation W)) × (program i ≡ op ∷ rest))
  find_work zero program = inl (λ j h. absurd (omega arith))
  find_work (suc n) program = elim (find_work n program) [
    | inl below ↦ one_more n program (program n) refl below
    | inr work ↦ inr work
  ]

  step_inside :
      (a : Serial W) (s : System W) (i : ℕ) (program : List (Operation W)) (pc : Pc)
      (cs : List (Context W)) (log : LogState W)
      → (s.threads i).program ≡ program
      → (s.threads i).pc ≡ pc
      → (s.threads i).contexts ≡ cs
      → is_scoped_at pc program (length cs) ≡ true
      → Inside W a i program pc cs log
      → (t : System W) × Step W s i t
  step_inside a s i (op ∷ rest) releasing cs log q p e sc ins = (_, Step.unlock op rest p q)
  step_inside a s i (enter cfg ∷ rest) holding cs log q p e sc ins =
      (_, Step.exchange_enter cfg rest p q)
  step_inside a s i (leave ∷ rest) holding [] log q p e sc ins = cc
  step_inside a s i (leave ∷ rest) holding (c ∷ outer) log q p e sc ins =
      (_, Step.exchange_leave c outer rest p q e)
  step_inside a s i (say severity message ∷ rest) holding cs log q p e sc ins =
      (_, Step.now severity message rest p q)
  step_inside a s i (say severity message ∷ rest) (timed when) cs log q p e sc ins =
      (_, Step.write severity message rest when p q)
  step_inside a s i (enter cfg ∷ rest) (timed when) cs log q p e sc ins = absurd ins
  step_inside a s i (leave ∷ rest) (timed when) cs log q p e sc ins = absurd ins
  step_inside a s i (op ∷ rest) idle cs log q p e sc ins = absurd ins
  step_inside a s i [] pc cs log q p e sc ins = absurd ins

  -- The first `n` threads have programs, and these end no context that they have not begun.
  module _ (log : LogState W) (programs : ℕ → List (Operation W)) (n : ℕ)
      (few : (j : ℕ) → n ≤ j → programs j ≡ []) where
    record Sound (s : System W) : Type 0 where
      status : Status W (replay W s.history log) s
      ordered : Ordered W programs s
      scoped : AllScoped s

    progress :
        (s : System W)
        → Sound s
        → ((j : ℕ) → (s.threads j).program ≡ []) ⊎ ((i : ℕ) × (t : System W) × Step W s i t)
    progress s h = elim h.status [
      | inl (unlocked, same, all) ↦ elim (find_work n (λ j. (s.threads j).program)) [
        | inl none_left ↦ inl (λ j. elim (Bool-cases (leb n j)) [
          | inl beyond ↦
              append-nil_left (own W j s.history) (s.threads j).program
                (sym (h.ordered j) ∙ few j (ground arith))
          | inr within ↦ none_left j (ground arith)
        ])
        | inr (i, op, rest, q) ↦ inr (i, _, Step.lock op rest (all i).0 q unlocked)
      ]
      | inr (i, locked, inside, others) ↦
          let (t, st) =
            step_inside (replay W s.history log) s i _ _ _ s.log refl refl refl (h.scoped i)
              inside in
          inr (i, t, st)
    ]

    -- Only a thread with a program makes a step.
    busy :
        (i : ℕ) (s t : System W)
        → Step W s i t
        → (op : Operation W) × (rest : List (Operation W)) × ((s.threads i).program ≡ op ∷ rest)
    busy i s _ (Step.lock op rest p q l) = (op, rest, q)
    busy i s _ (Step.exchange_enter cfg rest p q) = (enter cfg, rest, q)
    busy i s _ (Step.exchange_leave c outer rest p q e) = (leave, rest, q)
    busy i s _ (Step.now severity message rest p q) = (say severity message, rest, q)
    busy i s _ (Step.write severity message rest when p q) = (say severity message, rest, q)
    busy i s _ (Step.unlock op rest p q) = (op, rest, q)

    among : (i : ℕ) (s t : System W) → Sound s → Step W s i t → i < n
    among i s t h st = elim (Bool-cases (leb n i)) [
      | inl beyond ↦
          let (op, rest, q) = busy i s t st in
          let none_left =
            append-nil_left (own W i s.history) (s.threads i).program
              (sym (h.ordered i) ∙ few i (ground arith)) in
          let clash : op ∷ rest ≡ [] = sym q ∙ none_left in cc
      | inr within ↦ ground arith
    ]

    Step-Sound : (i : ℕ) (s t : System W) → Sound s → Step W s i t → Sound t
    Step-Sound i s t h st = record {
      status = Step-Status W log i s t h.status st;
      ordered = Step-Ordered W programs i s t h.ordered st;
      scoped = Step-AllScoped i s t h.scoped st;
    }

    inevitable : (fuel : ℕ) (s : System W) → left_of s.threads n < fuel → Sound s → Inevitably s
    inevitable zero s lt h = absurd (omega arith)
    inevitable (suc fuel) s lt h = elim (progress s h) [
      | inl finished ↦ Inevitably.done finished
      | inr (i, t, st) ↦ Inevitably.later i t st (λ k u move.
          inevitable fuel u (omega (arith, Step-fewer n k s u (among k s u h move) move))
            (Step-Sound k s u h move))
    ]

    module _ (scoped : (j : ℕ) → is_scoped (programs j) 0 ≡ true) where
      Reach-AllScoped : {s : System W} → Reach W log programs s → AllScoped s
      Reach-AllScoped Reach.start j = scoped j
      Reach-AllScoped (Reach.step {s} {t} i r st) j = Step-AllScoped i s t (Reach-AllScoped r) st j

      Reach-Sound : {s : System W} → Reach W log programs s → Sound s
      Reach-Sound r = record {
        status = (Reach-Status W log programs r).0;
        ordered = (Reach-Status W log programs r).1;
        scoped = Reach-AllScoped r;
      }

    -- The first `n` threads have programs, and these end no context that they have not begun. From
    -- every state that is reached all threads come to the end of their programs, whichever of them
    -- makes each step.
    pub Reach-finishes :
        ((j : ℕ) → is_scoped (programs j) 0 ≡ true)
        → {s : System W} → Reach W log programs s
        → Inevitably s
    Reach-finishes scoped {s} r =
        inevitable (suc (left_of s.threads n)) s (omega arith) (Reach-Sound scoped r)

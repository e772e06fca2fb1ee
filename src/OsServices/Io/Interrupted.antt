-- ===== src/OsServices/Io/Interrupted.antt =====
-- Interrupted calls are repeated, and the first other answer counts.
use the_pipe.Base.{
  ℕ, zero, suc, ◌≡◌, refl, sym, ◌∙◌, true, false, Option, none, some, List, [], ◌∷◌, ◌++◌, ◌==◌,
  arith, replicate, Bool-cases, inl, inr, ap, subst,
}
use the_pipe.Base.Int.{ℤ, pos, negsuc, minus_one}
use the_pipe.Base.Results.{system_error, ok, err}
use the_pipe.OsServices.Io.{
  eintr, eagain, Call, is_interrupted, while_eintr, do_while_eintr, IoResult, io_result,
  operation_would_have_blocked, bytes_transferred, transfer,
}

abbrev pub interrupted : Call
interrupted = record { result = minus_one; errno = eintr }

while_eintr-replicate :
    (n : ℕ) (c : Call) (calls : List Call)
    → is_interrupted c ≡ false
    → while_eintr interrupted (replicate n interrupted ++ c ∷ calls) ≡ some (c, calls)
unfolding while_eintr
while_eintr-replicate zero c [] h = rw h refl
while_eintr-replicate zero c (d ∷ calls) h = rw h refl
while_eintr-replicate (suc n) c calls h = while_eintr-replicate n c calls h

do_while_eintr-replicate :
    (n : ℕ) (c : Call) (calls : List Call)
    → is_interrupted c ≡ false
    → do_while_eintr (replicate n interrupted ++ c ∷ calls) ≡ some (c, calls)
unfolding do_while_eintr
do_while_eintr-replicate n c calls h = while_eintr-replicate n c calls h

is_interrupted-eq :
    (result : ℤ) (errno : ℕ)
    → is_interrupted (record { result = result; errno = errno }) ≡ true
    → record { result = result; errno = errno } ≡ interrupted
is_interrupted-eq (pos n) errno h = ground (arith, h)
is_interrupted-eq (negsuc zero) errno h =
    let with_errno : ℕ → Call = λ e. record { result = minus_one; errno = e } in
    ap with_errno (ground (arith, h))
is_interrupted-eq (negsuc (suc n)) errno h = ground (arith, h)

differs : (c : Call) → is_interrupted c ≡ false → ¬ (c ≡ interrupted)
differs c ended same = let clash : true ≡ false = sym (ap is_interrupted same) ∙ ended in cc

-- What the loop has to do with the answers: either all of them are -1 with EINTR, and it waits for
-- another one, or it ends with the first answer that is not, and the answers behind that are left.
abbrev pub IsFirst : List Call → Option (Call × List Call) → Type 0
IsFirst calls none = (n : ℕ) × (calls ≡ replicate n interrupted)
IsFirst calls (some (c, rest)) =
    ¬ (c ≡ interrupted) × ((n : ℕ) × (calls ≡ replicate n interrupted ++ c ∷ rest))

IsFirst-cons :
    (calls : List Call) (r : Option (Call × List Call))
    → IsFirst calls r
    → IsFirst (interrupted ∷ calls) r
IsFirst-cons calls none (n, h) = (suc n, ap (λ (x : List Call). interrupted ∷ x) h)
IsFirst-cons calls (some (c, rest)) (other, (n, h)) =
    (other, (suc n, ap (λ (x : List Call). interrupted ∷ x) h))

while_eintr-IsFirst : (c : Call) (calls : List Call) → IsFirst (c ∷ calls) (while_eintr c calls)
unfolding while_eintr
while_eintr-IsFirst c [] = elim (Bool-cases (is_interrupted c)) [
  | inl again ↦ rw again (1, ap (λ (x : Call). x ∷ []) (is_interrupted-eq c.result c.errno again))
  | inr ended ↦ rw ended (differs c ended, (0, refl))
]
while_eintr-IsFirst c (d ∷ calls) = elim (Bool-cases (is_interrupted c)) [
  | inl again ↦ rw again (
      subst (λ (x : Call). IsFirst (x ∷ d ∷ calls) (while_eintr d calls))
        (sym (is_interrupted-eq c.result c.errno again))
        (IsFirst-cons (d ∷ calls) (while_eintr d calls) (while_eintr-IsFirst d calls)))
  | inr ended ↦ rw ended (differs c ended, (0, refl))
]

-- The loop ends with the first answer that is not -1 with EINTR, whatever errno is left over behind
-- an answer that is not -1, and the answers behind it are left. It goes on waiting exactly if there
-- is no such answer.
pub do_while_eintr_lem : (calls : List Call) → IsFirst calls (do_while_eintr calls)
unfolding do_while_eintr while_eintr
do_while_eintr_lem [] = (0, refl)
do_while_eintr_lem (c ∷ calls) = while_eintr-IsFirst c calls

-- Behind any number of interrupted calls: bytes are counted, EAGAIN gives the result that says that
-- the operation would have blocked, without bytes, and any other error is thrown with its errno.
pub transfer_lem :
    (n count stale error : ℕ) (calls : List Call)
    → ¬ (error ≡ eintr)
    → ¬ (error ≡ eagain)
    → ((r : IoResult) × (transfer
            (replicate n interrupted ++ record { result = pos count; errno = stale } ∷ calls)
          ≡ some (ok r, calls))
        × (operation_would_have_blocked r ≡ false)
        × (bytes_transferred r ≡ count))
      × ((r : IoResult) × (transfer
              (replicate n interrupted ++ record { result = minus_one; errno = eagain } ∷ calls)
            ≡ some (ok r, calls))
          × (operation_would_have_blocked r ≡ true)
          × (bytes_transferred r ≡ 0))
      × (transfer (replicate n interrupted ++ record { result = minus_one; errno = error } ∷ calls)
          ≡ some (err (system_error "I/O operation failed" error), calls))
unfolding transfer io_result operation_would_have_blocked bytes_transferred
transfer_lem n count stale error calls a b =
    let counted : Call = record { result = pos count; errno = stale } in
    let blocked : Call = record { result = minus_one; errno = eagain } in
    let failed : Call = record { result = minus_one; errno = error } in
    let e = do_while_eintr-replicate n counted calls (ground arith) in
    let f = do_while_eintr-replicate n blocked calls refl in
    let g = do_while_eintr-replicate n failed calls (ground (arith, a)) in
    let differs : (error == eagain) ≡ false = ground (arith, b) in
    (
      (record { value = pos count }, rw e refl, refl, refl),
      (record { value = minus_one }, rw f refl, refl, refl),
      rw g (rw (differs, io_result) refl),
    )

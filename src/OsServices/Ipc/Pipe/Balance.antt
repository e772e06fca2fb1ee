-- ===== src/OsServices/Ipc/Pipe/Balance.antt =====
-- No method of a pipe closes a descriptor twice or forgets one.
use the_pipe.Base.{ℕ, ◌+◌, ◌≡◌, Option, none, some, List, [], ◌∷◌, arith, Bool-cases, inl, inr}
use the_pipe.Base.Int.{is_minus_one}
use the_pipe.OsServices.Fd.Opened.Counts.{
  owned, count, count-cons, close_owned, count-close_owned, count-close_all,
}
use the_pipe.OsServices.Ipc.Pipe.{
  Method, close_read_end, close_write_end, take_read_end, take_write_end, close_read_end_on_exec,
  close_write_end_on_exec, PipeInUse, held, call_method, call_methods, destroy_pipe, end_of,
}

-- Every open descriptor was open `before`, or belongs to an end, to an owner that was taken, or to
-- nobody, since it was released; and it is open as often as that.
abbrev pub IsBalanced : List ℕ → PipeInUse → Type 0
IsBalanced before u =
    (g : ℕ)
    → count g u.opened
      ≡ owned u.pipe.read_end g
        + (owned u.pipe.write_end g + (count g u.taken + (count g u.released + count g before)))

count-held : (o : Option ℕ) (g : ℕ) (fds : List ℕ) → count g (held o fds) ≡ owned o g + count g fds
count-held none g fds = omega arith
count-held (some fd) g fds = count-cons g fd fds

call_method-IsBalanced :
    (before : List ℕ) (m : Method) (u : PipeInUse)
    → IsBalanced before u
    → IsBalanced before (call_method m u).1
unfolding call_method
call_method-IsBalanced before close_read_end u b g = omega (
  arith,
  count-close_owned u.pipe.read_end u.opened
      (λ h. owned u.pipe.write_end h + (count h u.taken + (count h u.released + count h before))) b
      g,
)
call_method-IsBalanced before close_write_end u b g = omega (
  arith,
  count-close_owned u.pipe.write_end u.opened
      (λ h. owned u.pipe.read_end h + (count h u.taken + (count h u.released + count h before)))
      (λ h. omega (arith, b h)) g,
)
call_method-IsBalanced before take_read_end u b g =
    omega (arith, b g, count-held u.pipe.read_end g u.taken)
call_method-IsBalanced before take_write_end u b g =
    omega (arith, b g, count-held u.pipe.write_end g u.taken)
call_method-IsBalanced before (close_read_end_on_exec res) u b g =
    elim (Bool-cases (is_minus_one res.result)) [
      | inl failed ↦ rw failed (b g)
      | inr done ↦ rw done (omega (arith, b g, count-held u.pipe.read_end g u.released))
    ]
call_method-IsBalanced before (close_write_end_on_exec res) u b g =
    elim (Bool-cases (is_minus_one res.result)) [
      | inl failed ↦ rw failed (b g)
      | inr done ↦ rw done (omega (arith, b g, count-held u.pipe.write_end g u.released))
    ]

call_methods-IsBalanced :
    (before : List ℕ) (ms : List Method) (u : PipeInUse)
    → IsBalanced before u
    → IsBalanced before (call_methods ms u)
unfolding call_methods
call_methods-IsBalanced before [] u b = b
call_methods-IsBalanced before (m ∷ ms) u b =
    call_methods-IsBalanced before ms (call_method m u).1 (call_method-IsBalanced before m u b)

-- A pipe that has just been made.
abbrev pub fresh : ℕ → ℕ → List ℕ → PipeInUse
fresh read_end write_end before = record {
  pipe = record { read_end = some read_end; write_end = some write_end };
  taken = [];
  released = [];
  opened = read_end ∷ write_end ∷ before;
}

-- After any calls of the methods of a new pipe, and the ends of the pipe and of the owners that were
-- taken from it, exactly the descriptors are open that were open before, each as often, and those
-- that the pipe has released.
pub end_of-call_methods :
    (ms : List Method) (read_end write_end : ℕ) (before : List ℕ) (g : ℕ)
    → count g (end_of (call_methods ms (fresh read_end write_end before)))
      ≡ count g (call_methods ms (fresh read_end write_end before)).released + count g before
unfolding end_of destroy_pipe count
end_of-call_methods ms read_end write_end before g =
    let u = call_methods ms (fresh read_end write_end before) in
    let b =
      call_methods-IsBalanced before ms (fresh read_end write_end before) (λ h. omega arith) in
    let after_read =
      count-close_owned u.pipe.read_end u.opened
        (λ h. owned u.pipe.write_end h + (count h u.taken + (count h u.released + count h before)))
        b in
    let after_write =
      count-close_owned u.pipe.write_end (close_owned u.pipe.read_end u.opened)
        (λ h. count h u.taken + (count h u.released + count h before)) after_read in
    count-close_all u.taken (destroy_pipe u.pipe u.opened)
      (λ h. count h u.released + count h before) after_write g

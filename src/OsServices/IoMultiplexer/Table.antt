-- ===== src/OsServices/IoMultiplexer/Table.antt =====
-- A kernel whose interest list is a function, which shows that the laws of the interface can hold,
-- and an epoll instance without listeners.
use the_pipe.Base.{
  ℕ, ◌≡◌, ◌==◌, refl, Option, none, some, [], if◌then◌else◌, arith, Bool-cases, inl, inr,
}
use the_pipe.OsServices.IoMultiplexer.{Kernel, EpollInstance}
use the_pipe.OsServices.IoMultiplexer.Listeners.{fd_of}
use the_pipe.OsServices.IoMultiplexer.Invariant.{IsConsistent}

abbrev pub Table : Type 0
Table = ℕ → Option (ℕ × ℕ)

-- The call fails with EPERM for descriptor 9.
abbrev pub put : Table → ℕ → ℕ → ℕ → Table × Option ℕ
put k fd events ptr =
    if fd == 9 then (k, some 1) else (λ g. if fd == g then some (events, ptr) else k g, none)

abbrev pub clear : Table → ℕ → Table
clear k fd g = if fd == g then none else k g

pub put-done :
    (k : Table) (fd events ptr g : ℕ)
    → (put k fd events ptr).1 ≡ none
    → (put k fd events ptr).0 g ≡ (if fd == g then some (events, ptr) else k g)
put-done k fd events ptr g h = elim (Bool-cases (fd == 9)) [
  | inl nine ↦ ground (arith, nine, h)
  | inr other ↦ rw other refl
]

pub put-failed :
    (k : Table) (fd events ptr g errno : ℕ)
    → (put k fd events ptr).1 ≡ some errno
    → (put k fd events ptr).0 g ≡ k g
put-failed k fd events ptr g errno h = elim (Bool-cases (fd == 9)) [
  | inl nine ↦ rw nine refl
  | inr other ↦ ground (arith, other, h)
]

-- Descriptor 13 is one of a process to which no signal can be sent.
abbrev pub table_kernel : Kernel
table_kernel = record {
  State = Table;
  interest = λ k fd. k fd;
  ctl_add = put;
  ctl_mod = put;
  ctl_del = clear;
  close = clear;
  stays_open = λ k fd. fd == 13;
  ctl_add-done = put-done;
  ctl_add-failed = put-failed;
  ctl_mod-done = put-done;
  ctl_mod-failed = put-failed;
  ctl_del-interest = λ k fd g. refl;
  close-interest = λ k fd g. refl;
}

abbrev pub empty : EpollInstance table_kernel ℕ
empty = record { kernel = λ g. none; listeners = []; current_id = record { value = 0 } }

pub empty-IsConsistent : IsConsistent table_kernel ℕ empty
unfolding fd_of
empty-IsConsistent = record {
  fresh = λ id h. refl;
  linked = λ fd events id e. cc;
  watched = λ id fd e. cc;
}

-- ===== src/OsServices/Ipc/Pipe.antt =====
-- src/os_services/ipc/pipe.hpp. An owner of an end is null or has a descriptor; the descriptors that
-- are open are a list, with the newest first.
pub mod Balance
mod Tests
use the_pipe.Base.{ℕ, Option, none, some, List, [], ◌∷◌, ◌++◌, if◌then◌else◌, String}
use the_pipe.Base.Int.{is_minus_one}
use the_pipe.Base.Results.{Error, system_error, Result, ok, err}
use the_pipe.OsServices.Fd.Opened.Counts.{close_owned, close_all}
use the_pipe.OsServices.Io.{Call}

pub record Pipe : Type 0 where
  pub read_end : Option ℕ
  pub write_end : Option ℕ

-- The constructor, given the answer of the call and the descriptors that it fills in.
unfoldable pub make_pipe : Call → ℕ → ℕ → List ℕ → Result Pipe × List ℕ
make_pipe res read_end write_end opened =
    if is_minus_one res.result
    then (err (system_error "Failed to create pipe" res.errno), opened)
    else (
      ok (record { read_end = some read_end; write_end = some write_end }),
      read_end ∷ write_end ∷ opened,
    )

-- The methods, with the answer of fcntl where it is called.
pub data Method : Type 0 where
  close_read_end close_write_end take_read_end take_write_end : Method
  close_read_end_on_exec close_write_end_on_exec : Call → Method

-- A pipe in use: the descriptors of the owners that were taken from it, and the descriptors that it
-- has released, which have no owner.
pub record PipeInUse : Type 0 where
  pub pipe : Pipe
  pub taken : List ℕ
  pub released : List ℕ
  pub opened : List ℕ

-- What an owner has, in front of some descriptors.
abbrev pub held : Option ℕ → List ℕ → List ℕ
held none fds = fds
held (some fd) fds = fd ∷ fds

-- What is thrown, and what is left.
unfoldable pub call_method : Method → PipeInUse → Option Error × PipeInUse
unfolding close_owned
call_method close_read_end u = (
  none,
  record u {
    pipe = record u.pipe { read_end = none };
    opened = close_owned u.pipe.read_end u.opened;
  },
)
call_method close_write_end u = (
  none,
  record u {
    pipe = record u.pipe { write_end = none };
    opened = close_owned u.pipe.write_end u.opened;
  },
)
call_method take_read_end u = (
  none,
  record u { pipe = record u.pipe { read_end = none }; taken = held u.pipe.read_end u.taken },
)
call_method take_write_end u = (
  none,
  record u { pipe = record u.pipe { write_end = none }; taken = held u.pipe.write_end u.taken },
)
call_method (close_read_end_on_exec res) u =
    if is_minus_one res.result
    then (some (system_error "Failed to set FD_CLOEXEC on pipe read end" res.errno), u)
    else (
      none,
      record u {
        pipe = record u.pipe { read_end = none };
        released = held u.pipe.read_end u.released;
      },
    )
call_method (close_write_end_on_exec res) u =
    if is_minus_one res.result
    then (some (system_error "Failed to set FD_CLOEXEC on pipe write end" res.errno), u)
    else (
      none,
      record u {
        pipe = record u.pipe { write_end = none };
        released = held u.pipe.write_end u.released;
      },
    )

-- One call after the other, also behind an exception.
unfoldable pub call_methods : List Method → PipeInUse → PipeInUse
unfolding call_method
call_methods [] u = u
call_methods (m ∷ ms) u = call_methods ms (call_method m u).1

-- The destructor.
unfoldable pub destroy_pipe : Pipe → List ℕ → List ℕ
unfolding close_owned
destroy_pipe p opened = close_owned p.write_end (close_owned p.read_end opened)

-- The descriptors that are open when the pipe and all owners taken from it have ended.
unfoldable pub end_of : PipeInUse → List ℕ
unfolding destroy_pipe close_all
end_of u = close_all u.taken (destroy_pipe u.pipe u.opened)

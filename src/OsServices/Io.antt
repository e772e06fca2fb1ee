-- ===== src/OsServices/Io.antt =====
-- src/os_services/error_handling/error_handling.hpp and src/os_services/io/io.hpp: calls of the
-- kernel that are repeated while they are interrupted. The answers of the kernel are a list.
pub mod Interrupted
mod Tests
use the_pipe.Base.{
  ℕ, Bool, true, false, not, ◌&&◌, Option, none, some, List, [], ◌∷◌, ◌==◌, if◌then◌else◌,
}
use the_pipe.Base.Int.{ℤ, pos, negsuc, minus_one, is_negative, is_minus_one, to_unsigned}
use the_pipe.Base.Results.{system_error, Result, ok, err}

abbrev pub eintr : ℕ
eintr = 4

-- On Linux EWOULDBLOCK has the same value.
abbrev pub eagain : ℕ
eagain = 11

abbrev pub ewouldblock : ℕ
ewouldblock = 11

-- What a call returns, and errno behind it.
pub record Call : Type 0 where
  pub result : ℤ
  pub errno : ℕ

abbrev pub is_interrupted : Call → Bool
is_interrupted c = c.errno == eintr && is_minus_one c.result

-- The loop, from the values of `errno` and `result`: the call that ends it, and the answers that
-- are left. `none` means that the loop still waits for an answer.
unfoldable pub while_eintr : Call → List Call → Option (Call × List Call)
while_eintr c [] = if is_interrupted c then none else some (c, [])
while_eintr c (d ∷ calls) =
    let rest = while_eintr d calls in if is_interrupted c then rest else some (c, d ∷ calls)

unfoldable pub do_while_eintr : List Call → Option (Call × List Call)
unfolding while_eintr
do_while_eintr calls = while_eintr (record { result = minus_one; errno = eintr }) calls

pub record IoResult : Type 0 where
  pub value : ℤ

unfoldable pub io_result : ℤ → ℕ → Result IoResult
io_result value error =
    if is_negative value && not (error == eagain) && not (error == ewouldblock)
    then err (system_error "I/O operation failed" error)
    else ok (record { value = value })

unfoldable pub operation_would_have_blocked : IoResult → Bool
operation_would_have_blocked r = is_minus_one r.value

unfoldable pub bytes_transferred : IoResult → ℕ
bytes_transferred r = if is_negative r.value then 0 else to_unsigned r.value

abbrev pub as_io_result : Option (Call × List Call) → Option (Result IoResult × List Call)
as_io_result none = none
as_io_result (some (c, calls)) = some (io_result c.result c.errno, calls)

-- `read` and `write`, given the answers of the call that they repeat.
unfoldable pub transfer : List Call → Option (Result IoResult × List Call)
unfolding do_while_eintr io_result
transfer calls = as_io_result (do_while_eintr calls)

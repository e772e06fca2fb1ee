-- ===== src/OsServices/Ipc/Pipe/Tests.antt =====
-- A pipe with the ends 3 and 4, behind descriptor 0: its write end is taken, its read end is closed
-- on exec, which fails at first.
use the_pipe.Base.{◌+◌, ◌≡◌, List, [], ◌∷◌}
use the_pipe.Base.Int.{pos, minus_one}
use the_pipe.OsServices.Fd.Opened.Counts.{count}
use the_pipe.OsServices.Ipc.Pipe.{
  Method, take_write_end, close_write_end, close_read_end_on_exec, call_methods, end_of,
}
use the_pipe.OsServices.Ipc.Pipe.Balance.{fresh, end_of-call_methods}

abbrev methods : List Method
methods =
    take_write_end
    ∷ close_write_end
    ∷ close_read_end_on_exec (record { result = minus_one; errno = 9 })
    ∷ close_read_end_on_exec (record { result = pos 0; errno = 0 })
    ∷ []

end_of-call_methods_example :
    count 3 (end_of (call_methods methods (fresh 3 4 (0 ∷ []))))
    ≡ count 3 (call_methods methods (fresh 3 4 (0 ∷ []))).released + count 3 (0 ∷ [])
end_of-call_methods_example = end_of-call_methods methods 3 4 (0 ∷ []) 3

-- ===== src/OsServices/Io/Tests.antt =====
-- Answers of the kernel with interruptions.
use the_pipe.Base.{[], ◌∷◌}
use the_pipe.Base.Int.{pos, minus_one}
use the_pipe.OsServices.Io.{Call, do_while_eintr}
use the_pipe.OsServices.Io.Interrupted.{interrupted, IsFirst, do_while_eintr_lem}

abbrev seven_bytes : Call
seven_bytes = record { result = pos 7; errno = 4 }

abbrev broken_pipe : Call
broken_pipe = record { result = minus_one; errno = 32 }

-- The errno of the third answer is EINTR, left over from the first two.
do_while_eintr_lem_example :
    IsFirst
      (interrupted ∷ interrupted ∷ seven_bytes ∷ broken_pipe ∷ [])
      (do_while_eintr (interrupted ∷ interrupted ∷ seven_bytes ∷ broken_pipe ∷ []))
do_while_eintr_lem_example =
    do_while_eintr_lem (interrupted ∷ interrupted ∷ seven_bytes ∷ broken_pipe ∷ [])

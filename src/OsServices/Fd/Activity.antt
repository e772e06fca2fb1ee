-- ===== src/OsServices/Fd/Activity.antt =====
-- The activity status and the handler ids of src/os_services/fd/activity_monitor.hpp.
use Prim.Native.Nat.{bit_and}
use the_pipe.Base.{ℕ, ◌+◌, ◌%◌, ◌^◌, Bool, not, ◌==◌}

pub data ActivityStatus : Type 0 where
  none read write read_or_write : ActivityStatus

-- The value of each enumerator.
abbrev pub status_value : ActivityStatus → ℕ
status_value none = 0x0
status_value read = 0x1
status_value write = 0x2
status_value read_or_write = 0x3

unfoldable pub can_read : ActivityStatus → Bool
can_read status = not (bit_and (status_value status) (status_value read) == 0)

unfoldable pub can_write : ActivityStatus → Bool
can_write status = not (bit_and (status_value status) (status_value write) == 0)

-- An id is a uint64_t.
pub record EventHandlerId : Type 0 where
  pub value : ℕ

-- The id as it was, and the incremented one.
unfoldable pub next : EventHandlerId → EventHandlerId × EventHandlerId
next id = (id, record { value = (id.value + 1) % 2 ^ 64 })

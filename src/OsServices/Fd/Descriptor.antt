-- ===== src/OsServices/Fd/Descriptor.antt =====
-- src/os_services/fd/file_descriptor.hpp: references to file descriptors, owners of them, and their
-- deleters. An owner is a std::unique_ptr whose pointer type is the reference.
pub mod Conversions
mod Tests
use the_pipe.Base.{ℕ, Bool, true, false, not, Option, none, some, List, if◌then◌else◌}
use the_pipe.Base.Int.{ℤ, pos, negsuc, minus_one, is_minus_one}
use the_pipe.OsServices.Io.{Call}
use the_pipe.OsServices.Fd.Opened.{close_descriptor}
use the_pipe.OsServices.ProcMgmt.Parent.{delete_pidfd}

-- The tags that the program uses, but for that of an arbitrary descriptor.
pub data PlainTag : Type 0 where
  input output basic_socket server_socket connected_socket eventfd epoll_fd pidfd : PlainTag

pub data Tag : Type 0 where
  plain : PlainTag → Tag
  generic : Tag

-- enabled_fd_conversions, with its specializations in socket.hpp and eventfd.hpp: the conversions
-- that are enabled tag by tag. Through `int`, a reference converts to one with any tag.
pub data Supports : Tag → Tag → Type 0 where
  socket_input : Supports (plain connected_socket) (plain input)
  socket_output : Supports (plain connected_socket) (plain output)
  socket_generic : Supports (plain connected_socket) generic
  eventfd_input : Supports (plain eventfd) (plain input)
  eventfd_output : Supports (plain eventfd) (plain output)

pub record TaggedFileDescriptorRef (tag : Tag) : Type 0 where
  pub native_handle : ℤ

module _ {tag : Tag} where
  -- The reference that is made from nullptr, and by default.
  abbrev pub null : TaggedFileDescriptorRef tag
  null = record { native_handle = minus_one }

  -- The comparison with nullptr.
  unfoldable pub is_null : TaggedFileDescriptorRef tag → Bool
  is_null ref = is_minus_one ref.native_handle

  unfoldable pub is_valid : TaggedFileDescriptorRef tag → Bool
  is_valid ref = not (is_minus_one ref.native_handle)

-- The constructor from `int`.
unfoldable pub of_int : {tag : Tag} → ℤ → TaggedFileDescriptorRef tag
of_int fd = record { native_handle = fd }

-- The conversion operator to `int`.
unfoldable pub to_int : {tag : Tag} → TaggedFileDescriptorRef tag → ℤ
to_int ref = ref.native_handle

-- The conversion through `int`, as in epoll_fd_activity, which keeps the reference to the epoll
-- descriptor as one to an arbitrary descriptor.
unfoldable pub convert_through_int :
    {tag other : Tag} → TaggedFileDescriptorRef tag → TaggedFileDescriptorRef other
unfolding of_int to_int
convert_through_int ref = of_int (to_int ref)

-- The conversion operator to a reference with another tag.
unfoldable pub convert :
    {tag other : Tag}
    → Supports tag other
    → TaggedFileDescriptorRef tag
    → TaggedFileDescriptorRef other
convert supports ref = record { native_handle = ref.native_handle }

-- What a deleter keeps: for an arbitrary descriptor `orig_close_function`, given by the tag that it
-- was made for, or null.
abbrev pub Deleter : Tag → Type 0
Deleter (plain tag) = Unit
Deleter generic = Option PlainTag

pub record TaggedFileDescriptor (tag : Tag) : Type 0 where
  pub ref : TaggedFileDescriptorRef tag
  pub deleter : Deleter tag

-- The call of the kernel, for which a negative number is no descriptor.
unfoldable pub close : ℤ → List ℕ → List ℕ
unfolding close_descriptor
close (pos fd) opened = close_descriptor fd opened
close (negsuc n) opened = opened

-- The answers to the signals that the deleter of a pidfd sends.
module _ (send_signal : ℤ → Call) where
  -- file_descriptor_deleter of a tag other than that of an arbitrary descriptor.
  unfoldable pub delete_plain : PlainTag → ℤ → List ℕ → List ℕ
  unfolding close delete_pidfd
  delete_plain pidfd (pos fd) opened = delete_pidfd (send_signal (pos fd)) fd opened
  delete_plain pidfd (negsuc n) opened = opened
  delete_plain tag handle opened = if is_minus_one handle then opened else close handle opened

  -- The call of a deleter. `none` is a call through a null pointer.
  abbrev pub delete : (tag : Tag) → Deleter tag → ℤ → List ℕ → Option (List ℕ)
  delete (plain tag) deleter handle opened = some (delete_plain tag handle opened)
  delete generic none handle opened = if is_minus_one handle then some opened else none
  delete generic (some tag) handle opened =
      if is_minus_one handle then some opened else some (delete_plain tag handle opened)

  module _ {tag : Tag} where
    -- The destructor of an owner.
    unfoldable pub destroy : TaggedFileDescriptor tag → List ℕ → Option (List ℕ)
    unfolding is_null delete_plain
    destroy owner opened =
        if is_null owner.ref
        then some opened
        else delete tag owner.deleter owner.ref.native_handle opened

    unfoldable pub release :
        TaggedFileDescriptor tag → TaggedFileDescriptorRef tag × TaggedFileDescriptor tag
    release owner = (owner.ref, record owner { ref = null })

    -- The owner that is moved to, and the one that is moved from.
    unfoldable pub move :
        TaggedFileDescriptor tag → TaggedFileDescriptor tag × TaggedFileDescriptor tag
    move owner = (owner, record owner { ref = null })

    unfoldable pub reset :
        TaggedFileDescriptor tag → List ℕ → Option (TaggedFileDescriptor tag × List ℕ)
    unfolding destroy
    reset owner opened = elim (destroy owner opened) [
      | none ↦ none
      | some left ↦ some (record owner { ref = null }, left)
    ]

-- The generic owner, and the owner that `release` was called on.
unfoldable pub make_generic_file_descriptor :
    {tag : PlainTag}
    → TaggedFileDescriptor (plain tag)
    → TaggedFileDescriptor generic × TaggedFileDescriptor (plain tag)
make_generic_file_descriptor {tag = tag} fd = (
  record { ref = record { native_handle = fd.ref.native_handle }; deleter = some tag },
  record fd { ref = null },
)

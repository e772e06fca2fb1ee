-- ===== src/OsServices/Fd/Descriptor/Tests.antt =====
-- A connected socket, and its generic owner.
use the_pipe.Base.{◌≡◌, none, some, [], ◌∷◌}
use the_pipe.Base.Int.{ℤ, pos}
use the_pipe.OsServices.Io.{Call}
use the_pipe.OsServices.Fd.Descriptor.{
  plain, generic, TaggedFileDescriptor, destroy, make_generic_file_descriptor, connected_socket,
}
use the_pipe.OsServices.Fd.Descriptor.Conversions.{make_generic_file_descriptor_lem}

abbrev socket : TaggedFileDescriptor (plain connected_socket)
socket = record { ref = record { native_handle = pos 6 }; deleter = tt }

abbrev sent : ℤ → Call
sent fd = record { result = pos 0; errno = 0 }

make_generic_file_descriptor_lem_example :
    (destroy sent (make_generic_file_descriptor socket).0 (3 ∷ 6 ∷ [])
      ≡ destroy sent socket (3 ∷ 6 ∷ []))
    × (destroy sent (make_generic_file_descriptor socket).1 (3 ∷ 6 ∷ []) ≡ some (3 ∷ 6 ∷ []))
    × (destroy sent {tag = generic}
          (record { ref = record { native_handle = pos 9 }; deleter = none })
          (3 ∷ 6 ∷ [])
        ≡ none)
make_generic_file_descriptor_lem_example =
    make_generic_file_descriptor_lem sent connected_socket socket (3 ∷ 6 ∷ []) 9

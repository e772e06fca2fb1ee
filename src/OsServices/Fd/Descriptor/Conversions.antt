-- ===== src/OsServices/Fd/Descriptor/Conversions.antt =====
-- The conversion of an owner to one of an arbitrary descriptor.
use the_pipe.Base.{ℕ, ◌≡◌, refl, none, some, List, Bool-cases, inl, inr}
use the_pipe.Base.Int.{ℤ, pos, is_minus_one}
use the_pipe.OsServices.Io.{Call}
use the_pipe.OsServices.Fd.Descriptor.{
  PlainTag, plain, generic, is_null, TaggedFileDescriptor, destroy, make_generic_file_descriptor,
}

-- The end of the generic owner does to the open descriptors what the end of the owner that it was
-- made from would have done, and the end of that one does nothing more; an owner of an arbitrary
-- descriptor that was made without a deleter fails at its end.
pub make_generic_file_descriptor_lem :
    (send_signal : ℤ → Call) (tag : PlainTag) (fd : TaggedFileDescriptor (plain tag))
    (opened : List ℕ) (handle : ℕ)
    → (destroy send_signal (make_generic_file_descriptor fd).0 opened
        ≡ destroy send_signal fd opened)
      × (destroy send_signal (make_generic_file_descriptor fd).1 opened ≡ some opened)
      × (destroy send_signal {tag = generic}
            (record { ref = record { native_handle = pos handle }; deleter = none })
            opened
          ≡ none)
unfolding destroy make_generic_file_descriptor is_null
make_generic_file_descriptor_lem send_signal tag fd opened handle =
    elim (Bool-cases (is_minus_one fd.ref.native_handle)) [
      | inl no_fd ↦ (rw no_fd refl, refl, refl)
      | inr some_fd ↦ (rw some_fd refl, refl, refl)
    ]

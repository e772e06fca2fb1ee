-- ===== src/ClientCtl/StartupConfig/Sockets.antt =====
-- Which numbers are accepted as a socket, and the round trip of a host address.
use the_pipe.Base.{ℕ, ◌≤◌, ◌≡◌, refl, true, false, arith, ◌∙◌}
use the_pipe.Base.Int.{ℤ, pos, negsuc}
use the_pipe.Base.Results.{Result, ok, err, runtime_error, system_error}
use the_pipe.Jopp.{Jopp}
use the_pipe.Jopp.Fields.{
  get_string_of_find, get_number_of_find, get_object_of_find, find-two_fields, find-insert_self,
}
use the_pipe.ClientCtl.StartupConfig.{
  int_max, Doubles, Fstat, failed, socket, other, SocketFdRef, HostAddress, socket_fd, HostInfo,
  check_socket, make_socket_fd_ref, make_host_address, make_host_info, socket_fd_to_jopp_value,
  host_address_to_jopp_object, host_info_to_jopp_object,
}

module _ (j : Jopp) (d : Doubles j.Number) (fstat : ℤ → Fstat) where
  -- What becomes of the number that stands for a descriptor.
  abbrev pub outcome : ℤ → Fstat → Result SocketFdRef
  outcome (negsuc n) _ = err (runtime_error "Invalid socket_fd")
  outcome (pos n) (failed errno) = err (system_error "Invalid socket_fd" errno)
  outcome (pos n) other = err (runtime_error "socket_fd is not a socket")
  outcome (pos n) socket = ok (record { native_handle = pos n })

  abbrev pub IsInt : ℤ → Type 0
  IsInt (pos n) = n ≤ int_max
  IsInt (negsuc n) = n ≤ int_max

  -- The descriptor of a written socket is refused if it is negative or if fstat fails or finds
  -- something other than a socket, each with its own error, and is read back as it was otherwise.
  pub make_socket_fd_ref-to_jopp_value :
      (fd : ℤ)
      → IsInt fd
      → make_socket_fd_ref j d fstat (socket_fd_to_jopp_value j d (record { native_handle = fd }))
        ≡ outcome fd (fstat fd)
  unfolding make_socket_fd_ref socket_fd_to_jopp_value check_socket
  make_socket_fd_ref-to_jopp_value (negsuc n) h = rw (d.of_int-negsuc n)
  make_socket_fd_ref-to_jopp_value (pos n) h =
      rw
        (
          d.of_int-below_zero n,
          d.of_int-above_int_max n h,
          d.to_int-of_int n h,
          d.equals-of_int (pos n),
        )
        (checked (fstat (pos n)))
    where
      checked : (s : Fstat) → check_socket j d fstat (pos n) s ≡ outcome (pos n) s
      checked (failed errno) = refl
      checked socket = refl
      checked other = refl

  -- Whatever number is accepted: it lies in the range of an int, it is the number of the descriptor
  -- that is returned, and fstat finds a socket there.
  pub make_socket_fd_ref-ok :
      (value : j.Number) (ref : SocketFdRef)
      → make_socket_fd_ref j d fstat value ≡ ok ref
      → (d.is_below_zero value ≡ false)
        × (d.is_above_int_max value ≡ false)
        × (d.equals (d.of_int ref.native_handle) value ≡ true)
        × (fstat ref.native_handle ≡ socket)
  unfolding make_socket_fd_ref check_socket
  make_socket_fd_ref-ok value ref e = ground arith

  abbrev pub IsAccepted : HostAddress → Type 0
  IsAccepted (socket_fd ref) =
      (n : ℕ) × (ref.native_handle ≡ pos n) × (n ≤ int_max) × (fstat (pos n) ≡ socket)

  accepted_ref :
      (n : ℕ) (handle : ℤ)
      → handle ≡ pos n
      → n ≤ int_max
      → fstat (pos n) ≡ socket
      → make_socket_fd_ref j d fstat
          (socket_fd_to_jopp_value j d (record { native_handle = handle }))
        ≡ ok (record { native_handle = handle })
  accepted_ref n handle e h s = rw e (make_socket_fd_ref-to_jopp_value (pos n) h ∙ rw s refl)

  pub make_host_address-to_jopp_object :
      (address : HostAddress)
      → IsAccepted address
      → make_host_address j d fstat (host_address_to_jopp_object j d address) ≡ ok address
  unfolding make_host_address host_address_to_jopp_object
  make_host_address-to_jopp_object (socket_fd ref) (n, e, h, s) =
      let o = host_address_to_jopp_object j d (socket_fd ref) in
      let (type, value) = find-two_fields j "type" "value" _ _ refl in
      rw (
        get_string_of_find j "type" "socket_fd" o type,
        get_number_of_find j "value" _ o value,
        accepted_ref n ref.native_handle e h s,
      )

  pub make_host_info-to_jopp_object :
      (info : HostInfo)
      → IsAccepted info.address
      → make_host_info j d fstat (host_info_to_jopp_object j d info) ≡ ok info
  unfolding make_host_info host_info_to_jopp_object
  make_host_info-to_jopp_object info h = rw (
    get_object_of_find j "address" (host_address_to_jopp_object j d info.address)
        (host_info_to_jopp_object j d info) (find-insert_self j _ _ j.empty (j.find-empty _)),
    make_host_address-to_jopp_object info.address h,
  )

-- ===== src/ClientCtl/StartupConfig.antt =====
-- src/client_ctl/startup_config.hpp. A file descriptor is an int; a JSON number is a double. Both
-- the arithmetic on doubles and the answer of fstat are parameters.
pub mod Sockets
pub mod RoundTrip
use the_pipe.Base.{
  ℕ, ◌≤◌, ◌≡◌, Bool, true, false, ◌||◌, not, Option, none, some, List, [], ◌∷◌, map, String, str_eq,
  if◌then◌else◌, leb,
}
use the_pipe.Base.Int.{ℤ, pos, negsuc, minus_one}
use the_pipe.Base.Dict.{Dict}
use the_pipe.Base.Results.{
  Result, ok, err, ◌>>=◌, ◌>>◌, or_throw, throw_if, runtime_error, system_error, json_error,
}
use the_pipe.Jopp.{Jopp, get_string, get_number, get_object}
use the_pipe.Jopp.Maps.{insert_all, read_all}

abbrev pub int_max : ℕ
int_max = 2147483647

-- The conversions between int and double, for values an int has, and the comparisons.
pub record Doubles (Number : Type 0) : Type 0 where
  pub of_int : ℤ → Number
  -- Rounds towards zero.
  pub to_int : Number → ℤ
  pub is_below_zero : Number → Bool
  pub is_above_int_max : Number → Bool
  pub equals : Number → Number → Bool
  pub of_int-below_zero : (n : ℕ) → is_below_zero (of_int (pos n)) ≡ false
  pub of_int-negsuc : (n : ℕ) → is_below_zero (of_int (negsuc n)) ≡ true
  pub of_int-above_int_max : (n : ℕ) → n ≤ int_max → is_above_int_max (of_int (pos n)) ≡ false
  pub to_int-of_int : (n : ℕ) → n ≤ int_max → to_int (of_int (pos n)) ≡ pos n
  pub equals-of_int : (a : ℤ) → equals (of_int a) (of_int a) ≡ true

-- What fstat says about a descriptor.
pub data Fstat : Type 0 where
  failed : ℕ → Fstat
  socket other : Fstat

-- A reference to a connected socket.
pub record SocketFdRef : Type 0 where
  pub native_handle : ℤ

pub data HostAddress : Type 0 where
  socket_fd : SocketFdRef → HostAddress

pub record HostInfo : Type 0 where
  pub address : HostAddress

-- A path is given by its text.
abbrev pub FilePath : Type 0
FilePath = String

abbrev pub InputPortFileMap : Type 0
InputPortFileMap = Dict FilePath

abbrev pub OutputPortFileMap : Type 0
OutputPortFileMap = Dict (List FilePath)

pub record StandaloneConfig : Type 0 where
  pub inputs : InputPortFileMap
  pub outputs : OutputPortFileMap

pub data StartupConfig : Type 0 where
  connected_to_host : HostInfo → StartupConfig
  standalone : StandaloneConfig → StartupConfig

module _ (j : Jopp) (d : Doubles j.Number) (fstat : ℤ → Fstat) where
  check_socket : ℤ → Fstat → Result SocketFdRef
  check_socket fd (failed errno) = err (system_error "Invalid socket_fd" errno)
  check_socket fd other = err (runtime_error "socket_fd is not a socket")
  check_socket fd socket = ok (record { native_handle = fd })

  unfoldable pub make_socket_fd_ref : j.Number → Result SocketFdRef
  unfolding check_socket
  make_socket_fd_ref value = do
    throw_if (d.is_below_zero value || d.is_above_int_max value) (runtime_error "Invalid socket_fd")
    let fd_val = d.to_int value
    throw_if (not (d.equals (d.of_int fd_val) value)) (runtime_error "Invalid socket_fd")
    check_socket fd_val (fstat fd_val)

  unfoldable pub make_host_address : j.Object → Result HostAddress
  unfolding make_socket_fd_ref
  make_host_address obj = do
    type ← get_string j "type" obj
    let accepted = do
      value ← get_number j "value" obj
      ref ← make_socket_fd_ref value
      ok (socket_fd ref)
    if str_eq type "socket_fd"
        then accepted
        else err (runtime_error "The given host address type is not supported")

  unfoldable pub make_host_info : j.Object → Result HostInfo
  unfolding make_host_address
  make_host_info object = do
    address_object ← get_object j "address" object
    address ← make_host_address address_object
    ok (record { address = address })

module _ (j : Jopp) (d : Doubles j.Number) where
  unfoldable pub socket_fd_to_jopp_value : SocketFdRef → j.Number
  socket_fd_to_jopp_value value = d.of_int value.native_handle

  unfoldable pub host_address_to_jopp_object : HostAddress → j.Object
  unfolding socket_fd_to_jopp_value
  host_address_to_jopp_object (socket_fd object) =
      j.insert "value" (j.of_number (socket_fd_to_jopp_value object))
        (j.insert "type" (j.of_string "socket_fd") j.empty)

  unfoldable pub host_info_to_jopp_object : HostInfo → j.Object
  unfolding host_address_to_jopp_object
  host_info_to_jopp_object object =
      j.insert "address" (j.of_object (host_address_to_jopp_object object.address)) j.empty

module _ (j : Jopp) where
  unfoldable pub input_port_file_map_to_jopp_object : InputPortFileMap → j.Object
  unfolding insert_all
  input_port_file_map_to_jopp_object object = insert_all j j.of_string object j.empty

  path_of_value : j.Value → Result FilePath
  path_of_value v = or_throw (j.as_string v) json_error

  unfoldable pub make_input_port_file_map : j.Object → Result InputPortFileMap
  unfolding path_of_value read_all
  make_input_port_file_map object = read_all j path_of_value (j.items object) []

  value_of_paths : List FilePath → j.Value
  value_of_paths paths = j.of_array (map j.of_string paths)

  unfoldable pub output_port_file_map_to_jopp_object : OutputPortFileMap → j.Object
  unfolding value_of_paths insert_all
  output_port_file_map_to_jopp_object object = insert_all j value_of_paths object j.empty

  -- The loop over the array of paths.
  read_paths : List j.Value → Result (List FilePath)
  unfolding path_of_value
  read_paths [] = ok []
  read_paths (item ∷ items) = do
    path ← path_of_value item
    paths ← read_paths items
    ok (path ∷ paths)

  paths_of_value : j.Value → Result (List FilePath)
  unfolding read_paths
  paths_of_value v = or_throw (j.as_array v) json_error >>= read_paths

  unfoldable pub make_output_port_file_map : j.Object → Result OutputPortFileMap
  unfolding paths_of_value read_all
  make_output_port_file_map object = read_all j paths_of_value (j.items object) []

  unfoldable pub standalone_config_to_jopp_object : StandaloneConfig → j.Object
  unfolding input_port_file_map_to_jopp_object output_port_file_map_to_jopp_object
  standalone_config_to_jopp_object cfg =
      j.insert "outputs" (j.of_object (output_port_file_map_to_jopp_object cfg.outputs))
        (j.insert "inputs" (j.of_object (input_port_file_map_to_jopp_object cfg.inputs)) j.empty)

  unfoldable pub make_standalone_config : j.Object → Result StandaloneConfig
  unfolding make_input_port_file_map make_output_port_file_map
  make_standalone_config obj = do
    inputs_object ← get_object j "inputs" obj
    inputs ← make_input_port_file_map inputs_object
    outputs_object ← get_object j "outputs" obj
    outputs ← make_output_port_file_map outputs_object
    ok (record { inputs = inputs; outputs = outputs })

module _ (j : Jopp) (d : Doubles j.Number) where
  -- The fields of a configuration: the name of its mode, and its parameters.
  mode_to_jopp_object : String → j.Object → j.Object
  mode_to_jopp_object name parameters =
      j.insert "parameters" (j.of_object parameters)
        (j.insert "operational_mode" (j.of_string name) j.empty)

  unfoldable pub startup_config_to_jopp_object : StartupConfig → j.Object
  unfolding mode_to_jopp_object host_info_to_jopp_object standalone_config_to_jopp_object
  startup_config_to_jopp_object (connected_to_host item) =
      mode_to_jopp_object "connected_to_host" (host_info_to_jopp_object j d item)
  startup_config_to_jopp_object (standalone item) =
      mode_to_jopp_object "standalone" (standalone_config_to_jopp_object j item)

  unfoldable pub make_startup_config : (ℤ → Fstat) → j.Object → Result StartupConfig
  unfolding make_host_info make_standalone_config
  make_startup_config fstat object = do
    operational_mode ← get_string j "operational_mode" object
    let with_host = do
      parameters ← get_object j "parameters" object
      info ← make_host_info j d fstat parameters
      ok (connected_to_host info)
    let without_host = do
      parameters ← get_object j "parameters" object
      config ← make_standalone_config j parameters
      ok (standalone config)
    if str_eq operational_mode "connected_to_host"
        then with_host
        else (if str_eq operational_mode "standalone"
            then without_host
            else err (runtime_error "The given operational mode is not supported"))

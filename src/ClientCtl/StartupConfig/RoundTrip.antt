-- ===== src/ClientCtl/StartupConfig/RoundTrip.antt =====
-- Writing a startup configuration and reading it back.
use the_pipe.Base.{◌≡◌, refl, some, [], ◌∷◌, List, map, String, str_eq, false}
use the_pipe.Base.Int.{ℤ}
use the_pipe.Base.Dict.{Dict, lookup, IsDistinct}
use the_pipe.Base.Results.{ok, err, runtime_error}
use the_pipe.Jopp.{Jopp}
use the_pipe.Jopp.Maps.{read_all-insert_all}
use the_pipe.Jopp.Fields.{get_string_of_find, get_object_of_find, find-two_fields}
use the_pipe.ClientCtl.StartupConfig.{
  Doubles, Fstat, FilePath, StandaloneConfig, StartupConfig, connected_to_host, standalone,
  path_of_value, value_of_paths, read_paths, paths_of_value, input_port_file_map_to_jopp_object,
  output_port_file_map_to_jopp_object, make_standalone_config, standalone_config_to_jopp_object,
  make_startup_config, startup_config_to_jopp_object, host_info_to_jopp_object,
}
use the_pipe.ClientCtl.StartupConfig.Sockets.{IsAccepted, make_host_info-to_jopp_object}

-- The same entries, in any order.
abbrev pub SameEntries {ℓ} : {A : Type ℓ} → Dict A → Dict A → Type ℓ
SameEntries a b = (k : String) → lookup k a ≡ lookup k b

abbrev pub SameConfig : StandaloneConfig → StandaloneConfig → Type 0
SameConfig a b = SameEntries a.inputs b.inputs × SameEntries a.outputs b.outputs

module _ (j : Jopp) where
  path_of_value-of_string : (p : FilePath) → path_of_value j (j.of_string p) ≡ ok p
  unfolding path_of_value
  path_of_value-of_string p = rw (j.as_string-of_string p)

  read_paths-map : (ps : List FilePath) → read_paths j (map j.of_string ps) ≡ ok ps
  unfolding read_paths
  read_paths-map [] = refl
  read_paths-map (p ∷ ps) = rw (path_of_value-of_string p, read_paths-map ps)

  paths_of_value-value_of_paths :
      (ps : List FilePath) → paths_of_value j (value_of_paths j ps) ≡ ok ps
  unfolding paths_of_value value_of_paths
  paths_of_value-value_of_paths ps =
      rw (j.as_array-of_array (map j.of_string ps)) (read_paths-map ps)

  pub make_standalone_config-to_jopp_object :
      (cfg : StandaloneConfig)
      → IsDistinct cfg.inputs
      → IsDistinct cfg.outputs
      → (r : StandaloneConfig) × (make_standalone_config j (standalone_config_to_jopp_object j cfg)
          ≡ ok r)
        × SameConfig r cfg
  unfolding make_standalone_config standalone_config_to_jopp_object
  make_standalone_config-to_jopp_object cfg h k =
      let o = standalone_config_to_jopp_object j cfg in
      let (ins, outs) =
        find-two_fields j "inputs" "outputs"
          (j.of_object (input_port_file_map_to_jopp_object j cfg.inputs))
          (j.of_object (output_port_file_map_to_jopp_object j cfg.outputs)) refl in
      let (inputs, read_in, same_in) =
        read_all-insert_all j j.of_string (path_of_value j) path_of_value-of_string cfg.inputs h in
      let (outputs, read_out, same_out) =
        read_all-insert_all j (value_of_paths j) (paths_of_value j) paths_of_value-value_of_paths
          cfg.outputs k in
      (
        record { inputs = inputs; outputs = outputs },
        rw (
          get_object_of_find j "inputs" _ o ins,
          read_in,
          get_object_of_find j "outputs" _ o outs,
          read_out,
        ),
        (same_in, same_out),
      )

module _ (j : Jopp) (d : Doubles j.Number) (fstat : ℤ → Fstat) where
  abbrev pub IsWritable : StartupConfig → Type 0
  IsWritable (connected_to_host info) = IsAccepted j d fstat info.address
  IsWritable (standalone cfg) = IsDistinct cfg.inputs × IsDistinct cfg.outputs

  -- The same mode with the same host, or with the same files for every port.
  abbrev pub Agrees : StartupConfig → StartupConfig → Type 0
  Agrees (connected_to_host a) (connected_to_host b) = a ≡ b
  Agrees (standalone a) (standalone b) = SameConfig a b
  Agrees _ _ = ⊥

  -- A startup configuration is read back as it was written, if its socket is one that fstat
  -- confirms, or if its port names are distinct: in the same mode, with the same host or with the
  -- same files for every port.
  pub make_startup_config-to_jopp_object :
      (cfg : StartupConfig)
      → IsWritable cfg
      → (r : StartupConfig) × (make_startup_config j d fstat (startup_config_to_jopp_object j d cfg)
          ≡ ok r)
        × Agrees r cfg
  unfolding make_startup_config startup_config_to_jopp_object
  make_startup_config-to_jopp_object (connected_to_host info) h =
      let o = startup_config_to_jopp_object j d (connected_to_host info) in
      let (mode, parameters) =
        find-two_fields j "operational_mode" "parameters" (j.of_string "connected_to_host")
          (j.of_object (host_info_to_jopp_object j d info)) refl in
      (
        connected_to_host info,
        rw (
          get_string_of_find j "operational_mode" "connected_to_host" o mode,
          get_object_of_find j "parameters" _ o parameters,
          make_host_info-to_jopp_object j d fstat info h,
        ),
        refl,
      )
  make_startup_config-to_jopp_object (standalone cfg) h =
      let o = startup_config_to_jopp_object j d (standalone cfg) in
      let (mode, parameters) =
        find-two_fields j "operational_mode" "parameters" (j.of_string "standalone")
          (j.of_object (standalone_config_to_jopp_object j cfg)) refl in
      let (r, e, same) = make_standalone_config-to_jopp_object j cfg h.0 h.1 in
      (
        standalone r,
        rw (
          get_string_of_find j "operational_mode" "standalone" o mode,
          get_object_of_find j "parameters" _ o parameters,
          e,
        ),
        same,
      )

  -- An object with any other mode is refused.
  pub make_startup_config-unsupported :
      (o : j.Object) (mode : String)
      → j.find "operational_mode" o ≡ some (j.of_string mode)
      → str_eq mode "connected_to_host" ≡ false
      → str_eq mode "standalone" ≡ false
      → make_startup_config j d fstat o
        ≡ err (runtime_error "The given operational mode is not supported")
  unfolding make_startup_config
  make_startup_config-unsupported o mode e f g =
      rw (get_string_of_find j "operational_mode" mode o e, f, g)

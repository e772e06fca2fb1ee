-- ===== src/ClientCtl/Tests.antt =====
-- The theorems about src/client_ctl at concrete configurations.
use the_pipe.Base.{◌≡◌, refl, true, false, [], ◌∷◌}
use the_pipe.Base.Int.{pos}
use the_pipe.Base.Dict.{lookup}
use the_pipe.Base.Results.{ok, err, json_error, runtime_error}
use the_pipe.Jopp.Sample.{sample, items, text, end, field}
use the_pipe.ClientCtl.ApplicationInfo.{
  ClientApplicationInfo, client_application_info_to_jopp_object, make_client_application_info,
}
use the_pipe.ClientCtl.ApplicationInfo.RoundTrip.{make_client_application_info-to_jopp_object}
use the_pipe.ClientCtl.Whole.{whole, descriptors, is_below_zero, is_above_int_max, equals}
use the_pipe.ClientCtl.StartupConfig.{
  socket, StartupConfig, standalone, make_socket_fd_ref, make_startup_config,
  startup_config_to_jopp_object,
}
use the_pipe.ClientCtl.StartupConfig.Sockets.{make_socket_fd_ref-ok}
use the_pipe.ClientCtl.StartupConfig.RoundTrip.{
  Agrees, make_startup_config-to_jopp_object, make_startup_config-unsupported,
}

accepted_five :
    make_socket_fd_ref sample whole descriptors (pos 5) ≡ ok (record { native_handle = pos 5 })
unfolding make_socket_fd_ref
accepted_five = refl

make_socket_fd_ref-ok_example :
    (is_below_zero (pos 5) ≡ false)
    × (is_above_int_max (pos 5) ≡ false)
    × (equals (pos 5) (pos 5) ≡ true)
    × (descriptors (pos 5) ≡ socket)
make_socket_fd_ref-ok_example =
    make_socket_fd_ref-ok sample whole descriptors (pos 5) (record { native_handle = pos 5 })
      accepted_five

abbrev files : StartupConfig
files = standalone (record {
  inputs = ("in", "/tmp/a") ∷ [];
  outputs = ("left", "/tmp/b" ∷ "/tmp/c" ∷ []) ∷ ("right", []) ∷ [];
})

make_startup_config-to_jopp_object_example :
    (r : StartupConfig) × (make_startup_config sample whole descriptors
        (startup_config_to_jopp_object sample whole files)
      ≡ ok r)
    × Agrees sample whole descriptors r files
unfolding lookup
make_startup_config-to_jopp_object_example =
    make_startup_config-to_jopp_object sample whole descriptors files
      ((refl, tt), (refl, (refl, tt)))

make_startup_config-unsupported_example :
    make_startup_config sample whole descriptors (field "operational_mode" (text "remote") end)
    ≡ err (runtime_error "The given operational mode is not supported")
unfolding lookup items
make_startup_config-unsupported_example =
    make_startup_config-unsupported sample whole descriptors
      (field "operational_mode" (text "remote") end) "remote" refl refl refl

abbrev application : ClientApplicationInfo
application = record {
  display_name = "Mixer";
  inputs = ("left", record { stream_content_type = "pcm" }) ∷ [];
  outputs = [];
}

make_client_application_info-to_jopp_object_example :
    make_client_application_info sample (client_application_info_to_jopp_object sample application)
    ≡ err json_error
unfolding lookup
make_client_application_info-to_jopp_object_example =
    make_client_application_info-to_jopp_object sample application (refl, tt)

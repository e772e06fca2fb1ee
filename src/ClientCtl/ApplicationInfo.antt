-- ===== src/ClientCtl/ApplicationInfo.antt =====
-- src/client_ctl/client_application_info.hpp.
pub mod RoundTrip
use the_pipe.Base.{◌≡◌, List, [], ◌∷◌, String, ap}
use the_pipe.Base.Dict.{Dict}
use the_pipe.Base.Results.{Result, ok, err, ◌>>=◌, or_throw, json_error}
use the_pipe.Jopp.{Jopp, get_string, get_object}
use the_pipe.Jopp.Maps.{insert_all, read_all}

pub record PortInfo : Type 0 where
  pub stream_content_type : String

abbrev pub PortInfoMap : Type 0
PortInfoMap = Dict PortInfo

pub record ClientApplicationInfo : Type 0 where
  pub display_name : String
  pub inputs : PortInfoMap
  pub outputs : PortInfoMap

module _ (j : Jopp) where
  unfoldable pub port_info_to_jopp_object : PortInfo → j.Object
  port_info_to_jopp_object obj =
      j.insert "stream_content_type" (j.of_string obj.stream_content_type) j.empty

  unfoldable pub make_port_info : j.Object → Result PortInfo
  make_port_info obj = do
    stream_content_type ← get_string j "stream_content_type" obj
    ok (record { stream_content_type = stream_content_type })

  unfoldable pub port_info_map_to_jopp_object : PortInfoMap → j.Object
  unfolding port_info_to_jopp_object insert_all
  port_info_map_to_jopp_object obj =
      insert_all j (λ info. j.of_object (port_info_to_jopp_object info)) obj j.empty

  -- An element that is no object is refused.
  port_info_of_value : j.Value → Result PortInfo
  unfolding make_port_info
  port_info_of_value v = or_throw (j.as_object v) json_error >>= make_port_info

  unfoldable pub make_port_info_map : j.Object → Result PortInfoMap
  unfolding port_info_of_value read_all
  make_port_info_map obj = read_all j port_info_of_value (j.items obj) []

  unfoldable pub client_application_info_to_jopp_object : ClientApplicationInfo → j.Object
  unfolding port_info_map_to_jopp_object
  client_application_info_to_jopp_object obj =
      j.insert "outputs" (j.of_object (port_info_map_to_jopp_object obj.outputs)) (
        j.insert "inputs" (j.of_object (port_info_map_to_jopp_object obj.inputs))
          (j.insert "display_name" (j.of_string obj.display_name) j.empty))

  -- The outputs are looked up under "output".
  unfoldable pub make_client_application_info : j.Object → Result ClientApplicationInfo
  unfolding make_port_info_map
  make_client_application_info obj = do
    display_name ← get_string j "display_name" obj
    inputs_object ← get_object j "inputs" obj
    inputs ← make_port_info_map inputs_object
    outputs_object ← get_object j "output" obj
    outputs ← make_port_info_map outputs_object
    ok (record { display_name = display_name; inputs = inputs; outputs = outputs })

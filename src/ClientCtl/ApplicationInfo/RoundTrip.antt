-- ===== src/ClientCtl/ApplicationInfo/RoundTrip.antt =====
-- Writing the information about an application and reading it back.
use the_pipe.Base.{◌≡◌, refl, ap, String}
use the_pipe.Base.Dict.{lookup, IsDistinct}
use the_pipe.Base.Results.{ok, err, json_error, ◌>>=◌}
use the_pipe.Jopp.{Jopp}
use the_pipe.Jopp.Fields.{
  get_string_of_find, get_object_of_find, get_object-missing, find-insert_self, find-three_fields,
  find-three_fields_other,
}
use the_pipe.Jopp.Maps.{read_all-insert_all}
use the_pipe.ClientCtl.ApplicationInfo.{
  PortInfo, PortInfoMap, ClientApplicationInfo, port_info_to_jopp_object, make_port_info,
  port_info_map_to_jopp_object, port_info_of_value, make_port_info_map,
  client_application_info_to_jopp_object, make_client_application_info,
}

module _ (j : Jopp) where
  pub make_port_info-to_jopp_object :
      (info : PortInfo) → make_port_info j (port_info_to_jopp_object j info) ≡ ok info
  unfolding make_port_info port_info_to_jopp_object
  make_port_info-to_jopp_object info =
      ap (λ r. r >>= λ s. ok (record { stream_content_type = s }))
        (get_string_of_find j "stream_content_type" info.stream_content_type _
          (find-insert_self j _ _ j.empty (j.find-empty _)))

  port_info_of_value-of_object :
      (info : PortInfo)
      → port_info_of_value j (j.of_object (port_info_to_jopp_object j info)) ≡ ok info
  unfolding port_info_of_value
  port_info_of_value-of_object info =
      rw (j.as_object-of_object (port_info_to_jopp_object j info))
        (make_port_info-to_jopp_object info)

  -- A map of ports with distinct names is read back with the same information for every name.
  pub make_port_info_map-to_jopp_object :
      (ports : PortInfoMap)
      → IsDistinct ports
      → (r : PortInfoMap) × (make_port_info_map j (port_info_map_to_jopp_object j ports) ≡ ok r)
        × ((name : String) → lookup name r ≡ lookup name ports)
  unfolding make_port_info_map port_info_map_to_jopp_object
  make_port_info_map-to_jopp_object =
      read_all-insert_all j (λ info. j.of_object (port_info_to_jopp_object j info))
        (port_info_of_value j) port_info_of_value-of_object

  -- What is written for an application cannot be read back: the reader throws, since it looks for
  -- a field "output" where the writer puts "outputs".
  pub make_client_application_info-to_jopp_object :
      (info : ClientApplicationInfo)
      → IsDistinct info.inputs
      → make_client_application_info j (client_application_info_to_jopp_object j info)
        ≡ err json_error
  unfolding make_client_application_info client_application_info_to_jopp_object
  make_client_application_info-to_jopp_object info h =
      let o = client_application_info_to_jopp_object j info in
      let (name, ins, outs) =
        find-three_fields j "display_name" "inputs" "outputs" _ _ _ refl refl refl in
      let (r, e, _) = make_port_info_map-to_jopp_object info.inputs h in
      let missing =
        find-three_fields_other j "display_name" "inputs" "outputs" "output" _ _ _ refl refl refl
          refl refl refl in
      rw (
        get_string_of_find j "display_name" info.display_name o name,
        get_object_of_find j "inputs" _ o ins,
        e,
        get_object-missing j "output" o missing,
      )

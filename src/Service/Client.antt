-- ===== src/Service/Client.antt =====
-- The operations of `VanClient` on service definitions: client/serviceinterface_create.go,
-- serviceinterface_inspect.go, serviceinterface_list.go, serviceinterface_remove.go and
-- serviceinterface_update.go.
pub mod Operations
pub mod Atomic
pub mod Stored
pub mod Bind
pub mod Unbind
pub mod Roundtrip
pub mod Entries
pub mod Sound
pub mod Ports
pub mod Accepts
pub mod Writes
use skupper_docker.Base.{
  String, Bool, true, false, ◌&&◌, ◌||◌, not, Option, none, some, List, [], ◌∷◌, ◌==◌, is_empty,
  if◌then◌else◌,
}
use skupper_docker.Base.Int.{ℤ, pos, ◌==ℤ◌}
use skupper_docker.Base.Dict
use skupper_docker.Base.Dict.{Dict}
use skupper_docker.Base.Exec.{
  Result, ok, err, Exec, pure, fail, lift, gets, wrap, wrap_result, refuse_if, ◌>>=◌, ◌>>◌,
}
use skupper_docker.Types.{ServiceInterface, ServiceInterfaceTarget, transport_network_name}
use skupper_docker.Errors.{
  Error, no_transport, services_not_read, services_not_decoded, services_not_written,
  service_not_found, protocol_mismatch, bad_target_type, port_required, no_entry, no_target,
  nothing_to_unexpose, nil_dereference,
}
use skupper_docker.Host.{
  Host, ContainerJson, inspect_container, read_services, decode_services, write_services,
}
use skupper_docker.Service.Validate.{validate_service_interface}
use skupper_docker.Service.Targets.{
  add_target_to_service_interface, docker_host, get_service_interface_target, is_named,
  remove_targets,
}

abbrev find_transport : Exec Error Host ContainerJson
find_transport = wrap no_transport (inspect_container "skupper-router")

-- ioutil.ReadFile and json.Unmarshal, with the messages that most operations give
unfoldable pub current_services : Exec Error Host (Dict ServiceInterface)
current_services = do
  file ← wrap services_not_read read_services
  lift (wrap_result services_not_decoded (decode_services file))

-- json.Marshal and ioutil.WriteFile
unfoldable pub save_services : Dict ServiceInterface → Exec Error Host (Unit {0})
save_services current = wrap services_not_written (write_services current)

-- The change that `updateServiceInterface` makes to the map.
pub put_definition : ServiceInterface → Bool → Dict ServiceInterface → Dict ServiceInterface
put_definition service overwrite current =
    if overwrite || not (Dict.member service.address current)
    then Dict.insert service.address (record service { origin = "" }) current
    else current

unfoldable pub update_service_interface : ServiceInterface → Bool → Exec Error Host (Unit {0})
update_service_interface service overwrite = do
  current ← current_services
  save_services (put_definition service overwrite current)

unfoldable pub service_interface_create : ServiceInterface → Exec Error Host (Unit {0})
service_interface_create service = do
  find_transport
  lift (validate_service_interface service)
  update_service_interface service false

unfoldable pub service_interface_inspect : String → Exec Error Host (Option ServiceInterface)
service_interface_inspect address = do
  find_transport
  file ← read_services
  defs ← lift (wrap_result services_not_decoded (decode_services file))
  pure (Dict.lookup address defs)

unfoldable pub service_interface_update : ServiceInterface → Exec Error Host (Unit {0})
service_interface_update service = do
  find_transport
  wrap service_not_found (service_interface_inspect service.address)
  lift (validate_service_interface service)
  update_service_interface service true

-- The port that was deduced goes to the service, else the port that was given goes to the service
-- if it has none and to the target if it has one.
unfoldable pub assign_ports :
    ServiceInterface → ServiceInterfaceTarget → ℤ → ServiceInterface × ServiceInterfaceTarget
assign_ports service target target_port =
    if not (target.target_port ==ℤ pos 0)
    then (record service { port = target.target_port }, record target { target_port = pos 0 })
    else if not (target_port ==ℤ pos 0)
    then (if service.port ==ℤ pos 0
        then (record service { port = target_port }, target)
        else (service, record target { target_port = target_port }))
    else (service, target)

unfoldable pub default_port : String → ServiceInterface → Result Error ServiceInterface
default_port protocol service =
    if service.port ==ℤ pos 0
    then (if protocol == "http" then ok (record service { port = pos 80 }) else err port_required)
    else ok service

-- The end of `ServiceInterfaceBind`, from the target on.
unfoldable pub bind_target :
    ServiceInterface → String → ℤ → ServiceInterfaceTarget → Exec Error Host (Unit {0})
bind_target service protocol target_port target = do
  let ported = assign_ports service target target_port
  bound ← lift (default_port protocol ported.0)
  update_service_interface (add_target_to_service_interface bound ported.1) true

unfoldable pub service_interface_bind :
    ServiceInterface → String → String → String → ℤ → Exec Error Host (Unit {0})
service_interface_bind service target_type target_name protocol target_port = do
  find_transport
  lift (validate_service_interface service)
  refuse_if (not (protocol == "") && not (service.protocol == protocol))
      (protocol_mismatch protocol service.protocol)
  target ←
      get_service_interface_target target_type target_name
        (service.port ==ℤ pos 0 && target_port ==ℤ pos 0)
  bind_target service protocol target_port target

-- The change that `removeServiceInterfaceTarget` makes to the map.
unfoldable pub unbind_definition :
    String
    → String
    → String
    → Bool
    → ServiceInterface
    → Dict ServiceInterface
    → Result Error (Dict ServiceInterface)
unbind_definition host service_name target_name delete_if_no_targets service current =
    let loop = remove_targets (is_named host service_name target_name) service.targets in
    if not loop.0
    then err (no_target target_name service_name)
    else if is_empty loop.1 && delete_if_no_targets
    then ok (Dict.erase service_name current)
    else ok (Dict.insert service_name (record service { targets = loop.1 }) current)

entry_of : String → Option ServiceInterface → Result Error ServiceInterface
entry_of name none = err (no_entry name)
entry_of name (some service) = ok service

unfoldable pub remove_service_interface_target : String → String → Bool → Exec Error Host (Unit {0})
unfolding entry_of
remove_service_interface_target service_name target_name delete_if_no_targets = do
  find_transport
  current ← current_services
  service ← lift (entry_of service_name (Dict.lookup service_name current))
  host ← gets docker_host
  left ← lift (unbind_definition host service_name target_name delete_if_no_targets service current)
  save_services left

unfoldable pub service_interface_unbind :
    String → String → String → Bool → Exec Error Host (Unit {0})
service_interface_unbind target_type target_name address delete_if_no_targets = do
  find_transport
  if target_type == "container" || target_type == "host-service"
      then remove_service_interface_target address target_name delete_if_no_targets
      else fail (bad_target_type target_type)

unfoldable pub service_interface_remove : String → Exec Error Host (Unit {0})
service_interface_remove address = do
  find_transport
  defs ← current_services
  refuse_if (not (Dict.member address defs)) nothing_to_unexpose
  save_services (Dict.erase address defs)

-- The address of a container on the network. Docker gives a nil pointer for a network that the
-- container is not on.
network_address : Option String → Result Error String
network_address none = err nil_dereference
network_address (some ip) = ok ip

with_alias : ServiceInterface → Result Error ContainerJson → Result Error ServiceInterface
unfolding network_address
with_alias v (err e) = ok v
with_alias v (ok current) =
    elim (network_address (Dict.lookup transport_network_name current.networks)) [
      | ok ip ↦ ok (record v { alias = ip })
      | err e ↦ err e
    ]

list_loop :
    (String → Result Error ContainerJson)
    → List ServiceInterface
    → Result Error (List ServiceInterface)
unfolding with_alias
list_loop daemon [] = ok []
list_loop daemon (v ∷ vs) =
    let rest = list_loop daemon vs in
    elim (with_alias v (daemon v.address)) [
      | err e ↦ err e
      | ok w ↦ elim rest [ ok ws ↦ ok (w ∷ ws) | err e ↦ err e ]
    ]

abbrev inspect : Host → String → Result Error ContainerJson
inspect h = h.inspect

unfoldable pub service_interface_list : Exec Error Host (List ServiceInterface)
unfolding list_loop
service_interface_list = do
  find_transport
  file ← read_services
  defs ← lift (wrap_result services_not_decoded (decode_services file))
  daemon ← gets inspect
  lift (list_loop daemon (Dict.values defs))

-- ===== src/Service/Targets.antt =====
-- `addTargetToServiceInterface`, `getServiceInterfaceTarget` and the loop of
-- `removeServiceInterfaceTarget`, of client/serviceinterface_update.go.
pub mod Laws
use skupper_docker.Base.{
  String, ◌<>◌, Bool, true, false, ◌&&◌, ◌||◌, not, none, some, List, [], ◌∷◌, ◌++◌, ◌==◌, is_empty,
  if◌then◌else◌,
}
use skupper_docker.Base.Int.{ℤ, pos}
use skupper_docker.Base.Text.{split_at}
use skupper_docker.Base.Exec.{Result, ok, err, Exec}
use skupper_docker.Types.{
  ServiceInterface, ServiceInterfaceTarget, container_selector, host_service_selector,
}
use skupper_docker.Errors.{Error, container_not_read, bad_target_type}
use skupper_docker.Host.{Host, ContainerJson, get_internal_ip}

-- The loop: every target of the new one's name is replaced. The flag is `modified`.
replace_targets :
    ServiceInterfaceTarget → List ServiceInterfaceTarget → Bool × List ServiceInterfaceTarget
replace_targets target [] = (false, [])
replace_targets target (t ∷ ts) =
    let rest = replace_targets target ts in
    if t.name == target.name then (true, target ∷ rest.1) else (rest.0, t ∷ rest.1)

unfoldable pub add_target :
    ServiceInterfaceTarget → List ServiceInterfaceTarget → List ServiceInterfaceTarget
unfolding replace_targets
add_target target ts =
    let loop = replace_targets target ts in if loop.0 then loop.1 else loop.1 ++ target ∷ []

unfoldable pub add_target_to_service_interface :
    ServiceInterface → ServiceInterfaceTarget → ServiceInterface
unfolding add_target
add_target_to_service_interface service target = record service {
  targets = add_target target service.targets;
}

-- the address that stands for the host, the bridge's default if docker0 has none
unfoldable pub docker_host : Host → String
unfolding get_internal_ip
docker_host h = let host = get_internal_ip h in if host == "" then "172.17.0.1" else host

-- A host service is stored as `name:ip`; the address is added if the name has no colon.
unfoldable pub host_service_name : String → String → String
unfolding split_at
host_service_name host name = elim (split_at b':' name).1 [
  | none ↦ name <> ":" <> host
  | some ip ↦ name
]

unfoldable pub container_target :
    String → Bool → Result Error ContainerJson → Result Error ServiceInterfaceTarget
container_target name deduce_port (ok c) = ok (record {
  name = name;
  selector = container_selector;
  target_port = if deduce_port && not (is_empty c.exposed_ports) then pos 9090 else pos 0;
  service = "";
})
container_target name deduce_port (err e) = err (container_not_read name e)

unfoldable pub get_service_interface_target :
    String → String → Bool → Exec Error Host ServiceInterfaceTarget
get_service_interface_target target_type target_name deduce_port h =
    if target_type == "container"
    then (container_target target_name deduce_port (h.inspect target_name), h)
    else if target_type == "host-service"
    then (
      ok (record {
        name = host_service_name (docker_host h) target_name;
        selector = host_service_selector;
        target_port = pos 0;
        service = "";
      }),
      h,
    )
    else (err (bad_target_type target_type), h)

-- Whether the removal of `target_name` from the service takes the target `t`.
unfoldable pub is_named : String → String → String → ServiceInterfaceTarget → Bool
is_named host service_name target_name t =
    let name =
      if t.selector == host_service_selector
      then host_service_name host target_name
      else target_name in
    t.name == name || (t.name == "" && target_name == service_name)

-- The loop of the removal: the flag `modified` and the targets that stay.
unfoldable pub remove_targets :
    (ServiceInterfaceTarget → Bool)
    → List ServiceInterfaceTarget
    → Bool × List ServiceInterfaceTarget
remove_targets named [] = (false, [])
remove_targets named (t ∷ ts) =
    let rest = remove_targets named ts in if named t then (true, rest.1) else (rest.0, t ∷ rest.1)

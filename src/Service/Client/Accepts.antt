-- ===== src/Service/Client/Accepts.antt =====
-- Where `ServiceInterfaceBind` of client/serviceinterface_update.go succeeds.
use skupper_docker.Base.{◌≡◌, ◌≢◌, ◌⊎◌, refl, String, true, false, ◌==◌, arith, eq_self, str_dec}
use skupper_docker.Base.Int.{ℤ, pos, ==ℤ→eq}
use skupper_docker.Base.Exec.{ok}
use skupper_docker.Types.{ServiceInterface}
use skupper_docker.Host.{Host, ContainerJson}
use skupper_docker.Service.Validate.{validate_service_interface}
use skupper_docker.Service.Targets.{get_service_interface_target, container_target}
use skupper_docker.Service.Client.{
  current_services, save_services, update_service_interface, assign_ports, default_port,
  bind_target, service_interface_bind,
}
use skupper_docker.Service.Client.Stored.{IsUp, HasDefinitions}

kind_differs : ("host-service" == "container") ≡ false
unfolding str_dec
kind_differs = refl

-- A bind succeeds where the transport container is there, the file can be read and written, the
-- service is valid and has a port, no other protocol than the service's is asked for, and the target
-- is a container that the daemon finds, or a host service.
pub bind_succeeds :
    (s : ServiceInterface) (target_type name protocol : String) (port : ℤ) (h : Host)
    → validate_service_interface s ≡ ok tt
    → s.port ≢ pos 0
    → (protocol ≡ "") ⊎ (s.protocol ≡ protocol)
    → ((target_type ≡ "container") × ((c : ContainerJson) × (h.inspect name ≡ ok c)))
      ⊎ (target_type ≡ "host-service")
    → IsUp h
    → HasDefinitions h.services
    → h.writable ≡ true
    → (service_interface_bind s target_type name protocol port h).0 ≡ ok tt
unfolding service_interface_bind bind_target get_service_interface_target container_target
    update_service_interface current_services save_services default_port assign_ports
bind_succeeds s target_type name protocol port h valid nonzero same kind up held writes =
    ground (arith, kind_differs, eq_self target_type, eq_self protocol, ==ℤ→eq s.port (pos 0))

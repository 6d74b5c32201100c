-- ===== src/Service/Client/Operations.antt =====
-- The operations on service definitions that change the file (`VanClientInterface` of
-- api/types/client.go and `ServiceInterfaceUpdate`), as data, and runs of them.
use skupper_docker.Base.{String, Bool, Option, none, List, [], ◌∷◌}
use skupper_docker.Base.Int.{ℤ}
use skupper_docker.Base.Dict
use skupper_docker.Base.Exec.{Exec}
use skupper_docker.Types.{ServiceInterface}
use skupper_docker.Errors.{Error}
use skupper_docker.Host.{Host, ServicesFile, absent, garbled, definitions}
use skupper_docker.Service.Client.{
  service_interface_create, service_interface_update, service_interface_bind,
  service_interface_unbind, service_interface_remove,
}

pub data Operation : Type 0 where
  create update : ServiceInterface → Operation
  bind : (service : ServiceInterface) (target_type target_name protocol : String) → ℤ → Operation
  unbind : (target_type target_name address : String) (delete_if_no_targets : Bool) → Operation
  remove : String → Operation

unfoldable pub perform : Operation → Exec Error Host (Unit {0})
perform (create s) = service_interface_create s
perform (update s) = service_interface_update s
perform (bind s target_type name protocol port) =
    service_interface_bind s target_type name protocol port
perform (unbind target_type name address b) = service_interface_unbind target_type name address b
perform (remove address) = service_interface_remove address

-- One call of the command line after another, whatever each returns.
unfoldable pub perform_all : List Operation → Host → Host
perform_all [] h = h
perform_all (o ∷ os) h = perform_all os (perform o h).1

abbrev pub stored_at : ServicesFile → String → Option ServiceInterface
stored_at absent a = none
stored_at garbled a = none
stored_at (definitions m) a = Dict.lookup a m

-- the definition of an address in the file, if the file holds one
abbrev pub definition_at : Host → String → Option ServiceInterface
definition_at h a = stored_at h.services a

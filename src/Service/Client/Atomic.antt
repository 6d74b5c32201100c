-- ===== src/Service/Client/Atomic.antt =====
-- What the operations of client/serviceinterface_*.go leave behind when they fail, and those that
-- only read.
use skupper_docker.Base.{String, ◌≡◌, refl, Bool, arith, true}
use skupper_docker.Base.Int.{ℤ}
use skupper_docker.Base.Dict.{Dict}
use skupper_docker.Base.Exec.{err}
use skupper_docker.Base.Exec.Atomic.{IsAtomic, IsReadOnly, atomic_rules}
use skupper_docker.Types.{ServiceInterface}
use skupper_docker.Errors.{Error}
use skupper_docker.Host.{Host, inspect_container, read_services, write_services}
use skupper_docker.Service.Targets.{get_service_interface_target}
use skupper_docker.Service.Client.Operations.{
  Operation, create, update, bind, unbind, remove, perform,
}
use skupper_docker.Service.Client.{
  current_services, save_services, update_service_interface, service_interface_create,
  service_interface_update, service_interface_bind, bind_target, remove_service_interface_target,
  service_interface_unbind, service_interface_remove, service_interface_inspect,
  service_interface_list,
}

inspect-IsReadOnly : (name : String) → IsReadOnly (inspect_container name)
inspect-IsReadOnly name = record { at = λ h. refl }

read_services-IsReadOnly : IsReadOnly read_services
read_services-IsReadOnly = record { at = λ h. refl }

write_services-IsAtomic : (m : Dict ServiceInterface) → IsAtomic (write_services m)
write_services-IsAtomic m = record { at = λ h e p. ground arith }

pub get_target-IsReadOnly :
    (target_type name : String) (deduce : Bool)
    → IsReadOnly (get_service_interface_target target_type name deduce)
unfolding get_service_interface_target
get_target-IsReadOnly target_type name deduce = record { at = λ h. ground arith }

ruleset host_rules = (
  atomic_rules, inspect-IsReadOnly, read_services-IsReadOnly, write_services-IsAtomic,
  get_target-IsReadOnly,
)

current_services-IsReadOnly : IsReadOnly current_services
unfolding current_services
current_services-IsReadOnly = search host_rules

save_services-IsAtomic : (m : Dict ServiceInterface) → IsAtomic (save_services m)
unfolding save_services
save_services-IsAtomic m = search host_rules

update-IsAtomic : (s : ServiceInterface) (b : Bool) → IsAtomic (update_service_interface s b)
unfolding update_service_interface
update-IsAtomic s b = search (host_rules, current_services-IsReadOnly, save_services-IsAtomic)

ruleset service_rules =
    (host_rules, current_services-IsReadOnly, save_services-IsAtomic, update-IsAtomic)

create-IsAtomic : (s : ServiceInterface) → IsAtomic (service_interface_create s)
unfolding service_interface_create
create-IsAtomic s = search service_rules

pub inspect_service-IsReadOnly : (address : String) → IsReadOnly (service_interface_inspect address)
unfolding service_interface_inspect
inspect_service-IsReadOnly address = search service_rules

list-IsReadOnly : IsReadOnly service_interface_list
unfolding service_interface_list
list-IsReadOnly = search service_rules

change-IsAtomic : (s : ServiceInterface) → IsAtomic (service_interface_update s)
unfolding service_interface_update
change-IsAtomic s = search (service_rules, inspect_service-IsReadOnly)

pub bind-IsAtomic :
    (s : ServiceInterface) (target_type name protocol : String) (port : ℤ)
    → IsAtomic (service_interface_bind s target_type name protocol port)
unfolding service_interface_bind bind_target
bind-IsAtomic s target_type name protocol port = search service_rules depth 8

remove_target-IsAtomic :
    (service name : String) (b : Bool) → IsAtomic (remove_service_interface_target service name b)
unfolding remove_service_interface_target
remove_target-IsAtomic service name b = search service_rules depth 8

pub unbind-IsAtomic :
    (target_type name address : String) (b : Bool)
    → IsAtomic (service_interface_unbind target_type name address b)
unfolding service_interface_unbind
unbind-IsAtomic target_type name address b = search (service_rules, remove_target-IsAtomic)

remove-IsAtomic : (address : String) → IsAtomic (service_interface_remove address)
unfolding service_interface_remove
remove-IsAtomic address = search service_rules

perform-IsAtomic : (o : Operation) → IsAtomic (perform o)
unfolding perform
perform-IsAtomic (create s) = create-IsAtomic s
perform-IsAtomic (update s) = change-IsAtomic s
perform-IsAtomic (bind s target_type name protocol port) =
    bind-IsAtomic s target_type name protocol port
perform-IsAtomic (unbind target_type name address b) = unbind-IsAtomic target_type name address b
perform-IsAtomic (remove address) = remove-IsAtomic address

perform_unchanged :
    (o : Operation) (h : Host) (e : Error) → (perform o h).0 ≡ err e → (perform o h).1 ≡ h
perform_unchanged o h e p = (perform-IsAtomic o).at h e p

-- On a host where the file can be written, an operation that returns an error leaves the host and its
-- file of definitions as they were: it writes nothing before the last check that can fail.
pub perform_fails :
    (o : Operation) (h : Host) (e : Error)
    → h.writable ≡ true
    → (perform o h).0 ≡ err e
    → (perform o h).1 ≡ h
perform_fails o h e writes p = perform_unchanged o h e p

-- Inspecting and listing change nothing, whatever they return.
reads_change_nothing :
    (address : String) (h : Host)
    → ((service_interface_inspect address h).1 ≡ h) × ((service_interface_list h).1 ≡ h)
reads_change_nothing address h = ((inspect_service-IsReadOnly address).at h, list-IsReadOnly.at h)

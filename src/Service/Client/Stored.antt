-- ===== src/Service/Client/Stored.antt =====
-- What each operation of client/serviceinterface_*.go leaves in the file of definitions.
use skupper_docker.Base.{
  ◌≡◌, ◌↔◌, String, Bool, true, false, ◌&&◌, ◌||◌, not, Option, none, some, ◌==◌, arith,
  if◌then◌else◌,
}
use skupper_docker.Base.Dict
use skupper_docker.Base.Dict.{Dict}
use skupper_docker.Base.Exec.{ok}
use skupper_docker.Types.{ServiceInterface}
use skupper_docker.Host.{Host, ContainerJson, ServicesFile, definitions}
use skupper_docker.Service.Client.{
  current_services, save_services, put_definition, update_service_interface,
  service_interface_create, service_interface_update, service_interface_remove,
  service_interface_inspect,
}
use skupper_docker.Service.Validate.{validate_service_interface}
use skupper_docker.Service.Client.Atomic.{inspect_service-IsReadOnly}
use skupper_docker.Service.Client.Operations.{definition_at}

abbrev is_some {ℓ} : {A : Type ℓ} → Option A → Bool
is_some none = false
is_some (some a) = true

-- the transport container answers
abbrev pub IsUp : Host → Type 0
IsUp h = (c : ContainerJson) × (h.inspect "skupper-router" ≡ ok c)

abbrev pub HasDefinitions : ServicesFile → Type 0
HasDefinitions f = (m : Dict ServiceInterface) × (f ≡ definitions m)

lookup-put_definition :
    (a : String) (s : ServiceInterface) (b : Bool) (m : Dict ServiceInterface)
    → Dict.lookup a (put_definition s b m) ≡ (
        if a == s.address && (b || not (is_some (Dict.lookup s.address m)))
        then some (record s { origin = "" })
        else Dict.lookup a m)
unfolding put_definition
lookup-put_definition a s b m =
    ground (arith, Dict.lookup-insert a s.address (record s { origin = "" }) m)

update_stored :
    (s : ServiceInterface) (b : Bool) (h : Host)
    → (update_service_interface s b h).0 ≡ ok tt
    → (a : String)
    → definition_at (update_service_interface s b h).1 a ≡ (
        if a == s.address && (b || not (is_some (definition_at h s.address)))
        then some (record s { origin = "" })
        else definition_at h a)
unfolding update_service_interface current_services save_services
update_stored s b h e a = grind (arith, lookup-put_definition)

-- A successful create adds the definition, with no origin, if its address is free; every other
-- address, and an address that is taken, keeps what it had.
create_stored :
    (s : ServiceInterface) (h : Host)
    → (service_interface_create s h).0 ≡ ok tt
    → (a : String)
    → definition_at (service_interface_create s h).1 a ≡ (
        if a == s.address && not (is_some (definition_at h s.address))
        then some (record s { origin = "" })
        else definition_at h a)
unfolding service_interface_create
create_stored s h e a = grind (arith, update_stored)

-- A create succeeds exactly when the transport container is there, the definition is valid, and the
-- file can be read, decoded and written.
create_succeeds :
    (s : ServiceInterface) (h : Host)
    → ((service_interface_create s h).0 ≡ ok tt) ↔ (
        IsUp h
        × (validate_service_interface s ≡ ok tt)
        × HasDefinitions h.services
        × (h.writable ≡ true))
unfolding service_interface_create update_service_interface current_services save_services
create_succeeds s h = (λ e. ground arith, λ e. ground arith)

pub update_up :
    (s : ServiceInterface) (h : Host) (a : String)
    → (update_service_interface s true h).0 ≡ ok tt
    → definition_at (update_service_interface s true h).1 a
      ≡ (if a == s.address then some (record s { origin = "" }) else definition_at h a)
update_up s h a e = grind (arith, update_stored)

-- A successful update stores the definition with no origin, whether or not the address was there;
-- every other address keeps what it had.
update_stores :
    (s : ServiceInterface) (h : Host)
    → (service_interface_update s h).0 ≡ ok tt
    → (a : String)
    → definition_at (service_interface_update s h).1 a
      ≡ (if a == s.address then some (record s { origin = "" }) else definition_at h a)
unfolding service_interface_update
update_stores s h e a = ground (arith, (inspect_service-IsReadOnly s.address).at h, update_up s h a)

-- A successful remove had a definition to remove; it takes that one and no other.
remove_stored :
    (address : String) (h : Host)
    → (service_interface_remove address h).0 ≡ ok tt
    → (is_some (definition_at h address) ≡ true)
      × ((a : String)
          → definition_at (service_interface_remove address h).1 a
            ≡ (if a == address then none else definition_at h a))
unfolding service_interface_remove current_services save_services
remove_stored address h e = (ground arith, λ a. grind (arith, Dict.lookup-erase))

-- `ServiceInterfaceUpdate` does not find out that a service is missing: for a valid definition of
-- an address that the file does not hold it succeeds and adds the definition, on a host where the
-- transport container is there and the file can be read and written.
pub update_adds_missing :
    (s : ServiceInterface) (h : Host)
    → definition_at h s.address ≡ none
    → IsUp h
    → validate_service_interface s ≡ ok tt
    → HasDefinitions h.services
    → h.writable ≡ true
    → ((service_interface_update s h).0 ≡ ok tt)
      × (definition_at (service_interface_update s h).1 s.address ≡ some (record s { origin = "" }))
unfolding service_interface_update service_interface_inspect update_service_interface
    current_services save_services
update_adds_missing s h m u v d w = (ground arith, grind (arith, lookup-put_definition))

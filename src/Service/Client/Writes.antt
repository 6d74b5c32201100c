-- ===== src/Service/Client/Writes.antt =====
-- The file that `ServiceInterfaceBind` and `ServiceInterfaceUnbind` of
-- client/serviceinterface_update.go write, as a whole.
use skupper_docker.Base.{
  ◌≡◌, ◌⊎◌, String, Bool, true, ◌&&◌, List, arith, inl, inr, subst, ap, ◌∙◌, Bool-cases, is_empty,
}
use skupper_docker.Base.Int.{ℤ}
use skupper_docker.Base.Dict
use skupper_docker.Base.Dict.{Dict}
use skupper_docker.Base.Exec.{Result, ok}
use skupper_docker.Errors.{Error}
use skupper_docker.Types.{ServiceInterface, ServiceInterfaceTarget}
use skupper_docker.Host.{Host, definitions}
use skupper_docker.Service.Targets.{add_target_to_service_interface, remove_targets, is_named}
use skupper_docker.Service.Client.{
  current_services, save_services, put_definition, unbind_definition, update_service_interface,
  assign_ports, default_port, service_interface_bind,
}
use skupper_docker.Service.Client.Stored.{HasDefinitions}
use skupper_docker.Service.Client.Bind.{bind_inversion, bind_target_inversion}

update_reads :
    (s : ServiceInterface) (h : Host)
    → (update_service_interface s true h).0 ≡ ok tt
    → HasDefinitions h.services
unfolding update_service_interface current_services save_services
update_reads s h done = ground arith

update_writes :
    (s : ServiceInterface) (h : Host) (m : Dict ServiceInterface)
    → h.services ≡ definitions m
    → (update_service_interface s true h).0 ≡ ok tt
    → (update_service_interface s true h).1.services
      ≡ definitions (Dict.insert s.address (record s { origin = "" }) m)
unfolding update_service_interface current_services save_services put_definition
update_writes s h m held done = ground arith

bound_address :
    (s b : ServiceInterface) (t t' : ServiceInterfaceTarget) (protocol : String) (port : ℤ)
    → default_port protocol (assign_ports s t port).0 ≡ ok b
    → (add_target_to_service_interface b t').address ≡ s.address
unfolding default_port assign_ports add_target_to_service_interface
bound_address s b t t' protocol port e = ground arith

-- A successful bind read a file, and put one definition of the service's address into it.
pub bind_writes :
    (s : ServiceInterface) (target_type name protocol : String) (port : ℤ) (h : Host)
    → (service_interface_bind s target_type name protocol port h).0 ≡ ok tt
    → (m : Dict ServiceInterface) × (x : ServiceInterface) × (h.services ≡ definitions m)
      × (x.address ≡ s.address)
      × ((service_interface_bind s target_type name protocol port h).1.services
          ≡ definitions (Dict.insert x.address x m))
bind_writes s target_type name protocol port h done =
    let (t, got, same) = bind_inversion s target_type name protocol port h done in
    let Done = λ (r : Result Error (Unit {0}) × Host). r.0 ≡ ok tt in
    let (b, e, same') = bind_target_inversion s protocol port t h (subst Done same done) in
    let x = add_target_to_service_interface b (assign_ports s t port).1 in
    let done' = subst Done (same ∙ same') done in
    let (m, held) = update_reads x h done' in
    (
      m,
      record x { origin = "" },
      held,
      bound_address s b t (assign_ports s t port).1 protocol port e,
      ap (λ (r : Result Error (Unit {0}) × Host). r.1.services) (same ∙ same')
          ∙ update_writes x h m held done',
    )

-- An unbind takes the definition out of the map, or puts it back with fewer targets.
pub unbind_definition-cases :
    (host address name : String) (b : Bool) (s : ServiceInterface) (m m' : Dict ServiceInterface)
    → unbind_definition host address name b s m ≡ ok m'
    → (m' ≡ Dict.erase address m)
      ⊎ ((ts : List ServiceInterfaceTarget) × (m'
            ≡ Dict.insert address (record s { targets = ts }) m))
unfolding unbind_definition
unbind_definition-cases host address name b s m m' left =
    let ts = (remove_targets (is_named host address name) s.targets).1 in
    elim (Bool-cases (is_empty ts && b)) [
      | inl gone ↦ inl (ground arith)
      | inr kept ↦ inr (ts, ground arith)
    ]

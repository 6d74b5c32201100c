-- ===== src/Service/Client/Ports.antt =====
-- The port that `ServiceInterfaceBind` of client/serviceinterface_update.go takes from its caller.
use skupper_docker.Base.{
  ◌≡◌, ◌≢◌, refl, ℕ, ◌<◌, String, Bool, true, false, some, ◌==◌, arith, eq_self, str_dec, subst,
  sym, ◌∙◌,
}
use skupper_docker.Base.Int.{pos}
use skupper_docker.Base.Exec.{Result, ok}
use skupper_docker.Types.{ServiceInterface, ServiceInterfaceTarget}
use skupper_docker.Errors.{Error}
use skupper_docker.Host.{Host}
use skupper_docker.Service.Validate.{validate_service_interface}
use skupper_docker.Service.Validate.Laws.{IsPort, validate_iff}
use skupper_docker.Service.Targets.{add_target_to_service_interface, get_service_interface_target}
use skupper_docker.Service.Client.{
  current_services, save_services, update_service_interface, assign_ports, default_port,
  bind_target, service_interface_bind,
}
use skupper_docker.Service.Client.Bind.{bind_inversion, bind_target_inversion}
use skupper_docker.Service.Client.Operations.{definition_at}
use skupper_docker.Service.Client.Stored.{IsUp, HasDefinitions, update_up}

kinds_differ : ("host-service" == "container") ≡ false
unfolding str_dec
kinds_differ = refl

module _ (s : ServiceInterface) (name : String) (n : ℕ) (h : Host) (zero : s.port ≡ pos 0)
    (large : 65535 < n) where
  deduced :
      (deduce : Bool) (t : ServiceInterfaceTarget)
      → (get_service_interface_target "host-service" name deduce h).0 ≡ ok t
      → t.target_port ≡ pos 0
  unfolding get_service_interface_target
  deduced deduce t e = ground (arith, kinds_differ, eq_self "host-service")

  taken :
      (t : ServiceInterfaceTarget) (b : ServiceInterface)
      → t.target_port ≡ pos 0
      → default_port "" (assign_ports s t (pos n)).0 ≡ ok b
      → (b.port ≡ pos n) × (b.address ≡ s.address)
  unfolding default_port assign_ports
  taken t b p e = ground arith

  too_large : (b : ServiceInterface) → b.port ≡ pos n → validate_service_interface b ≡ ok tt → ⊥
  too_large b p e =
      let port = ((validate_iff b).0 e).port in
      let q : IsPort (pos n) = subst IsPort p port in absurd (omega arith)

  bind_accepts :
      validate_service_interface s ≡ ok tt
      → IsUp h
      → HasDefinitions h.services
      → h.writable ≡ true
      → (service_interface_bind s "host-service" name "" (pos n) h).0 ≡ ok tt
  unfolding service_interface_bind bind_target get_service_interface_target update_service_interface
      current_services save_services default_port assign_ports
  bind_accepts valid up held writes =
      ground (arith, kinds_differ, eq_self "host-service", eq_self "")

stored_there :
    (s b : ServiceInterface) (t : ServiceInterfaceTarget) (n : ℕ) (h : Host)
    → b.address ≡ s.address
    → (update_service_interface
        (add_target_to_service_interface b (assign_ports s t (pos n)).1)
        true
        h).0
      ≡ ok tt
    → definition_at
        (update_service_interface
          (add_target_to_service_interface b (assign_ports s t (pos n)).1)
          true
          h).1
        s.address
      ≡ some
          (record (add_target_to_service_interface b (assign_ports s t (pos n)).1) { origin = "" })
unfolding add_target_to_service_interface
stored_there s b t n h same done = rw update_up (ground (arith, eq_self s.address))

-- A bind of a host service to a valid service that has no port yet takes the caller's target port
-- as the service's port, and succeeds where that number is above 65535, on a host where the
-- transport container is there and the file can be read and written: the file then holds a
-- definition that the validation refuses.
pub bind_stores_bad_port :
    (s : ServiceInterface) (name : String) (n : ℕ) (h : Host)
    → s.port ≡ pos 0
    → 65535 < n
    → validate_service_interface s ≡ ok tt
    → IsUp h
    → HasDefinitions h.services
    → h.writable ≡ true
    → (b : ServiceInterface) × ((service_interface_bind s "host-service" name "" (pos n) h).0
        ≡ ok tt)
      × (definition_at (service_interface_bind s "host-service" name "" (pos n) h).1 s.address
          ≡ some b)
      × (b.port ≡ pos n)
      × (validate_service_interface b ≢ ok tt)
unfolding add_target_to_service_interface
bind_stores_bad_port s name n h zero large valid up held writes =
    let done = bind_accepts s name n h zero large valid up held writes in
    let (t, got, same) = bind_inversion s "host-service" name "" (pos n) h done in
    let Done = λ (r : Result Error (Unit {0}) × Host). r.0 ≡ ok tt in
    let done' = subst Done same done in
    let (b, e, same') = bind_target_inversion s "" (pos n) t h done' in
    let facts = taken s name n h zero large t b (deduced s name n h zero large _ t got) e in
    let d = record (add_target_to_service_interface b (assign_ports s t (pos n)).1) {
      origin = "";
    } in
    (
      d,
      done,
      subst (λ (r : Result Error (Unit {0}) × Host). definition_at r.1 s.address ≡ some d)
          (sym (same ∙ same')) (stored_there s b t n h facts.1 (subst Done same' done')),
      facts.0,
      too_large s name n h zero large d facts.0,
    )

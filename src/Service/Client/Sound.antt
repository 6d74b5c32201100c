-- ===== src/Service/Client/Sound.antt =====
-- The file of definitions under sequences of the operations of client/serviceinterface_*.go.
use skupper_docker.Base.{
  ◌≡◌, String, Bool, true, false, List, [], ◌∷◌, arith, All, inl, inr, subst, sym, ◌∙◌,
}
use skupper_docker.Base.Int.{ℤ}
use skupper_docker.Base.Dict.{Dict}
use skupper_docker.Base.Exec.{Result, ok, Result-cases}
use skupper_docker.Types.{ServiceInterface, ServiceInterfaceTarget}
use skupper_docker.Errors.{Error}
use skupper_docker.Host.{Host}
use skupper_docker.Service.Validate.{validate_service_interface}
use skupper_docker.Service.Validate.Laws.{IsValid, IsPort, HasPort, validate_iff}
use skupper_docker.Service.Targets.{
  add_target_to_service_interface, remove_targets, is_named, get_service_interface_target,
  container_target, docker_host,
}
use skupper_docker.Service.Targets.Laws.{add_target-All, remove_targets-All}
use skupper_docker.Service.Client.{
  current_services, save_services, unbind_definition, update_service_interface, assign_ports,
  default_port, service_interface_create, service_interface_update, service_interface_bind,
  service_interface_unbind, service_interface_remove,
}
use skupper_docker.Service.Client.Atomic.{
  inspect_service-IsReadOnly, bind-IsAtomic, unbind-IsAtomic,
}
use skupper_docker.Service.Client.Bind.{bind_front, bind_inversion, bind_target_inversion}
use skupper_docker.Service.Client.Unbind.{reads_file, finds_entry, takes_target, writes_file}
use skupper_docker.Service.Client.Operations.{
  Operation, create, update, bind, unbind, remove, perform, perform_all,
}
use skupper_docker.Service.Client.Entries.{
  SoundEntry, SoundEntries, Sound, GivesPort, insert-SoundEntries, erase-SoundEntries,
  lookup-SoundEntries, put_definition-SoundEntries,
}

update_service_interface-Sound :
    (s : ServiceInterface) (b : Bool) (h : Host)
    → IsValid s
    → Sound h.services
    → Sound (update_service_interface s b h).1.services
unfolding update_service_interface current_services save_services
update_service_interface-Sound s b h v k = grind (arith, put_definition-SoundEntries)

create-Sound :
    (s : ServiceInterface) (h : Host)
    → Sound h.services
    → Sound (service_interface_create s h).1.services
unfolding service_interface_create
create-Sound s h k = elim (Result-cases (validate_service_interface s)) [
  | inl (tt, v) ↦ ground (arith, update_service_interface-Sound s false h ((validate_iff s).0 v) k)
  | inr (e, v) ↦ ground arith
]

update-Sound :
    (s : ServiceInterface) (h : Host)
    → Sound h.services
    → Sound (service_interface_update s h).1.services
unfolding service_interface_update
update-Sound s h k = elim (Result-cases (validate_service_interface s)) [
  | inl (tt, v) ↦ ground (
    arith,
    update_service_interface-Sound s true h ((validate_iff s).0 v) k,
    (inspect_service-IsReadOnly s.address).at h,
  )
  | inr (e, v) ↦ ground (arith, (inspect_service-IsReadOnly s.address).at h)
]

remove-Sound :
    (address : String) (h : Host)
    → Sound h.services
    → Sound (service_interface_remove address h).1.services
unfolding service_interface_remove current_services save_services
remove-Sound address h k = grind (arith, erase-SoundEntries)

assign_ports-ports :
    (s : ServiceInterface) (t : ServiceInterfaceTarget) (port : ℤ)
    → IsPort s.port
    → HasPort t
    → IsPort port
    → IsPort (assign_ports s t port).0.port × HasPort (assign_ports s t port).1
unfolding assign_ports
assign_ports-ports s t port p q r = ground arith

default_port-ports :
    (protocol : String) (s b : ServiceInterface)
    → default_port protocol s ≡ ok b
    → IsPort s.port
    → IsPort b.port
unfolding default_port
default_port-ports protocol s b e p = ground arith

get_target-ports :
    (h : Host) (target_type name : String) (deduce : Bool) (t : ServiceInterfaceTarget)
    → (get_service_interface_target target_type name deduce h).0 ≡ ok t
    → HasPort t
unfolding get_service_interface_target container_target
get_target-ports h target_type name deduce t e = ground arith

bound_keeps :
    (s b : ServiceInterface) (t : ServiceInterfaceTarget) (protocol : String) (port : ℤ)
    → default_port protocol (assign_ports s t port).0 ≡ ok b
    → (b.targets ≡ s.targets)
      × (b.protocol ≡ s.protocol)
      × (b.aggregate ≡ s.aggregate)
      × (b.event_channel ≡ s.event_channel)
unfolding assign_ports default_port
bound_keeps s b t protocol port e = ground arith

bound-Sound :
    (s b : ServiceInterface) (t : ServiceInterfaceTarget) (protocol : String) (port : ℤ) (h : Host)
    → IsValid s
    → HasPort t
    → IsPort port
    → default_port protocol (assign_ports s t port).0 ≡ ok b
    → IsValid (add_target_to_service_interface b (assign_ports s t port).1)
unfolding add_target_to_service_interface
bound-Sound s b t protocol port h v p q e =
    let keeps = bound_keeps s b t protocol port e in
    let ports = assign_ports-ports s t port v.port p q in
    record {
      ports =
          add_target-All HasPort (assign_ports s t port).1 b.targets ports.1
            (subst (All HasPort) (sym keeps.0) v.ports);
      port = default_port-ports protocol (assign_ports s t port).0 b e ports.0;
      protocol = ground arith;
      aggregate = ground arith;
      event_channel = ground arith;
    }

bind_done-Sound :
    (s : ServiceInterface) (target_type name protocol : String) (port : ℤ) (h : Host)
    → IsPort port
    → Sound h.services
    → (service_interface_bind s target_type name protocol port h).0 ≡ ok tt
    → Sound (service_interface_bind s target_type name protocol port h).1.services
bind_done-Sound s target_type name protocol port h q k done =
    let (t, got, same) = bind_inversion s target_type name protocol port h done in
    let Done = λ (r : Result Error (Unit {0}) × Host). r.0 ≡ ok tt in
    let (b, e, same') = bind_target_inversion s protocol port t h (subst Done same done) in
    let v = (validate_iff s).0 (bind_front s target_type name protocol port h done).0 in
    let has = get_target-ports h target_type name _ t got in
    subst (λ (r : Result Error (Unit {0}) × Host). Sound r.1.services) (sym (same ∙ same'))
      (update_service_interface-Sound _ true h (bound-Sound s b t protocol port h v has q e) k)

bind-Sound :
    (s : ServiceInterface) (target_type name protocol : String) (port : ℤ) (h : Host)
    → IsPort port
    → Sound h.services
    → Sound (service_interface_bind s target_type name protocol port h).1.services
bind-Sound s target_type name protocol port h q k =
    elim (Result-cases (service_interface_bind s target_type name protocol port h).0) [
      | inl (tt, done) ↦ bind_done-Sound s target_type name protocol port h q k done
      | inr (e, failed) ↦
          subst (λ (x : Host). Sound x.services)
            (sym ((bind-IsAtomic s target_type name protocol port).at h e failed)) k
    ]

unbind_definition-Sound :
    (host address name : String) (b : Bool) (s : ServiceInterface) (m m' : Dict ServiceInterface)
    → SoundEntries m
    → SoundEntry address s
    → unbind_definition host address name b s m ≡ ok m'
    → SoundEntries m'
unfolding unbind_definition
unbind_definition-Sound host address name b s m m' h e left = ground (
  arith,
  erase-SoundEntries address m h,
  insert-SoundEntries address
      (record s { targets = (remove_targets (is_named host address name) s.targets).1 }) m
      (
        e.0,
        record {
          ports = remove_targets-All HasPort (is_named host address name) s.targets e.1.ports;
          port = e.1.port;
          protocol = e.1.protocol;
          aggregate = e.1.aggregate;
          event_channel = e.1.event_channel;
        },
      )
      h,
)

unbind-Sound :
    (target_type name address : String) (b : Bool) (h : Host)
    → Sound h.services
    → Sound (service_interface_unbind target_type name address b h).1.services
unbind-Sound target_type name address b h k =
    elim (Result-cases (service_interface_unbind target_type name address b h).0) [
      | inl (tt, done) ↦
          let (m, held) = reads_file name address b target_type h done in
          let (s, found) = finds_entry name address b target_type h done m held in
          let (m', left) = takes_target name address b target_type h done m s held found in
          let sound : SoundEntries m = subst Sound held k in
          subst Sound (sym (writes_file name address b target_type h done m m' s held found left)) (
            unbind_definition-Sound (docker_host h) address name b s m m' sound
              (lookup-SoundEntries address m s sound found) left)
      | inr (e, failed) ↦
          subst (λ (x : Host). Sound x.services)
            (sym ((unbind-IsAtomic target_type name address b).at h e failed)) k
    ]

perform-Sound :
    (o : Operation) (h : Host) → GivesPort o → Sound h.services → Sound (perform o h).1.services
unfolding perform
perform-Sound (create s) h p k = create-Sound s h k
perform-Sound (update s) h p k = update-Sound s h k
perform-Sound (bind s target_type name protocol port) h p k =
    bind-Sound s target_type name protocol port h p k
perform-Sound (unbind target_type name address b) h p k =
    unbind-Sound target_type name address b h k
perform-Sound (remove address) h p k = remove-Sound address h k

-- From a file in which every definition stands under its own address and passes the validation,
-- any sequence of creates, updates, binds, unbinds and removes, failing or not, leads to such a
-- file, if the target ports that are given to the binds are ports.
pub perform_all-Sound :
    (os : List Operation) (h : Host)
    → All GivesPort os
    → Sound h.services
    → Sound (perform_all os h).services
unfolding perform_all
perform_all-Sound [] h p k = k
perform_all-Sound (o ∷ os) h (p, ps) k =
    perform_all-Sound os (perform o h).1 ps (perform-Sound o h p k)

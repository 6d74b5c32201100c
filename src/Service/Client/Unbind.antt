-- ===== src/Service/Client/Unbind.antt =====
-- What `ServiceInterfaceUnbind` of client/serviceinterface_update.go takes out of the file.
use skupper_docker.Base.{
  ◌≡◌, ◌⊎◌, inl, inr, String, Bool, true, ◌&&◌, Option, none, some, ◌==◌, arith, ap, ◌∙◌, List, any,
  is_empty, filter, not, Option-cases, if◌then◌else◌,
}
use skupper_docker.Base.Dict
use skupper_docker.Base.Dict.{Dict}
use skupper_docker.Base.Exec.{ok, Result-cases}
use skupper_docker.Types.{ServiceInterface, ServiceInterfaceTarget}
use skupper_docker.Host.{Host, definitions}
use skupper_docker.Service.Targets.{remove_targets, is_named, docker_host}
use skupper_docker.Service.Targets.Laws.{any-remove_targets, remove_targets-filter}
use skupper_docker.Service.Client.{
  current_services, save_services, unbind_definition, entry_of, remove_service_interface_target,
  service_interface_unbind,
}
use skupper_docker.Service.Client.Operations.{definition_at, stored_at}
use skupper_docker.Service.Client.Stored.{IsUp, HasDefinitions}

-- The targets of `s` that stay when `name` is unbound from `address`.
abbrev pub remaining : Host → String → String → ServiceInterface → List ServiceInterfaceTarget
remaining h address name s =
    filter (λ (t : ServiceInterfaceTarget). not (is_named (docker_host h) address name t)) s.targets

module _ (name address : String) (b : Bool) where
  -- the entry after the removal
  abbrev pub entry_after : Host → ServiceInterface → Option ServiceInterface
  entry_after h s =
      if is_empty (remaining h address name s) && b
      then none
      else some (record s { targets = remaining h address name s })

  unbind_definition-lookup :
      (host a : String) (s : ServiceInterface) (m m' : Dict ServiceInterface)
      → unbind_definition host address name b s m ≡ ok m'
      → (any (is_named host address name) s.targets ≡ true)
        × (Dict.lookup a m' ≡ (
            if a == address
            then (if is_empty (remove_targets (is_named host address name) s.targets).1 && b
                then none
                else some (record s {
                  targets = (remove_targets (is_named host address name) s.targets).1;
                }))
            else Dict.lookup a m))
  unfolding unbind_definition
  unbind_definition-lookup host a s m m' e = ground (
    arith,
    any-remove_targets (is_named host address name) (λ t. true) s.targets,
    Dict.lookup-erase a address m,
    Dict.lookup-insert a address
        (record s { targets = (remove_targets (is_named host address name) s.targets).1 }) m,
  )

  module _ (target_type : String) (h : Host)
      (done : (service_interface_unbind target_type name address b h).0 ≡ ok tt) where
    pub reads_file : HasDefinitions h.services
    unfolding service_interface_unbind remove_service_interface_target current_services
        save_services entry_of
    reads_file = ground arith

    pub finds_entry :
        (m : Dict ServiceInterface)
        → h.services ≡ definitions m
        → (s : ServiceInterface) × (Dict.lookup address m ≡ some s)
    unfolding service_interface_unbind remove_service_interface_target current_services
        save_services entry_of
    finds_entry m held = elim (Option-cases (Dict.lookup address m)) [
      | inl missing ↦ absurd (ground arith)
      | inr found ↦ found
    ]

    pub takes_target :
        (m : Dict ServiceInterface) (s : ServiceInterface)
        → h.services ≡ definitions m
        → Dict.lookup address m ≡ some s
        → (m' : Dict ServiceInterface) × (unbind_definition (docker_host h) address name b s m
            ≡ ok m')
    unfolding service_interface_unbind remove_service_interface_target current_services
        save_services entry_of
    takes_target m s held found =
        elim (Result-cases (unbind_definition (docker_host h) address name b s m)) [
          | inl left ↦ left
          | inr (x, failed) ↦ absurd (ground arith)
        ]

    pub writes_file :
        (m m' : Dict ServiceInterface) (s : ServiceInterface)
        → h.services ≡ definitions m
        → Dict.lookup address m ≡ some s
        → unbind_definition (docker_host h) address name b s m ≡ ok m'
        → (service_interface_unbind target_type name address b h).1.services ≡ definitions m'
    unfolding service_interface_unbind remove_service_interface_target current_services
        save_services entry_of
    writes_file m m' s held found left = ground arith

  -- A successful unbind found a definition with a target that the name means. It leaves
  -- exactly the other targets in that definition, in their order, or takes the whole definition away
  -- if there are none and that was asked for. Other addresses keep what they had.
  pub unbind_stored :
      (target_type : String) (h : Host)
      → (service_interface_unbind target_type name address b h).0 ≡ ok tt
      → (s : ServiceInterface) × (definition_at h address ≡ some s)
        × (any (is_named (docker_host h) address name) s.targets ≡ true)
        × ((a : String)
            → definition_at (service_interface_unbind target_type name address b h).1 a
              ≡ (if a == address then entry_after h s else definition_at h a))
  unbind_stored target_type h e =
      let (m, held) = reads_file target_type h e in
      let (s, found) = finds_entry target_type h e m held in
      let (m', left) = takes_target target_type h e m s held found in
      let after = writes_file target_type h e m m' s held found left in
      (
        s,
        ap (λ f. stored_at f address) held ∙ found,
        (unbind_definition-lookup (docker_host h) address s m m' left).0,
        λ a. ground (
          arith,
          unbind_definition-lookup (docker_host h) a s m m' left,
          remove_targets-filter (is_named (docker_host h) address name) s.targets,
        ),
      )

  -- An unbind of a container or a host service succeeds where the transport container is there and
  -- the file can be written and holds a definition with a target that the name means.
  pub unbind_succeeds :
      (target_type : String) (h : Host) (s : ServiceInterface)
      → (target_type ≡ "container") ⊎ (target_type ≡ "host-service")
      → IsUp h
      → h.writable ≡ true
      → definition_at h address ≡ some s
      → any (is_named (docker_host h) address name) s.targets ≡ true
      → (service_interface_unbind target_type name address b h).0 ≡ ok tt
  unfolding service_interface_unbind remove_service_interface_target current_services save_services
      entry_of unbind_definition
  unbind_succeeds target_type h s kind up writes held named =
      ground
        (arith, any-remove_targets (is_named (docker_host h) address name) (λ t. true) s.targets)

-- ===== src/Service/Client/Roundtrip.antt =====
-- `ServiceInterfaceBind` followed by `ServiceInterfaceUnbind`, of client/serviceinterface_update.go.
use mathlib.Core.Option
use skupper_docker.Errors.{Error}
use skupper_docker.Service.Client.Stored.{IsUp}
use skupper_docker.Base.{
  ◌≡◌, ◌⊎◌, String, Bool, true, false, ◌&&◌, none, some, ◌==◌, arith, any, is_empty, List, subst,
  ap, ◌∙◌, sym, eq_self, if◌then◌else◌,
}
use skupper_docker.Base.Int.{ℤ}
use skupper_docker.Base.Exec.{Result, ok}
use skupper_docker.Types.{ServiceInterface, ServiceInterfaceTarget, host_service_selector}
use skupper_docker.Host.{Host, ContainerJson, get_internal_ip}
use skupper_docker.Service.Targets.{is_named, docker_host, add_target, remove_targets}
use skupper_docker.Service.Targets.Laws.{
  find_target, add_target-with_target, remove_targets-filter, remove_targets-add_target,
  any-add_target, selectors_differ,
}
use skupper_docker.Service.Client.{service_interface_bind, service_interface_unbind}
use skupper_docker.Service.Client.Operations.{definition_at}
use skupper_docker.Service.Client.Bind.{IsBound, bind_stored, bind-IsUp, stored_name, selector_of}
use skupper_docker.Service.Client.Unbind.{unbind_succeeds, unbind_stored, entry_after, remaining}

docker_host-eq : (h h' : Host) → h'.docker0 ≡ h.docker0 → docker_host h' ≡ docker_host h
unfolding docker_host get_internal_ip
docker_host-eq h h' e = rw e

IsUp-same : (h h' : Host) → h'.inspect ≡ h.inspect → IsUp h → IsUp h'
IsUp-same h h' same (c, up) =
    (c, ap (λ (f : String → Result Error ContainerJson). f "skupper-router") same ∙ up)

-- A target of the name and selector that a bind gives is what the same name means in an unbind.
is_named-stored :
    (h : Host) (target_type name address : String) (t : ServiceInterfaceTarget)
    → t.name ≡ stored_name h target_type name
    → t.selector ≡ selector_of target_type
    → is_named (docker_host h) address name t ≡ true
unfolding is_named
is_named-stored h target_type name address t n k =
    ground (arith, eq_self host_service_selector, eq_self t.name, selectors_differ)

abbrev pub targets_of : ServiceInterface → List ServiceInterfaceTarget
targets_of s = s.targets

module _ (s : ServiceInterface) (target_type name protocol : String) (port : ℤ) (b : Bool)
    (h : Host) (kind : (target_type ≡ "container") ⊎ (target_type ≡ "host-service"))
    (free : find_target (stored_name h target_type name) s.targets ≡ none)
    (unnamed : any (is_named (docker_host h) s.address name) s.targets ≡ false)
    (done : (service_interface_bind s target_type name protocol port h).0 ≡ ok tt) where
  abbrev Restored : Host → Type 0
  Restored h' =
      Option.map targets_of (definition_at h' s.address)
      ≡ (if is_empty s.targets && b then none else some s.targets)

  taken :
      (host host' : String)
      → host' ≡ host
      → (ts : List ServiceInterfaceTarget) (t : ServiceInterfaceTarget)
      → ts ≡ add_target t s.targets
      → find_target t.name s.targets ≡ none
      → any (is_named host s.address name) s.targets ≡ false
      → is_named host s.address name t ≡ true
      → (remove_targets (is_named host' s.address name) ts).1 ≡ s.targets
  taken host host' same ts t added fresh none_named named =
      ap (λ (x : String). (remove_targets (is_named x s.address name) ts).1) same
      ∙ ap
          (λ (x : List ServiceInterfaceTarget). (remove_targets (is_named host s.address name) x).1)
          added
      ∙ remove_targets-add_target (is_named host s.address name) t s.targets fresh none_named named

  entry_back :
      (h' h'' : Host) (d : ServiceInterface)
      → definition_at h'' s.address ≡ (
          if s.address == s.address
          then entry_after name s.address b h' d
          else definition_at h' s.address)
      → remaining h' s.address name d ≡ s.targets
      → Restored h''
  entry_back h' h'' d frame left = rw (frame, eq_self, left) (ground arith)

  unbind_restores :
      (d : ServiceInterface) (t : ServiceInterfaceTarget) (h' : Host)
      → IsBound s target_type name h h' d t
      → h'.inspect ≡ h.inspect
      → ((service_interface_unbind target_type name s.address b h').0 ≡ ok tt)
        × Restored (service_interface_unbind target_type name s.address b h').1
  unbind_restores d t h' i same =
      let same_host = docker_host-eq h h' i.network in
      let named = is_named-stored h target_type name s.address t i.target_name i.selector in
      let fresh : find_target t.name s.targets ≡ none = rw i.target_name free in
      let held : definition_at h' s.address ≡ some d = rw (i.stored, eq_self) in
      let is = is_named (docker_host h) s.address name in
      let hit : any (is_named (docker_host h') s.address name) d.targets ≡ true =
        rw (same_host, i.targets)
          (rw (sym (add_target-with_target t s.targets))
            (any-add_target is t s.targets fresh named)) in
      let done' =
        unbind_succeeds name s.address b target_type h' d kind
          (IsUp-same h h' i.daemon (bind-IsUp s target_type name protocol port h done)) i.writes
          held hit in
      let (d', found, hit', frame) = unbind_stored name s.address b target_type h' done' in
      let left : remaining h' s.address name d ≡ s.targets =
        sym (remove_targets-filter (is_named (docker_host h') s.address name) d.targets)
        ∙ taken (docker_host h) (docker_host h') same_host d.targets t
            (i.targets ∙ sym (add_target-with_target t s.targets)) fresh unnamed named in
      let eq = Option.some-injective d d' (sym held ∙ found) in
      (
        done',
        entry_back h' (service_interface_unbind target_type name s.address b h').1 d'
            (frame s.address)
            (subst (λ (r : ServiceInterface). remaining h' s.address name r ≡ s.targets) eq left),
      )

  -- After a successful bind of a container or a host service, unbinding the same name succeeds,
  -- and leaves the service with the targets that it had, or takes the service away if it had none
  -- and that was asked for. Before the bind, no target of the service may have the name under
  -- which the new one is stored or be meant by the name.
  pub unbind-bind :
      ((service_interface_unbind target_type name s.address b
          (service_interface_bind s target_type name protocol port h).1).0
        ≡ ok tt)
      × (Option.map targets_of (
            definition_at
              (service_interface_unbind target_type name s.address b
                (service_interface_bind s target_type name protocol port h).1).1
              s.address)
          ≡ (if is_empty s.targets && b then none else some s.targets))
  unbind-bind =
      let (d, t, i) = bind_stored s target_type name protocol port h done in
      unbind_restores d t (service_interface_bind s target_type name protocol port h).1 i i.daemon

-- ===== src/Service/Client/Bind.antt =====
-- What `ServiceInterfaceBind` of client/serviceinterface_update.go stores.
use skupper_docker.Base.{
  ◌≡◌, refl, ◌≢◌, String, Bool, true, false, ◌&&◌, some, ◌==◌, arith, subst, ap, ◌∙◌, if◌then◌else◌,
}
use skupper_docker.Base.Int.{ℤ, pos, ◌==ℤ◌, ==ℤ_refl}
use skupper_docker.Base.Exec.{Result, ok, lift, bind-ok, ◌>>=◌}
use skupper_docker.Types.{
  ServiceInterface, ServiceInterfaceTarget, container_selector, host_service_selector,
}
use skupper_docker.Errors.{Error}
use skupper_docker.Host.{Host}
use skupper_docker.Service.Validate.{validate_service_interface}
use skupper_docker.Service.Targets.{
  add_target, add_target_to_service_interface, docker_host, host_service_name,
  get_service_interface_target,
}
use skupper_docker.Service.Targets.Laws.{
  container_target-named, with_target, add_target-with_target,
}
use skupper_docker.Service.Client.{
  current_services, save_services, update_service_interface, service_interface_bind, bind_target,
  assign_ports, default_port,
}
use skupper_docker.Service.Client.Atomic.{get_target-IsReadOnly}
use skupper_docker.Service.Client.Operations.{definition_at}
use skupper_docker.Service.Client.Stored.{IsUp, update_up}

-- the name under which a target is stored
abbrev pub stored_name : Host → String → String → String
stored_name h target_type name =
    if target_type == "container" then name else host_service_name (docker_host h) name

abbrev pub selector_of : String → String
selector_of target_type =
    if target_type == "container" then container_selector else host_service_selector

get_target-named :
    (h : Host) (target_type name : String) (deduce : Bool) {t : ServiceInterfaceTarget}
    → (get_service_interface_target target_type name deduce h).0 ≡ ok t
    → (t.name ≡ stored_name h target_type name) × (t.selector ≡ selector_of target_type)
unfolding get_service_interface_target
get_target-named h target_type name deduce {t} e =
    ground (arith, container_target-named name deduce (h.inspect name) {t = t})

-- What the choice of ports keeps.
assign_ports-keeps :
    (s : ServiceInterface) (t : ServiceInterfaceTarget) (port : ℤ)
    → ((assign_ports s t port).1.name ≡ t.name)
      × ((assign_ports s t port).1.selector ≡ t.selector)
      × ((assign_ports s t port).0.targets ≡ s.targets)
      × ((assign_ports s t port).0.address ≡ s.address)
      × ((assign_ports s t port).0.protocol ≡ s.protocol)
unfolding assign_ports
assign_ports-keeps s t port = ground arith

default_port-keeps :
    (protocol : String) (s b : ServiceInterface)
    → default_port protocol s ≡ ok b
    → ((b.port ==ℤ pos 0) ≡ false)
      × (b.targets ≡ s.targets)
      × (b.address ≡ s.address)
      × (b.protocol ≡ s.protocol)
unfolding default_port
default_port-keeps protocol s b h = ground arith

pub bind_target_inversion :
    (s : ServiceInterface) (protocol : String) (port : ℤ) (t : ServiceInterfaceTarget) (h : Host)
    → (bind_target s protocol port t h).0 ≡ ok tt
    → (b : ServiceInterface) × (default_port protocol (assign_ports s t port).0 ≡ ok b)
      × (bind_target s protocol port t h
          ≡ update_service_interface
              (add_target_to_service_interface b (assign_ports s t port).1)
              true
              h)
unfolding bind_target
bind_target_inversion s protocol port t h e =
    bind-ok
      (λ b.
        update_service_interface (add_target_to_service_interface b (assign_ports s t port).1) true)
      (lift (default_port protocol (assign_ports s t port).0)) h e

-- What a definition `b` and its target `t` are after a bind to `s` that left the host as `h'`.
pub record IsBound (s : ServiceInterface) (target_type name : String) (h h' : Host)
    (b : ServiceInterface) (t : ServiceInterfaceTarget) : Type 0 where
  pub stored :
      (a : String) → definition_at h' a ≡ (if a == s.address then some b else definition_at h a)
  pub port : b.port ≢ pos 0
  pub protocol : b.protocol ≡ s.protocol
  pub origin : b.origin ≡ ""
  pub target_name : t.name ≡ stored_name h target_type name
  pub selector : t.selector ≡ selector_of target_type
  pub targets : b.targets ≡ with_target t s.targets
  pub daemon : h'.inspect ≡ h.inspect
  pub network : h'.docker0 ≡ h.docker0
  pub writes : h'.writable ≡ true

module _ (s : ServiceInterface) (target_type name protocol : String) (port : ℤ) (h : Host)
    (t : ServiceInterfaceTarget) (b : ServiceInterface) (deduce : Bool) where
  bound_stored_at :
      (update_service_interface
          (add_target_to_service_interface b (assign_ports s t port).1)
          true
          h).0
        ≡ ok tt
      → b.address ≡ s.address
      → (a : String)
      → definition_at
          (update_service_interface
            (add_target_to_service_interface b (assign_ports s t port).1)
            true
            h).1
          a
        ≡ (if a == s.address
            then some (record (add_target_to_service_interface b (assign_ports s t port).1) {
              origin = "";
            })
            else definition_at h a)
  unfolding add_target_to_service_interface
  bound_stored_at done same a = rw update_up (ground arith)

  bind_target-IsBound :
      (get_service_interface_target target_type name deduce h).0 ≡ ok t
      → default_port protocol (assign_ports s t port).0 ≡ ok b
      → (update_service_interface
          (add_target_to_service_interface b (assign_ports s t port).1)
          true
          h).0
        ≡ ok tt
      → IsBound s target_type name h
          (update_service_interface
            (add_target_to_service_interface b (assign_ports s t port).1)
            true
            h).1
          (record (add_target_to_service_interface b (assign_ports s t port).1) { origin = "" })
          (assign_ports s t port).1
  unfolding add_target_to_service_interface update_service_interface current_services save_services
  bind_target-IsBound got e done =
      let kept = assign_ports-keeps s t port in
      let kept' = default_port-keeps protocol (assign_ports s t port).0 b e in
      let named = get_target-named h target_type name deduce got in
      record {
        stored = λ a. bound_stored_at done (kept'.2 ∙ kept.3) a;
        port = λ p. cc (==ℤ_refl (pos 0), kept'.0, ap (λ (z : ℤ). z ==ℤ pos 0) p);
        protocol = kept'.3 ∙ kept.4;
        origin = refl;
        target_name = kept.0 ∙ named.0;
        selector = kept.1 ∙ named.1;
        targets =
            ap (add_target (assign_ports s t port).1) (kept'.1 ∙ kept.2)
            ∙ add_target-with_target (assign_ports s t port).1 s.targets;
        daemon = ground arith;
        network = ground arith;
        writes = ground arith;
      }

module _ (s : ServiceInterface) (target_type name protocol : String) (port : ℤ) (h : Host)
    (done : (service_interface_bind s target_type name protocol port h).0 ≡ ok tt) where
  pub bind_front :
      (validate_service_interface s ≡ ok tt)
      × (service_interface_bind s target_type name protocol port h
          ≡ (get_service_interface_target target_type name (s.port ==ℤ pos 0 && port ==ℤ pos 0)
                >>= bind_target s protocol port)
              h)
  unfolding service_interface_bind
  bind_front = ground arith

  pub bind-IsUp : IsUp h
  unfolding service_interface_bind
  bind-IsUp = ground arith

  pub bind_inversion :
      (t : ServiceInterfaceTarget) × ((get_service_interface_target target_type name
          (s.port ==ℤ pos 0 && port ==ℤ pos 0)
          h).0
        ≡ ok t)
      × (service_interface_bind s target_type name protocol port h
          ≡ bind_target s protocol port t h)
  bind_inversion =
      let get =
        get_service_interface_target target_type name (s.port ==ℤ pos 0 && port ==ℤ pos 0) in
      let (t, got, rest) =
        bind-ok (bind_target s protocol port) get h
          (subst (λ (r : Result Error (Unit {0}) × Host). r.0 ≡ ok tt) bind_front.1 done) in
      (
        t,
        got,
        bind_front.1
            ∙ rest
            ∙ ap (bind_target s protocol port t) ((get_target-IsReadOnly target_type name _).at h),
      )

  -- A successful bind stores one definition under the service's address, with no origin, the
  -- service's protocol and a port other than 0. Its targets are the service's with one target of the
  -- name and the kind that were asked for, which takes the place of each target of its name, or
  -- stands at the end if there was none. Other addresses keep what they had.
  pub bind_stored :
      (b : ServiceInterface) × (t : ServiceInterfaceTarget) × IsBound s target_type name h
        (service_interface_bind s target_type name protocol port h).1
        b
        t
  bind_stored =
      let (t, got, same) = bind_inversion in
      let Done = λ (r : Result Error (Unit {0}) × Host). r.0 ≡ ok tt in
      let done' = subst Done same done in
      let (b, e, same') = bind_target_inversion s protocol port t h done' in
      (
        record (add_target_to_service_interface b (assign_ports s t port).1) { origin = "" },
        (assign_ports s t port).1,
        rw (same, same')
            (bind_target-IsBound s target_type name protocol port h t b _ got e
              (subst Done same' done')),
      )

-- ===== src/Controller/Proxies/Ensure.antt =====
-- `ensureProxyFor` and `deleteProxy` of cmd/service-controller/controller.go on a daemon on which no
-- fitting operation fails.
use skupper_docker.Base.{
  ◌≡◌, refl, ◌∙◌, ap, String, Bool, true, not, ◌&&◌, ◌||◌, Option, none, some, List, [], ◌∷◌, ◌==◌,
  any, arith, if◌then◌else◌, Bool-cases, inl, inr, Option-cases,
}
use skupper_docker.Base.Text.{trim_prefix}
use skupper_docker.Base.Dict
use skupper_docker.Base.Dict.{Dict}
use skupper_docker.Base.Exec.{is_ok, Result-cases, ◌>>◌, ◌>>=◌, step-state, step-is_ok, pure}
use skupper_docker.Types.{ServiceInterface, transport_network_name}
use skupper_docker.Router.Document.{Document}
use skupper_docker.Router.Proxy.{get_router_config_for_proxy}
use skupper_docker.Docker.Laws.{inspected_config}
use skupper_docker.Docker.Containers.{get_proxy_container_create_config, new_proxy_container}
use skupper_docker.Controller.{EgressBindings, ServiceBindings}
use skupper_docker.Controller.Bindings.{as_service_interface}
use skupper_docker.Docker.{find_env_var}
use skupper_docker.Docker.Api.{Container, ContainerCreateConfig}
use skupper_docker.Docker.Daemon.{Daemon, Held, IsHealthy, is_held, has_label, run}
use skupper_docker.Controller.Proxies.{
  delete_proxy, index_proxies, get_proxies, proxies_of, attach_targets, attach_all, attach,
  start_proxy, replace_proxy, update_proxy, ensure_proxy_for,
}

-- Whether the container was made for another configuration of the router.
abbrev pub is_outdated : String → Held → Bool
is_outdated config c =
    (find_env_var c.config.env "QDROUTERD_CONF" == "")
    || not (find_env_var c.config.env "QDROUTERD_CONF" == config)

-- what is there after a container is created and started, under its name or another
abbrev deployed : Bool → ContainerCreateConfig → Option Held → Option Held
deployed same opts held = if same && not (is_held held) then some (run opts) else held

-- What stands under the address of bindings once their proxy is ensured.
abbrev pub ensured : ContainerCreateConfig → String → Option Held → Option Held
ensured opts config none = some (run opts)
ensured opts config (some c) =
    if has_label "skupper.io/application" (some c) && is_outdated config c
    then some (run opts)
    else some c

member-index_proxies :
    (m : String) (l : List Container) (proxies : Dict Container)
    → Dict.member m (index_proxies l proxies)
      ≡ (any (λ (c : Container). m == trim_prefix c.name "/") l || Dict.member m proxies)
unfolding index_proxies
member-index_proxies m [] proxies = refl
member-index_proxies m (c ∷ l) proxies =
    member-index_proxies m l (Dict.insert (trim_prefix c.name "/") c proxies)
    ∙ ground (arith, Dict.lookup-insert m (trim_prefix c.name "/") c proxies)

module _ {D : Type 0} {dd : Daemon D} {find : D → String → Option Held}
    (healthy : IsHealthy dd find) where
  pub find-delete_proxy :
      (name : String) (d : D) (m : String)
      → find (delete_proxy dd name d).1 m ≡ (if m == name then none else find d m)
  unfolding delete_proxy
  find-delete_proxy name d m =
      let d1 = (dd.stop_container name d).1 in
      ap (λ (e : D). find e m) (step-state (dd.stop_container name) (dd.remove_container name) d)
      ∙ ground (
        arith,
        healthy.stopped name d,
        healthy.find_stopped name d m,
        healthy.find_removed name d1 m,
      )

  is_ok-delete_proxy :
      (name : String) (d : D) → is_ok (delete_proxy dd name d).0 ≡ is_held (find d name)
  unfolding delete_proxy
  is_ok-delete_proxy name d =
      let d1 = (dd.stop_container name d).1 in
      step-is_ok (dd.stop_container name) (dd.remove_container name) d
      ∙ ground
          (arith, healthy.stopped name d, healthy.find_stopped name d name, healthy.removed name d1)

  -- the containers that have the label of a proxy
  pub member-get_proxies :
      (m : String) (d : D)
      → Dict.member m (get_proxies dd d) ≡ has_label "skupper.io/application" (find d m)
  unfolding get_proxies proxies_of Dict.lookup
  member-get_proxies m d =
      let (l, e, exact) = healthy.listed "skupper.io/application" d in
      rw e (ground (arith, member-index_proxies m l [], exact m))

  find-attach_targets :
      (attached : List String) (targets : Dict EgressBindings) (d : D) (m : String)
      → find (attach_targets dd attached targets d) m ≡ find d m
  unfolding attach_targets
  find-attach_targets attached [] d m = refl
  find-attach_targets attached ((_, t) ∷ targets) d m =
      find-attach_targets attached targets _ m
      ∙ ground (arith, healthy.find_connected transport_network_name t.name d m)

  find-attach_all :
      (b : ServiceBindings) (d : D) (m : String)
      → (is_ok (attach_all dd b d).0 ≡ true) × (find (attach_all dd b d).1 m ≡ find d m)
  unfolding attach_all
  find-attach_all b d m = elim (Result-cases (dd.inspect_network transport_network_name d)) [
    | inl (attached, e) ↦ rw e (refl, find-attach_targets attached b.targets d m)
    | inr (x, e) ↦ ground (arith, healthy.network d)
  ]

  find-attach :
      (b : ServiceBindings) (d : D) (m : String)
      → (is_ok (attach dd b d).0 ≡ true) × (find (attach dd b d).1 m ≡ find d m)
  unfolding attach
  find-attach b d m = elim (Bool-cases (b.origin == "")) [
    | inl local ↦ rw local (find-attach_all b d m)
    | inr remote ↦ rw remote (refl, refl)
  ]

  find-create_and_start :
      (opts : ContainerCreateConfig) (d : D) (m : String)
      → find
          (((dd.create_container opts >> pure opts) >>= λ (o : ContainerCreateConfig).
              dd.start_container o.name)
            d).1
          m
        ≡ deployed (m == opts.name) opts (find d m)
  find-create_and_start opts d m =
      let d1 = (dd.create_container opts d).1 in
      elim (Result-cases (dd.create_container opts d).0) [
        | inl (u, e) ↦ rw e (
            ground (
              arith,
              healthy.creates.created opts d,
              healthy.creates.find_created opts d m,
              healthy.creates.find_started opts.name d1 m,
            ))
        | inr (x, e) ↦
            rw e (
              ground (arith, healthy.creates.created opts d, healthy.creates.find_created opts d m))
      ]

  module _ (getenv : String → String) (encode : ServiceInterface → String)
      (marshal : Document → String) where
    abbrev pub proxy_opts : ServiceInterface → String → ContainerCreateConfig
    proxy_opts service config =
        get_proxy_container_create_config getenv encode service config
          (not (getenv "SKUPPER_MAP_TO_HOST" == "")) healthy.os_type

    find-start_proxy :
        (service : ServiceInterface) (config : String) (d : D) (m : String)
        → find (start_proxy dd getenv encode marshal service config d).1 m
          ≡ deployed (m == service.address) (proxy_opts service config) (find d m)
    unfolding start_proxy new_proxy_container
    find-start_proxy service config d m =
        rw (healthy.os d) (find-create_and_start (proxy_opts service config) d m)

    find-replace_proxy :
        (service : ServiceInterface) (config : String) (d : D) (m : String)
        → is_held (find d service.address) ≡ true
        → find (replace_proxy dd getenv encode marshal service config d).1 m
          ≡ (if m == service.address then some (run (proxy_opts service config)) else find d m)
    unfolding replace_proxy
    find-replace_proxy service config d m h =
        let d1 = (delete_proxy dd service.address d).1 in
        ap (λ (e : D). find e m)
          (step-state (delete_proxy dd service.address)
            (start_proxy dd getenv encode marshal service config) d)
        ∙ ground (
          arith,
          is_ok-delete_proxy service.address d,
          find-delete_proxy service.address d m,
          find-start_proxy service config d1 m,
        )

    find-update_proxy :
        (service : ServiceInterface) (config : String) (c : Held) (d : D) (m : String)
        → find d service.address ≡ some c
        → find (update_proxy dd getenv encode marshal service config d).1 m ≡ (
            if m == service.address && is_outdated config c
            then some (run (proxy_opts service config))
            else find d m)
    unfolding update_proxy
    find-update_proxy service config c d m h =
        let (j, e, env) = inspected_config healthy d service.address c h in
        rw (e, env) (ground (arith, find-replace_proxy service config d m))

    find-create_or_update :
        (service : ServiceInterface) (config : String) (d : D) (m : String)
        → find
            ((if has_label "skupper.io/application" (find d service.address)
                then update_proxy dd getenv encode marshal service config
                else start_proxy dd getenv encode marshal service config)
              d).1
            m
          ≡ (if m == service.address
              then ensured (proxy_opts service config) config (find d m)
              else find d m)
    find-create_or_update service config d m = elim (Option-cases (find d service.address)) [
      | inl e ↦ rw e (ground (arith, find-start_proxy service config d m))
      | inr (c, e) ↦ rw e (
          ground
            (arith, find-update_proxy service config c d m, find-start_proxy service config d m))
    ]

    -- the configuration with which the proxy of bindings is started
    abbrev pub wanted_config : String → ServiceBindings → String
    wanted_config origin b = marshal (get_router_config_for_proxy (as_service_interface b) origin)

    abbrev pub ensured_for : String → ServiceBindings → Option Held → Option Held
    ensured_for origin b =
        ensured (proxy_opts (as_service_interface b) (wanted_config origin b))
          (wanted_config origin b)

    pub find-ensure_proxy_for :
        (origin : String) (b : ServiceBindings) (d : D) (m : String)
        → find (ensure_proxy_for dd getenv encode marshal origin b d).1 m
          ≡ (if m == b.address then ensured_for origin b (find d m) else find d m)
    unfolding ensure_proxy_for
    find-ensure_proxy_for origin b d m =
        let d1 = (attach dd b d).1 in
        ap (λ (e : D). find e m) (step-state (attach dd b) _ d)
        ∙ rw (member-get_proxies b.address d, (find-attach b d m).0)
            (ground (
              arith,
              find-attach b d m,
              find-attach b d b.address,
              find-create_or_update (as_service_interface b) (wanted_config origin b) d1 m,
            ))

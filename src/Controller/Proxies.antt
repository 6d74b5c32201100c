-- ===== src/Controller/Proxies.antt =====
-- cmd/service-controller/controller.go: the proxy containers, one for each address that has bindings.
-- The environment of the process, `os.Getenv`, and the texts of a definition and of a router's
-- configuration, `json.Marshal`, are arguments.
pub mod Ensure
pub mod Update
pub mod Settled
pub mod Process
pub mod Exposed
mod Tests
use skupper_docker.Base.{
  String, Bool, true, false, not, ◌||◌, ◌&&◌, Option, none, some, List, [], ◌∷◌, ◌==◌, any,
  if◌then◌else◌,
}
use skupper_docker.Base.Text.{trim_prefix}
use skupper_docker.Base.Dict
use skupper_docker.Base.Dict.{Dict}
use skupper_docker.Base.Exec.{Result, ok, err, Exec, lift, pure, attempt, ◌>>=◌, ◌>>◌}
use skupper_docker.Errors.{Error}
use skupper_docker.Types.{ServiceInterface, transport_network_name}
use skupper_docker.Router.Document.{Document}
use skupper_docker.Router.Proxy.{get_router_config_for_proxy}
use skupper_docker.Docker.{find_env_var}
use skupper_docker.Docker.Api.{ContainerJson, Container, ContainerCreateConfig}
use skupper_docker.Docker.Daemon.{Daemon}
use skupper_docker.Docker.Containers.{inspect, new_proxy_container}
use skupper_docker.Host.{Host}
use skupper_docker.Controller.{Controller, EgressBindings, ServiceBindings, get_service_definitions}
use skupper_docker.Controller.Bindings.{as_service_interface, process_service_defs}

-- `proxies[proxyName] = container`
pub index_proxies : List Container → Dict Container → Dict Container
index_proxies [] proxies = proxies
index_proxies (c ∷ containers) proxies =
    index_proxies containers (Dict.insert (trim_prefix c.name "/") c proxies)

module _ {D : Type 0} (dd : Daemon D) where
  proxies_of : Result Error (List Container) → Dict Container
  unfolding index_proxies
  proxies_of (err e) = []
  proxies_of (ok containers) = index_proxies containers []

  pub get_proxies : D → Dict Container
  unfolding proxies_of
  get_proxies d = proxies_of (dd.list_containers "skupper.io/application" d)

  pub delete_proxy : String → Exec Error D (Unit {0})
  delete_proxy name = do dd.stop_container name; dd.remove_container name

  -- The targets of the bindings that are containers and are not on the network are put on it; an
  -- error is only logged.
  pub attach_targets : List String → Dict EgressBindings → D → D
  attach_targets attached [] d = d
  attach_targets attached ((_, t) ∷ targets) d = attach_targets attached targets (
      if t.selector == "internal.skupper.io/container" && not (any (λ n. n == t.name) attached)
      then (dd.connect_container transport_network_name t.name d).1
      else d)

  attach_all : ServiceBindings → Exec Error D (Unit {0})
  unfolding attach_targets
  attach_all bindings = do
    attached ← λ d. (dd.inspect_network transport_network_name d, d)
    λ d. (ok tt, attach_targets attached bindings.targets d)

  attach : ServiceBindings → Exec Error D (Unit {0})
  unfolding attach_all
  attach bindings d = if bindings.origin == "" then attach_all bindings d else (ok tt, d)

  delete_unbound : Dict ServiceBindings → Dict Container → D → D
  unfolding delete_proxy
  delete_unbound bindings [] d = d
  delete_unbound bindings ((_, v) ∷ proxies) d = delete_unbound bindings proxies (
      if Dict.member (trim_prefix v.name "/") bindings
      then d
      else (attempt (delete_proxy (trim_prefix v.name "/")) d).1)

  module _ (getenv : String → String) (encode : ServiceInterface → String)
      (marshal : Document → String) where
    start_proxy : ServiceInterface → String → Exec Error D (Unit {0})
    unfolding new_proxy_container
    start_proxy service config = do
      opts ←
          new_proxy_container dd getenv encode service config
            (not (getenv "SKUPPER_MAP_TO_HOST" == ""))
      dd.start_container opts.name

    replace_proxy : ServiceInterface → String → Exec Error D (Unit {0})
    unfolding start_proxy delete_proxy
    replace_proxy service config = do delete_proxy service.address; start_proxy service config

    update_proxy : ServiceInterface → String → Exec Error D (Unit {0})
    unfolding replace_proxy find_env_var
    update_proxy service config = do
      proxy ← inspect dd service.address
      let actual = find_env_var proxy.env "QDROUTERD_CONF"
      if actual == "" || not (actual == config) then replace_proxy service config else pure tt

    pub ensure_proxy_for : String → ServiceBindings → Exec Error D (Unit {0})
    unfolding attach start_proxy update_proxy get_proxies as_service_interface
        get_router_config_for_proxy
    ensure_proxy_for origin bindings d =
        let exists = Dict.member bindings.address (get_proxies d) in
        let service = as_service_interface bindings in
        let config = marshal (get_router_config_for_proxy service origin) in
        (attach bindings
            >> (if exists then update_proxy service config else start_proxy service config))
          d

    ensure_proxies : String → Dict ServiceBindings → D → D
    unfolding ensure_proxy_for
    ensure_proxies origin [] d = d
    ensure_proxies origin ((_, b) ∷ bindings) d =
        ensure_proxies origin bindings (attempt (ensure_proxy_for origin b) d).1

    pub update_proxies : Controller → D → D
    unfolding ensure_proxies delete_unbound get_proxies
    update_proxies c d =
        let d' = ensure_proxies c.origin c.bindings d in
        delete_unbound c.bindings (get_proxies d') d'

    -- nothing happens to the proxies if the file cannot be read
    proxies_after : Result Error (Dict ServiceInterface) → Controller → D → D
    unfolding update_proxies
    proxies_after (err e) c d = d
    proxies_after (ok defs) c d = update_proxies c d

    -- `processServiceDefs`
    pub process_service_defs_and_proxies : Controller → Host → D → Controller × D
    unfolding process_service_defs proxies_after
    process_service_defs_and_proxies c h d =
        let c' = process_service_defs c h in (c', proxies_after (get_service_definitions h).0 c' d)

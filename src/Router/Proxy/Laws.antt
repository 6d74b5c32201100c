-- ===== src/Router/Proxy/Laws.antt =====
-- The configuration that `GetRouterConfigForProxy` of pkg/qdr/qdr.go builds.
use skupper_docker.Base.{
  ◌≡◌, refl, ◌∙◌, ap, String, ◌<>◌, true, false, Option, none, some, List, [], ◌∷◌, ◌==◌, arith,
  if◌then◌else◌, Bool-cases, inl, inr, map, str_dec, eq→path, ◌&&◌,
}
use skupper_docker.Base.Dict
use skupper_docker.Base.Text.{split_at, colon}
use skupper_docker.Base.Int.{ℤ}
use skupper_docker.Base.Exec.{ok}
use skupper_docker.Controller.Bindings.{get_target_port}
use skupper_docker.Types.{
  ServiceInterface, ServiceInterfaceTarget, container_selector, host_service_selector,
}
use skupper_docker.Router.{
  RouterConfig, add_tcp_connector, add_tcp_listener, add_tcp_listener, TcpEndpoint,
}
use skupper_docker.Router.Document.{unmarshal_router_config}
use skupper_docker.Router.Document.Roundtrip.{unmarshal-marshal}
use skupper_docker.Router.Proxy.{
  add_egress_to, tcp_endpoint, proxy_port, proxy_host, add_egress, add_tcp_egress, add_http_egress,
  uplink_config, add_local_bridges, add_remote_bridges, proxy_config, get_router_config_for_proxy,
}
use skupper_docker.Router.Proxy.Keyed.{proxy_config-IsKeyed}

-- The document that the program writes for a proxy is read back as the configuration that was
-- built for it.
proxy_config_reads_back :
    (s : ServiceInterface) (site_id : String)
    → unmarshal_router_config (get_router_config_for_proxy s site_id) ≡ ok (proxy_config s site_id)
unfolding get_router_config_for_proxy
proxy_config_reads_back s site_id = unmarshal-marshal _ (proxy_config-IsKeyed s site_id)

-- The connector of a name that the targets of a service ask for, the last one if they are several:
-- to the container or to the host of the target, on the target's own port or on the service's if it
-- has none.
abbrev last_egress :
    String
    → ServiceInterface
    → String
    → List ServiceInterfaceTarget
    → Option TcpEndpoint
    → Option TcpEndpoint
last_egress name s site_id [] found = found
last_egress name s site_id (t ∷ ts) found = last_egress name s site_id ts (
    if (t.selector == container_selector) && (name == "egress-" <> t.name)
    then some (tcp_endpoint ("egress-" <> t.name) t.name (get_target_port s t) s.address site_id)
    else if (t.selector == host_service_selector)
        && (name == "egress-" <> (split_at colon t.name).0)
    then some (
        tcp_endpoint ("egress-" <> (split_at colon t.name).0) (split_at colon t.name).0
          (get_target_port s t) s.address site_id)
    else found)

selectors_of_targets :
    (k : String) → (k == container_selector) ≡ true → (k == host_service_selector) ≡ false
unfolding str_dec
selectors_of_targets k e = rw (eq→path k container_selector e) refl

add_egress_to-tcp_connectors :
    (s : ServiceInterface) (site_id name : String) (t : ServiceInterfaceTarget) (r : RouterConfig)
    → Dict.lookup name (add_egress_to (add_tcp_egress s site_id) s t r).bridges.tcp_connectors
      ≡ last_egress name s site_id (t ∷ []) (Dict.lookup name r.bridges.tcp_connectors)
unfolding add_egress_to add_tcp_egress add_tcp_connector proxy_port proxy_host get_target_port
add_egress_to-tcp_connectors s site_id name t r = ground (
  arith,
  selectors_of_targets t.selector,
  Dict.lookup-insert name ("egress-" <> t.name)
      (tcp_endpoint ("egress-" <> t.name) t.name (proxy_port s t) s.address site_id)
      r.bridges.tcp_connectors,
  Dict.lookup-insert name ("egress-" <> proxy_host t)
      (tcp_endpoint ("egress-" <> proxy_host t) (proxy_host t) (proxy_port s t) s.address site_id)
      r.bridges.tcp_connectors,
)

add_egress-tcp_connectors :
    (s : ServiceInterface) (site_id name : String) (ts : List ServiceInterfaceTarget)
    (r : RouterConfig)
    → Dict.lookup name (add_egress (add_tcp_egress s site_id) s ts r).bridges.tcp_connectors
      ≡ last_egress name s site_id ts (Dict.lookup name r.bridges.tcp_connectors)
unfolding add_egress
add_egress-tcp_connectors s site_id name [] r = refl
add_egress-tcp_connectors s site_id name (t ∷ ts) r =
    add_egress-tcp_connectors s site_id name ts (add_egress_to (add_tcp_egress s site_id) s t r)
    ∙ ap (last_egress name s site_id ts) (add_egress_to-tcp_connectors s site_id name t r)

add_egress-tcp_listeners :
    (s : ServiceInterface) (site_id : String) (ts : List ServiceInterfaceTarget) (r : RouterConfig)
    → (add_egress (add_tcp_egress s site_id) s ts r).bridges.tcp_listeners ≡ r.bridges.tcp_listeners
unfolding add_egress add_egress_to add_tcp_egress add_tcp_connector
add_egress-tcp_listeners s site_id [] r = refl
add_egress-tcp_listeners s site_id (t ∷ ts) r =
    add_egress-tcp_listeners s site_id ts (add_egress_to (add_tcp_egress s site_id) s t r)
    ∙ ground arith

-- The same service with every target's port written out.
abbrev with_port : ServiceInterface → ServiceInterfaceTarget → ServiceInterfaceTarget
with_port s t = record t { target_port = get_target_port s t }

abbrev with_ports : ServiceInterface → ServiceInterface
with_ports s = record s { targets = map (with_port s) s.targets }

with_ports-proxy_port :
    (s : ServiceInterface) (t : ServiceInterfaceTarget)
    → proxy_port (with_ports s) (with_port s t) ≡ proxy_port s t
unfolding proxy_port get_target_port
with_ports-proxy_port s t = ground arith

with_ports-egress_to :
    (add : String → String → ℤ → RouterConfig → RouterConfig) (s : ServiceInterface)
    (t : ServiceInterfaceTarget) (r : RouterConfig)
    → add_egress_to add (with_ports s) (with_port s t) r ≡ add_egress_to add s t r
unfolding add_egress_to proxy_host
with_ports-egress_to add s t r = rw (with_ports-proxy_port s t) refl

with_ports-egress :
    (add : String → String → ℤ → RouterConfig → RouterConfig) (s : ServiceInterface)
    (ts : List ServiceInterfaceTarget) (r : RouterConfig)
    → add_egress add (with_ports s) (map (with_port s) ts) r ≡ add_egress add s ts r
unfolding add_egress
with_ports-egress add s [] r = refl
with_ports-egress add s (t ∷ ts) r =
    ap (add_egress add (with_ports s) (map (with_port s) ts)) (with_ports-egress_to add s t r)
    ∙ with_ports-egress add s ts (add_egress_to add s t r)

-- A target that has no port of its own is reached on the service's port: writing the ports out as
-- the controller computes them changes nothing in the configuration of a proxy.
proxy_config-with_ports :
    (s : ServiceInterface) (site_id : String)
    → proxy_config (with_ports s) site_id ≡ proxy_config s site_id
unfolding proxy_config add_local_bridges add_remote_bridges
proxy_config-with_ports s site_id =
    rw
      (
        with_ports-egress (add_tcp_egress s site_id) s s.targets,
        with_ports-egress (add_http_egress s site_id "") s s.targets,
        with_ports-egress (add_http_egress s site_id "HTTP/2.0") s s.targets,
      )
      refl

-- The proxy of a TCP service of this site: under each name stands the connector of the last target
-- that has an egress of that name, with the target's host and port and the service's address, and
-- the ingress listens on the service's port. The proxy of a service of another site has the same
-- ingress and no connectors.
pub proxy_config_tcp :
    (s : ServiceInterface) (site_id name : String)
    → s.protocol ≡ "tcp"
    → (Dict.lookup name (proxy_config s site_id).bridges.tcp_connectors
        ≡ (if s.origin == "" then last_egress name s site_id s.targets none else none))
      × ((proxy_config s site_id).bridges.tcp_listeners
          ≡ ("ingress", tcp_endpoint "ingress" "0.0.0.0" s.port s.address site_id) ∷ [])
unfolding proxy_config add_local_bridges add_remote_bridges add_tcp_listener uplink_config
    Dict.insert Dict.lookup
proxy_config_tcp s site_id name h =
    let tcp : (s.protocol == "tcp") ≡ true = ground arith in
    elim (Bool-cases (s.origin == "")) [
      | inl e ↦
          rw (e, tcp)
            (
              add_egress-tcp_connectors s site_id name s.targets _,
              add_egress-tcp_listeners s site_id s.targets _,
            )
      | inr e ↦ rw (e, tcp) (refl, refl)
    ]

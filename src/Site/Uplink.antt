-- ===== src/Site/Uplink.antt =====
-- The connector by which the proxies of pkg/qdr/qdr.go reach the router of their site, against the
-- router that client/router_create.go plans.
use skupper_docker.Base.{
  ◌≡◌, refl, ◌∙◌, String, Bool, true, false, not, ◌&&◌, List, [], ◌∷◌, ◌==◌, any, if◌then◌else◌,
  arith, str_dec,
}
use skupper_docker.Base.Int.{ℤ, itoa}
use skupper_docker.Base.Dict
use skupper_docker.Base.Dict.{Dict}
use skupper_docker.Types.{
  ServiceInterface, ServiceInterfaceTarget, SiteConfigSpec, Credential, CertAuthority,
  container_selector, host_service_selector,
}
use skupper_docker.Router.{
  Listener, Connector, RouterConfig, connector_zero, initial_config, add_address, add_listener,
  add_connector, add_ssl_profile, named_listener, add_tcp_connector, add_http_connector,
  add_tcp_listener, add_http_listener,
}
use skupper_docker.Router.Proxy.{
  proxy_config, uplink_config, add_local_bridges, add_remote_bridges, add_egress, add_egress_to,
  add_tcp_egress, add_http_egress,
}
use skupper_docker.Site.{site_authorities, site_credentials}
use skupper_docker.Site.Transport.{base_config, add_console, add_interior, site_router_config}

-- the connector of each proxy to the router of its site
abbrev pub uplink : Connector
uplink = record connector_zero {
  name = "uplink";
  ssl_profile = "skupper-internal";
  host = "skupper-router";
  port = "45671";
  role = "edge";
}

-- The router listens on the connector's port, in its role, under a profile of the same certificates.
abbrev pub accepts : Connector → RouterConfig → Bool
accepts c r =
    any
      (λ (l : Listener).
        itoa l.port == c.port && (l.role == c.role && l.ssl_profile == c.ssl_profile))
      (Dict.values r.listeners)
    && Dict.member c.ssl_profile r.ssl_profiles

-- The site has a certificate for the connector's profile and host, and an authority to sign it.
abbrev pub certifies : Connector → SiteConfigSpec → Bool
certifies c options =
    any
      (λ (cr : Credential).
        cr.name == c.ssl_profile
        && (any (λ (h : String). h == c.host) cr.hosts
            && any (λ (ca : CertAuthority). ca.name == cr.ca) (site_authorities options)))
      (site_credentials options)

pick-connectors :
    (b : Bool) (x y : RouterConfig) {cs : Dict Connector}
    → x.connectors ≡ cs
    → y.connectors ≡ cs
    → (if b then x else y).connectors ≡ cs
pick-connectors true x y p q = p
pick-connectors false x y p q = q

add_egress-connectors :
    (add : String → String → ℤ → RouterConfig → RouterConfig)
    → ((name host : String) (port : ℤ) (r : RouterConfig)
        → (add name host port r).connectors ≡ r.connectors)
    → (s : ServiceInterface) (ts : List ServiceInterfaceTarget) (r : RouterConfig)
    → (add_egress add s ts r).connectors ≡ r.connectors
unfolding add_egress add_egress_to
add_egress-connectors add keeps s [] r = refl
add_egress-connectors add keeps s (t ∷ ts) r =
    add_egress-connectors add keeps s ts (add_egress_to add s t r)
    ∙ pick-connectors (t.selector == container_selector) _ _ (keeps _ _ _ r)
        (pick-connectors (t.selector == host_service_selector) _ _ (keeps _ _ _ r) refl)

add_tcp_egress-connectors :
    (s : ServiceInterface) (site_id name host : String) (port : ℤ) (r : RouterConfig)
    → (add_tcp_egress s site_id name host port r).connectors ≡ r.connectors
unfolding add_tcp_egress add_tcp_connector
add_tcp_egress-connectors s site_id name host port r = refl

add_http_egress-connectors :
    (s : ServiceInterface) (site_id version name host : String) (port : ℤ) (r : RouterConfig)
    → (add_http_egress s site_id version name host port r).connectors ≡ r.connectors
unfolding add_http_egress add_http_connector
add_http_egress-connectors s site_id version name host port r = refl

add_local_bridges-connectors :
    (s : ServiceInterface) (site_id : String) (r : RouterConfig)
    → (add_local_bridges s site_id r).connectors ≡ r.connectors
unfolding add_local_bridges add_tcp_listener add_http_listener
add_local_bridges-connectors s site_id r =
    pick-connectors (s.protocol == "tcp") _ _
      (add_egress-connectors (add_tcp_egress s site_id) (add_tcp_egress-connectors s site_id) s
        s.targets _)
      (pick-connectors (s.protocol == "http") _ _
        (add_egress-connectors (add_http_egress s site_id "")
          (add_http_egress-connectors s site_id "") s s.targets _)
        (pick-connectors (s.protocol == "http2") _ _
          (add_egress-connectors (add_http_egress s site_id "HTTP/2.0")
            (add_http_egress-connectors s site_id "HTTP/2.0") s s.targets _)
          refl))

add_remote_bridges-connectors :
    (s : ServiceInterface) (site_id : String) (r : RouterConfig)
    → (add_remote_bridges s site_id r).connectors ≡ r.connectors
unfolding add_remote_bridges add_tcp_listener add_http_listener
add_remote_bridges-connectors s site_id r = pick-connectors (s.protocol == "tcp") _ _ refl (
    pick-connectors (s.protocol == "http") _ _ refl
      (pick-connectors (s.protocol == "http2") _ _ refl refl))

proxy_config-connectors :
    (s : ServiceInterface) (site_id : String)
    → (proxy_config s site_id).connectors ≡ ("uplink", uplink) ∷ []
unfolding proxy_config uplink_config add_listener add_connector add_ssl_profile initial_config
    Dict.insert itoa
proxy_config-connectors s site_id =
    pick-connectors (s.origin == "") _ _
      (add_local_bridges-connectors s site_id (uplink_config site_id))
      (add_remote_bridges-connectors s site_id (uplink_config site_id))

uplink_accepted :
    (name site_id : String) (options : SiteConfigSpec) (edge : Bool)
    → options.is_edge ≡ edge
    → accepts uplink (site_router_config name site_id options) ≡ not edge
unfolding site_router_config base_config add_console add_interior Dict.insert Dict.lookup str_dec
    add_listener named_listener add_ssl_profile add_address initial_config itoa
uplink_accepted name site_id options true e = rw e (ground arith)
uplink_accepted name site_id options false e = rw e (ground arith)

-- The one connector of a proxy's configuration, whatever the service, is accepted by the router of
-- its site, and the site has a certificate for it, exactly if the site is not an edge.
pub proxy_config-accepts :
    (s : ServiceInterface) (name site_id : String) (options : SiteConfigSpec)
    → (c : Connector) × ((proxy_config s site_id).connectors ≡ (c.name, c) ∷ [])
      × (accepts c (site_router_config name site_id options) ≡ not options.is_edge)
      × (certifies c options ≡ not options.is_edge)
unfolding site_authorities site_credentials str_dec
proxy_config-accepts s name site_id options = (
  uplink,
  proxy_config-connectors s site_id,
  uplink_accepted name site_id options options.is_edge refl,
  ground arith,
)

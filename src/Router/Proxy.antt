-- ===== src/Router/Proxy.antt =====
-- `GetRouterConfigForProxy` of pkg/qdr/qdr.go: the configuration of the router that runs beside a
-- service and carries its traffic.
pub mod Keyed
pub mod Laws
use skupper_docker.Base.{ℕ, String, ◌<>◌, Bool, true, false, List, [], ◌∷◌, ◌==◌, if◌then◌else◌}
use skupper_docker.Base.Int.{ℤ, pos, ◌==ℤ◌, itoa}
use skupper_docker.Base.Text.{split_at, colon}
use skupper_docker.Types.{
  ServiceInterface, ServiceInterfaceTarget, container_selector, host_service_selector,
}
use skupper_docker.Router.{
  Listener, Connector, Address, TcpEndpoint, HttpEndpoint, RouterConfig, listener_zero,
  connector_zero, ssl_profile_named, initial_config, add_ssl_profile, add_connector, add_listener,
  add_tcp_listener, add_tcp_connector, add_http_listener, add_http_connector,
}
use skupper_docker.Router.Document.{Document, marshal_router_config}

abbrev pub tcp_endpoint : String → String → ℤ → String → String → TcpEndpoint
tcp_endpoint name host port address site_id = record {
  name = name;
  host = host;
  port = itoa port;
  address = address;
  site_id = site_id;
}

abbrev pub http_endpoint : String → String → ℤ → String → String → String → HttpEndpoint
http_endpoint name host port address site_id protocol_version = record {
  name = name;
  host = host;
  port = itoa port;
  address = address;
  site_id = site_id;
  protocol_version = protocol_version;
  aggregation = "";
  event_channel = false;
  host_override = "";
}

-- `tport` of the loops: the target's own port, or the definition's if it has none
pub proxy_port : ServiceInterface → ServiceInterfaceTarget → ℤ
proxy_port s t = if t.target_port ==ℤ pos 0 then s.port else t.target_port

-- `strings.Split(t.Name, ":")[0]`
pub proxy_host : ServiceInterfaceTarget → String
unfolding split_at
proxy_host t = (split_at colon t.name).0

-- one round of the loop over the targets, for a protocol that adds a connector by `add`
unfoldable pub add_egress_to :
    (String → String → ℤ → RouterConfig → RouterConfig)
    → ServiceInterface
    → ServiceInterfaceTarget
    → RouterConfig
    → RouterConfig
unfolding proxy_port proxy_host
add_egress_to add s t r =
    if t.selector == container_selector
    then add ("egress-" <> t.name) t.name (proxy_port s t) r
    else if t.selector == host_service_selector
    then add ("egress-" <> proxy_host t) (proxy_host t) (proxy_port s t) r
    else r

unfoldable pub add_egress :
    (String → String → ℤ → RouterConfig → RouterConfig)
    → ServiceInterface
    → List ServiceInterfaceTarget
    → RouterConfig
    → RouterConfig
unfolding add_egress_to
add_egress add s [] r = r
add_egress add s (t ∷ ts) r = add_egress add s ts (add_egress_to add s t r)

unfoldable pub add_tcp_egress :
    ServiceInterface → String → String → String → ℤ → RouterConfig → RouterConfig
unfolding add_tcp_connector
add_tcp_egress s site_id name host port r =
    add_tcp_connector (tcp_endpoint name host port s.address site_id) r

unfoldable pub add_http_egress :
    ServiceInterface → String → String → String → String → ℤ → RouterConfig → RouterConfig
unfolding add_http_connector
add_http_egress s site_id version name host port r =
    add_http_connector (http_endpoint name host port s.address site_id version) r

unfoldable pub uplink_config : String → RouterConfig
unfolding initial_config add_ssl_profile add_connector add_listener
uplink_config site_id =
    add_listener (record listener_zero { name = "amqp"; host = "localhost"; port = pos 5672 })
      (add_connector
        (record connector_zero {
          name = "uplink";
          ssl_profile = "skupper-internal";
          host = "skupper-router";
          port = itoa (pos 45671);
          role = "edge";
        })
        (add_ssl_profile (ssl_profile_named "skupper-internal")
          (initial_config "$HOSTNAME" site_id true)))

-- the configuration of a service that this site offers
unfoldable pub add_local_bridges : ServiceInterface → String → RouterConfig → RouterConfig
unfolding add_egress add_tcp_egress add_http_egress add_tcp_listener add_http_listener
add_local_bridges s site_id r =
    if s.protocol == "tcp"
    then add_egress (add_tcp_egress s site_id) s s.targets
        (add_tcp_listener (tcp_endpoint "ingress" "0.0.0.0" s.port s.address site_id) r)
    else if s.protocol == "http"
    then add_egress (add_http_egress s site_id "") s s.targets
        (add_http_listener (http_endpoint "ingress" s.address s.port s.address site_id "") r)
    else if s.protocol == "http2"
    then add_egress (add_http_egress s site_id "HTTP/2.0") s s.targets (
        add_http_listener (http_endpoint "ingress" s.address s.port s.address site_id "HTTP/2.0") r)
    else r

-- the configuration of a service that another site offers: an ingress only
unfoldable pub add_remote_bridges : ServiceInterface → String → RouterConfig → RouterConfig
unfolding add_tcp_listener add_http_listener
add_remote_bridges s site_id r =
    if s.protocol == "tcp"
    then add_tcp_listener (tcp_endpoint "ingress" "0.0.0.0" s.port s.address site_id) r
    else if s.protocol == "http"
    then add_http_listener (http_endpoint "ingress" "0.0.0.0" s.port s.address site_id "") r
    else if s.protocol == "http2"
    then add_http_listener (http_endpoint "ingress" "0.0.0.0" s.port s.address site_id "HTTP/2.0") r
    else r

unfoldable pub proxy_config : ServiceInterface → String → RouterConfig
unfolding uplink_config add_local_bridges add_remote_bridges
proxy_config s site_id =
    if s.origin == ""
    then add_local_bridges s site_id (uplink_config site_id)
    else add_remote_bridges s site_id (uplink_config site_id)

unfoldable pub get_router_config_for_proxy : ServiceInterface → String → Document
unfolding proxy_config marshal_router_config
get_router_config_for_proxy s site_id = marshal_router_config (proxy_config s site_id)

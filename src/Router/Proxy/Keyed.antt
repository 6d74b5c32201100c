-- ===== src/Router/Proxy/Keyed.antt =====
-- The keys of the maps that `GetRouterConfigForProxy` of pkg/qdr/qdr.go builds.
use skupper_docker.Base.{String, Bool, true, false, List, [], ◌∷◌, ◌==◌, if◌then◌else◌}
use skupper_docker.Base.Int.{ℤ}
use skupper_docker.Types.{
  ServiceInterface, ServiceInterfaceTarget, container_selector, host_service_selector,
}
use skupper_docker.Router.{RouterConfig}
use skupper_docker.Router.Document.Roundtrip.{IsKeyed}
use skupper_docker.Router.Edit.{
  tcp_connector, http_connector, edit, edit-IsKeyed, initial_config-IsKeyed, tcp_listener,
  http_listener, listener, connector, ssl_profile,
}
use skupper_docker.Router.Proxy.{
  tcp_endpoint, http_endpoint, add_egress, add_tcp_egress, add_http_egress, uplink_config,
  add_local_bridges, add_remote_bridges, proxy_config,
}

-- either of two
pub pick-IsKeyed :
    (b : Bool) (x y : RouterConfig) → IsKeyed x → IsKeyed y → IsKeyed (if b then x else y)
pick-IsKeyed true x y p q = p
pick-IsKeyed false x y p q = q

add_egress-IsKeyed :
    (add : String → String → ℤ → RouterConfig → RouterConfig)
    → ((name host : String) (port : ℤ) (r : RouterConfig)
        → IsKeyed r
        → IsKeyed (add name host port r))
    → (s : ServiceInterface) (ts : List ServiceInterfaceTarget) (r : RouterConfig) → IsKeyed r
    → IsKeyed (add_egress add s ts r)
unfolding add_egress
add_egress-IsKeyed add keeps s [] r k = k
add_egress-IsKeyed add keeps s (t ∷ ts) r k = add_egress-IsKeyed add keeps s ts _ (
    pick-IsKeyed (t.selector == container_selector) _ _ (keeps _ _ _ r k)
      (pick-IsKeyed (t.selector == host_service_selector) _ _ (keeps _ _ _ r k) k))

add_tcp_egress-IsKeyed :
    (s : ServiceInterface) (site_id name host : String) (port : ℤ) (r : RouterConfig)
    → IsKeyed r
    → IsKeyed (add_tcp_egress s site_id name host port r)
unfolding add_tcp_egress edit
add_tcp_egress-IsKeyed s site_id name host port r =
    edit-IsKeyed (tcp_connector (tcp_endpoint name host port s.address site_id)) r

add_http_egress-IsKeyed :
    (s : ServiceInterface) (site_id version name host : String) (port : ℤ) (r : RouterConfig)
    → IsKeyed r
    → IsKeyed (add_http_egress s site_id version name host port r)
unfolding add_http_egress edit
add_http_egress-IsKeyed s site_id version name host port r =
    edit-IsKeyed (http_connector (http_endpoint name host port s.address site_id version)) r

add_remote_bridges-IsKeyed :
    (s : ServiceInterface) (site_id : String) (r : RouterConfig)
    → IsKeyed r
    → IsKeyed (add_remote_bridges s site_id r)
unfolding add_remote_bridges edit
add_remote_bridges-IsKeyed s site_id r k =
    pick-IsKeyed (s.protocol == "tcp") _ _ (edit-IsKeyed (tcp_listener _) r k) (
      pick-IsKeyed (s.protocol == "http") _ _ (edit-IsKeyed (http_listener _) r k)
        (pick-IsKeyed (s.protocol == "http2") _ _ (edit-IsKeyed (http_listener _) r k) k))

add_local_bridges-IsKeyed :
    (s : ServiceInterface) (site_id : String) (r : RouterConfig)
    → IsKeyed r
    → IsKeyed (add_local_bridges s site_id r)
unfolding add_local_bridges edit
add_local_bridges-IsKeyed s site_id r k =
    pick-IsKeyed (s.protocol == "tcp") _ _
      (add_egress-IsKeyed (add_tcp_egress s site_id) (add_tcp_egress-IsKeyed s site_id) s s.targets
        _ (edit-IsKeyed (tcp_listener _) r k))
      (pick-IsKeyed (s.protocol == "http") _ _
        (add_egress-IsKeyed (add_http_egress s site_id "") (add_http_egress-IsKeyed s site_id "") s
          s.targets _ (edit-IsKeyed (http_listener _) r k))
        (pick-IsKeyed (s.protocol == "http2") _ _
          (add_egress-IsKeyed (add_http_egress s site_id "HTTP/2.0")
            (add_http_egress-IsKeyed s site_id "HTTP/2.0") s s.targets _
            (edit-IsKeyed (http_listener _) r k))
          k))

uplink_config-IsKeyed : (site_id : String) → IsKeyed (uplink_config site_id)
unfolding uplink_config edit
uplink_config-IsKeyed site_id = edit-IsKeyed (listener _) _ (
    edit-IsKeyed (connector _) _
      (edit-IsKeyed (ssl_profile _) _ (initial_config-IsKeyed "$HOSTNAME" site_id true)))

pub proxy_config-IsKeyed :
    (s : ServiceInterface) (site_id : String) → IsKeyed (proxy_config s site_id)
unfolding proxy_config
proxy_config-IsKeyed s site_id =
    pick-IsKeyed (s.origin == "") _ _
      (add_local_bridges-IsKeyed s site_id _ (uplink_config-IsKeyed site_id))
      (add_remote_bridges-IsKeyed s site_id _ (uplink_config-IsKeyed site_id))

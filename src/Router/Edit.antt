-- ===== src/Router/Edit.antt =====
-- The operations of pkg/qdr/qdr.go on a configuration, as data, and sequences of them.
use mathlib.Core.Option.{none}
use skupper_docker.Base.{
  ◌≡◌, refl, String, ◌<>◌, Bool, true, some, List, [], ◌∷◌, ◌==◌, arith, if◌then◌else◌,
}
use skupper_docker.Base.Dict
use skupper_docker.Base.Dict.{Dict}
use skupper_docker.Router.{
  SslProfile, Listener, Connector, Address, TcpEndpoint, HttpEndpoint, RouterConfig, initial_config,
  named_listener, add_listener, add_connector, remove_connector, add_ssl_profile,
  add_conn_ssl_profile, remove_conn_ssl_profile, add_address, add_tcp_connector, add_tcp_listener,
  add_http_connector, add_http_listener,
}
use skupper_docker.Base.Text.{trim_suffix}
use skupper_docker.Base.Exec.{ok}
use skupper_docker.Router.Document.{unmarshal_router_config, marshal_router_config}
use skupper_docker.Router.Document.Inserts.{
  ssl_profile_name, connector_name, listener_name, address_prefix, tcp_name, http_name,
}
use skupper_docker.Router.Document.Roundtrip.{IsKeyed, unmarshal-marshal}
use skupper_docker.Router.Keyed.{
  IsNamed-insert, IsNamed-erase, default_files-name, if-IsKeyed, with_ssl_profiles, with_connectors,
  with_listeners, with_addresses, with_tcp_connectors, with_tcp_listeners, with_http_connectors,
  with_http_listeners,
}

-- The operations on a configuration.
pub data Edit : Type 0 where
  listener : Listener → Edit
  connector : Connector → Edit
  without_connector : String → Edit
  ssl_profile : SslProfile → Edit
  conn_ssl_profile : SslProfile → Edit
  without_conn_ssl_profile : String → Edit
  address : Address → Edit
  tcp_connector : TcpEndpoint → Edit
  tcp_listener : TcpEndpoint → Edit
  http_connector : HttpEndpoint → Edit
  http_listener : HttpEndpoint → Edit

unfoldable pub edit : Edit → RouterConfig → RouterConfig
unfolding add_listener add_connector remove_connector add_ssl_profile add_conn_ssl_profile
    remove_conn_ssl_profile add_address add_tcp_connector add_tcp_listener add_http_connector
    add_http_listener
edit (listener l) r = add_listener l r
edit (connector c) r = add_connector c r
edit (without_connector name) r = (remove_connector name r).1
edit (ssl_profile s) r = add_ssl_profile s r
edit (conn_ssl_profile s) r = add_conn_ssl_profile s r
edit (without_conn_ssl_profile name) r = (remove_conn_ssl_profile name r).1
edit (address a) r = add_address a r
edit (tcp_connector e) r = add_tcp_connector e r
edit (tcp_listener e) r = add_tcp_listener e r
edit (http_connector e) r = add_http_connector e r
edit (http_listener e) r = add_http_listener e r

pub edit_all : List Edit → RouterConfig → RouterConfig
unfolding edit
edit_all [] r = r
edit_all (e ∷ es) r = edit_all es (edit e r)

pub edit-IsKeyed : (e : Edit) (r : RouterConfig) → IsKeyed r → IsKeyed (edit e r)
unfolding edit
edit-IsKeyed (listener l) r k =
    with_listeners r k _
      (IsNamed-insert listener_name _ (named_listener l) r.listeners refl k.listeners)
edit-IsKeyed (connector c) r k =
    with_connectors r k _ (IsNamed-insert connector_name _ c r.connectors refl k.connectors)
edit-IsKeyed (without_connector name) r k =
    if-IsKeyed (Dict.member name r.connectors) _ _ _ _
      (with_connectors r k _ (IsNamed-erase connector_name name r.connectors k.connectors)) k
edit-IsKeyed (ssl_profile s) r k = with_ssl_profiles r k _ (
    IsNamed-insert ssl_profile_name _ _ r.ssl_profiles
      (default_files-name "/etc/qpid-dispatch-certs/" s.name s) k.ssl_profiles)
edit-IsKeyed (conn_ssl_profile s) r k = with_ssl_profiles r k _ (
    IsNamed-insert ssl_profile_name _ _ r.ssl_profiles
      (default_files-name "/etc/qpid-dispatch/connections/" (trim_suffix s.name "-profile") s)
      k.ssl_profiles)
edit-IsKeyed (without_conn_ssl_profile name) r k =
    if-IsKeyed (Dict.member (name <> "-profile") r.ssl_profiles) _ _ _ _
      (with_ssl_profiles r k _
        (IsNamed-erase ssl_profile_name (name <> "-profile") r.ssl_profiles k.ssl_profiles))
      k
edit-IsKeyed (address a) r k =
    with_addresses r k _ (IsNamed-insert address_prefix _ a r.addresses refl k.addresses)
edit-IsKeyed (tcp_connector e) r k =
    with_tcp_connectors r k _
      (IsNamed-insert tcp_name _ e r.bridges.tcp_connectors refl k.tcp_connectors)
edit-IsKeyed (tcp_listener e) r k =
    with_tcp_listeners r k _
      (IsNamed-insert tcp_name _ e r.bridges.tcp_listeners refl k.tcp_listeners)
edit-IsKeyed (http_connector e) r k =
    with_http_connectors r k _
      (IsNamed-insert http_name _ e r.bridges.http_connectors refl k.http_connectors)
edit-IsKeyed (http_listener e) r k =
    with_http_listeners r k _
      (IsNamed-insert http_name _ e r.bridges.http_listeners refl k.http_listeners)

-- An initial configuration is well keyed, and any sequence of additions and removals keeps a
-- configuration well keyed.
edit_all-IsKeyed : (es : List Edit) (r : RouterConfig) → IsKeyed r → IsKeyed (edit_all es r)
unfolding edit_all
edit_all-IsKeyed [] r k = k
edit_all-IsKeyed (e ∷ es) r k = edit_all-IsKeyed es (edit e r) (edit-IsKeyed e r k)

pub initial_config-IsKeyed :
    (id metadata : String) (edge : Bool) → IsKeyed (initial_config id metadata edge)
unfolding initial_config
initial_config-IsKeyed id metadata edge = record {
  ssl_profiles = tt;
  connectors = tt;
  listeners = tt;
  addresses = tt;
  tcp_connectors = tt;
  tcp_listeners = tt;
  http_connectors = tt;
  http_listeners = tt;
}

-- A configuration that any sequence of additions and removals makes of an initial configuration is
-- read back as it was from the document that is written for it.
pub edited_config_reads_back :
    (es : List Edit) (id metadata : String) (edge : Bool)
    → unmarshal_router_config
        (marshal_router_config (edit_all es (initial_config id metadata edge)))
      ≡ ok (edit_all es (initial_config id metadata edge))
edited_config_reads_back es id metadata edge = unmarshal-marshal _ (
    edit_all-IsKeyed es (initial_config id metadata edge) (initial_config-IsKeyed id metadata edge))

-- The connector that is added is found. Removing it reports that there was one, and leaves no
-- connector of that name and under every other name what was there before both.
remove_connector-add_connector :
    (c : Connector) (r : RouterConfig) (j : String)
    → ((remove_connector c.name (add_connector c r)).0 ≡ true)
      × (Dict.lookup c.name (add_connector c r).connectors ≡ some c)
      × (Dict.lookup j (remove_connector c.name (add_connector c r)).1.connectors
          ≡ (if j == c.name then none else Dict.lookup j r.connectors))
unfolding remove_connector add_connector
remove_connector-add_connector c r j = ground (
  arith,
  Dict.lookup-insert j c.name c r.connectors,
  Dict.lookup-insert c.name c.name c r.connectors,
  Dict.lookup-erase j c.name (Dict.insert c.name c r.connectors),
)

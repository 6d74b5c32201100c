-- ===== src/Router.antt =====
-- pkg/qdr/qdr.go: the configuration of a router and the operations on it. The maps are kept by
-- name, and text is not parsed here: Router/Document.antt has the elements of a document.
pub mod Document
pub mod Keyed
pub mod Edit
pub mod Proxy
mod Tests
use skupper_docker.Base.{String, ◌<>◌, Bool, true, false, ◌&&◌, none, some, [], ◌==◌, if◌then◌else◌}
use skupper_docker.Base.Int.{ℤ, pos, itoa}
use skupper_docker.Base.Text.{trim_suffix}
use skupper_docker.Base.Dict
use skupper_docker.Base.Dict.{Dict}

pub record RouterMetadata : Type 0 where
  pub id : String
  pub mode : String
  pub metadata : String

pub record SslProfile : Type 0 where
  pub name : String
  pub cert_file : String
  pub private_key_file : String
  pub ca_cert_file : String

pub record Listener : Type 0 where
  pub name : String
  pub role : String
  pub host : String
  pub port : ℤ
  pub route_container : Bool
  pub http : Bool
  pub cost : ℤ
  pub ssl_profile : String
  pub sasl_mechanisms : String
  pub authenticate_peer : Bool
  pub link_capacity : ℤ
  pub http_root_dir : String
  pub websockets : Bool
  pub healthz : Bool
  pub metrics : Bool

pub record Connector : Type 0 where
  pub name : String
  pub role : String
  pub host : String
  pub port : String
  pub route_container : Bool
  pub cost : ℤ
  pub verify_hostname : Bool
  pub ssl_profile : String
  pub link_capacity : ℤ

pub record Address : Type 0 where
  pub prefix : String
  pub distribution : String

pub record TcpEndpoint : Type 0 where
  pub name : String
  pub host : String
  pub port : String
  pub address : String
  pub site_id : String

pub record HttpEndpoint : Type 0 where
  pub name : String
  pub host : String
  pub port : String
  pub address : String
  pub site_id : String
  pub protocol_version : String
  pub aggregation : String
  pub event_channel : Bool
  pub host_override : String

pub record BridgeConfig : Type 0 where
  pub tcp_listeners : Dict TcpEndpoint
  pub tcp_connectors : Dict TcpEndpoint
  pub http_listeners : Dict HttpEndpoint
  pub http_connectors : Dict HttpEndpoint

pub record RouterConfig : Type 0 where
  pub metadata : RouterMetadata
  pub ssl_profiles : Dict SslProfile
  pub listeners : Dict Listener
  pub connectors : Dict Connector
  pub addresses : Dict Address
  pub bridges : BridgeConfig

-- Go's zero values, for the fields that a literal leaves out
abbrev pub listener_zero : Listener
listener_zero = record {
  name = "";
  role = "";
  host = "";
  port = pos 0;
  route_container = false;
  http = false;
  cost = pos 0;
  ssl_profile = "";
  sasl_mechanisms = "";
  authenticate_peer = false;
  link_capacity = pos 0;
  http_root_dir = "";
  websockets = false;
  healthz = false;
  metrics = false;
}

abbrev pub connector_zero : Connector
connector_zero = record {
  name = "";
  role = "";
  host = "";
  port = "";
  route_container = false;
  cost = pos 0;
  verify_hostname = false;
  ssl_profile = "";
  link_capacity = pos 0;
}

abbrev pub ssl_profile_named : String → SslProfile
ssl_profile_named name = record {
  name = name;
  cert_file = "";
  private_key_file = "";
  ca_cert_file = "";
}

abbrev pub new_bridge_config : BridgeConfig
new_bridge_config = record {
  tcp_listeners = [];
  tcp_connectors = [];
  http_listeners = [];
  http_connectors = [];
}

unfoldable pub initial_config : String → String → Bool → RouterConfig
initial_config id metadata edge = record {
  metadata = record { id = id; mode = if edge then "edge" else "interior"; metadata = metadata };
  ssl_profiles = [];
  listeners = [];
  connectors = [];
  addresses = [];
  bridges = new_bridge_config;
}

unfoldable pub is_edge : RouterConfig → Bool
is_edge r = r.metadata.mode == "edge"

unfoldable pub named_listener : Listener → Listener
named_listener l = if l.name == "" then record l { name = l.host <> "@" <> itoa l.port } else l

unfoldable pub add_listener : Listener → RouterConfig → RouterConfig
unfolding named_listener
add_listener l r = record r {
  listeners = Dict.insert (named_listener l).name (named_listener l) r.listeners;
}

unfoldable pub add_connector : Connector → RouterConfig → RouterConfig
add_connector c r = record r { connectors = Dict.insert c.name c r.connectors }

unfoldable pub remove_connector : String → RouterConfig → Bool × RouterConfig
remove_connector name r =
    if Dict.member name r.connectors
    then (true, record r { connectors = Dict.erase name r.connectors })
    else (false, r)

-- the files of a profile in a directory, if the profile names none
abbrev default_files : String → String → SslProfile → SslProfile
default_files path dir s =
    if s.cert_file == "" && (s.ca_cert_file == "" && s.private_key_file == "")
    then (record s {
      cert_file = path <> dir <> "/tls.crt";
      private_key_file = path <> dir <> "/tls.key";
      ca_cert_file = path <> dir <> "/ca.crt";
    })
    else s

unfoldable pub add_ssl_profile : SslProfile → RouterConfig → RouterConfig
add_ssl_profile s r = record r {
  ssl_profiles =
      Dict.insert s.name (default_files "/etc/qpid-dispatch-certs/" s.name s) r.ssl_profiles;
}

unfoldable pub add_conn_ssl_profile : SslProfile → RouterConfig → RouterConfig
add_conn_ssl_profile s r = record r {
  ssl_profiles =
      Dict.insert s.name
        (default_files "/etc/qpid-dispatch/connections/" (trim_suffix s.name "-profile") s)
        r.ssl_profiles;
}

unfoldable pub remove_conn_ssl_profile : String → RouterConfig → Bool × RouterConfig
remove_conn_ssl_profile name r =
    if Dict.member (name <> "-profile") r.ssl_profiles
    then (true, record r { ssl_profiles = Dict.erase (name <> "-profile") r.ssl_profiles })
    else (false, r)

unfoldable pub add_address : Address → RouterConfig → RouterConfig
add_address a r = record r { addresses = Dict.insert a.prefix a r.addresses }

add_bridge_tcp_connector : TcpEndpoint → BridgeConfig → BridgeConfig
add_bridge_tcp_connector e bc = record bc {
  tcp_connectors = Dict.insert e.name e bc.tcp_connectors;
}

add_bridge_tcp_listener : TcpEndpoint → BridgeConfig → BridgeConfig
add_bridge_tcp_listener e bc = record bc { tcp_listeners = Dict.insert e.name e bc.tcp_listeners }

add_bridge_http_connector : HttpEndpoint → BridgeConfig → BridgeConfig
add_bridge_http_connector e bc = record bc {
  http_connectors = Dict.insert e.name e bc.http_connectors;
}

add_bridge_http_listener : HttpEndpoint → BridgeConfig → BridgeConfig
add_bridge_http_listener e bc = record bc {
  http_listeners = Dict.insert e.name e bc.http_listeners;
}

unfoldable pub add_tcp_connector : TcpEndpoint → RouterConfig → RouterConfig
unfolding add_bridge_tcp_connector
add_tcp_connector e r = record r { bridges = add_bridge_tcp_connector e r.bridges }

unfoldable pub add_tcp_listener : TcpEndpoint → RouterConfig → RouterConfig
unfolding add_bridge_tcp_listener
add_tcp_listener e r = record r { bridges = add_bridge_tcp_listener e r.bridges }

unfoldable pub add_http_connector : HttpEndpoint → RouterConfig → RouterConfig
unfolding add_bridge_http_connector
add_http_connector e r = record r { bridges = add_bridge_http_connector e r.bridges }

unfoldable pub add_http_listener : HttpEndpoint → RouterConfig → RouterConfig
unfolding add_bridge_http_listener
add_http_listener e r = record r { bridges = add_bridge_http_listener e r.bridges }

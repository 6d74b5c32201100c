-- ===== src/Site/Transport.antt =====
-- The configuration of the router of a site, as `GetRouterSpecFromOpts` of client/router_create.go
-- builds it.
use skupper_docker.Base.{String, ◌<>◌, Bool, true, false, not, ◌==◌, if◌then◌else◌}
use skupper_docker.Base.Int.{ℤ, pos}
use skupper_docker.Types.{SiteConfigSpec}
use skupper_docker.Router.{
  Listener, RouterConfig, listener_zero, ssl_profile_named, initial_config, add_address,
  add_listener, add_ssl_profile,
}

abbrev amqps_default_port : ℤ
amqps_default_port = pos 5671

abbrev pub console_port : ℤ
console_port = pos 8080

abbrev pub liveness_port : ℤ
liveness_port = pos 9090

abbrev pub inter_router_port : ℤ
inter_router_port = pos 55671

abbrev pub edge_port : ℤ
edge_port = pos 45671

-- the listeners that every router has, and its profile for them
unfoldable pub base_config : String → String → Bool → RouterConfig
unfolding initial_config add_address add_listener add_ssl_profile
base_config name site_id edge =
    add_listener
      (record listener_zero {
        name = "amqps";
        host = "0.0.0.0";
        port = amqps_default_port;
        ssl_profile = "skupper-amqps";
        sasl_mechanisms = "EXTERNAL";
        authenticate_peer = true;
      })
      (add_ssl_profile (ssl_profile_named "skupper-amqps") (
        add_listener (record listener_zero { name = "amqp"; host = "localhost"; port = pos 5672 })
          (add_listener
            (record listener_zero {
              role = "normal";
              host = "0.0.0.0";
              port = liveness_port;
              http = true;
              http_root_dir = "disabled";
              healthz = true;
              metrics = true;
            })
            (add_address (record { prefix = "mc"; distribution = "multicast" })
              (initial_config (name <> "-${HOSTNAME}") site_id edge)))))

abbrev console_listener : Bool → Listener
console_listener authenticate = record listener_zero {
  name = "console";
  host = "0.0.0.0";
  port = console_port;
  http = true;
  authenticate_peer = authenticate;
}

unfoldable pub add_console : Bool → String → RouterConfig → RouterConfig
unfolding add_listener
add_console enabled auth_mode r =
    if enabled
    then (if auth_mode == "internal"
        then add_listener (console_listener true) r
        else if auth_mode == "unsecured"
        then add_listener (console_listener false) r
        else r)
    else r

abbrev router_listener : String → String → ℤ → Listener
router_listener name role port = record listener_zero {
  name = name;
  role = role;
  host = "0.0.0.0";
  port = port;
  ssl_profile = "skupper-internal";
  sasl_mechanisms = "EXTERNAL";
  authenticate_peer = true;
}

-- what a router has that other routers connect to
unfoldable pub add_interior : Bool → RouterConfig → RouterConfig
unfolding add_listener add_ssl_profile
add_interior edge r =
    if not edge
    then add_listener (router_listener "edge-listener" "edge" edge_port) (
        add_listener (router_listener "interior-listener" "inter-router" inter_router_port)
          (add_ssl_profile (ssl_profile_named "skupper-internal") r))
    else r

unfoldable pub site_router_config : String → String → SiteConfigSpec → RouterConfig
unfolding base_config add_console add_interior
site_router_config name site_id options = add_interior options.is_edge (
    add_console options.enable_router_console options.auth_mode
      (base_config name site_id options.is_edge))

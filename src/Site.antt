-- ===== src/Site.antt =====
-- client/router_create.go: what the containers, the router and the credentials of a site are to be,
-- for the options that the user gave.
pub mod Transport
pub mod Spec
pub mod Uplink
pub mod Files
pub mod Certificates
pub mod Inspect
pub mod Create
pub mod Remove
mod Tests
use skupper_docker.Base.{
  String, ◌<>◌, Bool, true, false, not, List, [], ◌∷◌, ◌++◌, ◌==◌, if◌then◌else◌,
}
use skupper_docker.Base.Int.{ℤ, pos, itoa}
use skupper_docker.Base.Dict.{Dict}
use skupper_docker.Types.{
  SiteConfigSpec, DeploymentSpec, Credential, CertAuthority, certs_path, connections_path,
  config_path, console_users_path, sasl_config_path, services_path, get_skupper_path,
  transport_deployment_name, controller_deployment_name, default_transport_image,
  default_controller_image,
}
use skupper_docker.Router.{
  Listener, RouterConfig, listener_zero, ssl_profile_named, initial_config, add_address,
  add_listener, add_ssl_profile,
}
use skupper_docker.Site.Transport.{
  console_port, liveness_port, inter_router_port, edge_port, site_router_config,
}
use skupper_docker.Router.Document.{Document, marshal_router_config}

-- `RouterSpec`; the text of the router's configuration is a document, as Router/Document.antt has it.
pub record RouterSpec : Type 0 where
  pub name : String
  pub auth_mode : String
  pub transport : DeploymentSpec
  pub controller : DeploymentSpec
  pub router_config : Document
  pub cert_authoritys : List CertAuthority
  pub credentials : List Credential

-- What the code asks its surroundings for: the environment, the daemon's `Info().Name`, and the
-- host as the containers see it (`utils.GetInternalIP("docker0")`, or "host-gateway" off Linux).
pub record Surroundings : Type 0 where
  pub getenv : String → String
  pub info_name : String
  pub skupper_host : String

abbrev tcp : ℤ → String
tcp port = itoa port <> "/tcp"

transport_env : String → SiteConfigSpec → List String
transport_env site_id options =
    (if not options.is_edge then ("APPLICATION_NAME=" <> transport_deployment_name) ∷ [] else [])
    ++ (if options.auth_mode == "internal"
        then "QDROUTERD_AUTO_CREATE_SASLDB_SOURCE=/etc/qpid-dispatch/sasl-users/"
          ∷ "QDROUTERD_AUTO_CREATE_SASLDB_PATH=/tmp/qdrouterd.sasldb" ∷ []
        else [])
    ++ (if options.trace_log then "PN_TRACE_FRM=1" ∷ [] else [])
    ++ ("QDROUTERD_CONF=/etc/qpid-dispatch/config/qdrouterd.json"
        ∷ "QDROUTERD_CONF_TYPE=json"
        ∷ ("SKUPPER_SITE_ID=" <> site_id)
        ∷ [])

-- a set, each port once
pub transport_ports : SiteConfigSpec → List String
transport_ports options =
    ("5671/tcp" ∷ [])
    ++ (if options.auth_mode == "" then [] else tcp console_port ∷ [])
    ++ (tcp liveness_port ∷ [])
    ++ (if not options.is_edge then tcp inter_router_port ∷ tcp edge_port ∷ [] else [])

pub transport_volumes : SiteConfigSpec → List String
transport_volumes options =
    ("skupper" ∷ "skupper-amqps" ∷ "router-config" ∷ [])
    ++ (if not options.is_edge then "skupper-internal" ∷ [] else [])
    ++ (if options.auth_mode == "internal"
        then "skupper-console-users" ∷ "skupper-sasl-config" ∷ []
        else [])

transport_mounts : String → Dict String
transport_mounts tmpdir =
    (get_skupper_path tmpdir certs_path, "/etc/qpid-dispatch-certs")
    ∷ (get_skupper_path tmpdir connections_path, "/etc/qpid-dispatch/connections")
    ∷ (get_skupper_path tmpdir config_path, "/etc/qpid-dispatch/config")
    ∷ (get_skupper_path tmpdir console_users_path, "/etc/qpid-dispatch/sasl-users/")
    ∷ (get_skupper_path tmpdir sasl_config_path, "/etc/sasl2")
    ∷ []

pub site_authorities : SiteConfigSpec → List CertAuthority
site_authorities options =
    (record { name = "skupper-ca" } ∷ [])
    ++ (if not options.is_edge then record { name = "skupper-internal-ca" } ∷ [] else [])

abbrev credential : String → String → String → List String → Bool → Credential
credential ca name subject hosts connect_json = record {
  ca = ca;
  name = name;
  subject = subject;
  hosts = hosts;
  connect_json = connect_json;
  post = false;
}

pub site_credentials : SiteConfigSpec → List Credential
site_credentials options =
    (credential "skupper-ca" "skupper-amqps" "skupper-messaging" ("skupper-router" ∷ []) false
      ∷ credential "skupper-ca" "skupper" "skupper-messaging" [] true
      ∷ [])
    ++ (if not options.is_edge
        then credential "skupper-internal-ca" "skupper-internal" "skupper-internal"
            ("skupper-router" ∷ []) false
          ∷ []
        else [])

transport_spec : Surroundings → SiteConfigSpec → String → DeploymentSpec
unfolding transport_env transport_ports transport_volumes transport_mounts
transport_spec around options site_id = record {
  image =
      if around.getenv "QDROUTERD_MAGE" == ""
      then default_transport_image
      else around.getenv "QDROUTERD_IMAGE";
  liveness_port = liveness_port;
  labels =
      ("application", transport_deployment_name)
      ∷ ("skupper.io/component", "router")
      ∷ ("prometheus.io/port", "9090")
      ∷ ("prometheus.io/scrape", "true")
      ∷ [];
  env_var = transport_env site_id options;
  ports = transport_ports options;
  volumes = transport_volumes options;
  mounts = transport_mounts (around.getenv "SKUPPER_TMPDIR");
}

controller_image : Surroundings → String
controller_image around =
    if around.getenv "SKUPPER_CONTROLLER_IMAGE" == ""
    then default_controller_image
    else around.getenv "SKUPPER_CONTROLLER_IMAGE"

controller_spec : Surroundings → SiteConfigSpec → String → DeploymentSpec
unfolding controller_image
controller_spec around options site_id = record {
  image = controller_image around;
  liveness_port = pos 0;
  labels =
      ("application", controller_deployment_name) ∷ ("skupper.io/component", "controller") ∷ [];
  env_var =
      (("SKUPPER_SITE_ID=" <> site_id)
        ∷ ("SKUPPER_TMPDIR=" <> around.getenv "SKUPPER_TMPDIR")
        ∷ ("SKUPPER_PROXY_IMAGE=" <> controller_image around)
        ∷ ("SKUPPER_HOST=" <> around.skupper_host)
        ∷ [])
      ++ (if options.map_to_host then "SKUPPER_MAP_TO_HOST=true" ∷ [] else [])
      ++ (if options.trace_log then "PN_TRACE_FRM=1" ∷ [] else []);
  ports = [];
  volumes = [];
  mounts =
      (get_skupper_path (around.getenv "SKUPPER_TMPDIR") certs_path <> "/skupper", "/etc/messaging")
      ∷ (get_skupper_path (around.getenv "SKUPPER_TMPDIR") services_path, "/etc/messaging/services")
      ∷ ("/var/run", "/var/run")
      ∷ [];
}

pub site_name : Surroundings → SiteConfigSpec → String
site_name around options =
    if options.skupper_name == "" then around.info_name else options.skupper_name

-- `GetRouterSpecFromOpts`
pub get_router_spec_from_opts : Surroundings → SiteConfigSpec → String → RouterSpec
unfolding site_name transport_spec controller_spec site_router_config marshal_router_config
    site_authorities site_credentials
get_router_spec_from_opts around options site_id = record {
  name = site_name around options;
  auth_mode = options.auth_mode;
  transport = transport_spec around options site_id;
  controller = controller_spec around options site_id;
  router_config =
      marshal_router_config (site_router_config (site_name around options) site_id options);
  cert_authoritys = site_authorities options;
  credentials = site_credentials options;
}

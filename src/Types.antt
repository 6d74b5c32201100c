-- ===== src/Types.antt =====
-- api/types/types.go and api/types/client.go: the data that the components exchange, and the
-- constants.
use skupper_docker.Base.{ℕ, String, ◌<>◌, Bool, Option, List, ◌==◌, if◌then◌else◌}
use skupper_docker.Base.Dict.{Dict}
use skupper_docker.Base.Int.{ℤ}

pub record Headless : Type 0 where
  pub name : String
  pub size : ℤ
  pub target_port : ℤ

pub record ServiceInterfaceTarget : Type 0 where
  pub name : String
  pub selector : String
  pub target_port : ℤ
  pub service : String

pub record ServiceInterface : Type 0 where
  pub address : String
  pub protocol : String
  pub port : ℤ
  pub event_channel : Bool
  pub aggregate : String
  pub headless : Option Headless
  pub targets : List ServiceInterfaceTarget
  pub origin : String
  pub alias : String

pub record ServiceInterfaceCreateOptions : Type 0 where
  pub protocol : String
  pub address : String
  pub port : ℤ
  pub target_port : ℤ
  pub headless : Bool

pub record TransportConnectedSites : Type 0 where
  pub direct : ℕ
  pub indirect : ℕ
  pub total : ℕ
  pub warnings : List String

-- `Path`, and `GetSkupperPath`: the directories of a site, under the value of SKUPPER_TMPDIR, which
-- is taken for a clean path.
pub data SkupperPath : Type 0 where
  host_path certs_path connections_path config_path : SkupperPath
  console_users_path sasl_config_path services_path sites_path : SkupperPath

abbrev skupper_paths : SkupperPath → String
skupper_paths host_path = ""
skupper_paths certs_path = "/qpid-dispatch-certs"
skupper_paths connections_path = "/connections"
skupper_paths config_path = "/config"
skupper_paths console_users_path = "/console-users"
skupper_paths sasl_config_path = "/sasl-config"
skupper_paths services_path = "/services"
skupper_paths sites_path = "/sites"

unfoldable pub get_skupper_path : String → SkupperPath → String
get_skupper_path tmpdir p =
    (if tmpdir == "" then "skupper" else tmpdir <> "/skupper") <> skupper_paths p

pub record SiteConfigSpec : Type 0 where
  pub skupper_name : String
  pub skupper_namespace : String
  pub is_edge : Bool
  pub enable_controller : Bool
  pub enable_service_sync : Bool
  pub enable_router_console : Bool
  pub enable_console : Bool
  pub auth_mode : String
  pub user : String
  pub password : String
  pub map_to_host : Bool
  pub replicas : ℤ
  pub trace_log : Bool

pub record SiteConfig : Type 0 where
  pub spec : SiteConfigSpec
  pub uid : String

pub record DeploymentSpec : Type 0 where
  pub image : String
  pub liveness_port : ℤ
  pub labels : Dict String
  pub env_var : List String
  pub ports : List String
  pub volumes : List String
  pub mounts : Dict String

pub record Credential : Type 0 where
  pub ca : String
  pub name : String
  pub subject : String
  pub hosts : List String
  pub connect_json : Bool
  pub post : Bool

pub record CertAuthority : Type 0 where
  pub name : String

-- The two kinds of targets, as a definition stores them.
abbrev pub container_selector : String
container_selector = "internal.skupper.io/container"

abbrev pub host_service_selector : String
host_service_selector = "internal.skupper.io/host-service"

abbrev pub transport_network_name : String
transport_network_name = "skupper-network"

abbrev pub transport_deployment_name : String
transport_deployment_name = "skupper-router"

abbrev pub controller_deployment_name : String
controller_deployment_name = "skupper-service-controller"

abbrev pub default_transport_image : String
default_transport_image = "quay.io/skupper/qdrouterd:0.4"

abbrev pub default_controller_image : String
default_controller_image = "quay.io/skupper/skupper-docker-controller"

-- ===== src/Docker/Containers.antt =====
-- pkg/docker/containers.go: the containers of a site, and how they are created and restarted. The
-- environment of the process, `os.Getenv`, and the text of a definition, `json.Marshal`, are
-- arguments.
pub mod Restart
mod Tests
use skupper_docker.Base.{
  ℕ, String, ◌<>◌, Bool, true, false, ◌&&◌, not, Option, none, some, List, [], ◌∷◌, ◌++◌, ◌==◌,
  if◌then◌else◌,
}
use skupper_docker.Base.Int.{itoa}
use skupper_docker.Base.Text.{split_at, colon}
use skupper_docker.Base.Dict.{Dict}
use skupper_docker.Base.Exec.{Result, ok, err, Exec, pure, attempt, ◌>>=◌, ◌>>◌}
use skupper_docker.Errors.{Error}
use skupper_docker.Types.{
  ServiceInterface, ServiceInterfaceTarget, DeploymentSpec, certs_path, get_skupper_path,
  host_service_selector, transport_deployment_name, controller_deployment_name,
  transport_network_name, default_transport_image,
}
use skupper_docker.Docker.{set_env_var}
use skupper_docker.Docker.Api.{Mount, ContainerJson, HealthConfig, ContainerCreateConfig}
use skupper_docker.Docker.Daemon.{Daemon}

-- a configuration of which no field is given
abbrev pub no_config : ContainerCreateConfig
no_config = record {
  name = "";
  hostname = "";
  image = "";
  cmd = [];
  env = [];
  labels = [];
  exposed_ports = [];
  healthcheck = none;
  mounts = [];
  privileged = false;
  network_mode = "";
  extra_hosts = [];
  port_bindings = [];
  endpoints = [];
}

unfoldable pub get_labels : (ServiceInterface → String) → ServiceInterface → Bool → Dict String
get_labels encode service is_local =
    ("skupper.io/application", "skupper-proxy")
    ∷ ("skupper.io/address", service.address)
    ∷ ("skupper.io/target", "")
    ∷ ("skupper.io/targetType", if is_local then "host" else "container")
    ∷ ("skupper.io/component", "proxy")
    ∷ ("internal.skupper.io/type", "proxy")
    ∷ ("internal.skupper.io/service", service.address)
    ∷ ("skupper.io/origin", service.origin)
    ∷ ("skupper.io/last-applied", encode service)
    ∷ []

-- the value of a variable of the environment, or a default if it has none
abbrev pub or_default : String → String → String
or_default value default = if value == "" then default else value

abbrev pub proxy_env : (String → String) → String → List String
proxy_env getenv qdr_config =
    getenv "SKUPPER_TMPDIR"
    ∷ ("QDROUTERD_CONF=" <> qdr_config)
    ∷ "QDROUTERD_CONF_TYPE=json"
    ∷ "NAMESPACE=skupper"
    ∷ (if getenv "PN_TRACE_FRM" == "" then [] else "PN_TRACE_FRM=1" ∷ [])

-- the line of a target that is a host service `name:address`, none for other targets
extra_host : String → String → String × Option String → List String
extra_host os host (name, none) = []
extra_host os host (name, some address) =
    (name <> ":" <> (if os == "linux" && address == "host-gateway" then host else address)) ∷ []

pub extra_hosts : String → String → List ServiceInterfaceTarget → List String
unfolding split_at extra_host
extra_hosts os host [] = []
extra_hosts os host (t ∷ ts) =
    (if t.selector == host_service_selector then extra_host os host (split_at colon t.name) else [])
    ++ extra_hosts os host ts

abbrev service_port : ServiceInterface → String
service_port service = itoa service.port <> "/" <> service.protocol

unfoldable pub get_proxy_container_create_config :
    (String → String)
    → (ServiceInterface → String)
    → ServiceInterface
    → String
    → Bool
    → String
    → ContainerCreateConfig
unfolding get_labels extra_hosts
get_proxy_container_create_config getenv encode service qdr_config map_to_host os =
    record no_config {
      name = service.address;
      hostname = service.address;
      image = or_default (getenv "QDROUTERD_IMAGE") default_transport_image;
      env = proxy_env getenv qdr_config;
      labels = get_labels encode service true;
      exposed_ports = if map_to_host then service_port service ∷ [] else [];
      mounts =
          (record {
            kind = "bind";
            source = get_skupper_path (getenv "SKUPPER_TMPDIR") certs_path <> "/skupper-internal";
            target = "/etc/qpid-dispatch-certs/skupper-internal/";
          })
          ∷ [];
      privileged = true;
      network_mode = "skupper-network";
      extra_hosts =
          extra_hosts os (or_default (getenv "SKUPPER_HOST") "172.17.0.1") service.targets;
      port_bindings =
          if map_to_host then (service_port service, itoa service.port ∷ []) ∷ [] else [];
      endpoints = transport_network_name ∷ [];
    }

bind_mounts : Dict String → List Mount
bind_mounts [] = []
bind_mounts ((source, target) ∷ mounts) =
    record { kind = "bind"; source = source; target = target } ∷ bind_mounts mounts

abbrev transport_health : HealthConfig
transport_health = record {
  test = "curl --fail -s http://localhost:9090/healthz || exit 1" ∷ [];
  start_period = 60;
}

unfoldable pub get_transport_container_create_config : DeploymentSpec → ContainerCreateConfig
unfolding bind_mounts
get_transport_container_create_config transport = record no_config {
  name = transport_deployment_name;
  hostname = transport_deployment_name;
  image = transport.image;
  env = transport.env_var;
  healthcheck = some transport_health;
  labels = transport.labels;
  exposed_ports = transport.ports;
  mounts = bind_mounts transport.mounts;
  privileged = true;
  endpoints = transport_network_name ∷ [];
}

unfoldable pub get_controller_container_create_config : DeploymentSpec → ContainerCreateConfig
unfolding bind_mounts
get_controller_container_create_config controller = record no_config {
  name = controller_deployment_name;
  hostname = controller_deployment_name;
  image = controller.image;
  cmd = "/app/controller" ∷ [];
  env = controller.env_var;
  labels = controller.labels;
  mounts = bind_mounts controller.mounts;
  privileged = true;
  endpoints = transport_network_name ∷ [];
}

-- The configuration with which the transport container is created again.
pub restarted_transport : ContainerJson → ContainerCreateConfig
restarted_transport current = record no_config {
  name = "skupper-router";
  hostname = current.hostname;
  image = current.image;
  healthcheck = some transport_health;
  labels = current.labels;
  exposed_ports = current.exposed_ports;
  env = current.env;
  mounts = current.mounts;
  privileged = true;
  endpoints = transport_network_name ∷ [];
}

-- The configuration with which the controller container is created again.
pub restarted_controller : ContainerJson → ContainerCreateConfig
unfolding set_env_var
restarted_controller current = record no_config {
  name = controller_deployment_name;
  hostname = current.hostname;
  image = current.image;
  cmd = current.cmd;
  labels = current.labels;
  exposed_ports = current.exposed_ports;
  env = set_env_var current.env "SKUPPER_PROXY_CONTROLLER_RESTART" "true";
  mounts = current.mounts;
  privileged = true;
  endpoints = transport_network_name ∷ [];
}

module _ {D : Type 0} (dd : Daemon D) where
  abbrev pub inspect : String → Exec Error D ContainerJson
  inspect name d = (dd.inspect_container name d, d)

  abbrev server_os : Exec Error D String
  server_os d = (dd.server_os d, d)

  unfoldable pub new_proxy_container :
      (String → String)
      → (ServiceInterface → String)
      → ServiceInterface
      → String
      → Bool
      → Exec Error D ContainerCreateConfig
  unfolding get_proxy_container_create_config
  new_proxy_container getenv encode service qdr_config map_to_host = do
    os ← server_os
    let opts = get_proxy_container_create_config getenv encode service qdr_config map_to_host os
    dd.create_container opts
    pure opts

  unfoldable pub new_transport_container : DeploymentSpec → Exec Error D ContainerCreateConfig
  unfolding get_transport_container_create_config
  new_transport_container transport = do
    dd.create_container (get_transport_container_create_config transport)
    pure (get_transport_container_create_config transport)

  unfoldable pub new_controller_container : DeploymentSpec → Exec Error D ContainerCreateConfig
  unfolding get_controller_container_create_config
  new_controller_container controller = do
    dd.create_container (get_controller_container_create_config controller)
    pure (get_controller_container_create_config controller)

  -- What both restarts do once they know the new configuration: every error is only logged.
  pub recreate_container : String → ContainerCreateConfig → Exec Error D (Unit {0})
  recreate_container name opts = do
    attempt (dd.stop_container name)
    attempt (dd.remove_container name)
    attempt (dd.create_container opts)
    attempt (dd.start_container name)

  unfoldable pub restart_transport_container : Exec Error D (Unit {0})
  unfolding restarted_transport recreate_container
  restart_transport_container = do
    current ← inspect "skupper-router"
    recreate_container "skupper-router" (restarted_transport current)

  pub restart_controller_container : Exec Error D (Unit {0})
  unfolding restarted_controller recreate_container
  restart_controller_container = do
    current ← inspect controller_deployment_name
    recreate_container controller_deployment_name (restarted_controller current)

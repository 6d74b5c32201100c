-- ===== src/Docker/Containers/Tests.antt =====
-- Runs of the restarts on the simple daemon.
use skupper_docker.Base.{◌≡◌, refl, false, some, [], ◌∷◌, str_dec}
use skupper_docker.Base.Int.{pos}
use skupper_docker.Base.Dict
use skupper_docker.Base.Dict.{Dict}
use skupper_docker.Base.Exec.{ok}
use skupper_docker.Types.{DeploymentSpec, default_transport_image}
use skupper_docker.Docker.Api.{ContainerCreateConfig}
use skupper_docker.Docker.Daemon.{Held, run}
use skupper_docker.Docker.Containers.{
  get_transport_container_create_config, get_controller_container_create_config,
  restart_transport_container,
}
use skupper_docker.Docker.Containers.Restart.{restart_transport_container-config}
use skupper_docker.Docker.Simple.{
  simple_daemon, find_held, simple_daemon-IsHealthy, simple_daemon-Shows, with_image,
}

abbrev spec : DeploymentSpec
spec = record {
  image = default_transport_image;
  liveness_port = pos 9090;
  labels = ("application", "skupper-router") ∷ [];
  env_var = "QDROUTERD_CONF={}" ∷ [];
  ports = "5671/tcp" ∷ [];
  volumes = "certs" ∷ [];
  mounts = ("/certs", "/etc/certs") ∷ [];
}

abbrev transport : Held
transport = run (get_transport_container_create_config spec)

abbrev controller : Held
controller = record { config = get_controller_container_create_config spec; running = false }

abbrev site : Dict Held
site = ("skupper-router", transport) ∷ ("skupper-service-controller", controller) ∷ []

restart_transport_container-config_example :
    (new : ContainerCreateConfig) × ((restart_transport_container simple_daemon site).0 ≡ ok tt)
    × (find_held (restart_transport_container simple_daemon site).1 "skupper-router"
        ≡ some (run new))
    × (with_image new ≡ with_image (get_transport_container_create_config spec))
unfolding Dict.lookup str_dec
restart_transport_container-config_example =
    restart_transport_container-config simple_daemon-IsHealthy simple_daemon-Shows spec transport
      site "skupper-router" refl refl

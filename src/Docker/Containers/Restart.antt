-- ===== src/Docker/Containers/Restart.antt =====
-- The restarts of pkg/docker/containers.go on a daemon on which no fitting operation fails.
use skupper_docker.Base.{
  ◌≡◌, refl, String, Bool, true, false, not, ◌&&◌, Option, none, some, ◌==◌, if◌then◌else◌,
}
use skupper_docker.Base.Exec.{ok}
use skupper_docker.Types.{DeploymentSpec, transport_deployment_name, controller_deployment_name}
use skupper_docker.Docker.Api.{ContainerJson, ContainerCreateConfig}
use skupper_docker.Docker.Daemon.{
  Daemon, Held, IsHealthy, Shows, is_held, is_stopped, set_running, run,
}
use skupper_docker.Docker.Containers.{
  recreate_container, get_transport_container_create_config, restarted_transport,
  restarted_controller, restart_transport_container, restart_controller_container,
}

-- Stopped, removed, created and started: what is under the name of which the test holds
replaced :
    (held : Option Held) (same : Bool) (opts : ContainerCreateConfig)
    → (let stopped = if same then set_running false held else held in
        let removed = if same && is_stopped stopped then none else stopped in
        let created =
          if same && not (is_held removed)
          then some (record { config = opts; running = false })
          else removed in
        (if same then set_running true created else created))
      ≡ (if same then some (run opts) else held)
replaced none true opts = refl
replaced (some c) true opts = refl
replaced held false opts = refl

module _ {D : Type 0} {dd : Daemon D} {find : D → String → Option Held}
    (healthy : IsHealthy dd find) {shown : ContainerCreateConfig → ContainerCreateConfig}
    (shows : Shows dd find shown) where
  -- Whatever was there under the name, running or not, the new container runs in its place.
  find-recreate_container :
      (opts : ContainerCreateConfig) (d : D) (m : String)
      → find (recreate_container dd opts.name opts d).1 m
        ≡ (if m == opts.name then some (run opts) else find d m)
  unfolding recreate_container
  find-recreate_container opts d m =
      rw
        (
          healthy.creates.find_started, healthy.creates.find_created, healthy.find_removed,
          healthy.find_stopped,
        )
        (replaced (find d m) (m == opts.name) opts)

  restart_transport :
      (d : D) (j : ContainerJson) (m : String)
      → dd.inspect_container "skupper-router" d ≡ ok j
      → find (restart_transport_container dd d).1 m
        ≡ (if m == "skupper-router" then some (run (restarted_transport j)) else find d m)
  unfolding restart_transport_container
  restart_transport d j m h = rw h (find-recreate_container (restarted_transport j) d m)

  restart_controller :
      (d : D) (j : ContainerJson) (m : String)
      → dd.inspect_container controller_deployment_name d ≡ ok j
      → find (restart_controller_container dd d).1 m ≡ (
          if m == controller_deployment_name then some (run (restarted_controller j)) else find d m)
  unfolding restart_controller_container
  restart_controller d j m h = rw h (find-recreate_container (restarted_controller j) d m)

  -- The transport container that was created from a specification, running or not, runs after a
  -- restart, and an inspection shows the very configuration that it showed before, with what the
  -- image adds; no other container is touched.
  pub restart_transport_container-config :
      (transport : DeploymentSpec) (c : Held) (d : D) (m : String)
      → find d transport_deployment_name ≡ some c
      → c.config ≡ get_transport_container_create_config transport
      → (new : ContainerCreateConfig) × ((restart_transport_container dd d).0 ≡ ok tt)
        × (find (restart_transport_container dd d).1 m
            ≡ (if m == transport_deployment_name then some (run new) else find d m))
        × (shown new ≡ shown (get_transport_container_create_config transport))
  unfolding restart_transport_container restarted_transport get_transport_container_create_config
      recreate_container
  restart_transport_container-config transport c d m held made =
      let (j, e, host, image, env, labels, ports, mounts) =
        shows.told transport_deployment_name d c held in
      (
        restarted_transport j,
        rw e refl,
        restart_transport d j m e,
        rw (host, image, env, labels, ports, mounts, made)
            (shows.once (get_transport_container_create_config transport)),
      )

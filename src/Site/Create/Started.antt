-- ===== src/Site/Create/Started.antt =====
-- What `RouterCreate` of client/router_create.go brings up.
use skupper_docker.Base.{
  ◌≡◌, refl, ap, ◌∙◌, String, true, false, Option, some, [], ◌==◌, if◌then◌else◌, arith, str_dec,
  inl, inr,
}
use skupper_docker.Base.Exec.{
  Result, ok, err, Exec, is_ok, Result-cases, pure, wrap, wrap_result, ◌>>=◌, ◌>>◌, step-state,
  step-is_ok,
}
use skupper_docker.Errors.{Error}
use skupper_docker.Types.{
  SiteConfigSpec, transport_network_name, transport_deployment_name, controller_deployment_name,
}
use skupper_docker.Host.{definitions}
use skupper_docker.Docker.Api.{ContainerCreateConfig}
use skupper_docker.Docker.Daemon.{Daemon, Held, CanCreate, is_held, run}
use skupper_docker.Docker.Containers.{
  new_transport_container, new_controller_container, get_transport_container_create_config,
  get_controller_container_create_config,
}
use skupper_docker.Site.{RouterSpec, Surroundings, get_router_spec_from_opts}
use skupper_docker.Site.Files.{Files, World}
use skupper_docker.Site.Create.{
  console_options, make_host_directory, write, site_config_create, write_site, pull_images,
  start_transport, start_controller, start_site, create_site, router_create,
}

-- the files of a site that was just created
abbrev pub created_files : Surroundings → SiteConfigSpec → String → Files
created_files around options uid = record {
  writable = true;
  connections = some [];
  router_config = some (get_router_spec_from_opts around options uid).router_config;
  site_config = ok (record { spec = options; uid = uid });
  services = definitions [];
}

-- the containers that a site starts with
abbrev pub with_site : RouterSpec → (String → Option Held) → String → Option Held
with_site van before m =
    if m == controller_deployment_name
    then some (run (get_controller_container_create_config van.controller))
    else if m == transport_deployment_name
    then some (run (get_transport_container_create_config van.transport))
    else before m

-- A step succeeds, and what is found under each name afterwards.
abbrev Brings :
    {D : Type 0}
    → (D → String → Option Held)
    → Result Error (Unit {0}) × D
    → (String → Option Held)
    → Type 0
Brings find after expected = (is_ok after.0 ≡ true) × ((m : String) → find after.1 m ≡ expected m)

is_ok-wrap_result :
    (f : Error → Error) (r : Result Error (Unit {0})) → is_ok (wrap_result f r) ≡ is_ok r
is_ok-wrap_result f (ok a) = refl
is_ok-wrap_result f (err e) = refl

-- two steps of which the second follows on the first
step-Brings :
    {D : Type 0} (find : D → String → Option Held) (a b : Exec Error D (Unit {0})) (d : D)
    {first expected : String → Option Held}
    → Brings find (a d) first
    → Brings find (b (a d).1) expected
    → Brings find ((a >> b) d) expected
step-Brings find a b d (fine, _) (fine', found) = (
  step-is_ok a b d ∙ ground arith,
  λ (m : String). ap (λ e. find e m) (step-state a b d ∙ rw fine refl) ∙ found m,
)

module _ {D : Type 0} {dd : Daemon D} {find : D → String → Option Held}
    (can : CanCreate dd find) where
  started_anew :
      (c : ContainerCreateConfig) (wrapped : Error → Error) (d : D)
      → is_held (find d c.name) ≡ false
      → Brings find
          (((dd.create_container c >> pure c) >>= λ (o : ContainerCreateConfig).
              wrap wrapped (dd.start_container o.name))
            d)
          (λ m. if m == c.name then some (run c) else find d m)
  started_anew c wrapped d free =
      let d1 = (dd.create_container c d).1 in
      elim (Result-cases (dd.create_container c d).0) [
        | inl (u, e) ↦ rw e (
          is_ok-wrap_result wrapped (dd.start_container c.name d1).0
              ∙ ground (arith, can.started c.name d1, can.find_created c d c.name),
          λ (m : String). ground (arith, can.find_created c d m, can.find_started c.name d1 m),
        )
        | inr (x, e) ↦ ground (arith, can.created c d)
      ]

  start_transport-Brings :
      (van : RouterSpec) (d : D)
      → is_held (find d transport_deployment_name) ≡ false
      → Brings find (start_transport dd van d) (λ m.
        if m == transport_deployment_name
        then some (run (get_transport_container_create_config van.transport))
        else find d m)
  unfolding start_transport new_transport_container get_transport_container_create_config
  start_transport-Brings van d free =
      started_anew (get_transport_container_create_config van.transport) _ d free

  start_controller-Brings :
      (van : RouterSpec) (d : D)
      → is_held (find d controller_deployment_name) ≡ false
      → Brings find (start_controller dd van d) (λ m.
        if m == controller_deployment_name
        then some (run (get_controller_container_create_config van.controller))
        else find d m)
  unfolding start_controller new_controller_container get_controller_container_create_config
  start_controller-Brings van d free =
      started_anew (get_controller_container_create_config van.controller) _ d free

  start_site-Brings :
      (van : RouterSpec) (d : D)
      → is_ok (dd.create_network transport_network_name d).0 ≡ true
      → is_held (find d transport_deployment_name) ≡ false
      → is_held (find d controller_deployment_name) ≡ false
      → Brings find (start_site dd van d) (with_site van (find d))
  unfolding start_site str_dec
  start_site-Brings van d network free free' =
      let d1 = (dd.create_network transport_network_name d).1 in
      let same = can.find_network_created transport_network_name d in
      let transport =
        start_transport-Brings van d1 (ap is_held (same transport_deployment_name) ∙ free) in
      let d2 = (start_transport dd van d1).1 in
      let controller = start_controller-Brings van d2 (
        ap is_held (transport.1 controller_deployment_name ∙ same controller_deployment_name)
        ∙ free') in
      step-Brings find (dd.create_network transport_network_name)
        (start_transport dd van >> start_controller dd van) d (network, same)
        (step-Brings find (start_transport dd van) (start_controller dd van) d1 transport
          (controller.0, λ (m : String). controller.1 m ∙ ground (arith, transport.1 m, same m)))

  pull_images-Brings : (van : RouterSpec) (d : D) → Brings find (pull_images dd van d) (find d)
  unfolding pull_images
  pull_images-Brings van d =
      let first = dd.pull_image van.transport.image in
      let second = dd.pull_image van.controller.image in
      let d1 = (first d).1 in
      step-Brings find first second d
        (can.pulled van.transport.image d, can.find_pulled van.transport.image d)
        (
          can.pulled van.controller.image d1,
          λ (m : String).
              can.find_pulled van.controller.image d1 m ∙ can.find_pulled van.transport.image d m,
        )

  -- With acceptable options, on a file system that can be written and a daemon on which images are
  -- pulled, containers are created under free names and started, where the network can be made and
  -- the names of the router and of the controller are free: `RouterCreate` succeeds. The site then
  -- has no definitions and no connections, its own configuration and that of its router; both
  -- containers run as planned, and every other container is as before.
  pub router_create_succeeds :
      (around : Surroundings) (uid random : String) (given options : SiteConfigSpec) (w : World D)
      → console_options random given ≡ ok options
      → w.files.writable ≡ true
      → is_ok
          (dd.create_network transport_network_name
            (pull_images dd (get_router_spec_from_opts around options uid) w.daemon).1).0
        ≡ true
      → is_held (find w.daemon transport_deployment_name) ≡ false
      → is_held (find w.daemon controller_deployment_name) ≡ false
      → (is_ok (router_create dd around uid random given w).0 ≡ true)
        × ((router_create dd around uid random given w).1.files ≡ created_files around options uid)
        × ((m : String)
            → find (router_create dd around uid random given w).1.daemon m
              ≡ with_site (get_router_spec_from_opts around options uid) (find w.daemon) m)
  unfolding router_create create_site make_host_directory site_config_create write_site write
  router_create_succeeds around uid random given options w accepted writes network free free' =
      let van = get_router_spec_from_opts around options uid in
      let pulled = pull_images-Brings van w.daemon in
      let d1 = (pull_images dd van w.daemon).1 in
      let started =
        start_site-Brings van d1 network (ap is_held (pulled.1 transport_deployment_name) ∙ free)
          (ap is_held (pulled.1 controller_deployment_name) ∙ free') in
      elim (Result-cases (pull_images dd van w.daemon).0) [
        | inl (u, e) ↦
            rw (accepted, writes, e)
              (started.0, refl, λ (m : String). started.1 m ∙ ground (arith, pulled.1 m))
        | inr (x, e) ↦ ground arith
      ]

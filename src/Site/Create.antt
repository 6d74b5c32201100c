-- ===== src/Site/Create.antt =====
-- `RouterCreate` of client/router_create.go and `SiteConfigCreate` of client/site_config_create.go. A
-- random password and a new UUID are arguments. The certificates, whose errors the code passes over, are
-- in Site/Certificates; the two files of the console are not modelled.
pub mod Started
use skupper_docker.Base.{String, Bool, true, false, not, ◌||◌, none, some, [], ◌==◌, if◌then◌else◌}
use skupper_docker.Base.Exec.{Result, ok, err, Exec, lift, wrap, ◌>>=◌, ◌>>◌}
use skupper_docker.Errors.{
  Error, not_writable, no_such_file, console_user_unused, console_password_unused,
  transport_not_started, controller_not_started,
}
use skupper_docker.Types.{SiteConfigSpec, SiteConfig, transport_network_name}
use skupper_docker.Host.{absent, definitions}
use skupper_docker.Docker.Api.{ContainerCreateConfig}
use skupper_docker.Docker.Daemon.{Daemon}
use skupper_docker.Docker.Networks.{new_transport_network}
use skupper_docker.Docker.Containers.{or_default, new_transport_container, new_controller_container}
use skupper_docker.Site.{RouterSpec, Surroundings, get_router_spec_from_opts}
use skupper_docker.Site.Files.{Files, World, on_daemon}

-- what the options for the console become, for a random password
unfoldable pub console_options : String → SiteConfigSpec → Result Error SiteConfigSpec
console_options random options =
    if options.enable_console
    then (if options.auth_mode == "internal" || options.auth_mode == ""
        then ok (record options {
          auth_mode = "internal";
          user = or_default options.user "admin";
          password = or_default options.password random;
        })
        else if not (options.user == "")
        then err console_user_unused
        else if not (options.password == "")
        then err console_password_unused
        else ok options)
    else ok options

-- a site directory with nothing in it but the directory of the configurations of sites
abbrev pub empty_files : Files
empty_files = record {
  writable = true;
  connections = none;
  router_config = none;
  site_config = err (no_such_file "sites/skupper0.json");
  services = absent;
}

module _ {D : Type 0} (dd : Daemon D) where
  -- the directory is removed, whether or not that succeeds, and made anew
  make_host_directory : Exec Error (World D) (Unit {0})
  make_host_directory w =
      if w.files.writable
      then (ok tt, record w { files = empty_files })
      else (err (not_writable "skupper"), w)

  -- a change of the files by writing
  write : (Files → Files) → Exec Error (World D) (Unit {0})
  write change w =
      if w.files.writable
      then (ok tt, record w { files = change w.files })
      else (err (not_writable "skupper"), w)

  site_config_create : SiteConfigSpec → String → Exec Error (World D) (Unit {0})
  unfolding write
  site_config_create spec uid =
      write (λ (f : Files). record f { site_config = ok (record { spec = spec; uid = uid }) })

  -- the directories of the mounts, the volumes and the definitions, and the files in them
  write_site : RouterSpec → Exec Error (World D) (Unit {0})
  unfolding write
  write_site van = do
    write (λ (f : Files). record f { connections = some [] })
    write (λ (f : Files). record f { services = definitions [] })
    write (λ (f : Files). record f { router_config = some van.router_config })

  pub pull_images : RouterSpec → Exec Error D (Unit {0})
  pull_images van = do dd.pull_image van.transport.image; dd.pull_image van.controller.image

  start_transport : RouterSpec → Exec Error D (Unit {0})
  unfolding new_transport_container
  start_transport van = do
    transport ← new_transport_container dd van.transport
    wrap transport_not_started (dd.start_container transport.name)

  start_controller : RouterSpec → Exec Error D (Unit {0})
  unfolding new_controller_container
  start_controller van = do
    controller ← new_controller_container dd van.controller
    wrap controller_not_started (dd.start_container controller.name)

  start_site : RouterSpec → Exec Error D (Unit {0})
  unfolding start_transport start_controller new_transport_network
  start_site van = do
    new_transport_network dd transport_network_name
    start_transport van
    start_controller van

  create_site : Surroundings → String → SiteConfigSpec → Exec Error (World D) (Unit {0})
  unfolding make_host_directory site_config_create get_router_spec_from_opts pull_images write_site
      start_site
  create_site around uid options = do
    make_host_directory
    site_config_create options uid
    on_daemon (pull_images (get_router_spec_from_opts around options uid))
    write_site (get_router_spec_from_opts around options uid)
    on_daemon (start_site (get_router_spec_from_opts around options uid))

  unfoldable pub router_create :
      Surroundings → (uid random : String) → SiteConfigSpec → Exec Error (World D) (Unit {0})
  unfolding console_options create_site
  router_create around uid random given = do
    options ← lift (console_options random given)
    create_site around uid options

-- ===== src/Site/Remove/Tests.antt =====
-- A site is removed, at a concrete input.
use skupper_docker.Base.{◌≡◌, refl, String, true, false, none, [], ◌∷◌, if◌then◌else◌}
use skupper_docker.Base.{str_dec}
use skupper_docker.Base.Dict
use skupper_docker.Base.Int.{pos}
use skupper_docker.Base.Exec.{is_ok}
use skupper_docker.Types.{SiteConfigSpec}
use skupper_docker.Docker.Daemon.{Held, run}
use skupper_docker.Site.{Surroundings}
use skupper_docker.Site.Create.{console_options, router_create}
use skupper_docker.Site.Remove.Recreate.{router_remove-router_create}
use skupper_docker.Docker.Containers.{no_config}
use skupper_docker.Docker.Machine.{
  Machine, machine, find_machine, members_of, machine-CanCreate, machine-CanRemove,
  machine-HasNetworks,
}
use skupper_docker.Site.Files.{World}
use skupper_docker.Site.Create.{empty_files}
use skupper_docker.Site.Remove.{router_remove}
use skupper_docker.Site.Remove.Gone.{is_of_site, router_remove_lem}

abbrev named : String → String → Held
named name component =
    run (record no_config { name = name; labels = ("skupper.io/component", component) ∷ [] })

-- a site with a proxy, and a container of somebody else
abbrev site : World Machine
site = record {
  files = empty_files;
  daemon = record {
    containers =
        ("skupper-router", named "skupper-router" "router")
        ∷ ("skupper-service-controller", named "skupper-service-controller" "controller")
        ∷ ("db", named "db" "proxy")
        ∷ ("web", named "web" "server")
        ∷ [];
    networks = ("skupper-network", "db" ∷ "web" ∷ []) ∷ [];
  };
}

router_remove_lem_example :
    ((router_remove machine site).0 ≡ [])
    × ((router_remove machine site).1.files ≡ empty_files)
    × (members_of (router_remove machine site).1.daemon "skupper-network" ≡ none)
    × ((m : String)
        → find_machine (router_remove machine site).1.daemon m ≡ (
            if is_of_site m (find_machine site.daemon m) then none else find_machine site.daemon m))
router_remove_lem_example = router_remove_lem machine-CanRemove machine-HasNetworks site refl

abbrev options : SiteConfigSpec
options = record {
  skupper_name = "east";
  skupper_namespace = "skupper";
  is_edge = false;
  enable_controller = true;
  enable_service_sync = true;
  enable_router_console = false;
  enable_console = false;
  auth_mode = "";
  user = "";
  password = "";
  map_to_host = false;
  replicas = pos 1;
  trace_log = false;
}

abbrev around : Surroundings
around = record { getenv = λ name. ""; info_name = "host"; skupper_host = "172.17.0.1" }

-- no site, and a container of somebody else
abbrev before : World Machine
before = record {
  files = empty_files;
  daemon = record { containers = ("web", named "web" "server") ∷ []; networks = [] };
}

router_remove-router_create_example :
    (let created = router_create machine around "id" "secret" options before in
      let removed = router_remove machine created.1 in
      (is_ok created.0 ≡ true)
      × (removed.0 ≡ [])
      × (removed.1.files ≡ empty_files)
      × (find_machine removed.1.daemon "web" ≡ find_machine before.daemon "web"))
unfolding console_options str_dec machine Dict.lookup
router_remove-router_create_example =
    router_remove-router_create machine-CanCreate machine-CanRemove machine-HasNetworks around "id"
      "secret" options options before "web" refl refl refl refl refl

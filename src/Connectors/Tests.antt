-- ===== src/Connectors/Tests.antt =====
-- Runs of the connectors at concrete inputs, on the simple daemon.
use skupper_docker.Base.{◌≡◌, refl, ◌==◌, String, true, false, some, [], ◌∷◌, any, str_dec}
use skupper_docker.Base.Int.{pos}
use skupper_docker.Base.Dict
use skupper_docker.Base.Dict.{Dict}
use skupper_docker.Base.Exec.{ok, is_ok}
use skupper_docker.Types.{SiteConfig, SiteConfigSpec}
use skupper_docker.Router.{Connector, RouterConfig, initial_config, is_edge}
use skupper_docker.Router.Document.{marshal_router_config}
use skupper_docker.Router.Edit.{initial_config-IsKeyed}
use skupper_docker.Docker.Daemon.{Held, run}
use skupper_docker.Docker.Containers.{no_config}
use skupper_docker.Docker.Simple.{simple_daemon}
use skupper_docker.Host.{definitions}
use skupper_docker.Site.Files.{Files, World}
use skupper_docker.Connectors.{connector_create, connector_remove, with_connector, secret_files}
use skupper_docker.Connectors.Store.{connector_create-tenth}
use skupper_docker.Connectors.Forget.{connector_remove-connector_create}
use skupper_docker.Router.Document.{elements_of}
use skupper_docker.Base.{◌&&◌}
use skupper_docker.Base.Int.{itoa}
use skupper_docker.Router.{Listener}
use skupper_docker.Docker.Api.{ContainerJson}
use skupper_docker.Docker.Daemon.{Daemon}
use skupper_docker.Site.Transport.{site_router_config}
use skupper_docker.Connectors.{connector_of}
use skupper_docker.Connectors.Token.{connector_token_create, token_annotations, connector_of-token}
use skupper_docker.Base.{◌<>◌}
use skupper_docker.Router.{connector_zero}
use skupper_docker.Network.{Connection, get_inter_router_or_edge_connection}
use skupper_docker.Connectors.Inspect.{
  connector_inspect, is_active, connector_inspect-with_connection,
}

abbrev options : SiteConfigSpec
options = record {
  skupper_name = "east";
  skupper_namespace = "skupper";
  is_edge = false;
  enable_controller = true;
  enable_service_sync = true;
  enable_router_console = false;
  enable_console = false;
  auth_mode = "";
  user = "";
  password = "";
  map_to_host = false;
  replicas = pos 1;
  trace_log = false;
}

abbrev secret : Dict String
secret =
    ("skupper.io/generated-by", "west")
    ∷ ("inter-router-host", "10.0.0.7")
    ∷ ("inter-router-port", "55671")
    ∷ []

abbrev site : SiteConfig
site = record { spec = options; uid = "east" }

abbrev config : RouterConfig
config = initial_config "router" "east" false

abbrev files : Files
files = record {
  writable = true;
  connections = some [];
  router_config = some (marshal_router_config config);
  site_config = ok site;
  services = definitions [];
}

abbrev containers : Dict Held
containers =
    ("skupper-router", run (record no_config { name = "skupper-router" }))
    ∷ ("skupper-service-controller", run (record no_config { name = "skupper-service-controller" }))
    ∷ []

abbrev world : World (Dict Held)
world = record { files = files; daemon = containers }

abbrev full : World (Dict Held)
full = record world {
  files = record files { connections = some (("conn9", []) ∷ ("conn10", []) ∷ []) };
}

connector_create-tenth_example :
    is_ok (connector_create simple_daemon (ok secret) "" (pos 1) full).0 ≡ false
unfolding str_dec Dict.lookup
connector_create-tenth_example =
    connector_create-tenth simple_daemon (ok secret) (pos 1) (("conn9", []) ∷ ("conn10", []) ∷ [])
      full refl refl refl

-- the site after the creation, with a daemon on which the router runs
abbrev between : World (Dict Held)
between = record {
  files = (connector_create simple_daemon (ok secret) "west" (pos 1) world).1.files;
  daemon = containers;
}

connector_remove-connector_create_example :
    (cs' : Dict (Dict String)) × (r' : RouterConfig) × ((connector_remove simple_daemon "west"
        between).1.files
      ≡ record files { connections = some cs'; router_config = some (marshal_router_config r') })
    × ((m : String)
        → (Dict.lookup m cs' ≡ Dict.lookup m [])
          × (Dict.lookup m r'.connectors ≡ Dict.lookup m config.connectors)
          × (Dict.lookup m r'.ssl_profiles ≡ Dict.lookup m config.ssl_profiles))
unfolding simple_daemon str_dec initial_config
connector_remove-connector_create_example =
    connector_remove-connector_create simple_daemon secret "west" "west" (pos 1) site [] config
      world between refl refl refl refl refl refl refl refl refl
      (initial_config-IsKeyed "router" "east" false) refl refl refl refl

-- the inspection of a router on the network
abbrev router : ContainerJson
router = record {
  id = "1";
  hostname = "skupper-router";
  image = "";
  cmd = [];
  status = "running";
  env = [];
  labels = [];
  exposed_ports = [];
  mounts = [];
  networks = ("skupper-network", "10.0.0.7") ∷ [];
}

abbrev networked : Daemon (Dict Held)
networked = record simple_daemon { inspect_container = λ name d. ok router }

connector_of-token_example :
    (connector_token_create networked (ok tt) world
      ≡ (ok (token_annotations "10.0.0.7" "east"), world))
    × ((connector_of false "east" (pos 1) (secret_files secret [])).host ≡ "10.0.0.7")
    × (any
          (λ (l : Listener).
            itoa l.port == (connector_of false "east" (pos 1) (secret_files secret [])).port
            && l.role == (connector_of false "east" (pos 1) (secret_files secret [])).role)
          (Dict.values (site_router_config "east" "east" options).listeners)
        ≡ true)
    × ((connector_of true "east" (pos 1) (secret_files secret [])).host ≡ "")
    × ((connector_of true "east" (pos 1) (secret_files secret [])).port ≡ "")
unfolding Dict.lookup str_dec is_edge initial_config
connector_of-token_example =
    connector_of-token networked router "10.0.0.7" config site world secret "east" (pos 1) options
      "east" "east" refl refl refl (initial_config-IsKeyed "router" "east" false) refl refl refl
      refl refl refl (refl, (refl, (refl, tt)))

-- an active connection to the other site
abbrev active : Connection
active = record {
  container = "west";
  oper_status = "up";
  host = "10.0.0.7:55671";
  role = "inter-router";
  active = true;
  dir = "out";
}

connector_inspect-with_connection_example :
    (c : Connector) × (Dict.lookup "west"
        (with_connector "west" (pos 1) (secret_files secret []) config).connectors
      ≡ some c)
    × (connector_inspect networked (ok (active ∷ [])) "west" between ≡ (
      ok tt,
      record {
        connector =
            some (record connector_zero {
              name = "west";
              host = c.host;
              port = c.port;
              role = c.role;
            });
        connected =
            is_active (get_inter_router_or_edge_connection (c.host <> ":" <> c.port) (active ∷ []));
      },
    ))
unfolding connector_create simple_daemon str_dec elements_of initial_config
connector_inspect-with_connection_example =
    connector_inspect-with_connection networked router "west" "10.0.0.7" "55671" (pos 1) secret []
      config (active ∷ []) files between refl (initial_config-IsKeyed "router" "east" false) refl
      refl refl

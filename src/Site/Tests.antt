-- ===== src/Site/Tests.antt =====
-- Runs of the plan of a site at concrete inputs.
use skupper_docker.Base.{
  ℕ, ◌≤◌, ◌<◌, ◌≡◌, ◌⊎◌, refl, String, true, false, none, some, [], ◌∷◌, leb, if◌then◌else◌,
}
use skupper_docker.Base.Int.{pos}
use skupper_docker.Types.{SiteConfigSpec, ServiceInterface}
use skupper_docker.Errors.{daemon}
use skupper_docker.Network.{no_sites}
use skupper_docker.Router.{Connector}
use skupper_docker.Router.Proxy.{proxy_config}
use skupper_docker.Site.Transport.{site_router_config}
use skupper_docker.Site.Uplink.{accepts, certifies, proxy_config-accepts}
use skupper_docker.Site.Inspect.{Query, HasFailed, connected, connected_lem}
use skupper_docker.Base.Dict.{Dict}
use skupper_docker.Base.Exec.{is_ok}
use skupper_docker.Docker.Daemon.{Held, run}
use skupper_docker.Docker.Containers.{no_config}
use skupper_docker.Docker.Simple.{simple_daemon, simple_daemon-CanCreate, find_held}
use skupper_docker.Site.{Surroundings, get_router_spec_from_opts}
use skupper_docker.Site.Files.{World}
use skupper_docker.Site.Create.{router_create, empty_files}
use skupper_docker.Site.Create.Started.{created_files, with_site, router_create_succeeds}
use skupper_docker.Site.Create.{console_options}
use skupper_docker.Base.{str_dec}
use skupper_docker.Site.{site_credentials}
use skupper_docker.Site.Certificates.{site_certificates}
use skupper_docker.Site.Certificates.Writes.{AreIssued}
use skupper_docker.Site.Certificates.Issued.{site_certificates-AreIssued}

abbrev options : SiteConfigSpec
options = record {
  skupper_name = "east";
  skupper_namespace = "skupper";
  is_edge = true;
  enable_controller = true;
  enable_service_sync = true;
  enable_router_console = true;
  enable_console = true;
  auth_mode = "internal";
  user = "";
  password = "";
  map_to_host = false;
  replicas = pos 1;
  trace_log = false;
}

abbrev db : ServiceInterface
db = record {
  address = "db";
  protocol = "tcp";
  port = pos 5432;
  event_channel = false;
  aggregate = "";
  headless = none;
  targets = [];
  origin = "";
  alias = "";
}

-- the router of an edge site takes no proxies
proxy_config-accepts_example :
    (c : Connector) × ((proxy_config db "id").connectors ≡ (c.name, c) ∷ [])
    × (accepts c (site_router_config "east" "id" options) ≡ false)
    × (certifies c options ≡ false)
proxy_config-accepts_example = proxy_config-accepts db "east" "id" options

-- a router that answers the third query
abbrev answers : Query
answers n = (no_sites, if leb n 1 then some (daemon "not ready") else none)

connected_lem_example :
    (k : ℕ) × (k ≤ 5)
    × (connected answers ≡ answers k)
    × (((answers k).1 ≡ none) ⊎ (k ≡ 5))
    × ((j : ℕ) → j < k → HasFailed (answers j))
connected_lem_example = connected_lem answers

third_answer : connected answers ≡ answers 2
unfolding connected
third_answer = refl

abbrev around : Surroundings
around = record { getenv = λ name. ""; info_name = "host"; skupper_host = "172.17.0.1" }

abbrev world : World (Dict Held)
world = record {
  files = empty_files;
  daemon = ("mysql", run (record no_config { name = "mysql" })) ∷ [];
}

-- the options of the site, with a user and a password
abbrev accepted : SiteConfigSpec
accepted = record options { user = "admin"; password = "secret" }

router_create_succeeds_example :
    (is_ok (router_create simple_daemon around "id" "secret" options world).0 ≡ true)
    × ((router_create simple_daemon around "id" "secret" options world).1.files
        ≡ created_files around accepted "id")
    × ((m : String)
        → find_held (router_create simple_daemon around "id" "secret" options world).1.daemon m
          ≡ with_site (get_router_spec_from_opts around accepted "id") (find_held world.daemon) m)
unfolding console_options str_dec simple_daemon
router_create_succeeds_example =
    router_create_succeeds simple_daemon-CanCreate around "id" "secret" options accepted world refl
      refl refl refl refl

-- certificates whose files tell what they were made from
abbrev authority_files : (name subject : String) → Dict String
authority_files name subject = ("tls.crt", name) ∷ []

abbrev signed_files : (name subject hosts : String) → Dict String → Dict String
signed_files name subject hosts ca = ("tls.crt", subject) ∷ ("hosts", hosts) ∷ ca

site_certificates-AreIssued_example :
    AreIssued authority_files signed_files
      (site_credentials options)
      (site_certificates authority_files signed_files options)
site_certificates-AreIssued_example =
    site_certificates-AreIssued authority_files signed_files options

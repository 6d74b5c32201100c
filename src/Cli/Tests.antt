-- ===== src/Cli/Tests.antt =====
-- Runs of the command line at concrete inputs.
use skupper_docker.Base.{
  ℕ, suc, ◌≡◌, refl, String, Bool, true, false, some, List, [], ◌∷◌, map, leb,
}
use skupper_docker.Base.Int.{pos, itoa}
use skupper_docker.Base.Text.{contains}
use skupper_docker.Base.Dict.{Dict}
use skupper_docker.Router.{RouterConfig, initial_config}
use skupper_docker.Router.Document.{marshal_router_config, elements_of}
use skupper_docker.Docker.Daemon.{Held, run as running}
use skupper_docker.Docker.Containers.{no_config}
use skupper_docker.Docker.Simple.{simple_daemon}
use skupper_docker.Network.{Connection, RouterNode, get_connected_sites}
use skupper_docker.Network.Laws.{count, is_direct, is_indirect}
use skupper_docker.Cli.Sites.{sites_text}
use skupper_docker.Cli.Status.{in_words, sites_text-get_connected_sites}
use skupper_docker.Site.Files.{World}
use skupper_docker.Site.Create.{empty_files}
use skupper_docker.Connectors.{connector_list}
use skupper_docker.Connectors.Inspect.{connector_inspect}
use skupper_docker.Cli.Services.{create_service_command}
use skupper_docker.Cli.Services.Forms.{create_service_command_forms}
use skupper_docker.Cli.Check.{
  check_connection, polled, is_connected, to_check, check_connection_lem,
}
use skupper_docker.Base.Exec.{Result, ok, err}
use skupper_docker.Errors.{Error, bad_target_kind, daemon}
use skupper_docker.Host.{Host, ContainerJson, definitions}
use skupper_docker.Cli.{expose_target_args, bind_args}
use skupper_docker.Base.{str_dec}

abbrev pg_args : List String
pg_args = "container/pg" ∷ []

pg_args_pass : expose_target_args pg_args ≡ ok tt
unfolding expose_target_args str_dec
pg_args_pass = refl

db_pg_args_pass : bind_args ("db" ∷ pg_args) ≡ ok tt
unfolding bind_args str_dec
db_pg_args_pass = refl

-- A type and a name with a slash between them are taken for a host service by neither check.
host_service_slash : expose_target_args ("host-service/api" ∷ []) ≡ err bad_target_kind
unfolding expose_target_args str_dec
host_service_slash = refl

abbrev silent : String → Result Error ContainerJson
silent name = err (daemon name)

abbrev empty_host : Host
empty_host = record { inspect = silent; docker0 = []; services = definitions []; writable = true }

-- `service create db:5432` on an empty file
create_service_command_forms_example :
    create_service_command ("db:5432" ∷ []) "tcp" "" false empty_host
    ≡ create_service_command ("db" ∷ "5432" ∷ []) "tcp" "" false empty_host
unfolding contains
create_service_command_forms_example =
    create_service_command_forms "db" "5432" "tcp" "" false empty_host refl refl

abbrev config : RouterConfig
config = initial_config "router" "east" false

-- a site with one connection
abbrev connected_site : World (Dict Held)
connected_site = record {
  files = record empty_files {
    connections =
        some
          (("west", ("inter-router-host", "10.0.0.7") ∷ ("inter-router-port", "55671") ∷ []) ∷ []);
    router_config = some (marshal_router_config config);
  };
  daemon = ("skupper-router", running (record no_config { name = "skupper-router" })) ∷ [];
}

abbrev west : (active : Bool) → Connection
west active = record {
  container = "west";
  oper_status = "up";
  host = "10.0.0.7:55671";
  role = "inter-router";
  active = active;
  dir = "out";
}

-- the connection becomes active in the third inspection
abbrev told : ℕ → String → Result Error (List Connection)
told i name = ok (west (leb 2 i) ∷ [])

check_connection_lem_example :
    check_connection simple_daemon told "all" (pos 3) connected_site
    ≡ map
        (polled (λ (i : ℕ). is_connected simple_daemon told connected_site (suc i)) 3 0)
        (to_check simple_daemon told "all" connected_site)
check_connection_lem_example = check_connection_lem simple_daemon told "all" (pos 3) connected_site

-- a second is too short, two are enough
checked_late :
    check_connection simple_daemon told "all" (pos 1) connected_site
    ≡ record { name = "west"; connected = false } ∷ []
unfolding check_connection simple_daemon str_dec initial_config connector_list connector_inspect
    marshal_router_config elements_of
checked_late = refl

checked_in_time :
    check_connection simple_daemon told "all" (pos 2) connected_site
    ≡ record { name = "west"; connected = true } ∷ []
unfolding check_connection simple_daemon str_dec initial_config connector_list connector_inspect
    marshal_router_config elements_of
checked_in_time = refl

-- three sites, one of them behind another
abbrev nodes : List RouterNode
nodes =
    record { id = "a"; name = "a"; next_hop = "(self)" }
    ∷ record { id = "b"; name = "b"; next_hop = "" }
    ∷ record { id = "c"; name = "c"; next_hop = "b" }
    ∷ []

sites_text-get_connected_sites_example :
    sites_text (get_connected_sites (ok nodes)).0
    ≡ in_words (count is_direct nodes) (count is_indirect nodes)
sites_text-get_connected_sites_example = sites_text-get_connected_sites nodes

two_sites :
    sites_text (get_connected_sites (ok nodes)).0
    ≡ " It is connected to 2 other sites (1 indirectly)."
unfolding sites_text get_connected_sites str_dec itoa
two_sites = refl

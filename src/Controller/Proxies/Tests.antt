-- ===== src/Controller/Proxies/Tests.antt =====
-- Runs of the proxies of the controller on the simple daemon.
use mathlib.Core.List.{Permᴰ}
use skupper_docker.Base.{
  ◌≡◌, ◌≢◌, inl, inr, refl, String, true, false, none, [], ◌∷◌, str_dec, arith,
}
use skupper_docker.Base.Int.{pos}
use skupper_docker.Base.Dict
use skupper_docker.Base.Dict.{Dict}
use skupper_docker.Types.{ServiceInterface}
use skupper_docker.Router.Document.{Document}
use skupper_docker.Docker.Daemon.{Held, run, has_label}
use skupper_docker.Docker.Containers.{no_config}
use skupper_docker.Docker.Simple.{simple_daemon, find_held, simple_daemon-IsHealthy}
use skupper_docker.Host.{Host, definitions}
use skupper_docker.Errors.{daemon}
use skupper_docker.Base.Exec.{ok, err}
use skupper_docker.Controller.{Controller, ServiceBindings, new_controller}
use skupper_docker.Controller.Sync.Updates.{Keyed}
use skupper_docker.Controller.Bindings.{process_service_defs, as_service_interface}
use skupper_docker.Controller.Bindings.Keyed.{AreKeyed, process_service_defs-AreKeyed}
use skupper_docker.Controller.Proxies.{update_proxies, process_service_defs_and_proxies}
use skupper_docker.Controller.Proxies.Ensure.{proxy_opts}
use skupper_docker.Controller.Proxies.Settled.{
  is_current, update_proxies-is_current, update_proxies-IsSettled,
}
use skupper_docker.Service.Validate.{validate_service_interface}
use skupper_docker.Service.Client.{service_interface_bind, service_interface_unbind}
use skupper_docker.Service.Client.Accepts.{bind_succeeds}
use skupper_docker.Controller.Proxies.Exposed.{is_running_proxy, exposed_then_unexposed}
use skupper_docker.Controller.Proxies.Process.{process_service_defs-proxies}
use skupper_docker.Base.Text.{strip_prefix}
use skupper_docker.Docker.Containers.{get_proxy_container_create_config}
use skupper_docker.Docker.{find_env_var}

abbrev getenv : String → String
getenv name = ""

abbrev encode : ServiceInterface → String
encode s = s.address

abbrev marshal : Document → String
marshal d = "{}"

abbrev db_bindings : ServiceBindings
db_bindings = record {
  origin = "";
  protocol = "tcp";
  address = "db";
  public_port = pos 5432;
  ingress_port = pos 5432;
  aggregation = "";
  event_channel = false;
  headless = none;
  targets = [];
}

abbrev site : Controller
site = record (new_controller "a") { bindings = ("db", db_bindings) ∷ [] }

abbrev proxy : Held
proxy =
    run
      (record no_config { name = "old"; labels = ("skupper.io/application", "skupper-proxy") ∷ [] })

abbrev other : Held
other = run (record no_config { name = "mysql" })

abbrev containers : Dict Held
containers = ("old", proxy) ∷ ("mysql", other) ∷ []

site-AreKeyed : AreKeyed site.bindings
unfolding new_controller
site-AreKeyed = (refl, Dict.lookup-nil "db", tt)

update_proxies-is_current_example :
    is_current "{}"
      (find_held (update_proxies simple_daemon getenv encode marshal site containers) "db")
    ≡ true
unfolding Dict.lookup str_dec strip_prefix
update_proxies-is_current_example =
    update_proxies-is_current simple_daemon-IsHealthy getenv encode marshal site db_bindings
      containers "db" site-AreKeyed refl refl refl (λ d. refl)

abbrev db_service : ServiceInterface
db_service = record {
  address = "db";
  protocol = "tcp";
  port = pos 5432;
  event_channel = false;
  aggregate = "";
  headless = none;
  targets = [];
  origin = "";
  alias = "";
}

-- bindings with one target, a container
abbrev bound_bindings : ServiceBindings
bound_bindings = record db_bindings {
  targets =
      (
        "mysql",
        record {
          name = "mysql";
          selector = "internal.skupper.io/container";
          service = "";
          egress_port = pos 3306;
        },
      )
      ∷ [];
}

abbrev bound_site : Controller
bound_site = record (new_controller "a") { bindings = ("db", bound_bindings) ∷ [] }

abbrev settled : Dict Held
settled =
    (
      "db",
      run (
          proxy_opts simple_daemon-IsHealthy getenv encode marshal
            (as_service_interface bound_bindings) "{}"),
    )
    ∷ ("mysql", other)
    ∷ []

settled_bound :
    (m : String)
    → has_label "skupper.io/application" (find_held settled m) ≡ true
    → Dict.member m bound_site.bindings ≡ true
unfolding Dict.lookup new_controller str_dec
settled_bound m h = ground arith

update_proxies-IsSettled_example :
    update_proxies simple_daemon getenv encode marshal bound_site settled ≡ settled
unfolding simple_daemon str_dec get_proxy_container_create_config find_env_var strip_prefix
    as_service_interface
update_proxies-IsSettled_example =
    update_proxies-IsSettled simple_daemon-IsHealthy getenv encode marshal bound_site bound_site
      ("db" ∷ "mysql" ∷ []) settled refl ((refl, refl), tt) settled_bound refl
      (refl, refl, Permᴰ.cons refl Permᴰ.nil, tt) (tt, tt)

abbrev defs : Dict ServiceInterface
defs = ("db", db_service) ∷ []

abbrev host : Host
host = record {
  inspect = λ name. err (daemon name);
  docker0 = [];
  services = definitions defs;
  writable = true;
}

defs-Keyed : Keyed defs
defs-Keyed = (refl, Dict.lookup-nil "db", tt)

process_service_defs-AreKeyed_example : AreKeyed (process_service_defs site host).bindings
process_service_defs-AreKeyed_example = process_service_defs-AreKeyed site host site-AreKeyed

process_service_defs-proxies_example :
    find_held
      (process_service_defs_and_proxies simple_daemon getenv encode marshal site host containers).1
      "old"
    ≡ none
unfolding Dict.lookup str_dec
process_service_defs-proxies_example =
    process_service_defs-proxies simple_daemon-IsHealthy getenv encode marshal site host defs
      containers "old" refl defs-Keyed site-AreKeyed

-- a daemon on which every container runs
abbrev up : Host
up = record host {
  inspect = λ name. ok (record {
    id = name;
    hostname = "";
    image = "";
    cmd = [];
    status = "running";
    env = [];
    labels = [];
    exposed_ports = [];
    mounts = [];
    networks = [];
  });
}

abbrev bound : Host
bound = (service_interface_bind db_service "container" "pg" "tcp" (pos 0) up).1

abbrev exposed : Controller × Dict Held
exposed = process_service_defs_and_proxies simple_daemon getenv encode marshal site bound containers

abbrev unbound : Host
unbound = (service_interface_unbind "container" "pg" "db" true bound).1

db_valid : validate_service_interface db_service ≡ ok tt
unfolding validate_service_interface str_dec
db_valid = refl

port_given : pos 5432 ≢ pos 0
port_given e = ground arith

db_binds : (service_interface_bind db_service "container" "pg" "tcp" (pos 0) up).0 ≡ ok tt
db_binds =
    bind_succeeds db_service "container" "pg" "tcp" (pos 0) up db_valid port_given (inr refl)
      (inl (refl, (_, refl))) (_, refl) (_, refl) refl

exposed_then_unexposed_example :
    (is_running_proxy (find_held exposed.1 "db") ≡ true)
    × (find_held
          (process_service_defs_and_proxies simple_daemon getenv encode marshal exposed.0 unbound
            exposed.1).1
          "db"
        ≡ none)
unfolding Dict.lookup str_dec
exposed_then_unexposed_example =
    exposed_then_unexposed simple_daemon-IsHealthy getenv encode marshal db_service "container" "pg"
      "tcp" (pos 0) site up containers (inl refl) refl db_binds defs-Keyed site-AreKeyed refl

-- ===== src/Controller/Tests.antt =====
-- Runs of the controller at concrete inputs.
use skupper_docker.Base.{
  ap, eq_self, ◌==◌, ◌≡◌, ◌≢◌, refl, String, true, false, none, some, [], ◌∷◌, str_dec,
}
use skupper_docker.Base.Int.{pos}
use skupper_docker.Base.Dict
use skupper_docker.Base.Dict.{Dict}
use skupper_docker.Base.Exec.{Result, ok, err}
use skupper_docker.Types.{ServiceInterface, ServiceInterfaceTarget, container_selector}
use skupper_docker.Errors.{Error, daemon}
use skupper_docker.Host.{Host, ContainerJson, definitions}
use skupper_docker.Service.Client.Operations.{definition_at}
use skupper_docker.Controller.{Controller, ServiceBindings, new_controller}
use skupper_docker.Controller.Sync.{
  sync_update, Message, Tables, services, receive, age, equivalent_service_definition,
  ensure_service_interface_definitions, is_remote, changed_definitions, deleted_names,
}
use skupper_docker.Controller.Sync.Updates.{Keyed, definition_at-ensure, ensure_keeps_others}
use skupper_docker.Controller.Sync.Ageing.{age_lem}
use skupper_docker.Controller.Sync.Exchange.{receive-sync_update}
use skupper_docker.Controller.Bindings.{process_service_defs, reconfigure}
use skupper_docker.Controller.Bindings.Targets.{port_at, port_at-reconfigure}
use skupper_docker.Controller.Bindings.Process.{process_service_defs-bindings}
use skupper_docker.Controller.Sync.{is_changed}
use skupper_docker.Controller.Sync.{is_aged}
use skupper_docker.Controller.Bindings.{get_target_port}

abbrev silent : String → Result Error ContainerJson
silent name = err (daemon name)

abbrev host_of : Dict ServiceInterface → Host
host_of m = record { inspect = silent; docker0 = []; services = definitions m; writable = true }

-- a service of site b and one of this site
abbrev api : ServiceInterface
api = record {
  address = "api";
  protocol = "http";
  port = pos 8080;
  event_channel = false;
  aggregate = "";
  headless = none;
  targets = [];
  origin = "b";
  alias = "";
}

abbrev db : ServiceInterface
db = record api { address = "db"; protocol = "tcp"; port = pos 5432; origin = "" }

abbrev both : Dict ServiceInterface
both = ("api", api) ∷ ("db", db) ∷ []

-- the controller of site a, that heard site b at second 100
abbrev site_a : Controller
site_a = record {
  origin = "a";
  bindings = [];
  by_origin = ("b", ("api", api) ∷ []) ∷ [];
  local_services = ("db", db) ∷ [];
  by_name = both;
  heard_from = ("b", 100) ∷ [];
}

abbrev moved : ServiceInterface
moved = record api { port = pos 9090 }

both-Keyed : Keyed both
unfolding Dict.lookup str_dec
both-Keyed = (refl, refl, (refl, refl, tt))

moved-Keyed : Keyed (("api", moved) ∷ [])
unfolding Dict.lookup
moved-Keyed = (refl, refl, tt)

definition_at-ensure_example :
    definition_at
      (ensure_service_interface_definitions 110 "b" (("api", moved) ∷ []) site_a (host_of both)).1
      "api"
    ≡ some moved
unfolding Dict.lookup str_dec is_changed equivalent_service_definition
definition_at-ensure_example =
    definition_at-ensure 110 "b" (("api", moved) ∷ []) site_a (host_of both) moved-Keyed (_, refl)
      refl "api"

abbrev stolen : ServiceInterface
stolen = record db { origin = "b" }

stolen-Keyed : Keyed (("db", stolen) ∷ [])
unfolding Dict.lookup
stolen-Keyed = (refl, refl, tt)

known_db : Dict.lookup "db" site_a.by_name ≡ some db
unfolding Dict.lookup str_dec
known_db = refl

not_from_b : db.origin ≢ "b"
not_from_b e = cc

unlisted_db : Dict.lookup "db" (("api", api) ∷ []) ≡ none
unfolding Dict.lookup str_dec
unlisted_db = refl

ensure_keeps_others_example :
    definition_at
      (ensure_service_interface_definitions 110 "b" (("db", stolen) ∷ []) site_a (host_of both)).1
      "db"
    ≡ definition_at (host_of both) "db"
unfolding Dict.lookup str_dec
ensure_keeps_others_example =
    ensure_keeps_others 110 "b" (("db", stolen) ∷ []) site_a (host_of both) stolen-Keyed "db" db
      known_db not_from_b unlisted_db

api-Keyed : Keyed (("api", api) ∷ [])
unfolding Dict.lookup
api-Keyed = (refl, refl, tt)

nothing_changed : changed_definitions "b" site_a.by_name (("api", api) ∷ []) ≡ []
unfolding changed_definitions is_changed Dict.lookup str_dec equivalent_service_definition
nothing_changed = refl

nothing_deleted : deleted_names (("api", api) ∷ []) (("api", api) ∷ []) ≡ []
unfolding deleted_names Dict.lookup str_dec
nothing_deleted = refl

abbrev own_message : Message
own_message = record {
  subject = "service-sync-update";
  origin = some "a";
  body = services (api ∷ []);
}

age_lem_example :
    (c' : Controller) × ((age 200 site_a (host_of both)).0 ≡ ok c')
    × (Dict.lookup "b" c'.by_origin ≡ none)
    × (Dict.lookup "b" c'.heard_from ≡ none)
    × (definition_at (age 200 site_a (host_of both)).1 "api" ≡ none)
unfolding Dict.lookup is_aged str_dec
age_lem_example = age_lem 200 site_a (host_of both) (_, refl) refl "b" "api"

abbrev no_tables : Tables
no_tables = record { by_origin = []; latest = []; by_name = [] }

found_api : Dict.lookup "api" both ≡ some api
unfolding Dict.lookup str_dec
found_api = refl

remote_b : is_remote api.origin ≡ true
unfolding str_dec
remote_b = refl

abbrev pg : ServiceInterfaceTarget
pg = record { name = "pg"; selector = container_selector; target_port = pos 0; service = "" }

abbrev stale : ServiceBindings
stale = record {
  origin = "";
  protocol = "tcp";
  address = "db";
  public_port = pos 1;
  ingress_port = pos 1;
  aggregation = "";
  event_channel = false;
  headless = none;
  targets =
      ("db@old", record { name = "old"; selector = ""; service = ""; egress_port = pos 1 }) ∷ [];
}

process_service_defs-bindings_example :
    Dict.lookup "db"
      (process_service_defs
        (record site_a { bindings = ("db", stale) ∷ [] })
        (host_of both)).bindings
    ≡ some (reconfigure db stale)
unfolding Dict.lookup str_dec
process_service_defs-bindings_example =
    process_service_defs-bindings (record site_a { bindings = ("db", stale) ∷ [] }) (host_of both)
      both "db" refl both-Keyed

port_at-reconfigure_example :
    port_at "db@pg" (reconfigure (record db { targets = pg ∷ [] }) stale).targets ≡ some (pos 5432)
unfolding str_dec get_target_port
port_at-reconfigure_example = port_at-reconfigure (record db { targets = pg ∷ [] }) stale "db@pg"

abbrev site_b : Controller
site_b = record (new_controller "b") { local_services = ("api", record api { origin = "" }) ∷ [] }

abbrev own_api : ServiceInterface
own_api = record api { origin = "" }

own_api-Keyed : Keyed (("api", own_api) ∷ [])
unfolding Dict.lookup
own_api-Keyed = (refl, refl, tt)

names_differ : ("b" == "a") ≡ false
unfolding str_dec
names_differ = refl

b_differs : site_b.origin ≢ "a"
unfolding new_controller
b_differs e = cc (names_differ, ap (λ (x : String). x == "a") e, eq_self "a")

found_own_api : Dict.lookup "api" site_b.local_services ≡ some own_api
unfolding Dict.lookup str_dec
found_own_api = refl

unknown_api : Dict.lookup "api" (new_controller "a").by_name ≡ none
unfolding Dict.lookup new_controller
unknown_api = refl

receive-sync_update_example :
    definition_at (receive 7 (sync_update site_b) (new_controller "a") (host_of [])).1 "api"
    ≡ some api
unfolding new_controller
receive-sync_update_example =
    receive-sync_update 7 site_b (new_controller "a") (host_of []) "api" own_api own_api-Keyed
      b_differs found_own_api unknown_api (_, refl) refl

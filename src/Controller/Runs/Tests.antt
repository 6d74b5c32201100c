-- ===== src/Controller/Runs/Tests.antt =====
-- Runs of a controller at concrete inputs.
use skupper_docker.Base.{
  ◌≡◌, ◌≢◌, refl, String, true, false, none, some, [], ◌∷◌, ◌==◌, str_dec, eq_self,
}
use skupper_docker.Base.Int.{pos}
use skupper_docker.Base.Dict
use skupper_docker.Base.Dict.{Dict}
use skupper_docker.Base.Exec.{Result, err}
use skupper_docker.Types.{ServiceInterface}
use skupper_docker.Errors.{Error, daemon}
use skupper_docker.Host.{Host, ContainerJson, definitions}
use skupper_docker.Service.Client.Operations.{definition_at}
use skupper_docker.Controller.Sync.{Message, services, receive, summary, is_remote, age}
use skupper_docker.Controller.Sync.Updates.{Keyed}
use skupper_docker.Controller.{Controller, new_controller}
use skupper_docker.Controller.Sync.{sync_update}
use skupper_docker.Controller.Sync.Exchange.{from_site}
use skupper_docker.Controller.Bindings.{process_service_defs}
use skupper_docker.Controller.Runs.Withdrawal.{announced_then_withdrawn}
use skupper_docker.Controller.Runs.{Node, Reach, here, next, message, started}
use skupper_docker.Controller.Runs.Own.{own_definition_survives}
use skupper_docker.Controller.Runs.Expiry.{age-started}

abbrev silent : String → Result Error ContainerJson
silent name = err (daemon name)

-- a service of this site, and one of site b
abbrev db : ServiceInterface
db = record {
  address = "db";
  protocol = "tcp";
  port = pos 5432;
  event_channel = false;
  aggregate = "";
  headless = none;
  targets = [];
  origin = "";
  alias = "";
}

abbrev api : ServiceInterface
api = record db { address = "api"; protocol = "http"; port = pos 8080; origin = "b" }

-- a service of site b, there
abbrev web : ServiceInterface
web = record db { address = "web" }

abbrev both : Dict ServiceInterface
both = ("api", api) ∷ ("db", db) ∷ []

abbrev host : Host
host = record { inspect = silent; docker0 = []; services = definitions both; writable = true }

both-Keyed : Keyed both
unfolding Dict.lookup str_dec
both-Keyed = (refl, refl, (refl, refl, tt))

held_db : definition_at host "db" ≡ some db
unfolding Dict.lookup str_dec
held_db = refl

found_api : Dict.lookup "api" both ≡ some api
unfolding Dict.lookup str_dec
found_api = refl

from_b : is_remote "b" ≡ true
unfolding str_dec
from_b = refl

b_is_not_a : ("b" == "a") ≡ false
unfolding str_dec
b_is_not_a = refl

b-ne-a : api.origin ≢ "a"
b-ne-a e = cc (b_is_not_a, eq_self "a")

-- site b announces a service of the name that this site has
abbrev theft : Message
theft = record {
  subject = "service-sync-update";
  origin = some "b";
  body = services (record db { port = pos 1 } ∷ []);
}

abbrev at_start : Node
at_start = started 100 "a" host

abbrev after_theft : Node
after_theft = record {
  controller = (receive 110 theft at_start.controller at_start.host).0;
  host = (receive 110 theft at_start.controller at_start.host).1;
}

theft_run : Reach "db" at_start after_theft
theft_run = next here (message 110 theft at_start from_b)

own_definition_survives_example :
    (definition_at after_theft.host "db" ≡ some db)
    × (Dict.lookup "db" after_theft.controller.local_services ≡ some (summary db))
unfolding str_dec
own_definition_survives_example =
    own_definition_survives "db" db refl 100 "a" host after_theft both-Keyed held_db theft_run

age-started_example : definition_at (age 160 (started 100 "a" host).controller host).1 "api" ≡ none
age-started_example =
    age-started "api" "a" api both both-Keyed found_api from_b b-ne-a 100 160 host refl refl

abbrev site_b : Controller
site_b = record (new_controller "b") { local_services = ("web", web) ∷ [] }

abbrev site_b_later : Controller
site_b_later = new_controller "b"

web-Keyed : Keyed (("web", web) ∷ [])
unfolding Dict.lookup
web-Keyed = (refl, refl, tt)

announced_then_withdrawn_example :
    (let (a1, h1) = receive 110 (sync_update site_b) (new_controller "a") host in
      let a2 = process_service_defs a1 h1 in
      (definition_at h1 "web" ≡ some (from_site "b" web))
      × (Dict.lookup "web" a2.local_services ≡ none)
      × (definition_at (receive 120 (sync_update site_b_later) a2 h1).1 "web" ≡ none))
unfolding new_controller Dict.lookup str_dec
announced_then_withdrawn_example =
    announced_then_withdrawn 110 120 site_b site_b_later (new_controller "a") host "web" web
      web-Keyed tt refl b-ne-a refl refl refl refl (_, refl) both-Keyed refl

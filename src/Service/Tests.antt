-- ===== src/Service/Tests.antt =====
-- Runs of the operations on services at concrete inputs.
use mathlib.Core.Option
use skupper_docker.Base.{
  ◌≡◌, ◌≢◌, inr, ◌↔◌, refl, inl, String, true, false, none, some, [], ◌∷◌, ◌==◌, arith, str_dec,
  if◌then◌else◌, any,
}
use skupper_docker.Base.Int.{pos}
use skupper_docker.Base.Dict
use skupper_docker.Base.Dict.{Dict}
use skupper_docker.Base.Exec.{Result, ok, err}
use skupper_docker.Types.{ServiceInterface, ServiceInterfaceTarget, container_selector}
use skupper_docker.Errors.{Error, nothing_to_unexpose}
use skupper_docker.Host.{Host, ContainerJson, definitions}
use skupper_docker.Service.Validate.{validate_service_interface}
use skupper_docker.Service.Validate.Laws.{IsValid, validate_iff}
use skupper_docker.Service.Targets.{
  docker_host, is_named, get_service_interface_target, remove_targets, container_target,
}
use skupper_docker.Service.Client.{
  service_interface_create, service_interface_update, service_interface_bind,
  service_interface_unbind, service_interface_remove, service_interface_inspect, bind_target,
  default_port, assign_ports, update_service_interface, current_services, save_services,
  remove_service_interface_target, unbind_definition,
}
use skupper_docker.Service.Client.Operations.{
  create, bind, remove, perform, perform_all, definition_at,
}
use skupper_docker.Service.Client.Accepts.{bind_succeeds}
use skupper_docker.Service.Client.Atomic.{perform_fails}
use skupper_docker.Service.Client.Stored.{update_adds_missing}
use skupper_docker.Service.Client.Bind.{IsBound, bind_stored}
use skupper_docker.Service.Client.Unbind.{entry_after, unbind_stored}
use skupper_docker.Service.Client.Roundtrip.{targets_of, unbind-bind}
use skupper_docker.Service.Client.Entries.{Sound}
use skupper_docker.Service.Client.Sound.{perform_all-Sound}
use skupper_docker.Service.Client.Ports.{bind_stores_bad_port}

-- a daemon on which every container runs
abbrev running : String → Result Error ContainerJson
running name = ok (record {
  id = name;
  hostname = "";
  image = "";
  cmd = [];
  status = "running";
  env = [];
  labels = [];
  exposed_ports = [];
  mounts = [];
  networks = [];
})

abbrev host_of : Dict ServiceInterface → Host
host_of m = record { inspect = running; docker0 = []; services = definitions m; writable = true }

abbrev pg : ServiceInterfaceTarget
pg = record { name = "pg"; selector = container_selector; target_port = pos 0; service = "" }

abbrev db : ServiceInterface
db = record {
  address = "db";
  protocol = "tcp";
  port = pos 5432;
  event_channel = false;
  aggregate = "";
  headless = none;
  targets = [];
  origin = "";
  alias = "";
}

abbrev bound_db : ServiceInterface
bound_db = record db { targets = pg ∷ [] }

abbrev host_db : Host
host_db = host_of (("db", db) ∷ [])

abbrev host_bound : Host
host_bound = host_of (("db", bound_db) ∷ [])

abbrev after_bind : Host
after_bind = (service_interface_bind db "container" "pg" "tcp" (pos 0) host_db).1

db_binds : (service_interface_bind db "container" "pg" "tcp" (pos 0) host_db).0 ≡ ok tt
unfolding service_interface_bind validate_service_interface str_dec get_service_interface_target
    container_target bind_target default_port assign_ports update_service_interface current_services
    save_services
db_binds = refl

unbind-bind_example :
    ((service_interface_unbind "container" "pg" "db" true after_bind).0 ≡ ok tt)
    × (Option.map targets_of
          (definition_at (service_interface_unbind "container" "pg" "db" true after_bind).1 "db")
        ≡ none)
unbind-bind_example =
    unbind-bind db "container" "pg" "tcp" (pos 0) true host_db (inl refl) refl refl db_binds

perform_all-Sound_example :
    Sound
      (perform_all
        (create db ∷ bind db "container" "pg" "tcp" (pos 5432) ∷ remove "other" ∷ [])
        (host_of [])).services
perform_all-Sound_example =
    perform_all-Sound (create db ∷ bind db "container" "pg" "tcp" (pos 5432) ∷ remove "other" ∷ [])
      (host_of []) (tt, (omega arith, (tt, tt))) tt

bind_stored_example :
    (b : ServiceInterface) × (t : ServiceInterfaceTarget) × IsBound db "container" "pg" host_db
      after_bind b t
bind_stored_example = bind_stored db "container" "pg" "tcp" (pos 0) host_db db_binds

db_unbinds : (service_interface_unbind "container" "pg" "db" true host_bound).0 ≡ ok tt
unfolding service_interface_unbind str_dec remove_service_interface_target current_services
    Dict.lookup unbind_definition remove_targets is_named save_services
db_unbinds = refl

unbind_stored_example :
    (s : ServiceInterface) × (definition_at host_bound "db" ≡ some s)
    × (any (is_named (docker_host host_bound) "db" "pg") s.targets ≡ true)
    × ((a : String)
        → definition_at (service_interface_unbind "container" "pg" "db" true host_bound).1 a ≡ (
            if a == "db"
            then entry_after "pg" "db" true host_bound s
            else definition_at host_bound a))
unbind_stored_example = unbind_stored "pg" "db" true "container" host_bound db_unbinds

is_pg : any (is_named (docker_host host_bound) "db" "pg") bound_db.targets ≡ true
unfolding is_named docker_host str_dec
is_pg = refl

validate_iff_example : (validate_service_interface db ≡ ok tt) ↔ IsValid db
validate_iff_example = validate_iff db

db_is_created : (service_interface_create db (host_of [])).0 ≡ ok tt
unfolding service_interface_create validate_service_interface str_dec update_service_interface
    current_services save_services
db_is_created = refl

remove_fails : (perform (remove "other") host_db).0 ≡ err nothing_to_unexpose
unfolding perform service_interface_remove current_services Dict.lookup str_dec
remove_fails = refl

perform_fails_example : (perform (remove "other") host_db).1 ≡ host_db
perform_fails_example = perform_fails (remove "other") host_db nothing_to_unexpose refl remove_fails

db_is_removed : (service_interface_remove "db" host_db).0 ≡ ok tt
unfolding service_interface_remove current_services Dict.lookup str_dec save_services
db_is_removed = refl

db_is_updated : (service_interface_update db host_bound).0 ≡ ok tt
unfolding service_interface_update service_interface_inspect validate_service_interface str_dec
    update_service_interface current_services save_services
db_is_updated = refl

db_is_valid : validate_service_interface db ≡ ok tt
unfolding validate_service_interface str_dec
db_is_valid = refl

update_adds_missing_example :
    ((service_interface_update db (host_of [])).0 ≡ ok tt)
    × (definition_at (service_interface_update db (host_of [])).1 "db" ≡ some db)
unfolding Dict.lookup
update_adds_missing_example =
    update_adds_missing db (host_of []) refl (_, refl) db_is_valid (_, refl) refl

abbrev web : ServiceInterface
web = record db { address = "web"; port = pos 0 }

web_is_valid : validate_service_interface web ≡ ok tt
unfolding validate_service_interface str_dec
web_is_valid = refl

bind_stores_bad_port_example :
    (b : ServiceInterface) × ((service_interface_bind web "host-service" "api" ""
        (pos 70000)
        (host_of [])).0
      ≡ ok tt)
    × (definition_at
          (service_interface_bind web "host-service" "api" "" (pos 70000) (host_of [])).1
          "web"
        ≡ some b)
    × (b.port ≡ pos 70000)
    × (validate_service_interface b ≢ ok tt)
bind_stores_bad_port_example =
    bind_stores_bad_port web "api" 70000 (host_of []) refl (omega arith) web_is_valid (_, refl)
      (_, refl) refl

has_port : db.port ≢ pos 0
has_port e = cc

bind_succeeds_example :
    (service_interface_bind db "host-service" "pg" "" (pos 5433) host_db).0 ≡ ok tt
bind_succeeds_example =
    bind_succeeds db "host-service" "pg" "" (pos 5433) host_db db_is_valid has_port (inl refl)
      (inr refl) (_, refl) (_, refl) refl

pg_is_found : (get_service_interface_target "container" "pg" false host_db).0 ≡ ok pg
unfolding get_service_interface_target str_dec container_target
pg_is_found = refl

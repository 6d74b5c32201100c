-- ===== src/Controller.antt =====
-- cmd/service-controller: the state that its goroutines share, and the file of definitions as the
-- controller reads and writes it.
pub mod Sync
pub mod Bindings
pub mod Proxies
pub mod Runs
mod Tests
use skupper_docker.Base.{
  ℕ, String, Bool, true, false, ◌&&◌, Option, none, some, List, [], ◌∷◌, ◌==◌, is_empty,
  if◌then◌else◌,
}
use skupper_docker.Base.Int.{ℤ}
use skupper_docker.Base.Dict
use skupper_docker.Base.Dict.{Dict}
use skupper_docker.Base.Exec.{Result, ok, err, Exec, lift, wrap, wrap_result, ◌>>=◌, ◌>>◌}
use skupper_docker.Types.{ServiceInterface, Headless}
use skupper_docker.Errors.{Error, services_not_read, services_not_decoded, services_not_written}
use skupper_docker.Host.{Host, read_services, decode_services, write_services}

-- `EgressBindings` of cmd/service-controller/bridges.go
pub record EgressBindings : Type 0 where
  pub name : String
  pub selector : String
  pub service : String
  pub egress_port : ℤ

-- `ServiceBindings` of cmd/service-controller/bridges.go
pub record ServiceBindings : Type 0 where
  pub origin : String
  pub protocol : String
  pub address : String
  pub public_port : ℤ
  pub ingress_port : ℤ
  pub aggregation : String
  pub event_channel : Bool
  pub headless : Option Headless
  pub targets : Dict EgressBindings

-- `Controller`, but for its connections; times are whole seconds.
pub record Controller : Type 0 where
  pub origin : String
  pub bindings : Dict ServiceBindings
  pub by_origin : Dict (Dict ServiceInterface)
  pub local_services : Dict ServiceInterface
  pub by_name : Dict ServiceInterface
  pub heard_from : Dict ℕ

-- `NewController`
pub new_controller : String → Controller
new_controller origin = record {
  origin = origin;
  bindings = [];
  by_origin = [];
  local_services = [];
  by_name = [];
  heard_from = [];
}

-- `getServiceDefinitions`
pub get_service_definitions : Exec Error Host (Dict ServiceInterface)
get_service_definitions = do
  file ← wrap services_not_read read_services
  lift (wrap_result services_not_decoded (decode_services file))

-- `for _, def := range changed { current[def.Address] = def }`
pub put_all : List ServiceInterface → Dict ServiceInterface → Dict ServiceInterface
put_all [] current = current
put_all (def ∷ changed) current = put_all changed (Dict.insert def.address def current)

-- `for _, name := range deleted { delete(current, name) }`
pub erase_all {ℓ} : {V : Type ℓ} → List String → Dict V → Dict V
erase_all [] current = current
erase_all (name ∷ deleted) current = erase_all deleted (Dict.erase name current)

-- `updateSkupperServices`
pub update_skupper_services : List ServiceInterface → List String → Exec Error Host (Unit {0})
update_skupper_services changed deleted h =
    if is_empty changed && is_empty deleted
    then (ok tt, h)
    else (do
      current ← get_service_definitions
      wrap services_not_written (write_services (erase_all deleted (put_all changed current))))
        h

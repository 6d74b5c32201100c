-- ===== src/Controller/Bindings.antt =====
-- cmd/service-controller/bridges.go: the bindings of each service to its targets, and the part of
-- `processServiceDefs` of cmd/service-controller/controller.go that keeps them.
pub mod Targets
pub mod Process
pub mod Keyed
use skupper_docker.Base.{
  String, ◌<>◌, Bool, true, false, ◌&&◌, ◌||◌, not, Option, none, some, List, [], ◌∷◌, ◌==◌,
  is_empty, if◌then◌else◌,
}
use skupper_docker.Base.Int.{ℤ, pos, ◌==ℤ◌}
use skupper_docker.Base.Dict
use skupper_docker.Base.Dict.{Dict}
use skupper_docker.Base.Exec.{Result, ok, err}
use skupper_docker.Types.{ServiceInterface, ServiceInterfaceTarget, Headless}
use skupper_docker.Errors.{Error}
use skupper_docker.Host.{Host}
use skupper_docker.Controller.{Controller, EgressBindings, ServiceBindings, get_service_definitions}
use skupper_docker.Controller.Sync.{service_sync_definitions_updated}

unfoldable get_bridge_name : String → String → String
get_bridge_name address host = if host == "" then address else address <> "@" <> host

-- the key of a target's egress bindings
abbrev pub target_key : String → String → String
target_key address name = address <> "@" <> name

as_target : EgressBindings → ServiceInterfaceTarget
as_target eb = record {
  name = eb.name;
  selector = eb.selector;
  target_port = eb.egress_port;
  service = eb.service;
}

as_targets : Dict EgressBindings → List ServiceInterfaceTarget
unfolding as_target
as_targets [] = []
as_targets ((_, eb) ∷ ebs) = as_target eb ∷ as_targets ebs

unfoldable pub as_service_interface : ServiceBindings → ServiceInterface
unfolding as_targets
as_service_interface bindings = record {
  address = bindings.address;
  protocol = bindings.protocol;
  port = bindings.public_port;
  event_channel = bindings.event_channel;
  aggregate = bindings.aggregation;
  headless = bindings.headless;
  targets = as_targets bindings.targets;
  origin = bindings.origin;
  alias = "";
}

unfoldable pub get_target_port : ServiceInterface → ServiceInterfaceTarget → ℤ
get_target_port service target =
    if target.target_port ==ℤ pos 0 then service.port else target.target_port

pub has_target_for_name : String → List ServiceInterfaceTarget → String → Bool
has_target_for_name address [] name = false
has_target_for_name address (t ∷ ts) name =
    target_key address t.name == name || has_target_for_name address ts name

unfoldable has_target_for_selector : List ServiceInterfaceTarget → String → Bool
has_target_for_selector [] selector = false
has_target_for_selector (t ∷ ts) selector =
    t.selector == selector || has_target_for_selector ts selector

unfoldable has_target_for_service : List ServiceInterfaceTarget → String → Bool
has_target_for_service [] service = false
has_target_for_service (t ∷ ts) service = t.service == service || has_target_for_service ts service

pub new_service_bindings :
    String → String → String → ℤ → Option Headless → ℤ → String → Bool → ServiceBindings
new_service_bindings origin protocol address public_port headless ingress_port aggregation
      event_channel =
    record {
      origin = origin;
      protocol = protocol;
      address = address;
      public_port = public_port;
      ingress_port = ingress_port;
      aggregation = aggregation;
      event_channel = event_channel;
      headless = headless;
      targets = [];
    }

-- `addTarget`: the new binding has no service name.
unfoldable pub add_target : String → String → String → ℤ → Dict EgressBindings → Dict EgressBindings
add_target address name selector port targets =
    Dict.insert (target_key address name)
      (record { name = name; selector = selector; service = ""; egress_port = port }) targets

unfoldable add_selector_target : String → String → ℤ → Dict EgressBindings → Dict EgressBindings
add_selector_target name selector port targets =
    Dict.insert selector
      (record { name = name; selector = selector; service = ""; egress_port = port }) targets

unfoldable remove_selector_target : String → Dict EgressBindings → Dict EgressBindings
remove_selector_target selector targets = Dict.erase selector targets

unfoldable add_service_target : String → String → ℤ → Dict EgressBindings → Dict EgressBindings
add_service_target name service port targets =
    Dict.insert service
      (record { name = name; selector = ""; service = service; egress_port = port }) targets

unfoldable remove_service_target : String → Dict EgressBindings → Dict EgressBindings
remove_service_target service targets = Dict.erase service targets

-- The targets of new bindings carry the ports as the definition has them.
unfoldable initial_targets :
    String → List ServiceInterfaceTarget → Dict EgressBindings → Dict EgressBindings
initial_targets address [] targets = targets
initial_targets address (t ∷ ts) targets = initial_targets address ts (
    Dict.insert (target_key address t.name)
      (record {
        name = t.name;
        selector = t.selector;
        service = t.service;
        egress_port = t.target_port;
      })
      targets)

-- One round of the loop over the required targets of bindings that are there.
pub ensure_target :
    ServiceInterface → ServiceInterfaceTarget → Dict EgressBindings → Dict EgressBindings
unfolding add_target
ensure_target required t targets = elim (Dict.lookup (target_key required.address t.name) targets) [
  | none ↦ add_target required.address t.name t.selector (get_target_port required t) targets
  | some target ↦
      if not (target.egress_port ==ℤ get_target_port required t)
      then Dict.insert (target_key required.address t.name)
          (record target { egress_port = get_target_port required t }) targets
      else targets
]

pub ensure_targets :
    ServiceInterface → List ServiceInterfaceTarget → Dict EgressBindings → Dict EgressBindings
ensure_targets required [] targets = targets
ensure_targets required (t ∷ ts) targets =
    ensure_targets required ts (ensure_target required t targets)

-- `for k, _ := range bindings.targets { if !hasTargetForName(required, k) { delete(…) } }`
pub prune_targets : ServiceInterface → Dict EgressBindings → Dict EgressBindings
prune_targets required [] = []
prune_targets required ((k, eb) ∷ targets) =
    let rest = prune_targets required targets in
    if has_target_for_name required.address required.targets k then (k, eb) ∷ rest else rest

-- Each `if a != b { a = b }` is an assignment. The headless part, the ingress port and the address
-- stay as they were first given.
pub reconfigure : ServiceInterface → ServiceBindings → ServiceBindings
reconfigure required bindings = record bindings {
  protocol = required.protocol;
  public_port = required.port;
  aggregation = required.aggregate;
  event_channel = required.event_channel;
  origin = required.origin;
  targets = prune_targets required (ensure_targets required required.targets bindings.targets);
}

pub fresh_bindings : ServiceInterface → ServiceBindings
unfolding new_service_bindings
fresh_bindings required =
    record (new_service_bindings required.origin required.protocol required.address required.port
      required.headless required.port required.aggregate required.event_channel) {
        targets = initial_targets required.address required.targets [];
      }

pub update_service_bindings : ServiceInterface → Dict ServiceBindings → Dict ServiceBindings
update_service_bindings required bindings = elim (Dict.lookup required.address bindings) [
  | none ↦ Dict.insert required.address (fresh_bindings required) bindings
  | some b ↦ Dict.insert required.address (reconfigure required b) bindings
]

pub update_all : Dict ServiceInterface → Dict ServiceBindings → Dict ServiceBindings
update_all [] bindings = bindings
update_all ((_, v) ∷ defs) bindings = update_all defs (update_service_bindings v bindings)

-- the loop that deletes the bindings whose address no definition has
pub prune_bindings : Dict ServiceInterface → Dict ServiceBindings → Dict ServiceBindings
prune_bindings defs [] = []
prune_bindings defs ((k, b) ∷ bindings) =
    let rest = prune_bindings defs bindings in if Dict.member k defs then (k, b) ∷ rest else rest

-- The bindings after a file of definitions was processed; with no definitions all go.
pub processed_bindings : Dict ServiceInterface → Dict ServiceBindings → Dict ServiceBindings
processed_bindings defs bindings =
    if not (is_empty defs) then prune_bindings defs (update_all defs bindings) else []

process_result : Result Error (Dict ServiceInterface) → Controller → Controller
process_result (err e) c = c
process_result (ok defs) c =
    let c' = service_sync_definitions_updated defs c in
    record c' { bindings = processed_bindings defs c'.bindings }

-- `processServiceDefs` up to its call of `updateProxies`.
unfoldable pub process_service_defs : Controller → Host → Controller
unfolding process_result
process_service_defs c h = process_result (get_service_definitions h).0 c

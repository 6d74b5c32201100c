-- ===== src/Service/Validate.antt =====
-- `validateServiceInterface` of client/serviceinterface_update.go.
pub mod Laws
use skupper_docker.Base.{String, Bool, true, false, not, ◌&&◌, ◌||◌, List, [], ◌∷◌, ◌==◌}
use skupper_docker.Base.{if◌then◌else◌}
use skupper_docker.Base.Int.{ℤ, is_below, is_above}
use skupper_docker.Base.Exec.{Result, ok, err}
use skupper_docker.Types.{ServiceInterface, ServiceInterfaceTarget}
use skupper_docker.Errors.{
  Error, bad_target_port, port_out_of_range, aggregate_and_event_channel, bad_aggregate,
  bad_mapping, aggregate_needs_http, event_channel_needs_http,
}

-- `port < 0 || 65535 < port`
abbrev out_of_range : ℤ → Bool
out_of_range port = is_below port 0 || is_above 65535 port

validate_targets : List ServiceInterfaceTarget → Result Error (Unit {0})
validate_targets [] = ok tt
validate_targets (t ∷ ts) =
    if out_of_range t.target_port
    then err (bad_target_port t.name t.target_port)
    else validate_targets ts

validate_options : ServiceInterface → Result Error (Unit {0})
validate_options s =
    if out_of_range s.port
    then err (port_out_of_range s.port)
    else if not (s.aggregate == "") && s.event_channel
    then err aggregate_and_event_channel
    else if not (s.aggregate == "")
        && (not (s.aggregate == "json") && not (s.aggregate == "multipart"))
    then err (bad_aggregate s.aggregate)
    else if not (s.protocol == "")
        && (not (s.protocol == "tcp")
            && (not (s.protocol == "http") && not (s.protocol == "http2")))
    then err (bad_mapping s.protocol)
    else if not (s.aggregate == "") && not (s.protocol == "http")
    then err aggregate_needs_http
    else if s.event_channel && not (s.protocol == "http")
    then err event_channel_needs_http
    else ok tt

abbrev and_then : Result Error (Unit {0}) → Result Error (Unit {0}) → Result Error (Unit {0})
and_then (ok u) r = r
and_then (err e) r = err e

unfoldable pub validate_service_interface : ServiceInterface → Result Error (Unit {0})
unfolding validate_targets validate_options
validate_service_interface s = and_then (validate_targets s.targets) (validate_options s)

-- ===== src/Cli.antt =====
-- cmd/skupper-docker/main.go: the checks of the arguments, and the commands that change services.
-- The flags and the usage texts belong to cobra; a command is given its arguments and the values of
-- its flags.
pub mod Arguments
pub mod Check
pub mod Services
pub mod Sites
pub mod Status
mod Tests
use skupper_docker.Base.{
  ℕ, String, Bool, true, false, ◌&&◌, ◌||◌, not, Option, none, some, List, [], ◌∷◌, ◌==◌,
  if◌then◌else◌,
}
use skupper_docker.Base.Int.{ℤ, pos}
use skupper_docker.Base.Text.{contains, split_at}
use skupper_docker.Base.Exec.{
  Result, ok, err, Exec, pure, fail, lift, wrap, wrap_result, refuse_if, ◌>>=◌, ◌>>◌,
}
use skupper_docker.Types.{ServiceInterface, ServiceInterfaceCreateOptions}
use skupper_docker.Errors.{
  Error, index_out_of_range, usage, illegal_argument, extra_argument, bad_target_kind, bad_protocol,
  address_required, protocol_mismatch, service_not_created, unknown_service,
}
use skupper_docker.Host.{Host}
use skupper_docker.Service.Client.{
  service_interface_inspect, service_interface_bind, service_interface_unbind,
  service_interface_remove,
}

abbrev pub slash : ℕ
slash = 47

-- `strings.Split(s, "/")[1]`: what stands between the first two separators
second_part : Option String → Result Error String
second_part none = err index_out_of_range
second_part (some rest) = ok (split_at slash rest).0

after_type : String → Result Error String → Result Error (String × String)
after_type type (ok name) = ok (type, name)
after_type type (err e) = err e

-- An index that is out of range is a panic.
pub parse_target_type_and_name : List String → Result Error (String × String)
unfolding contains split_at second_part after_type
parse_target_type_and_name [] = err index_out_of_range
parse_target_type_and_name (a ∷ b ∷ []) = ok (a, b)
parse_target_type_and_name (a ∷ []) =
    if contains a "container"
    then after_type (split_at slash a).0 (second_part (split_at slash a).1)
    else ok (a, "")
parse_target_type_and_name (a ∷ b ∷ c ∷ more) =
    if contains a "container"
    then after_type (split_at slash a).0 (second_part (split_at slash a).1)
    else ok (a, "")

-- `validExposeTargets`
abbrev pub is_expose_target : String → Bool
is_expose_target type = type == "container" || type == "host-service"

verify_type : Result Error (String × String) → Result Error (Unit {0})
verify_type (err e) = err e
verify_type (ok (type, name)) = if is_expose_target type then ok tt else err bad_target_kind

pub verify_target_type_from_args : List String → Result Error (Unit {0})
unfolding parse_target_type_and_name verify_type
verify_target_type_from_args args = verify_type (parse_target_type_and_name args)

pub expose_target_args : List String → Result Error (Unit {0})
unfolding verify_target_type_from_args
expose_target_args [] = err usage
expose_target_args (a ∷ []) =
    if not (contains a "/") then err usage else verify_target_type_from_args (a ∷ [])
expose_target_args (a ∷ b ∷ []) =
    if contains a "/" then err (extra_argument b) else verify_target_type_from_args (a ∷ b ∷ [])
expose_target_args (a ∷ b ∷ c ∷ more) = err (illegal_argument b)

pub create_service_args : List String → Result Error (Unit {0})
unfolding contains
create_service_args [] = err usage
create_service_args (a ∷ []) = if not (contains a ":") then err usage else ok tt
create_service_args (a ∷ b ∷ []) = if contains a ":" then err (extra_argument b) else ok tt
create_service_args (a ∷ b ∷ c ∷ more) = err (illegal_argument c)

pub bind_args : List String → Result Error (Unit {0})
unfolding verify_target_type_from_args
bind_args [] = err usage
bind_args (s ∷ []) = err usage
bind_args (s ∷ a ∷ []) =
    if not (contains a "/") then err usage else verify_target_type_from_args (a ∷ [])
bind_args (s ∷ a ∷ b ∷ []) =
    if contains a "/" then err (extra_argument b) else verify_target_type_from_args (a ∷ b ∷ [])
bind_args (s ∷ a ∷ b ∷ c ∷ more) = err (illegal_argument c)

-- the definition that `expose` binds to: what is stored, or a new one, without its origin
service_to_expose :
    ServiceInterfaceCreateOptions → Option ServiceInterface → Result Error ServiceInterface
service_to_expose options none = ok (record {
  address = options.address;
  protocol = options.protocol;
  port = options.port;
  event_channel = false;
  aggregate = "";
  headless = none;
  targets = [];
  origin = "";
  alias = "";
})
service_to_expose options (some service) =
    if not (options.protocol == "") && not (service.protocol == options.protocol)
    then err (protocol_mismatch options.protocol service.protocol)
    else ok (record service { origin = "" })

pub expose : String → String → ServiceInterfaceCreateOptions → Exec Error Host (Unit {0})
unfolding service_to_expose
expose target_type target_name options = do
  found ← service_interface_inspect options.address
  service ← lift (service_to_expose options found)
  wrap service_not_created
      (service_interface_bind service target_type target_name options.protocol options.target_port)

-- the address that is exposed: the flag's, or for a container its name
exposed_address : String → String → String → Result Error String
exposed_address target_type target_name address =
    if not (address == "")
    then ok address
    else if target_type == "host-service"
    then err address_required
    else ok target_name

-- `RunE` of the commands, behind the checks of their arguments
unfoldable expose_command : List String → ServiceInterfaceCreateOptions → Exec Error Host (Unit {0})
unfolding expose exposed_address
expose_command args options = do
  lift (expose_target_args args)
  target ← lift (parse_target_type_and_name args)
  address ← lift (exposed_address target.0 target.1 options.address)
  expose target.0 target.1 (record options { address = address })

unfoldable unexpose_command : List String → String → Exec Error Host (Unit {0})
unexpose_command args address = do
  lift (expose_target_args args)
  target ← lift (parse_target_type_and_name args)
  refuse_if (target.0 == "host-service" && address == "") address_required
  service_interface_unbind target.0 target.1 address true

required_service : String → Option ServiceInterface → Result Error ServiceInterface
required_service name none = err (unknown_service name)
required_service name (some service) = ok service

unfoldable bind_command : List String → String → ℤ → Exec Error Host (Unit {0})
unfolding required_service
bind_command [] protocol target_port = fail usage
bind_command (name ∷ args) protocol target_port = do
  lift (bind_args (name ∷ args))
  refuse_if
      (not (protocol == "")
        && (not (protocol == "tcp") && (not (protocol == "http") && not (protocol == "http2"))))
      (bad_protocol protocol)
  target ← lift (parse_target_type_and_name args)
  found ← service_interface_inspect name
  service ← lift (required_service name found)
  service_interface_bind service target.0 target.1 protocol target_port

unfoldable unbind_command : List String → Exec Error Host (Unit {0})
unbind_command [] = fail usage
unbind_command (name ∷ args) = do
  lift (bind_args (name ∷ args))
  target ← lift (parse_target_type_and_name args)
  service_interface_unbind target.0 target.1 name false

-- ===== src/Cli/Services.antt =====
-- The commands service create, service delete and list-exposed of cmd/skupper-docker/main.go.
pub mod Forms
use Prim.Native.Char.{code}
use text.Mathlib.TextLemmas.{nil-append, cons-append}
use skupper_docker.Base.{
  ℕ, suc, zero, ◌+◌, ◌-◌, ◌*◌, ◌≤◌, ◌<◌, ◌≡◌, refl, sym, ap, ◌∙◌, String, ◌<>◌, Bool, true, false,
  ◌&&◌, ◌||◌, not, Option, none, some, List, [], ◌∷◌, ◌++◌, ◌==◌, leb, nat_eq, is_empty, map, arith,
  Bool-cases, inl, inr, if◌then◌else◌,
}
use skupper_docker.Base.Int.{ℤ, pos, negsuc, itoa}
use skupper_docker.Base.Text.{contains, strip_prefix, split_at, colon}
use skupper_docker.Base.Exec.{Result, ok, err, Exec, pure, lift, wrap, fail, ◌>>=◌, ◌>>◌}
use skupper_docker.Types.{ServiceInterface, ServiceInterfaceTarget}
use skupper_docker.Errors.{Error, usage, bad_port, index_out_of_range, services_not_listed}
use skupper_docker.Host.{Host}
use skupper_docker.Service.Client.{
  service_interface_create, service_interface_remove, service_interface_list,
}
use skupper_docker.Cli
use skupper_docker.Cli.{create_service_args}

is_digit : ℕ → Bool
is_digit c = leb 48 c && leb c 57

-- the value of a text of digits behind others of the value `n`
digits : ℕ → String → Option ℕ
unfolding is_digit
digits n String.[] = some n
digits n (String.◌∷◌ c s) =
    let rest = digits (n * 10 + (code c - 48)) s in if is_digit (code c) then rest else none

-- at least one digit
number : String → Option ℕ
unfolding digits
number String.[] = none
number (String.◌∷◌ c s) = digits 0 (String.◌∷◌ c s)

-- the largest `int` of 64 bits
max_int : ℕ
max_int = 9223372036854775807

positive : Option ℕ → Option ℤ
unfolding max_int
positive none = none
positive (some n) = if leb n max_int then some (pos n) else none

negative : Option ℕ → Option ℤ
unfolding max_int
negative none = none
negative (some zero) = some (pos zero)
negative (some (suc n)) = if leb n max_int then some (negsuc n) else none

-- strconv.Atoi, where it returns no error
atoi : String → Option ℤ
unfolding number positive negative
atoi String.[] = none
atoi (String.◌∷◌ c s) =
    if nat_eq (code c) 45
    then negative (number s)
    else if nat_eq (code c) 43
    then positive (number s)
    else positive (number (String.◌∷◌ c s))

-- what stands between the first two colons
pub after_colon : Option String → Result Error String
after_colon none = err index_out_of_range
after_colon (some rest) = ok (split_at colon rest).0

unfoldable pub named : String → Result Error String → Result Error (String × String)
named address (ok port) = ok (address, port)
named address (err e) = err e

-- the address and the port that the arguments give
pub address_and_port : List String → Result Error (String × String)
unfolding split_at after_colon named
address_and_port [] = err index_out_of_range
address_and_port (a ∷ []) = named (split_at colon a).0 (after_colon (split_at colon a).1)
address_and_port (a ∷ b ∷ more) = ok (a, b)

port_of : String → Option ℤ → Result Error ℤ
port_of text none = err (bad_port text)
port_of text (some port) = ok port

-- the definition that the flags and the arguments give
abbrev service_to_create :
    (mapping aggregate : String) (event_channel : Bool) (address : String) → ℤ → ServiceInterface
service_to_create mapping aggregate event_channel address port = record {
  address = address;
  protocol = mapping;
  port = port;
  event_channel = event_channel;
  aggregate = aggregate;
  headless = none;
  targets = [];
  origin = "";
  alias = "";
}

pub create_service_command :
    List String → (mapping aggregate : String) (event_channel : Bool) → Exec Error Host (Unit {0})
unfolding create_service_args address_and_port port_of atoi
create_service_command args mapping aggregate event_channel = do
  lift (create_service_args args)
  given ← lift (address_and_port args)
  port ← lift (port_of given.1 (atoi given.1))
  service_interface_create (service_to_create mapping aggregate event_channel given.0 port)

-- `cobra.ExactArgs(1)`
unfoldable pub exact_arg : List String → Result Error String
exact_arg [] = err usage
exact_arg (a ∷ []) = ok a
exact_arg (a ∷ b ∷ more) = err usage

unfoldable delete_service_command : List String → Exec Error Host (Unit {0})
unfolding exact_arg
delete_service_command args = do name ← lift (exact_arg args); service_interface_remove name

target_line : ServiceInterfaceTarget → String
target_line t =
    "      => " <> t.selector <> " " <> (if not (t.name == "") then "name=" <> t.name else "")

target_lines : List ServiceInterfaceTarget → List String
unfolding target_line
target_lines [] = []
target_lines (t ∷ ts) = target_line t ∷ target_lines ts

service_lines : ServiceInterface → List String
unfolding target_lines itoa
service_lines si =
    ("    "
      <> si.address
      <> " ("
      <> si.protocol
      <> " port "
      <> itoa si.port
      <> ")"
      <> (if is_empty si.targets then "" else " with targets"))
    ∷ target_lines si.targets

all_service_lines : List ServiceInterface → List String
unfolding service_lines
all_service_lines [] = []
all_service_lines (si ∷ vsis) = service_lines si ++ all_service_lines vsis

alias_lines : List ServiceInterface → List String
alias_lines [] = []
alias_lines (si ∷ vsis) = ("    " <> si.alias <> " " <> si.address) ∷ alias_lines vsis

-- what list-exposed prints
exposed_lines : List ServiceInterface → List String
unfolding all_service_lines alias_lines
exposed_lines vsis =
    if is_empty vsis
    then "No service interfaces defined" ∷ []
    else "Services exposed through Skupper:"
      ∷ (all_service_lines vsis
          ++ ("" ∷ "Aliases for services exposed through Skupper:" ∷ (alias_lines vsis ++ "" ∷ [])))

unfoldable list_exposed_command : Exec Error Host (List String)
unfolding exposed_lines
list_exposed_command = do
  vsis ← wrap services_not_listed service_interface_list
  pure (exposed_lines vsis)

-- ===== src/Host.antt =====
-- What the client sees of its host: the Docker daemon, the network interfaces and the file of
-- service definitions (`<SKUPPER_TMPDIR>/skupper/services/skupper-services`, which the controller
-- has as `/etc/messaging/services/skupper-services`).
--
-- The daemon is not part of the repository: its answer to `InspectContainer` is a function that the
-- host carries, and theorems hold for every such function.
-- A JSON text of definitions is kept as the map that it decodes to; any other text is `garbled`.
-- `json.Marshal` cannot fail on these types, so its error branch is not modelled.
use skupper_docker.Base.{String, Bool, List, [], ◌∷◌, ◌&&◌}
use skupper_docker.Base.{not, if◌then◌else◌}
use skupper_docker.Base.Dict.{Dict}
use skupper_docker.Base.Exec.{Result, ok, err, Exec}
use skupper_docker.Types.{ServiceInterface}
pub use skupper_docker.Docker.Api.{ContainerJson}
use skupper_docker.Errors.{Error, no_such_file, not_writable, not_json}

-- `net.Addr`: an `*net.IPNet` or another kind of address
pub data Addr : Type 0 where
  ip_net : (loopback ipv4 : Bool) → String → Addr
  other_addr : Addr

-- The loop of `GetInternalIP` over the addresses of the interface: the last IPv4 address that is no
-- loopback address is kept.
internal_ip : String → List Addr → String
internal_ip ip [] = ip
internal_ip ip (ip_net loopback ipv4 text ∷ addrs) =
    internal_ip (if not loopback && ipv4 then text else ip) addrs
internal_ip ip (other_addr ∷ addrs) = internal_ip ip addrs

pub data ServicesFile : Type 0 where
  absent : ServicesFile
  garbled : ServicesFile
  definitions : Dict ServiceInterface → ServicesFile

pub record Host : Type 0 where
  pub inspect : String → Result Error ContainerJson
  -- the addresses of the interface docker0, none if it does not exist
  pub docker0 : List Addr
  pub services : ServicesFile
  -- whether the file system accepts writes
  pub writable : Bool

-- utils.GetInternalIP("docker0")
unfoldable pub get_internal_ip : Host → String
unfolding internal_ip
get_internal_ip h = internal_ip "" h.docker0

-- docker.InspectContainer
abbrev pub inspect_container : String → Exec Error Host ContainerJson
inspect_container name h = (h.inspect name, h)

abbrev services_path : String
services_path = "services/skupper-services"

abbrev file_text : ServicesFile → Result Error ServicesFile
file_text absent = err (no_such_file services_path)
file_text f = ok f

-- ioutil.ReadFile
abbrev pub read_services : Exec Error Host ServicesFile
read_services h = (file_text h.services, h)

-- json.Unmarshal into a map of definitions
abbrev pub decode_services : ServicesFile → Result Error (Dict ServiceInterface)
decode_services (definitions m) = ok m
decode_services _ = err not_json

-- json.Marshal, then ioutil.WriteFile
abbrev pub write_services : Dict ServiceInterface → Exec Error Host (Unit {0})
write_services m h =
    if h.writable
    then (ok tt, record h { services = definitions m })
    else (err (not_writable services_path), h)

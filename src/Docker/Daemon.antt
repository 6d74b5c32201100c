-- ===== src/Docker/Daemon.antt =====
-- The Docker daemon as pkg/docker/libdocker/client.go has it: an interface of operations on a state
-- that the repository does not hold. `Daemon` is the interface, for any type of states; `IsHealthy`
-- says in terms of the containers that a state holds what Docker documents of a daemon on which no
-- operation fails that is asked of a container in a fitting state.
use skupper_docker.Base.{
  ◌≡◌, String, Bool, true, false, not, Option, none, some, List, [], ◌∷◌, ◌==◌, if◌then◌else◌, ◌&&◌,
  any, All, ◌++◌,
}
use skupper_docker.Base.Text.{trim_prefix, has_prefix}
use skupper_docker.Base.Dict
use skupper_docker.Base.Dict.{Dict}
use skupper_docker.Base.Exec.{Result, ok, Exec, is_ok}
use skupper_docker.Errors.{Error}
use skupper_docker.Docker.Api.{ContainerJson, ContainerCreateConfig, Container}

pub record Daemon (D : Type 0) : Type 0 where
  pub inspect_container : String → D → Result Error ContainerJson
  -- all containers, running or not, that have the label
  pub list_containers : String → D → Result Error (List Container)
  pub create_container : ContainerCreateConfig → Exec Error D (Unit {0})
  pub start_container : String → Exec Error D (Unit {0})
  pub stop_container : String → Exec Error D (Unit {0})
  pub remove_container : String → Exec Error D (Unit {0})
  pub restart_container : String → Exec Error D (Unit {0})
  -- the names of the containers on a network
  pub inspect_network : String → D → Result Error (List String)
  pub connect_container : String → String → Exec Error D (Unit {0})
  pub create_network : String → Exec Error D (Unit {0})
  pub pull_image : String → Exec Error D (Unit {0})
  pub disconnect_container : (network name : String) → Exec Error D (Unit {0})
  pub remove_network : String → Exec Error D (Unit {0})
  pub server_os : D → Result Error String

-- What a daemon holds of a container.
pub record Held : Type 0 where
  pub config : ContainerCreateConfig
  pub running : Bool

-- a container of a configuration, running
abbrev pub run : ContainerCreateConfig → Held
run config = record { config = config; running = true }

abbrev pub is_held : Option Held → Bool
is_held none = false
is_held (some c) = true

-- there, and not running
abbrev pub is_stopped : Option Held → Bool
is_stopped none = false
is_stopped (some c) = not c.running

abbrev pub set_running : Bool → Option Held → Option Held
set_running b none = none
set_running b (some c) = some (record c { running = b })

-- whether a container is there and has the label
abbrev pub has_label : String → Option Held → Bool
has_label label none = false
has_label label (some c) = Dict.member label c.config.labels

-- The answer to an inspection of what is held under a name. Docker adds to the environment the
-- variables that the image sets and the container does not; none of them begins with the name of
-- the variable that has the configuration of a router.
abbrev pub Inspected : Option Held → Result Error ContainerJson → Type 0
Inspected none r = is_ok r ≡ false
Inspected (some c) r =
    (j : ContainerJson) × (r ≡ ok j)
    × (added : List String) × (j.env ≡ c.config.env ++ added)
    × All (λ (v : String). has_prefix v "QDROUTERD_CONF" ≡ false) added

-- Inspections in full. Docker documents that what a container does not set is taken from its image:
-- `shown` is the configuration with that, which an inspection tells. The image gives a container no
-- hostname and no mounts, and adds nothing that it has added before.
pub record Shows {D : Type 0} (dd : Daemon D) (find : D → String → Option Held)
    (shown : ContainerCreateConfig → ContainerCreateConfig) : Type 0 where
  pub told :
      (n : String) (d : D) (c : Held)
      → find d n ≡ some c
      → (j : ContainerJson) × (dd.inspect_container n d ≡ ok j)
        × (j.hostname ≡ c.config.hostname)
        × (j.image ≡ c.config.image)
        × (j.env ≡ (shown c.config).env)
        × (j.labels ≡ (shown c.config).labels)
        × (j.exposed_ports ≡ (shown c.config).exposed_ports)
        × (j.mounts ≡ c.config.mounts)
  pub once :
      (c : ContainerCreateConfig)
      → shown (record c {
        env = (shown c).env;
        labels = (shown c).labels;
        exposed_ports = (shown c).exposed_ports;
      })
        ≡ shown c

-- A name is taken by one container at most. A container is created under a name that is free, and
-- started; an image can be pulled. No operation on one name touches another.
pub record CanCreate {D : Type 0} (dd : Daemon D) (find : D → String → Option Held) : Type 0 where
  pub created :
      (c : ContainerCreateConfig) (d : D)
      → is_ok (dd.create_container c d).0 ≡ not (is_held (find d c.name))
  pub find_created :
      (c : ContainerCreateConfig) (d : D) (m : String)
      → find (dd.create_container c d).1 m ≡ (
          if m == c.name && not (is_held (find d m))
          then some (record { config = c; running = false })
          else find d m)
  pub started : (n : String) (d : D) → is_ok (dd.start_container n d).0 ≡ is_held (find d n)
  pub find_started :
      (n : String) (d : D) (m : String)
      → find (dd.start_container n d).1 m
        ≡ (if m == n then set_running true (find d m) else find d m)
  pub find_network_created :
      (n : String) (d : D) (m : String) → find (dd.create_network n d).1 m ≡ find d m
  pub pulled : (image : String) (d : D) → is_ok (dd.pull_image image d).0 ≡ true
  pub find_pulled :
      (image : String) (d : D) (m : String) → find (dd.pull_image image d).1 m ≡ find d m

-- A container is moreover inspected, stopped, removed when it is stopped, and listed. The network of
-- the site is there.
pub record IsHealthy {D : Type 0} (dd : Daemon D) (find : D → String → Option Held) : Type 0 where
  pub creates : CanCreate dd find
  pub inspected : (n : String) (d : D) → Inspected (find d n) (dd.inspect_container n d)
  pub stopped : (n : String) (d : D) → is_ok (dd.stop_container n d).0 ≡ is_held (find d n)
  pub find_stopped :
      (n : String) (d : D) (m : String)
      → find (dd.stop_container n d).1 m
        ≡ (if m == n then set_running false (find d m) else find d m)
  pub removed : (n : String) (d : D) → is_ok (dd.remove_container n d).0 ≡ is_stopped (find d n)
  pub find_removed :
      (n : String) (d : D) (m : String)
      → find (dd.remove_container n d).1 m
        ≡ (if m == n && is_stopped (find d m) then none else find d m)
  pub restarted : (n : String) (d : D) → is_ok (dd.restart_container n d).0 ≡ is_held (find d n)
  pub find_restarted :
      (n : String) (d : D) (m : String)
      → find (dd.restart_container n d).1 m
        ≡ (if m == n then set_running true (find d m) else find d m)
  pub find_connected :
      (network n : String) (d : D) (m : String)
      → find (dd.connect_container network n d).1 m ≡ find d m
  -- the entries are those that have the label, a slash before the name or not
  pub listed :
      (label : String) (d : D)
      → (l : List Container) × (dd.list_containers label d ≡ ok l)
        × ((n : String)
            → any (λ (c : Container). n == trim_prefix c.name "/") l ≡ has_label label (find d n))
  pub network : (d : D) → is_ok (dd.inspect_network "skupper-network" d) ≡ true
  pub os_type : String
  pub os : (d : D) → dd.server_os d ≡ ok os_type

-- the name of an entry of a list of containers
abbrev pub name_of : Container → String
name_of c = trim_prefix c.name "/"

abbrev pub labels_of : Option Held → Dict String
labels_of none = []
labels_of (some c) = c.config.labels

-- The entries of a list are of containers that are there, with their identifiers and labels, each
-- container once.
abbrev pub AreEntries :
    {D : Type 0} → (D → String → Option Held) → (D → String → String) → D → List Container → Type 0
AreEntries find id_of d [] = Unit
AreEntries find id_of d (c ∷ l) =
    (is_held (find d (name_of c)) ≡ true)
    × (c.id ≡ id_of d (name_of c))
    × (c.labels ≡ labels_of (find d (name_of c)))
    × (any (λ (e : Container). name_of c == name_of e) l ≡ false)
    × AreEntries find id_of d l

-- Containers are inspected, stopped, removed when they are stopped, and listed. A container may be
-- named by its identifier, which it keeps as long as it is there.
pub record CanRemove {D : Type 0} (dd : Daemon D) (find : D → String → Option Held)
    (id_of : D → String → String) : Type 0 where
  pub seen : (n : String) (d : D) → is_ok (dd.inspect_container n d) ≡ is_held (find d n)
  pub stopped : (n : String) (d : D) → is_ok (dd.stop_container n d).0 ≡ is_held (find d n)
  pub find_stopped :
      (n : String) (d : D) (m : String)
      → find (dd.stop_container n d).1 m
        ≡ (if m == n then set_running false (find d m) else find d m)
  pub removed : (n : String) (d : D) → is_ok (dd.remove_container n d).0 ≡ is_stopped (find d n)
  pub find_removed :
      (n : String) (d : D) (m : String)
      → find (dd.remove_container n d).1 m
        ≡ (if m == n && is_stopped (find d m) then none else find d m)
  pub stop_id :
      (n : String) (d : D)
      → is_held (find d n) ≡ true
      → dd.stop_container (id_of d n) d ≡ dd.stop_container n d
  pub remove_id :
      (n : String) (d : D)
      → is_held (find d n) ≡ true
      → dd.remove_container (id_of d n) d ≡ dd.remove_container n d
  pub id_stopped : (n : String) (d : D) (m : String) → id_of (dd.stop_container n d).1 m ≡ id_of d m
  pub id_removed :
      (n : String) (d : D) (m : String)
      → (m == n) ≡ false
      → id_of (dd.remove_container n d).1 m ≡ id_of d m
  pub entries :
      (label : String) (d : D)
      → (l : List Container) × (dd.list_containers label d ≡ ok l)
        × AreEntries find id_of d l
        × ((n : String) → any (λ (c : Container). n == name_of c) l ≡ has_label label (find d n))

-- the answer to an inspection of a network, for its containers
abbrev pub Answered : Option (List String) → Result Error (List String) → Type 0
Answered none r = is_ok r ≡ false
Answered (some l) r = r ≡ ok l

-- Networks are inspected, the containers on them disconnected, and removed when they are empty.
pub record HasNetworks {D : Type 0} (dd : Daemon D) (find : D → String → Option Held)
    (members : D → String → Option (List String)) : Type 0 where
  pub answered : (n : String) (d : D) → Answered (members d n) (dd.inspect_network n d)
  pub disconnected :
      (n c : String) (cs : List String) (d : D)
      → members d n ≡ some (c ∷ cs)
      → (is_ok (dd.disconnect_container n c d).0 ≡ true)
        × (members (dd.disconnect_container n c d).1 n ≡ some cs)
  pub find_disconnected :
      (n c : String) (d : D) (m : String) → find (dd.disconnect_container n c d).1 m ≡ find d m
  pub network_removed :
      (n : String) (d : D)
      → members d n ≡ some []
      → (is_ok (dd.remove_network n d).0 ≡ true) × (members (dd.remove_network n d).1 n ≡ none)
  pub find_network_removed :
      (n : String) (d : D) (m : String) → find (dd.remove_network n d).1 m ≡ find d m

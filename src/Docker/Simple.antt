-- ===== src/Docker/Simple.antt =====
-- A daemon that keeps its containers in a dictionary, and that it is healthy: an instance of the
-- interface on which the operations on containers can be run.
use skupper_docker.Base.{
  ◌≡◌, refl, sym, ap, str_dec, Bool-cases, inl, inr, ◌∙◌, ◌<>◌, String, Bool, true, false, ◌&&◌,
  Option, none, some, List, [], ◌∷◌, ◌==◌, any, arith, if◌then◌else◌,
}
use mathlib.Core.List.{append-nil}
use skupper_docker.Base.Text.{trim_prefix, strip_prefix-append}
use skupper_docker.Base.Dict
use skupper_docker.Base.Dict.{Dict}
use skupper_docker.Base.Exec.{Result, ok, err, Exec}
use skupper_docker.Errors.{Error, daemon}
use skupper_docker.Docker.Api.{ContainerJson, Container, ContainerCreateConfig}
use skupper_docker.Docker.Daemon.{
  Daemon, Held, CanCreate, IsHealthy, Inspected, Shows, is_stopped, has_label, set_running,
}

-- the image of every container exposes a port
abbrev with_image_port : List String → List String
with_image_port ports =
    if any (λ (p : String). p == "5672/tcp") ports then ports else "5672/tcp" ∷ ports

-- a configuration with what the image sets
abbrev pub with_image : ContainerCreateConfig → ContainerCreateConfig
with_image c = record c { exposed_ports = with_image_port c.exposed_ports }

abbrev inspection : String → Option Held → Result Error ContainerJson
inspection name none = err (daemon "no such container")
inspection name (some c) = ok (record {
  id = name;
  hostname = c.config.hostname;
  image = c.config.image;
  cmd = c.config.cmd;
  status = if c.running then "running" else "exited";
  env = c.config.env;
  labels = c.config.labels;
  exposed_ports = with_image_port c.config.exposed_ports;
  mounts = c.config.mounts;
  networks = [];
})

labelled : String → Dict Held → List String → List Container
labelled label d [] = []
labelled label d (k ∷ ks) =
    let rest = labelled label d ks in
    if has_label label (Dict.lookup k d)
    then record { id = k; name = "/" <> k; labels = [] } ∷ rest
    else rest

-- the change of a container that is there
abbrev adjust : String → Bool → Option Held → Exec Error (Dict Held) (Unit {0})
adjust name b none d = (err (daemon "no such container"), d)
adjust name b (some c) d = (ok tt, Dict.insert name (record c { running = b }) d)

unfoldable pub simple_daemon : Daemon (Dict Held)
unfolding labelled Dict.lookup Dict.insert Dict.erase
simple_daemon = record {
  inspect_container = λ name d. inspection name (Dict.lookup name d);
  list_containers = λ label d. ok (labelled label d (Dict.keys d));
  create_container = λ c d.
      if Dict.member c.name d
      then (err (daemon "name in use"), d)
      else (ok tt, Dict.insert c.name (record { config = c; running = false }) d);
  start_container = λ name d. adjust name true (Dict.lookup name d) d;
  stop_container = λ name d. adjust name false (Dict.lookup name d) d;
  remove_container = λ name d.
      if is_stopped (Dict.lookup name d)
      then (ok tt, Dict.erase name d)
      else (err (daemon "not stopped"), d);
  restart_container = λ name d. adjust name true (Dict.lookup name d) d;
  inspect_network = λ name d. ok (Dict.keys d);
  connect_container = λ network name d. (ok tt, d);
  create_network = λ name d. (ok tt, d);
  pull_image = λ image d. (ok tt, d);
  disconnect_container = λ network name d. (ok tt, d);
  remove_network = λ name d. (ok tt, d);
  server_os = λ d. ok "linux";
}

abbrev pub find_held : Dict Held → String → Option Held
find_held d name = Dict.lookup name d

inspection-Inspected : (name : String) (held : Option Held) → Inspected held (inspection name held)
inspection-Inspected name none = refl
inspection-Inspected name (some c) = (_, refl, [], sym (append-nil c.config.env), tt)

any-labelled :
    (label n : String) (d : Dict Held) (ks : List String)
    → any (λ (c : Container). n == trim_prefix c.name "/") (labelled label d ks)
      ≡ (any (λ (k : String). n == k) ks && has_label label (Dict.lookup n d))
unfolding labelled
any-labelled label n d [] = refl
any-labelled label n d (k ∷ ks) =
    ground (arith, strip_prefix-append "/" k, any-labelled label n d ks)

any-keys :
    (label n : String) (d : Dict Held)
    → (any (λ (k : String). n == k) (Dict.keys d) && has_label label (Dict.lookup n d))
      ≡ has_label label (Dict.lookup n d)
unfolding Dict.lookup
any-keys label n [] = refl
any-keys label n ((k, c) ∷ d) = ground (arith, any-keys label n d)

adjusted :
    (name : String) (b : Bool) (d : Dict Held) (m : String)
    → Dict.lookup m (adjust name b (Dict.lookup name d) d).1
      ≡ (if m == name then set_running b (Dict.lookup m d) else Dict.lookup m d)
adjusted name b d m = grind (arith, Dict.lookup-insert)

pub simple_daemon-CanCreate : CanCreate simple_daemon find_held
unfolding simple_daemon
simple_daemon-CanCreate = record {
  created = λ c d. ground arith;
  find_created = λ c d m. grind (arith, Dict.lookup-insert);
  started = λ n d. ground arith;
  find_started = λ n d m. adjusted n true d m;
  find_network_created = λ n d m. refl;
  pulled = λ image d. refl;
  find_pulled = λ image d m. refl;
}

pub simple_daemon-IsHealthy : IsHealthy simple_daemon find_held
unfolding simple_daemon
simple_daemon-IsHealthy = record {
  creates = simple_daemon-CanCreate;
  inspected = λ n d. inspection-Inspected n (Dict.lookup n d);
  stopped = λ n d. ground arith;
  find_stopped = λ n d m. adjusted n false d m;
  removed = λ n d. ground arith;
  find_removed = λ n d m. grind (arith, Dict.lookup-erase);
  restarted = λ n d. ground arith;
  find_restarted = λ n d m. adjusted n true d m;
  find_connected = λ network n d m. refl;
  listed = λ label d. (_, refl, λ n. any-labelled label n d (Dict.keys d) ∙ any-keys label n d);
  network = λ d. refl;
  os_type = "linux";
  os = λ d. refl;
}

image_port_once :
    (ports : List String) → with_image_port (with_image_port ports) ≡ with_image_port ports
unfolding str_dec
image_port_once ports = elim (Bool-cases (any (λ (p : String). p == "5672/tcp") ports)) [
  | inl there ↦ rw (there, there) refl
  | inr new ↦ rw new refl
]

pub simple_daemon-Shows : Shows simple_daemon find_held with_image
unfolding simple_daemon
simple_daemon-Shows = record {
  told = λ n d c held. rw held (_, refl, refl, refl, refl, refl, refl, refl);
  once = λ c.
      ap (λ (ports : List String). record c { exposed_ports = ports })
        (image_port_once c.exposed_ports);
}

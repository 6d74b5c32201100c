-- ===== src/Docker/Machine.antt =====
-- A daemon with networks: the containers of Docker/Simple.antt, and for each network the containers
-- on it. An instance of the interface on which a site can be removed.
use skupper_docker.Base.{
  ◌≡◌, refl, ◌∙◌, ◌<>◌, String, true, false, ◌&&◌, not, Option, none, some, List, [], ◌∷◌, ◌==◌,
  any, arith, if◌then◌else◌, ◌||◌, subst, sym, Bool-cases, inl, inr, eq_self,
}
use skupper_docker.Base.Text.{trim_prefix, strip_prefix-append}
use skupper_docker.Base.Dict
use skupper_docker.Base.Dict.{Dict}
use skupper_docker.Base.Exec.{Result, ok, err, Exec, is_ok}
use skupper_docker.Errors.{Error, daemon}
use skupper_docker.Docker.Api.{Container}
use skupper_docker.Docker.Daemon.{
  Daemon, Held, CanCreate, CanRemove, HasNetworks, AreEntries, name_of, labels_of, has_label,
  is_held, Answered,
}
use skupper_docker.Docker.Simple.{
  simple_daemon, simple_daemon-IsHealthy, simple_daemon-CanCreate, find_held,
}

pub record Machine : Type 0 where
  pub containers : Dict Held
  pub networks : Dict (List String)

-- an operation on the containers
abbrev on_containers : {A : Type 0} → Exec Error (Dict Held) A → Exec Error Machine A
on_containers m s = let (r, d) = m s.containers in (r, record s { containers = d })

-- the containers that have the label, each once
entries_of : String → Dict Held → List String → List Container
entries_of label d [] = []
entries_of label d (k ∷ ks) =
    let rest = entries_of label d ks in
    if has_label label (Dict.lookup k d) && not (any (λ (j : String). k == j) ks)
    then record { id = k; name = "/" <> k; labels = labels_of (Dict.lookup k d) } ∷ rest
    else rest

abbrev network_answer : Option (List String) → Result Error (List String)
network_answer none = err (daemon "no such network")
network_answer (some l) = ok l

without : String → List String → List String
without name [] = []
without name (c ∷ cs) = let rest = without name cs in if name == c then cs else c ∷ rest

abbrev disconnect : String → String → Option (List String) → Exec Error Machine (Unit {0})
disconnect n name none s = (err (daemon "no such network"), s)
disconnect n name (some cs) s =
    if any (λ (c : String). name == c) cs
    then (ok tt, record s { networks = Dict.insert n (without name cs) s.networks })
    else (err (daemon "not connected"), s)

abbrev remove : String → Option (List String) → Exec Error Machine (Unit {0})
remove n none s = (err (daemon "no such network"), s)
remove n (some []) s = (ok tt, record s { networks = Dict.erase n s.networks })
remove n (some (c ∷ cs)) s = (err (daemon "active endpoints"), s)

unfoldable pub machine : Daemon Machine
unfolding entries_of simple_daemon without
machine = record {
  inspect_container = λ name s. simple_daemon.inspect_container name s.containers;
  list_containers = λ label s. ok (entries_of label s.containers (Dict.keys s.containers));
  create_container = λ c. on_containers (simple_daemon.create_container c);
  start_container = λ name. on_containers (simple_daemon.start_container name);
  stop_container = λ name. on_containers (simple_daemon.stop_container name);
  remove_container = λ name. on_containers (simple_daemon.remove_container name);
  restart_container = λ name. on_containers (simple_daemon.restart_container name);
  inspect_network = λ name s. network_answer (Dict.lookup name s.networks);
  connect_container = λ network name s. (ok tt, s);
  create_network = λ name s. (ok tt, record s { networks = Dict.insert name [] s.networks });
  pull_image = λ image s. (ok tt, s);
  disconnect_container =
      λ network name s. disconnect network name (Dict.lookup network s.networks) s;
  remove_network = λ name s. remove name (Dict.lookup name s.networks) s;
  server_os = λ s. ok "linux";
}

abbrev pub find_machine : Machine → String → Option Held
find_machine s name = find_held s.containers name

abbrev same_id : Machine → String → String
same_id s name = name

abbrev pub members_of : Machine → String → Option (List String)
members_of s n = Dict.lookup n s.networks

any-entries_of :
    (label n : String) (d : Dict Held) (ks : List String)
    → any (λ (c : Container). n == name_of c) (entries_of label d ks)
      ≡ (any (λ (k : String). n == k) ks && has_label label (Dict.lookup n d))
unfolding entries_of
any-entries_of label n d [] = refl
any-entries_of label n d (k ∷ ks) =
    ground (arith, strip_prefix-append "/" k, any-entries_of label n d ks)

has_label-is_held :
    (label : String) (held : Option Held) → has_label label held ≡ true → is_held held ≡ true
has_label-is_held label none h = h
has_label-is_held label (some c) h = refl

-- what holds of a name holds of the name of its entry
name-entry : (P : String → Type 0) (k : String) → P k → P (trim_prefix ("/" <> k) "/")
name-entry P k p = subst P (sym (ground (arith, strip_prefix-append "/" k))) p

is_ok-inspect :
    (n : String) (d : Dict Held)
    → is_ok (simple_daemon.inspect_container n d) ≡ is_held (Dict.lookup n d)
unfolding simple_daemon
is_ok-inspect n d = ground arith

answered_lem : (o : Option (List String)) → Answered o (network_answer o)
answered_lem none = refl
answered_lem (some l) = refl

entries_of-AreEntries :
    (label : String) (s : Machine) (ks : List String)
    → AreEntries find_machine same_id s (entries_of label s.containers ks)
unfolding entries_of
entries_of-AreEntries label s [] = tt
entries_of-AreEntries label s (k ∷ ks) =
    elim (Bool-cases
      (has_label label (Dict.lookup k s.containers) && not (any (λ (j : String). k == j) ks))) [
        | inl shown ↦ rw shown (
          name-entry (λ (j : String). is_held (Dict.lookup j s.containers) ≡ true) k
              (has_label-is_held label (Dict.lookup k s.containers) (ground arith)),
          name-entry (λ (j : String). k ≡ j) k refl,
          name-entry
              (λ (j : String).
                labels_of (Dict.lookup k s.containers) ≡ labels_of (Dict.lookup j s.containers))
              k refl,
          name-entry
              (λ (j : String).
                any (λ (e : Container). j == name_of e) (entries_of label s.containers ks) ≡ false)
              k (any-entries_of label k s.containers ks ∙ ground arith),
          entries_of-AreEntries label s ks,
        )
        | inr hidden ↦ rw hidden (entries_of-AreEntries label s ks)
      ]

any-keys :
    (label n : String) (d : Dict Held)
    → (any (λ (k : String). n == k) (Dict.keys d) && has_label label (Dict.lookup n d))
      ≡ has_label label (Dict.lookup n d)
unfolding Dict.lookup
any-keys label n [] = refl
any-keys label n ((k, c) ∷ d) = ground (arith, any-keys label n d)

pub machine-CanRemove : CanRemove machine find_machine same_id
unfolding machine
machine-CanRemove = record {
  seen = λ n s. is_ok-inspect n s.containers;
  stopped = λ n s. simple_daemon-IsHealthy.stopped n s.containers;
  find_stopped = λ n s m. simple_daemon-IsHealthy.find_stopped n s.containers m;
  removed = λ n s. simple_daemon-IsHealthy.removed n s.containers;
  find_removed = λ n s m. simple_daemon-IsHealthy.find_removed n s.containers m;
  stop_id = λ n s held. refl;
  remove_id = λ n s held. refl;
  id_stopped = λ n s m. refl;
  id_removed = λ n s m other. refl;
  entries = λ label s. (
    _,
    refl,
    entries_of-AreEntries label s (Dict.keys s.containers),
    λ n.
        any-entries_of label n s.containers (Dict.keys s.containers)
        ∙ any-keys label n s.containers,
  );
}

pub machine-HasNetworks : HasNetworks machine find_machine members_of
unfolding machine
machine-HasNetworks = record {
  answered = λ n s. answered_lem (Dict.lookup n s.networks);
  disconnected = λ n c cs s e.
      rw (e, ◌||◌, eq_self c) (refl, Dict.lookup-insert n n cs s.networks ∙ rw (eq_self n) refl);
  find_disconnected = λ n c s m. ground arith;
  network_removed = λ n s e. rw e (refl, Dict.lookup-erase n n s.networks ∙ rw (eq_self n) refl);
  find_network_removed = λ n s m. ground arith;
}

pub machine-CanCreate : CanCreate machine find_machine
unfolding machine
machine-CanCreate = record {
  created = λ c s. simple_daemon-CanCreate.created c s.containers;
  find_created = λ c s m. simple_daemon-CanCreate.find_created c s.containers m;
  started = λ n s. simple_daemon-CanCreate.started n s.containers;
  find_started = λ n s m. simple_daemon-CanCreate.find_started n s.containers m;
  find_network_created = λ n s m. refl;
  pulled = λ image s. refl;
  find_pulled = λ image s m. refl;
}

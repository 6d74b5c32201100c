-- ===== src/Controller/Proxies/Exposed.antt =====
-- From a command of client/serviceinterface_update.go through the file of definitions to the proxy
-- containers of cmd/service-controller/controller.go.
use mathlib.Core.Option
use skupper_docker.Base.{
  ◌≡◌, ◌⊎◌, refl, sym, ap, ◌∙◌, String, Bool, true, false, ◌&&◌, Option, none, some, [], arith, inl,
  inr, subst, eq_self, str_dec,
}
use skupper_docker.Base.Int.{ℤ}
use skupper_docker.Base.Dict
use skupper_docker.Base.Dict.{Dict}
use skupper_docker.Base.Exec.{ok}
use skupper_docker.Types.{ServiceInterface}
use skupper_docker.Router.Document.{Document}
use skupper_docker.Docker.Daemon.{Daemon, Held, IsHealthy, has_label}
use skupper_docker.Docker.Containers.{get_proxy_container_create_config, get_labels}
use skupper_docker.Host.{Host, ServicesFile, definitions}
use skupper_docker.Service.Targets.{docker_host}
use skupper_docker.Service.Client.{
  service_interface_bind, service_interface_unbind, unbind_definition,
}
use skupper_docker.Service.Client.Operations.{definition_at, stored_at}
use skupper_docker.Service.Client.Unbind.{finds_entry, takes_target, writes_file}
use skupper_docker.Service.Client.Roundtrip.{targets_of, unbind-bind}
use skupper_docker.Service.Client.Writes.{bind_writes, unbind_definition-cases}
use skupper_docker.Controller.{Controller}
use skupper_docker.Controller.Sync.Updates.{Keyed, lookup-Keyed}
use skupper_docker.Controller.Sync.Exchange.{Keyed-insert}
use skupper_docker.Controller.Bindings.Keyed.{AreKeyed, process_service_defs-AreKeyed}
use skupper_docker.Controller.Runs.{IsKeyed}
use skupper_docker.Controller.Runs.Written.{erase-Keyed}
use skupper_docker.Controller.Proxies.{process_service_defs_and_proxies}
use skupper_docker.Controller.Proxies.Process.{process_service_defs-proxies}

abbrev pub is_running_proxy : Option Held → Bool
is_running_proxy none = false
is_running_proxy (some c) = c.running && has_label "skupper.io/application" (some c)

none_left : (o : Option ServiceInterface) → Option.map targets_of o ≡ none → o ≡ none
none_left none e = refl
none_left (some r) e = cc

unbind_definition-Keyed :
    (host address name : String) (b : Bool) (s : ServiceInterface) (m m' : Dict ServiceInterface)
    → Keyed m
    → Dict.lookup address m ≡ some s
    → unbind_definition host address name b s m ≡ ok m'
    → Keyed m'
unbind_definition-Keyed host address name b s m m' keyed found left =
    elim (unbind_definition-cases host address name b s m m' left) [
      | inl gone ↦ subst Keyed (sym gone) (erase-Keyed address m keyed)
      | inr (ts, kept) ↦
          subst Keyed
            (ap (λ (a : String). Dict.insert a (record s { targets = ts }) m)
                (lookup-Keyed address m s keyed found)
              ∙ sym kept)
            (Keyed-insert (record s { targets = ts }) m keyed)
    ]

module _ {D : Type 0} {dd : Daemon D} {find : D → String → Option Held}
    (healthy : IsHealthy dd find) (getenv : String → String) (encode : ServiceInterface → String)
    (marshal : Document → String) where
  abbrev processed : Controller → Host → D → Controller × D
  processed c h d = process_service_defs_and_proxies dd getenv encode marshal c h d

  processed-AreKeyed :
      (c : Controller) (h : Host) (d : D)
      → AreKeyed c.bindings
      → AreKeyed (processed c h d).0.bindings
  unfolding process_service_defs_and_proxies
  processed-AreKeyed c h d bound = process_service_defs-AreKeyed c h bound

  -- an address that is defined and has no container
  processed-proxy :
      (c : Controller) (h : Host) (m : Dict ServiceInterface) (d : D) (x : ServiceInterface)
      (a : String)
      → h.services ≡ definitions m
      → Keyed m
      → AreKeyed c.bindings
      → Dict.lookup a m ≡ some x
      → find d a ≡ none
      → is_running_proxy (find (processed c h d).1 a) ≡ true
  unfolding get_proxy_container_create_config get_labels Dict.lookup str_dec
  processed-proxy c h m d x a held keyed bound found free =
      rw
        (
          process_service_defs-proxies healthy getenv encode marshal c h m d a held keyed bound,
          found,
          free,
        )
        refl

  -- an address that is not defined any more
  processed-gone :
      (c : Controller) (h : Host) (m : Dict ServiceInterface) (d : D) (a : String)
      → h.services ≡ definitions m
      → Keyed m
      → AreKeyed c.bindings
      → Dict.lookup a m ≡ none
      → is_running_proxy (find d a) ≡ true
      → find (processed c h d).1 a ≡ none
  processed-gone c h m d a held keyed bound missing proxy =
      process_service_defs-proxies healthy getenv encode marshal c h m d a held keyed bound
      ∙ rw missing (ground arith)

  -- From the command line to the containers and back. The user binds a container or a host service
  -- to a service without targets, whose address has no container; once the controller noticed the
  -- file, a proxy runs under the address. The user unbinds the name again, with the service; once
  -- the controller noticed that, there is no container under the address. The bind succeeds, on a
  -- file whose definitions stand under their addresses, and no fitting operation of the daemon
  -- fails; whatever else the file, the bindings and the daemon hold.
  pub exposed_then_unexposed :
      (s : ServiceInterface) (target_type name protocol : String) (port : ℤ) (c : Controller)
      (h : Host) (d : D)
      → (target_type ≡ "container") ⊎ (target_type ≡ "host-service")
      → s.targets ≡ []
      → (service_interface_bind s target_type name protocol port h).0 ≡ ok tt
      → IsKeyed h.services
      → AreKeyed c.bindings
      → find d s.address ≡ none
      → (let h1 = (service_interface_bind s target_type name protocol port h).1 in
          let (c1, d1) = processed c h1 d in
          let h2 = (service_interface_unbind target_type name s.address true h1).1 in
          (is_running_proxy (find d1 s.address) ≡ true)
          × (find (processed c1 h2 d1).1 s.address ≡ none))
  exposed_then_unexposed s target_type name protocol port c h d kind new done keyed bound free =
      let h1 = (service_interface_bind s target_type name protocol port h).1 in
      let (m, x, held, at, held1) = bind_writes s target_type name protocol port h done in
      let a = s.address in
      let m1 = Dict.insert x.address x m in
      let keyed1 : Keyed m1 = Keyed-insert x m (subst IsKeyed held keyed) in
      let found1 : Dict.lookup a m1 ≡ some x =
        rw (sym at) (Dict.lookup-insert x.address x.address x m ∙ rw eq_self refl) in
      let proxy = processed-proxy c h1 m1 d x a held1 keyed1 bound found1 free in
      let (done', restored) =
        unbind-bind s target_type name protocol port true h kind (rw new refl) (rw new refl) done in
      let h2 = (service_interface_unbind target_type name a true h1).1 in
      let (s', found') = finds_entry name a true target_type h1 done' m1 held1 in
      let (m2, left) = takes_target name a true target_type h1 done' m1 s' held1 found' in
      let held2 = writes_file name a true target_type h1 done' m1 m2 s' held1 found' left in
      let keyed2 =
        unbind_definition-Keyed (docker_host h1) a name true s' m1 m2 keyed1 found' left in
      let gone : Dict.lookup a m2 ≡ none =
        ap (λ (f : ServicesFile). stored_at f a) (sym held2)
        ∙ none_left (definition_at h2 a) (restored ∙ rw new refl) in
      (
        proxy,
        processed-gone (processed c h1 d).0 h2 m2 (processed c h1 d).1 a held2 keyed2
            (processed-AreKeyed c h1 d bound) gone proxy,
      )

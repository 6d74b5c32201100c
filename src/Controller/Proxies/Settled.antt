-- ===== src/Controller/Proxies/Settled.antt =====
-- What `updateProxies` of cmd/service-controller/controller.go leaves behind, and when it has nothing
-- to do.
use mathlib.Core.List.{Permᴰ}
use text.Mathlib.TextLemmas.{append_assoc}
use skupper_docker.Base.{
  ◌≡◌, refl, ◌∙◌, ap, sym, subst, String, Bool, true, false, not, ◌&&◌, ◌||◌, Option, none, some,
  List, [], ◌∷◌, ◌==◌, any, All, arith, if◌then◌else◌, Bool-cases, inl, inr, Option-cases,
}
use skupper_docker.Base.Text.{trim_prefix, has_prefix}
use skupper_docker.Base.Dict
use skupper_docker.Base.Dict.{Dict}
use skupper_docker.Base.Exec.{ok}
use skupper_docker.Types.{ServiceInterface, transport_network_name}
use skupper_docker.Router.Document.{Document}
use skupper_docker.Docker.{find_env_var}
use skupper_docker.Docker.Laws.{find_env_var-cons, inspected_config}
use skupper_docker.Docker.Api.{Container, ContainerCreateConfig}
use skupper_docker.Docker.Daemon.{Daemon, Held, IsHealthy, has_label, is_held}
use skupper_docker.Docker.Containers.{proxy_env, get_proxy_container_create_config, get_labels}
use skupper_docker.Controller.{Controller, ServiceBindings, EgressBindings}
use skupper_docker.Controller.Bindings.{as_service_interface}
use skupper_docker.Controller.Bindings.Keyed.{AreKeyed}
use skupper_docker.Controller.Proxies.{
  attach, attach_all, attach_targets, update_proxy, ensure_proxy_for, ensure_proxies,
  delete_unbound, get_proxies, update_proxies,
}
use skupper_docker.Controller.Proxies.Ensure.{
  ensured, is_outdated, wanted_config, member-get_proxies,
}
use skupper_docker.Controller.Proxies.Update.{
  is_named, is_named-AreNamed, get_proxies-AreNamed, find-update_proxies,
}

-- a proxy, made for the configuration
abbrev pub is_current : String → Option Held → Bool
is_current config none = false
is_current config (some c) =
    has_label "skupper.io/application" (some c) && not (is_outdated config c)

skipped :
    (v : String) (env : List String) (name : String)
    → has_prefix v name ≡ false
    → find_env_var (v ∷ env) name ≡ find_env_var env name
unfolding find_env_var
skipped v env name h = rw h refl

-- The configuration of a proxy is found again in its environment.
find_env_var-proxy_env :
    (getenv : String → String) (config : String)
    → has_prefix (getenv "SKUPPER_TMPDIR") "QDROUTERD_CONF" ≡ false
    → find_env_var (proxy_env getenv config) "QDROUTERD_CONF" ≡ config
find_env_var-proxy_env getenv config h =
    skipped (getenv "SKUPPER_TMPDIR") _ "QDROUTERD_CONF" h
    ∙ rw (append_assoc "QDROUTERD_CONF" "=" config) (find_env_var-cons _ "QDROUTERD_CONF" config)

module _ (getenv : String → String) (encode : ServiceInterface → String)
    (service : ServiceInterface) (config os : String) (map_to_host : Bool) where
  abbrev opts : ContainerCreateConfig
  opts = get_proxy_container_create_config getenv encode service config map_to_host os

  ensured-is_current :
      (held : Option Held)
      → has_prefix (getenv "SKUPPER_TMPDIR") "QDROUTERD_CONF" ≡ false
      → (config == "") ≡ false
      → has_label "skupper.io/application" held ≡ is_held held
      → is_current config (ensured opts config held) ≡ true
  unfolding get_proxy_container_create_config get_labels Dict.lookup
  ensured-is_current none h nonempty e = ground (arith, find_env_var-proxy_env getenv config h)
  ensured-is_current (some c) h nonempty e = ground (arith, find_env_var-proxy_env getenv config h)

-- Every target of the bindings that is a container is on the network.
abbrev are_attached : List String → Dict EgressBindings → Bool
are_attached names [] = true
are_attached names ((_, t) ∷ targets) =
    (not (t.selector == "internal.skupper.io/container") || any (λ (n : String). n == t.name) names)
    && are_attached names targets

attach_targets-are_attached :
    {D : Type 0} (dd : Daemon D) (names : List String) (targets : Dict EgressBindings) (d : D)
    → are_attached names targets ≡ true
    → attach_targets dd names targets d ≡ d
unfolding attach_targets
attach_targets-are_attached dd names [] d h = refl
attach_targets-are_attached dd names ((_, t) ∷ targets) d h =
    ground (arith, attach_targets-are_attached dd names targets d)

delete_unbound-is_named :
    {D : Type 0} (dd : Daemon D) (bindings : Dict ServiceBindings) (proxies : Dict Container)
    (d : D)
    → ((m : String) → is_named m proxies ≡ true → Dict.member m bindings ≡ true)
    → delete_unbound dd bindings proxies d ≡ d
unfolding delete_unbound is_named
delete_unbound-is_named dd bindings [] d h = refl
delete_unbound-is_named dd bindings ((k, v) ∷ proxies) d h = ground (
  arith,
  h (trim_prefix v.name "/"),
  delete_unbound-is_named dd bindings proxies d (λ m e. h m (ground arith)),
)

abbrev IsShort : Dict EgressBindings → Type 0
IsShort [] = Unit
IsShort (t ∷ []) = Unit
IsShort (t ∷ u ∷ ts) = ⊥

-- The same bindings, as another walk over the maps of their targets meets them.
abbrev AreRewalked : Dict ServiceBindings → Dict ServiceBindings → Type 0
AreRewalked [] [] = Unit
AreRewalked [] ((k', b') ∷ bs') = ⊥
AreRewalked ((k, b) ∷ bs) [] = ⊥
AreRewalked ((k, b) ∷ bs) ((k', b') ∷ bs') =
    (k' ≡ k)
    × (b' ≡ record b { targets = b'.targets })
    × Permᴰ b'.targets b.targets
    × AreRewalked bs bs'

-- one target at most
abbrev HasOneTarget : String × ServiceBindings → Type 0
HasOneTarget (_, b) = IsShort b.targets

tail-IsShort :
    (t : String × EgressBindings) (ts : Dict EgressBindings) → IsShort (t ∷ ts) → IsShort ts
tail-IsShort t [] short = tt
tail-IsShort t (u ∷ ts) short = absurd short

-- There is one order only in which one target can be met.
permuted_short : {ts ts' : Dict EgressBindings} → Permᴰ ts' ts → IsShort ts → ts' ≡ ts
permuted_short Permᴰ.nil short = refl
permuted_short (Permᴰ.cons {a} {b} {l₁} {l₂} e p) short =
    ap (λ (t : String × EgressBindings). t ∷ l₁) e
    ∙ ap (λ (l : Dict EgressBindings). b ∷ l) (permuted_short p (tail-IsShort b l₂ short))
permuted_short (Permᴰ.swap e e') short = absurd short
permuted_short (Permᴰ.trans p q) short =
    let same = permuted_short q short in permuted_short p (subst IsShort (sym same) short) ∙ same

rewalked_same :
    (bs bs' : Dict ServiceBindings) → AreRewalked bs bs' → All HasOneTarget bs → bs' ≡ bs
rewalked_same [] [] walked single = refl
rewalked_same [] ((k', b') ∷ bs') walked single = absurd walked
rewalked_same ((k, b) ∷ bs) [] walked single = absurd walked
rewalked_same ((k, b) ∷ bs) ((k', b') ∷ bs') (key, fields, p, walked) (one, single) =
    ap (λ (n : String). (n, b') ∷ bs') key
    ∙ ap (λ (x : ServiceBindings). (k, x) ∷ bs')
        (fields
          ∙ ap (λ (ts : Dict EgressBindings). record b { targets = ts }) (permuted_short p one))
    ∙ ap (λ (r : Dict ServiceBindings). (k, b) ∷ r) (rewalked_same bs bs' walked single)

module _ {D : Type 0} {dd : Daemon D} {find : D → String → Option Held}
    (healthy : IsHealthy dd find) (getenv : String → String) (encode : ServiceInterface → String)
    (marshal : Document → String) where
  -- On a daemon on which no fitting operation fails, where the texts of configurations are not empty
  -- and the value of SKUPPER_TMPDIR does not begin with QDROUTERD_CONF: after `updateProxies` each
  -- address that has bindings, and under which there was no container that is not a proxy, has a
  -- proxy whose environment tells the very configuration that the bindings ask for.
  pub update_proxies-is_current :
      (c : Controller) (b : ServiceBindings) (d : D) (m : String)
      → AreKeyed c.bindings
      → Dict.lookup m c.bindings ≡ some b
      → has_label "skupper.io/application" (find d m) ≡ is_held (find d m)
      → has_prefix (getenv "SKUPPER_TMPDIR") "QDROUTERD_CONF" ≡ false
      → ((document : Document) → (marshal document == "") ≡ false)
      → is_current
          (wanted_config healthy getenv encode marshal c.origin b)
          (find (update_proxies dd getenv encode marshal c d) m)
        ≡ true
  update_proxies-is_current c b d m keyed bound proxy clear nonempty =
      rw (find-update_proxies healthy getenv encode marshal c d m keyed, bound)
        (ensured-is_current getenv encode (as_service_interface b) _ healthy.os_type _ (find d m)
          clear (nonempty _) proxy)

  -- What `updateProxies` has to do for bindings is done.
  abbrev IsSettled : String → List String → D → String × ServiceBindings → Type 0
  IsSettled origin names d (_, b) =
      (is_current (wanted_config healthy getenv encode marshal origin b) (find d b.address) ≡ true)
      × ((if b.origin == "" then are_attached names b.targets else true) ≡ true)

  attach-attached :
      (names : List String) (d : D) (b : ServiceBindings)
      → dd.inspect_network transport_network_name d ≡ ok names
      → (if b.origin == "" then are_attached names b.targets else true) ≡ true
      → attach dd b d ≡ (ok tt, d)
  unfolding attach attach_all
  attach-attached names d b network attached = elim (Bool-cases (b.origin == "")) [
    | inl e ↦ rw (e, network) (ground (arith, attach_targets-are_attached dd names b.targets d))
    | inr e ↦ rw e refl
  ]

  update_proxy-is_current :
      (service : ServiceInterface) (config : String) (c : Held) (d : D)
      → find d service.address ≡ some c
      → is_outdated config c ≡ false
      → (update_proxy dd getenv encode marshal service config d).1 ≡ d
  unfolding update_proxy
  update_proxy-is_current service config c d held current =
      let (j, e, env) = inspected_config healthy d service.address c held in
      rw (e, env) (ground arith)

  ensure_proxy_for-IsSettled :
      (origin : String) (names : List String) (d : D) (k : String) (b : ServiceBindings)
      → dd.inspect_network transport_network_name d ≡ ok names
      → IsSettled origin names d (k, b)
      → (ensure_proxy_for dd getenv encode marshal origin b d).1 ≡ d
  unfolding ensure_proxy_for as_service_interface
  ensure_proxy_for-IsSettled origin names d k b network (current, attached) =
      elim (Option-cases (find d b.address)) [
        | inl e ↦ ground arith
        | inr (c, e) ↦
            let labelled : has_label "skupper.io/application" (some c) ≡ true = ground arith in
            let fresh : is_outdated (wanted_config healthy getenv encode marshal origin b) c
                ≡ false =
              ground arith in
            rw
              (
                attach-attached names d b network attached,
                member-get_proxies healthy b.address d,
                e,
                labelled,
              )
              (update_proxy-is_current (as_service_interface b) _ c d e fresh)
      ]

  ensure_proxies-IsSettled :
      (origin : String) (names : List String) (d : D) (bindings : Dict ServiceBindings)
      → dd.inspect_network transport_network_name d ≡ ok names
      → All (IsSettled origin names d) bindings
      → ensure_proxies dd getenv encode marshal origin bindings d ≡ d
  unfolding ensure_proxies
  ensure_proxies-IsSettled origin names d [] network settled = refl
  ensure_proxies-IsSettled origin names d ((k, b) ∷ bindings) network (one, rest) =
      ap (ensure_proxies dd getenv encode marshal origin bindings)
        (ensure_proxy_for-IsSettled origin names d k b network one)
      ∙ ensure_proxies-IsSettled origin names d bindings network rest

  -- nothing to do, in the order in which the maps are walked
  settled_lem :
      (c : Controller) (names : List String) (d : D)
      → dd.inspect_network transport_network_name d ≡ ok names
      → All (IsSettled c.origin names d) c.bindings
      → ((m : String)
          → has_label "skupper.io/application" (find d m) ≡ true
          → Dict.member m c.bindings ≡ true)
      → update_proxies dd getenv encode marshal c d ≡ d
  unfolding update_proxies
  settled_lem c names d network settled bound =
      rw (ensure_proxies-IsSettled c.origin names d c.bindings network settled) (
        delete_unbound-is_named dd c.bindings (get_proxies dd d) d (λ m e. bound m (
          sym (member-get_proxies healthy m d)
          ∙ sym (is_named-AreNamed m (get_proxies dd d) (get_proxies-AreNamed healthy d))
          ∙ e)))

  -- Nothing is restarted without a reason. The bindings of `c`, with their targets in one order of
  -- Go's maps, each have a proxy whose environment tells the configuration that was written in that
  -- order; the container targets of local bindings are on the network, and every proxy belongs to
  -- bindings. Where no bindings have more than one target, `updateProxies` leaves the daemon exactly as
  -- it was, in whatever order it walks the targets now.
  pub update_proxies-IsSettled :
      (c now : Controller) (names : List String) (d : D)
      → dd.inspect_network transport_network_name d ≡ ok names
      → All (IsSettled c.origin names d) c.bindings
      → ((m : String)
          → has_label "skupper.io/application" (find d m) ≡ true
          → Dict.member m c.bindings ≡ true)
      → now.origin ≡ c.origin
      → AreRewalked c.bindings now.bindings
      → All HasOneTarget c.bindings
      → update_proxies dd getenv encode marshal now d ≡ d
  update_proxies-IsSettled c now names d network settled bound origin walked single =
      let same = rewalked_same c.bindings now.bindings walked single in
      settled_lem now names d network (rw (origin, same) settled)
        (λ (m : String) e. rw same (bound m e))

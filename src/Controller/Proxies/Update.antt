-- ===== src/Controller/Proxies/Update.antt =====
-- `updateProxies` of cmd/service-controller/controller.go on a daemon on which no fitting operation
-- fails.
use skupper_docker.Base.{
  ◌≡◌, refl, ◌∙◌, String, Bool, false, not, ◌&&◌, ◌||◌, Option, none, some, List, [], ◌∷◌, ◌==◌,
  arith, if◌then◌else◌, Bool-cases, inl, inr,
}
use skupper_docker.Base.Text.{trim_prefix}
use skupper_docker.Base.Dict
use skupper_docker.Base.Dict.{Dict}
use skupper_docker.Types.{ServiceInterface}
use skupper_docker.Router.Document.{Document}
use skupper_docker.Docker.Api.{Container}
use skupper_docker.Docker.Daemon.{Daemon, Held, IsHealthy, has_label}
use skupper_docker.Controller.{Controller, ServiceBindings}
use skupper_docker.Controller.Bindings.Keyed.{AreKeyed}
use skupper_docker.Controller.Proxies.{
  index_proxies, get_proxies, proxies_of, ensure_proxies, delete_unbound, update_proxies,
}
use skupper_docker.Controller.Proxies.Ensure.{
  ensured_for, find-ensure_proxy_for, find-delete_proxy, member-get_proxies,
}

-- Each container stands under its name without the slash.
unfoldable pub AreNamed : Dict Container → Type 0
AreNamed [] = Unit
AreNamed ((k, v) ∷ proxies) = (trim_prefix v.name "/" ≡ k) × AreNamed proxies

unfoldable pub is_named : String → Dict Container → Bool
is_named m [] = false
is_named m ((k, v) ∷ proxies) = m == trim_prefix v.name "/" || is_named m proxies

insert-AreNamed :
    (v : Container) (proxies : Dict Container)
    → AreNamed proxies
    → AreNamed (Dict.insert (trim_prefix v.name "/") v proxies)
unfolding AreNamed Dict.insert
insert-AreNamed v [] k = (refl, tt)
insert-AreNamed v ((j, w) ∷ proxies) (at, k) = elim (Bool-cases (trim_prefix v.name "/" == j)) [
  | inl e ↦ rw e (refl, k)
  | inr e ↦ rw e (at, insert-AreNamed v proxies k)
]

index_proxies-AreNamed :
    (l : List Container) (proxies : Dict Container)
    → AreNamed proxies
    → AreNamed (index_proxies l proxies)
unfolding index_proxies
index_proxies-AreNamed [] proxies k = k
index_proxies-AreNamed (c ∷ l) proxies k = index_proxies-AreNamed l _ (insert-AreNamed c proxies k)

pub is_named-AreNamed :
    (m : String) (proxies : Dict Container)
    → AreNamed proxies
    → is_named m proxies ≡ Dict.member m proxies
unfolding AreNamed is_named Dict.lookup
is_named-AreNamed m [] k = refl
is_named-AreNamed m ((j, v) ∷ proxies) (at, k) = ground (arith, is_named-AreNamed m proxies k)

module _ {D : Type 0} {dd : Daemon D} {find : D → String → Option Held}
    (healthy : IsHealthy dd find) where
  pub get_proxies-AreNamed : (d : D) → AreNamed (get_proxies dd d)
  unfolding get_proxies proxies_of AreNamed
  get_proxies-AreNamed d =
      let (l, e, _) = healthy.listed "skupper.io/application" d in
      rw e (index_proxies-AreNamed l [] tt)

  find-delete_unbound :
      (bindings : Dict ServiceBindings) (proxies : Dict Container) (d : D) (m : String)
      → find (delete_unbound dd bindings proxies d) m
        ≡ (if is_named m proxies && not (Dict.member m bindings) then none else find d m)
  unfolding delete_unbound is_named
  find-delete_unbound bindings [] d m = refl
  find-delete_unbound bindings ((_, v) ∷ proxies) d m =
      find-delete_unbound bindings proxies _ m
      ∙ ground (arith, find-delete_proxy healthy (trim_prefix v.name "/") d m)

  module _ (getenv : String → String) (encode : ServiceInterface → String)
      (marshal : Document → String) (origin : String) where
    abbrev ensured_at : Option ServiceBindings → Option Held → Option Held
    ensured_at none held = held
    ensured_at (some b) held = ensured_for healthy getenv encode marshal origin b held

    find-ensure_proxies :
        (bindings : Dict ServiceBindings) (d : D) (m : String)
        → AreKeyed bindings
        → find (ensure_proxies dd getenv encode marshal origin bindings d) m
          ≡ ensured_at (Dict.lookup m bindings) (find d m)
    unfolding ensure_proxies Dict.lookup
    find-ensure_proxies [] d m k = refl
    find-ensure_proxies ((a, b) ∷ bindings) d m (at, fresh, k) =
        find-ensure_proxies bindings _ m k
        ∙ ground (arith, find-ensure_proxy_for healthy getenv encode marshal origin b d m)

  -- what stands under a name after `updateProxies`
  abbrev pub updated_at :
      (String → String)
      → (ServiceInterface → String)
      → (Document → String)
      → String
      → Option ServiceBindings
      → Option Held
      → Option Held
  updated_at getenv encode marshal origin none held =
      if has_label "skupper.io/application" held then none else held
  updated_at getenv encode marshal origin (some b) held =
      ensured_for healthy getenv encode marshal origin b held

  pub find-update_proxies :
      (getenv : String → String) (encode : ServiceInterface → String) (marshal : Document → String)
      (c : Controller) (d : D) (m : String)
      → AreKeyed c.bindings
      → find (update_proxies dd getenv encode marshal c d) m
        ≡ updated_at getenv encode marshal c.origin (Dict.lookup m c.bindings) (find d m)
  unfolding update_proxies
  find-update_proxies getenv encode marshal c d m k =
      let d1 = ensure_proxies dd getenv encode marshal c.origin c.bindings d in
      find-delete_unbound c.bindings (get_proxies dd d1) d1 m
      ∙ rw
          (
            is_named-AreNamed m (get_proxies dd d1) (get_proxies-AreNamed d1),
            member-get_proxies healthy m d1,
            find-ensure_proxies getenv encode marshal c.origin c.bindings d m k,
          )
          (ground arith)

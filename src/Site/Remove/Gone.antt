-- ===== src/Site/Remove/Gone.antt =====
-- What `RouterRemove` of client/router_remove.go leaves.
use skupper_docker.Base.{
  ◌≡◌, refl, subst, ◌∙◌, String, Bool, true, false, ◌||◌, Option, none, List, [], ◌==◌,
  Option-cases, inl, inr, if◌then◌else◌,
}
use skupper_docker.Base.Dict
use skupper_docker.Base.Exec.{ok, is_ok}
use skupper_docker.Errors.{
  controller_not_stopped, controller_not_removed, transport_not_stopped, network_not_removed,
}
use skupper_docker.Types.{transport_deployment_name, controller_deployment_name}
use skupper_docker.Docker.Daemon.{Daemon, Held, CanRemove, HasNetworks, Answered}
use skupper_docker.Docker.Networks.{remove_network, remove_network_lem}
use skupper_docker.Site.Files.{World}
use skupper_docker.Site.Create.{empty_files}
use skupper_docker.Site.Remove.{
  remove_if_there, remove_listed, remove_site_network, remove_containers, remove_files,
  router_remove,
}
use skupper_docker.Site.Remove.Containers.{noted-ok, remove_if_there_lem}
use skupper_docker.Site.Remove.Proxies.{is_proxy_held, remove_listed_lem}

-- whether a container is part of a site: its router, its controller, or a proxy
abbrev pub is_of_site : String → Option Held → Bool
is_of_site m held =
    m == transport_deployment_name || (m == controller_deployment_name || is_proxy_held held)

-- the controller, the proxies and the router go, one after the other
all_gone :
    (held : Option Held) (controller router : Bool)
    → (let first = if controller then none else held in
        let second = if is_proxy_held first then none else first in
        (if router then none else second))
      ≡ (if router || (controller || is_proxy_held held) then none else held)
unfolding Dict.lookup
all_gone held true true = refl
all_gone held true false = refl
all_gone held false true = refl
all_gone held false false = refl

module _ {D : Type 0} {dd : Daemon D} {find : D → String → Option Held}
    {id_of : D → String → String} {members : D → String → Option (List String)}
    (can : CanRemove dd find id_of) (networks : HasNetworks dd find members) where
  remove_site_network_lem :
      (d : D)
      → ((remove_site_network dd d).0 ≡ [])
        × (members (remove_site_network dd d).1 "skupper-network" ≡ none)
        × ((m : String) → find (remove_site_network dd d).1 m ≡ find d m)
  unfolding remove_site_network
  remove_site_network_lem d = elim (Option-cases (members d "skupper-network")) [
    | inl missing ↦
        let refused : is_ok (dd.inspect_network "skupper-network" d) ≡ false =
          subst (λ (o : Option (List String)). Answered o (dd.inspect_network "skupper-network" d))
            missing (networks.answered "skupper-network" d) in
        rw refused (refl, missing, λ (m : String). refl)
    | inr (cs, there) ↦
        let asked : dd.inspect_network "skupper-network" d ≡ ok cs =
          subst (λ (o : Option (List String)). Answered o (dd.inspect_network "skupper-network" d))
            there (networks.answered "skupper-network" d) in
        let (fine, empty, same) = remove_network_lem networks "skupper-network" cs d there in
        rw asked
          (noted-ok network_not_removed (remove_network dd "skupper-network" d).0 fine, empty, same)
  ]

  remove_containers_lem :
      (d : D)
      → ((remove_containers dd d).0 ≡ [])
        × (members (remove_containers dd d).1 "skupper-network" ≡ none)
        × ((m : String)
            → find (remove_containers dd d).1 m
              ≡ (if is_of_site m (find d m) then none else find d m))
  unfolding remove_containers
  remove_containers_lem d =
      let controller =
        remove_if_there_lem can controller_not_stopped controller_not_removed
          controller_deployment_name d in
      let d1 =
        (remove_if_there dd controller_not_stopped controller_not_removed controller_deployment_name
          d).1 in
      let proxies = remove_listed_lem can d1 in
      let d2 = (remove_listed dd (dd.list_containers "skupper.io/component" d1) d1).1 in
      let router =
        remove_if_there_lem can transport_not_stopped controller_not_removed
          transport_deployment_name d2 in
      let d3 =
        (remove_if_there dd transport_not_stopped controller_not_removed transport_deployment_name
          d2).1 in
      let (quiet, gone', same) = remove_site_network_lem d3 in
      (
        rw (controller.0, proxies.0, router.0, quiet) refl,
        gone',
        λ (m : String).
            same m
            ∙ rw (router.1 m, proxies.1 m, controller.1 m)
                (all_gone (find d m) (m == controller_deployment_name)
                  (m == transport_deployment_name)),
      )

  -- On a daemon where containers can be stopped, removed and listed and networks emptied and removed,
  -- and on a file system that can be written, `RouterRemove` returns no error: the containers of the
  -- router and of the controller and all proxies are gone, running or not, every other container is
  -- as before, the network is gone, and so are the files of the site.
  pub router_remove_lem :
      (w : World D)
      → w.files.writable ≡ true
      → ((router_remove dd w).0 ≡ [])
        × ((router_remove dd w).1.files ≡ empty_files)
        × (members (router_remove dd w).1.daemon "skupper-network" ≡ none)
        × ((m : String)
            → find (router_remove dd w).1.daemon m
              ≡ (if is_of_site m (find w.daemon m) then none else find w.daemon m))
  unfolding router_remove remove_files
  router_remove_lem w writes =
      let (quiet, gone', found) = remove_containers_lem w.daemon in
      rw (writes, quiet) (refl, refl, gone', found)

-- ===== src/Site/Remove.antt =====
-- `RouterRemove` of client/router_remove.go. It goes on after an error, and returns all of them.
pub mod Containers
pub mod Proxies
pub mod Gone
pub mod Recreate
mod Tests
use skupper_docker.Base.{
  String, Bool, true, false, Option, none, some, List, [], ◌∷◌, ◌++◌, ◌==◌, if◌then◌else◌,
}
use skupper_docker.Base.Dict
use skupper_docker.Base.Exec.{Result, ok, err, is_ok}
use skupper_docker.Errors.{
  Error, not_writable, controller_not_stopped, controller_not_removed, proxy_not_stopped,
  proxy_not_removed, proxies_not_listed, transport_not_stopped, network_not_removed,
  files_not_removed,
}
use skupper_docker.Types.{transport_deployment_name, controller_deployment_name}
use skupper_docker.Docker.Api.{Container}
use skupper_docker.Docker.Daemon.{Daemon}
use skupper_docker.Docker.Networks.{remove_network}
use skupper_docker.Site.Files.{World}
use skupper_docker.Site.Create.{empty_files}

-- A step that cannot fail, and the errors that it adds to the results.
abbrev Collect : Type 0 → Type 0
Collect S = S → List Error × S

abbrev pub nothing : {S : Type 0} → Collect S
nothing s = ([], s)

-- one step after the other
abbrev pub both : {S : Type 0} → Collect S → Collect S → Collect S
both a b s = let (errors, s') = a s in let (more, s'') = b s' in (errors ++ more, s'')

-- `results = append(results, fmt.Errorf("…: %w", err))`
abbrev pub noted : {A : Type 0} → (Error → Error) → Result Error A → List Error
noted f (ok a) = []
noted f (err e) = f e ∷ []

-- Whether the label `skupper.io/component` says that the container is a proxy.
abbrev pub is_proxy : Option String → Bool
is_proxy none = false
is_proxy (some value) = value == "proxy"

module _ {D : Type 0} (dd : Daemon D) where
  -- what follows a stop
  abbrev then_remove :
      (stop_error remove_error : Error → Error) (name : String)
      → Result Error (Unit {0})
      → Collect D
  then_remove stop_error remove_error name (err e) d = (stop_error e ∷ [], d)
  then_remove stop_error remove_error name (ok _) d =
      let (r, d') = dd.remove_container name d in (noted remove_error r, d')

  pub stop_and_remove : (stop_error remove_error : Error → Error) (name : String) → Collect D
  stop_and_remove stop_error remove_error name d =
      let (r, d') = dd.stop_container name d in then_remove stop_error remove_error name r d'

  pub remove_if_there : (stop_error remove_error : Error → Error) (name : String) → Collect D
  unfolding stop_and_remove
  remove_if_there stop_error remove_error name d =
      if is_ok (dd.inspect_container name d)
      then stop_and_remove stop_error remove_error name d
      else ([], d)

  -- the loop over the containers that were listed
  pub remove_proxies : List Container → Collect D
  remove_proxies [] = nothing
  remove_proxies (c ∷ cs) =
      both
        (λ (d : D).
          if is_proxy (Dict.lookup "skupper.io/component" c.labels)
          then stop_and_remove proxy_not_stopped proxy_not_removed c.id d
          else ([], d))
        (remove_proxies cs)

  abbrev pub remove_listed : Result Error (List Container) → Collect D
  remove_listed (ok containers) d = remove_proxies containers d
  remove_listed (err e) d = (proxies_not_listed e ∷ [], d)

  pub remove_site_network : Collect D
  remove_site_network d =
      if is_ok (dd.inspect_network "skupper-network" d)
      then (let (r, d') = remove_network dd "skupper-network" d in
          (noted network_not_removed r, d'))
      else ([], d)

  -- what is asked of the daemon
  pub remove_containers : Collect D
  unfolding remove_if_there remove_proxies remove_site_network
  remove_containers =
      both
        (remove_if_there controller_not_stopped controller_not_removed controller_deployment_name)
        (both (λ (d : D). remove_listed (dd.list_containers "skupper.io/component" d) d)
          (both
            (remove_if_there transport_not_stopped controller_not_removed transport_deployment_name)
            remove_site_network))

  -- `os.RemoveAll` of the directory of the site
  pub remove_files : Collect (World D)
  remove_files w =
      if w.files.writable
      then ([], record w { files = empty_files })
      else (files_not_removed (not_writable "skupper") ∷ [], w)

  unfoldable pub router_remove : Collect (World D)
  unfolding remove_containers remove_files
  router_remove =
      both
        (λ (w : World D).
          let (errors, d) = remove_containers w.daemon in (errors, record w { daemon = d }))
        remove_files

-- ===== src/Site/Remove/Recreate.antt =====
-- `RouterCreate` and then `RouterRemove`, of client/router_create.go and client/router_remove.go.
use skupper_docker.Base.{
  ◌≡◌, refl, ap, ◌∙◌, String, true, false, Option, none, some, List, [], ◌==◌, if◌then◌else◌,
  Bool-cases, inl, inr, eq→path, str_dec,
}
use skupper_docker.Base.Dict
use skupper_docker.Base.Exec.{ok, is_ok}
use skupper_docker.Types.{
  SiteConfigSpec, transport_network_name, transport_deployment_name, controller_deployment_name,
}
use skupper_docker.Docker.Daemon.{Daemon, Held, CanCreate, CanRemove, HasNetworks, is_held}
use skupper_docker.Site.{Surroundings, RouterSpec, get_router_spec_from_opts}
use skupper_docker.Site.Files.{World}
use skupper_docker.Site.Create.{console_options, pull_images, router_create, empty_files}
use skupper_docker.Site.Create.Started.{with_site, router_create_succeeds}
use skupper_docker.Site.Remove.{router_remove}
use skupper_docker.Site.Remove.Gone.{is_of_site, router_remove_lem}
use skupper_docker.Site.Remove.Proxies.{is_proxy_held}

not_held : (held : Option Held) → is_held held ≡ false → held ≡ none
not_held none h = refl
not_held (some c) h = cc

module _ {D : Type 0} {dd : Daemon D} {find : D → String → Option Held}
    {id_of : D → String → String} {members : D → String → Option (List String)}
    (creates : CanCreate dd find) (can : CanRemove dd find id_of)
    (networks : HasNetworks dd find members) where
  -- what the removal leaves of a site that was created where its names were free
  left :
      (van : RouterSpec) (d : D) (m : String)
      → is_held (find d transport_deployment_name) ≡ false
      → is_held (find d controller_deployment_name) ≡ false
      → (if is_of_site m (with_site van (find d) m) then none else with_site van (find d) m)
        ≡ (if is_proxy_held (find d m) then none else find d m)
  unfolding Dict.lookup str_dec
  left van d m free free' = elim (Bool-cases (m == transport_deployment_name)) [
    | inl same ↦
        rw (eq→path m transport_deployment_name same)
          (rw (not_held (find d transport_deployment_name) free) refl)
    | inr other ↦ elim (Bool-cases (m == controller_deployment_name)) [
      | inl same ↦
          rw (eq→path m controller_deployment_name same)
            (rw (not_held (find d controller_deployment_name) free') refl)
      | inr other' ↦ rw (other, other') refl
    ]
  ]

  -- A site that is created where its names are free, and then removed, leaves every container as it
  -- was but proxies of an earlier site, which are gone; no error is returned. The options are
  -- acceptable, the file system can be written, images are pulled, containers created, started,
  -- stopped, removed and listed, and networks made, emptied and removed.
  pub router_remove-router_create :
      (around : Surroundings) (uid random : String) (given options : SiteConfigSpec) (w : World D)
      (m : String)
      → console_options random given ≡ ok options
      → w.files.writable ≡ true
      → is_ok
          (dd.create_network transport_network_name
            (pull_images dd (get_router_spec_from_opts around options uid) w.daemon).1).0
        ≡ true
      → is_held (find w.daemon transport_deployment_name) ≡ false
      → is_held (find w.daemon controller_deployment_name) ≡ false
      → (let created = router_create dd around uid random given w in
          let removed = router_remove dd created.1 in
          (is_ok created.0 ≡ true)
          × (removed.0 ≡ [])
          × (removed.1.files ≡ empty_files)
          × (find removed.1.daemon m
              ≡ (if is_proxy_held (find w.daemon m) then none else find w.daemon m)))
  router_remove-router_create around uid random given options w m accepted writes network free
        free' =
      let van = get_router_spec_from_opts around options uid in
      let (fine, files, found) =
        router_create_succeeds creates around uid random given options w accepted writes network
          free free' in
      let w' = (router_create dd around uid random given w).1 in
      let (quiet, empty, gone, after) =
        router_remove_lem can networks w' (ap (λ f. f.writable) files) in
      (fine, quiet, empty, after m ∙ rw (found m) (left van w.daemon m free free'))

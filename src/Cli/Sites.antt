-- ===== src/Cli/Sites.antt =====
-- The commands of cmd/skupper-docker/main.go for a site and its connectors: init, delete, status,
-- version, connection-token, connect, disconnect and list-connectors. A command yields the lines that
-- it prints, or what it prints; what a test of the daemon or of the router tells is an argument.
use skupper_docker.Base.{ℕ, String, ◌<>◌, not, List, [], ◌∷◌, ◌==◌, nat_eq, is_empty, if◌then◌else◌}
use skupper_docker.Base.Int.{ℤ, pos, itoa}
use skupper_docker.Base.Dict.{Dict}
use skupper_docker.Base.Exec.{Result, ok, err, Exec, pure, lift, wrap, ◌>>=◌, ◌>>◌}
use skupper_docker.Types.{SiteConfigSpec, TransportConnectedSites}
use skupper_docker.Errors.{
  Error, token_not_created, site_config_not_read, connection_not_created, connection_not_removed,
  connections_not_listed, status_not_read, versions_not_read,
}
use skupper_docker.Router.{Connector}
use skupper_docker.Docker.Daemon.{Daemon}
use skupper_docker.Docker.Images.{get_image_version}
use skupper_docker.Site.{Surroundings}
use skupper_docker.Site.Files.{World, site_config_inspect}
use skupper_docker.Site.Create.{router_create}
use skupper_docker.Site.Remove.{router_remove}
use skupper_docker.Site.Inspect.{RouterInspectResponse, Query, router_inspect}
use skupper_docker.Connectors.{connector_create, connector_remove, connector_list}
use skupper_docker.Connectors.Token.{connector_token_create}
use skupper_docker.Cli.Services.{exact_arg}

-- the first of the errors is returned
abbrev first_error : List Error → Result Error (Unit {0})
first_error [] = ok tt
first_error (e ∷ errors) = err e

connector_lines : List Connector → List String
connector_lines [] = []
connector_lines (c ∷ cs) =
    ("    " <> c.host <> ":" <> c.port <> " (name=" <> c.name <> ")") ∷ connector_lines cs

-- what list-connectors prints
connectors_text : List Connector → List String
unfolding connector_lines
connectors_text cs =
    if is_empty cs
    then "There are no connectors defined." ∷ []
    else "Connectors:" ∷ connector_lines cs

-- the connected sites in the line of the status
unfoldable pub sites_text : TransportConnectedSites → String
sites_text sites =
    if nat_eq sites.total 0
    then " It is not connected to any other sites."
    else if nat_eq sites.total 1
    then " It is connected to 1 other site."
    else if nat_eq sites.total sites.direct
    then " It is connected to " <> itoa (pos sites.total) <> " other sites."
    else " It is connected to "
      <> itoa (pos sites.total)
      <> " other sites ("
      <> itoa (pos sites.indirect)
      <> " indirectly)."

warnings_text : List String → String
warnings_text [] = ""
warnings_text (w ∷ ws) = "Warning: " <> w <> "\n" <> warnings_text ws

services_text : ℕ → String
unfolding itoa
services_text n =
    if nat_eq n 0
    then " It has no exposed services."
    else if nat_eq n 1
    then " It has 1 exposed service."
    else " It has " <> itoa (pos n) <> " exposed services."

-- what status prints
status_text : RouterInspectResponse → String
unfolding sites_text warnings_text services_text
status_text vir =
    "Skupper is enabled "
    <> (if vir.mode == "edge" then " in edge mode" else " in interior mode")
    <> "'."
    <> (if not (vir.state == "running")
        then " Status " <> vir.state <> "..."
        else warnings_text vir.connected_sites.warnings <> sites_text vir.connected_sites)
    <> services_text vir.exposed_services

status_result : Result Error (Unit {0}) × RouterInspectResponse → Result Error String
unfolding status_text
status_result (ok _, vir) = ok (status_text vir)
status_result (err e, vir) = err (status_not_read e)

-- the versions of the transport and of the controller
versions_result : Result Error (Unit {0}) × RouterInspectResponse → Result Error (String × String)
versions_result (ok _, vir) = ok (vir.transport_version, vir.controller_version)
versions_result (err e, vir) = err (versions_not_read e)

module _ {D : Type 0} (dd : Daemon D) where
  unfoldable init_command :
      Surroundings → (uid random : String) → SiteConfigSpec → Exec Error (World D) (Unit {0})
  unfolding router_create
  init_command around uid random options = router_create dd around uid random options

  -- All errors are printed, the first is returned.
  unfoldable delete_command : Exec Error (World D) (Unit {0})
  unfolding router_remove
  delete_command w = let (errors, w') = router_remove dd w in (first_error errors, w')

  -- the annotations of the token, whose file certs.GenerateSecretFile writes
  unfoldable connection_token_command :
      List String → Result Error (Unit {0}) → Exec Error (World D) (Dict String)
  unfolding exact_arg connector_token_create
  connection_token_command args ca = do
    file ← lift (exact_arg args)
    wrap token_not_created (connector_token_create dd ca)

  -- `token` is what is read from a file
  unfoldable connect_command :
      List String
      → (String → Result Error (Dict String))
      → (name : String) → ℤ
      → Exec Error (World D) String
  unfolding exact_arg connector_create
  connect_command args token name cost = do
    file ← lift (exact_arg args)
    wrap site_config_not_read site_config_inspect
    wrap connection_not_created (connector_create dd (token file) name cost)

  unfoldable disconnect_command : List String → Exec Error (World D) String
  unfolding exact_arg connector_remove
  disconnect_command args = do
    name ← lift (exact_arg args)
    wrap connection_not_removed (connector_remove dd name)
    pure ("Connection '" <> name <> "' has been removed")

  unfoldable list_connectors_command : Exec Error (World D) (List String)
  unfolding connector_list connectors_text
  list_connectors_command = do
    connectors ← wrap connections_not_listed (connector_list dd)
    pure (connectors_text connectors)

  unfoldable status_command :
      (String → Result Error (List String)) → Query → World D → Result Error String
  unfolding router_inspect status_result get_image_version
  status_command inspect_image query w =
      status_result (router_inspect dd (get_image_version inspect_image) query w)

  unfoldable version_command :
      (String → Result Error (List String)) → Query → World D → Result Error (String × String)
  unfolding router_inspect versions_result get_image_version
  version_command inspect_image query w =
      versions_result (router_inspect dd (get_image_version inspect_image) query w)

-- ===== src/Connectors.antt =====
-- client/connector_create.go, client/connector_remove.go and client/connector_list.go: the connectors
-- of a site to others. The secret of a connection, which certs.GetSecretContent reads from a token,
-- is an argument: the result of that call.
pub mod Name
pub mod Store
pub mod Forget
pub mod Listing
pub mod Token
pub mod Inspect
mod Tests
use Prim.Native.Char.{code}
use skupper_docker.Base.{
  ℕ, ◌+◌, ◌-◌, String, ◌<>◌, Bool, true, false, ◌&&◌, Option, none, some, List, [], ◌∷◌, ◌==◌, leb,
  if◌then◌else◌, map, not,
}
use skupper_docker.Base.Int.{ℤ, pos, itoa}
use skupper_docker.Base.Text.{strip_prefix}
use skupper_docker.Base.Dict
use skupper_docker.Base.Dict.{Dict}
use skupper_docker.Base.Exec.{
  Result, ok, err, Exec, pure, fail, lift, gets, wrap, wrap_result, refuse_if, ◌>>=◌, ◌>>◌,
}
use skupper_docker.Errors.{
  Error, no_such_file, not_writable, no_transport, file_exists, connector_not_made,
  no_secret_origin, site_not_read, connection_to_self, connectors_not_read, connector_not_stored,
  router_config_not_read, router_config_not_written, router_not_restarted, controller_not_restarted,
  proxies_not_listed, proxy_not_restarted, connector_not_removed,
}
use skupper_docker.Types.{ServiceInterface, SiteConfig, controller_deployment_name}
use skupper_docker.Router.{
  Connector, RouterConfig, connector_zero, ssl_profile_named, is_edge, add_connector,
  remove_connector, add_conn_ssl_profile, remove_conn_ssl_profile,
}
use skupper_docker.Service.Client.{service_interface_list}
use skupper_docker.Docker.Api.{ContainerJson}
use skupper_docker.Docker.Daemon.{Daemon}
use skupper_docker.Docker.Containers.{restart_transport_container}
use skupper_docker.Connectors.Name.{generate_connector_name}
use skupper_docker.Site.Files.{
  Files, World, on_daemon, as_host, get_router_config_from_file, write_to_config_file,
  site_config_inspect,
}

-- the name of the file in which an entry of a secret is stored
abbrev pub secret_file : String → String
secret_file k = if k == "skupper.io/generated-by" then "generated-by" else k

pub secret_files : Dict String → Dict String → Dict String
secret_files [] stored = stored
secret_files ((k, v) ∷ secret) stored = secret_files secret (Dict.insert (secret_file k) v stored)

-- the contents of a file, empty if it cannot be read
abbrev content : String → Dict String → String
content name stored = elim (Dict.lookup name stored) [ none ↦ "" | some text ↦ text ]

-- the connector for the stored files of a connection
pub connector_of : Bool → String → ℤ → Dict String → Connector
connector_of edge name cost stored = record connector_zero {
  name = name;
  cost = cost;
  ssl_profile = name <> "-profile";
  host = content (if edge then "edge-host" else "inter-router-host") stored;
  port = content (if edge then "edge-port" else "inter-router-port") stored;
  role = if edge then "edge" else "inter-router";
}

pub with_connector : String → ℤ → Dict String → RouterConfig → RouterConfig
unfolding add_connector add_conn_ssl_profile is_edge connector_of
with_connector name cost stored current =
    let profiled = add_conn_ssl_profile (ssl_profile_named (name <> "-profile")) current in
    add_connector (connector_of (is_edge profiled) name cost stored) profiled

-- a connector as `ConnectorList` tells it
pub listed_connector : Bool → String × Dict String → Connector
listed_connector edge (name, stored) = record connector_zero {
  name = name;
  host = content (if edge then "edge-host" else "inter-router-host") stored;
  port = content (if edge then "edge-port" else "inter-router-port") stored;
  role = if edge then "edge" else "inter-router";
}

module _ {D : Type 0} (dd : Daemon D) where
  abbrev connections_of : World D → Option (Dict (Dict String))
  connections_of w = w.files.connections

  -- ioutil.ReadDir of the directory of the connections
  read_connections : Option (Dict (Dict String)) → Result Error (Dict (Dict String))
  read_connections none = err (no_such_file "connections")
  read_connections (some connections) = ok connections

  connector_name : String → Exec Error (World D) String
  unfolding read_connections generate_connector_name
  connector_name name w =
      if name == ""
      then (do
        found ← gets connections_of
        connections ← lift (wrap_result connectors_not_read (read_connections found))
        pure (generate_connector_name (Dict.keys connections)))
          w
      else (ok name, w)

  -- os.Mkdir of the directory of a connection
  make_directory_in : Option (Dict (Dict String)) → String → Exec Error (World D) (Unit {0})
  make_directory_in none name w = (err (no_such_file name), w)
  make_directory_in (some connections) name w =
      if Dict.member name connections
      then (err (file_exists name), w)
      else if w.files.writable
      then (
        ok tt,
        record w {
          files = record w.files { connections = some (Dict.insert name [] connections) };
        },
      )
      else (err (not_writable name), w)

  make_directory : String → Exec Error (World D) (Unit {0})
  unfolding make_directory_in
  make_directory name w = make_directory_in w.files.connections name w

  -- the loop that writes the entries of a secret into the new directory
  write_secret_in :
      Option (Dict (Dict String)) → String → Dict String → Exec Error (World D) (Unit {0})
  unfolding secret_files
  write_secret_in none name secret w = (err (no_such_file name), w)
  write_secret_in (some connections) name secret w =
      if w.files.writable
      then (
        ok tt,
        record w {
          files = record w.files {
            connections = some (Dict.insert name (secret_files secret []) connections);
          };
        },
      )
      else (err (not_writable name), w)

  write_secret : String → Dict String → Exec Error (World D) (Unit {0})
  unfolding write_secret_in
  write_secret name secret w = write_secret_in w.files.connections name secret w

  restart_all : List ServiceInterface → Exec Error D (Unit {0})
  restart_all [] = pure tt
  restart_all (vs ∷ vsis) = do
    wrap proxy_not_restarted (dd.restart_container vs.address)
    restart_all vsis

  restart_proxies : Exec Error (World D) (Unit {0})
  unfolding restart_all service_interface_list
  restart_proxies = do
    host ← gets (as_host dd)
    vsis ← lift (wrap_result proxies_not_listed (service_interface_list host).0)
    on_daemon (restart_all vsis)

  restart_router : Exec Error (World D) (Unit {0})
  unfolding restart_transport_container
  restart_router = wrap router_not_restarted (on_daemon (restart_transport_container dd))

  restart_controller : Exec Error (World D) (Unit {0})
  restart_controller =
      wrap controller_not_restarted (on_daemon (dd.restart_container controller_deployment_name))

  -- What the creation and the removal of a connector end with.
  pub restart_site : Exec Error (World D) (Unit {0})
  unfolding restart_router restart_controller restart_proxies
  restart_site = do restart_router; restart_controller; restart_proxies

  -- The directory is new: the files that are read back for the connector are those of the secret.
  store_config : String → ℤ → Dict String → Exec Error (World D) (Unit {0})
  unfolding write_secret get_router_config_from_file write_to_config_file with_connector
      secret_files
  store_config name cost secret = do
    wrap connector_not_stored (write_secret name secret)
    current ← wrap router_config_not_read get_router_config_from_file
    wrap router_config_not_written
        (write_to_config_file (with_connector name cost (secret_files secret []) current))

  store_connector : String → ℤ → Dict String → Exec Error (World D) (Unit {0})
  unfolding make_directory store_config
  store_connector name cost secret = do
    wrap connector_not_stored (make_directory name)
    store_config name cost secret

  -- the origin of a secret
  required : Option String → Result Error String
  required none = err no_secret_origin
  required (some origin) = ok origin

  find_router : Exec Error (World D) ContainerJson
  find_router w = (wrap_result no_transport (dd.inspect_container "skupper-router" w.daemon), w)

  -- the checks of `ConnectorCreate` up to the name
  check_secret : Result Error (Dict String) → Exec Error (World D) (Dict String)
  unfolding find_router required site_config_inspect
  check_secret token = do
    secret ← lift (wrap_result connector_not_made token)
    find_router
    origin ← lift (required (Dict.lookup "skupper.io/generated-by" secret))
    site ← wrap site_not_read site_config_inspect
    refuse_if (site.uid == origin) connection_to_self
    pure secret

  create_named : String → ℤ → Dict String → Exec Error (World D) String
  unfolding store_connector restart_site
  create_named name cost secret = do store_connector name cost secret; restart_site; pure name

  unfoldable pub connector_create :
      Result Error (Dict String) → String → ℤ → Exec Error (World D) String
  unfolding check_secret connector_name create_named
  connector_create token name cost = do
    secret ← check_secret token
    chosen ← connector_name name
    create_named chosen cost secret

  -- os.RemoveAll of the directory of a connection
  remove_directory_in : Option (Dict (Dict String)) → String → Exec Error (World D) (Unit {0})
  remove_directory_in none name w = (ok tt, w)
  remove_directory_in (some connections) name w =
      if not (Dict.member name connections)
      then (ok tt, w)
      else if w.files.writable
      then (
        ok tt,
        record w { files = record w.files { connections = some (Dict.erase name connections) } },
      )
      else (err (not_writable name), w)

  remove_directory : String → Exec Error (World D) (Unit {0})
  unfolding remove_directory_in
  remove_directory name w = remove_directory_in w.files.connections name w

  forget_connector : String → RouterConfig → Exec Error (World D) (Unit {0})
  unfolding remove_directory write_to_config_file remove_conn_ssl_profile
  forget_connector name current = do
    wrap connector_not_removed (remove_directory name)
    wrap router_config_not_written (write_to_config_file (remove_conn_ssl_profile name current).1)

  -- `RemoveConnector`, and what follows if the connector was found
  forget_if_found : String → Bool × RouterConfig → Exec Error (World D) (Unit {0})
  unfolding forget_connector
  forget_if_found name (true, current) = forget_connector name current
  forget_if_found name (false, current) = pure tt

  unfoldable pub connector_remove : String → Exec Error (World D) (Unit {0})
  unfolding find_router get_router_config_from_file remove_connector forget_if_found restart_site
  connector_remove name = do
    find_router
    current ← wrap router_config_not_read get_router_config_from_file
    forget_if_found name (remove_connector name current)
    restart_site

  unfoldable pub connector_list : Exec Error (World D) (List Connector)
  unfolding find_router get_router_config_from_file is_edge read_connections listed_connector
  connector_list = do
    find_router
    current ← wrap router_config_not_read get_router_config_from_file
    found ← gets connections_of
    connections ← lift (wrap_result connectors_not_read (read_connections found))
    pure (map (listed_connector (is_edge current)) connections)

-- ===== src/Connectors/Inspect.antt =====
-- client/connector_inspect.go: a connector and whether it is connected. The connections that the
-- router tells of, the result of qdr.GetConnections, are an argument.
use skupper_docker.Base.{
  ◌≡◌, refl, ap, ◌∙◌, String, ◌<>◌, Bool, false, Option, none, some, List, [], if◌then◌else◌, arith,
}
use skupper_docker.Base.Int.{ℤ}
use skupper_docker.Base.Dict
use skupper_docker.Base.Dict.{Dict}
use skupper_docker.Base.Exec.{Result, ok, err, Exec, lift, wrap_result, ◌>>=◌, ◌>>◌}
use skupper_docker.Errors.{
  Error, no_such_file, no_transport, router_config_not_read, token_files_not_read,
  connections_not_read,
}
use skupper_docker.Router.{
  Connector, RouterConfig, connector_zero, is_edge, add_connector, add_conn_ssl_profile,
}
use skupper_docker.Router.Document.{marshal_router_config}
use skupper_docker.Router.Document.Roundtrip.{IsKeyed}
use skupper_docker.Docker.Api.{ContainerJson}
use skupper_docker.Docker.Daemon.{Daemon}
use skupper_docker.Network.{Connection, get_inter_router_or_edge_connection}
use skupper_docker.Site.Files.{Files, World, get_router_config_from_file}
use skupper_docker.Connectors.{secret_files, connector_of, with_connector}
use skupper_docker.Connectors.Store.{with_connection}
use skupper_docker.Connectors.Forget.{read_back, with_connector-IsKeyed}

pub record ConnectorInspectResponse : Type 0 where
  pub connector : Option Connector
  pub connected : Bool

abbrev nothing_inspected : ConnectorInspectResponse
nothing_inspected = record { connector = none; connected = false }

present : String → Option String → Result Error String
present file none = err (no_such_file file)
present file (some text) = ok text

read_in : Option (Dict String) → String → Result Error String
unfolding present
read_in none file = err (no_such_file file)
read_in (some stored) file = present file (Dict.lookup file stored)

-- ioutil.ReadFile of a file of a connection
read_file : Option (Dict (Dict String)) → String → String → Result Error String
unfolding read_in
read_file none name file = err (no_such_file file)
read_file (some connections) name file = read_in (Dict.lookup name connections) file

-- whether there is a connection, and it is active
abbrev pub is_active : Option Connection → Bool
is_active none = false
is_active (some c) = c.active

abbrev pub inspected : Bool → String → String → String → Connector
inspected edge name host port = record connector_zero {
  name = name;
  host = host;
  port = port;
  role = if edge then "edge" else "inter-router";
}

abbrev put :
    (ConnectorInspectResponse → ConnectorInspectResponse)
    → Exec Error ConnectorInspectResponse (Unit {0})
put f vci = (ok tt, f vci)

abbrev host_file : Bool → String
host_file edge = if edge then "edge-host" else "inter-router-host"

abbrev port_file : Bool → String
port_file edge = if edge then "edge-port" else "inter-router-port"

-- The error and the response, which holds what was found before an error.
unfoldable pub connector_inspect :
    {D : Type 0}
    → Daemon D
    → Result Error (List Connection)
    → String
    → World D
    → Result Error (Unit {0}) × ConnectorInspectResponse
unfolding get_router_config_from_file is_edge read_file get_inter_router_or_edge_connection
connector_inspect dd connections name w =
    (do
      router ← lift (wrap_result no_transport (dd.inspect_container "skupper-router" w.daemon))
      current ← lift (wrap_result router_config_not_read (get_router_config_from_file w).0)
      host ← lift (
          wrap_result token_files_not_read
            (read_file w.files.connections name (host_file (is_edge current))))
      port ← lift (
          wrap_result token_files_not_read
            (read_file w.files.connections name (port_file (is_edge current))))
      put (λ (vci : ConnectorInspectResponse). record vci {
        connector = some (inspected (is_edge current) name host port);
      })
      told ← lift (wrap_result connections_not_read connections)
      put (λ (vci : ConnectorInspectResponse). record vci {
        connected = is_active (get_inter_router_or_edge_connection (host <> ":" <> port) told);
      }))
      nothing_inspected

read_file-stored :
    (name file text : String) (cs : Dict (Dict String)) (stored : Dict String)
    → Dict.lookup file stored ≡ some text
    → read_file (some (Dict.insert name stored cs)) name file ≡ ok text
unfolding read_file read_in present
read_file-stored name file text cs stored h =
    rw (Dict.lookup-insert name name stored cs) (ground arith)

connector_of-host :
    (edge : Bool) (name text : String) (cost : ℤ) (stored : Dict String)
    → Dict.lookup (host_file edge) stored ≡ some text
    → (connector_of edge name cost stored).host ≡ text
unfolding connector_of
connector_of-host edge name text cost stored h = ground arith

connector_of-port :
    (edge : Bool) (name text : String) (cost : ℤ) (stored : Dict String)
    → Dict.lookup (port_file edge) stored ≡ some text
    → (connector_of edge name cost stored).port ≡ text
unfolding connector_of
connector_of-port edge name text cost stored h = ground arith

module _ {D : Type 0} (dd : Daemon D) where
  connector_inspect-ok :
      (j : ContainerJson) (name host port : String) (cs : Dict (Dict String)) (stored : Dict String)
      (r : RouterConfig) (told : List Connection) (w : World D)
      → dd.inspect_container "skupper-router" w.daemon ≡ ok j
      → w.files.router_config ≡ some (marshal_router_config r)
      → IsKeyed r
      → w.files.connections ≡ some (Dict.insert name stored cs)
      → Dict.lookup (host_file (is_edge r)) stored ≡ some host
      → Dict.lookup (port_file (is_edge r)) stored ≡ some port
      → connector_inspect dd (ok told) name w ≡ (
        ok tt,
        record {
          connector = some (inspected (is_edge r) name host port);
          connected = is_active (get_inter_router_or_edge_connection (host <> ":" <> port) told);
        },
      )
  unfolding connector_inspect get_router_config_from_file
  connector_inspect-ok j name host port cs stored r told w there config keyed held host_there
        port_there =
      rw
        (
          there,
          read_back dd r w.files.router_config config keyed,
          held,
          read_file-stored name (host_file (is_edge r)) host cs stored host_there,
          read_file-stored name (port_file (is_edge r)) port cs stored port_there,
        )
        refl

  -- Where the files are as `ConnectorCreate` leaves them, the secret has the host and the port for the
  -- mode of the site, the router is there and tells of its connections: `ConnectorInspect` succeeds,
  -- tells the host, the port and the role that the configuration of the router has for the connector,
  -- and calls it connected exactly if the connection that is found to that host and port is active.
  pub connector_inspect-with_connection :
      (j : ContainerJson) (name host port : String) (cost : ℤ) (secret : Dict String)
      (cs : Dict (Dict String)) (r : RouterConfig) (told : List Connection) (files : Files)
      (w : World D)
      → dd.inspect_container "skupper-router" w.daemon ≡ ok j
      → IsKeyed r
      → w.files ≡ with_connection name cost secret cs r files
      → Dict.lookup (host_file (is_edge r)) (secret_files secret []) ≡ some host
      → Dict.lookup (port_file (is_edge r)) (secret_files secret []) ≡ some port
      → (c : Connector) × (Dict.lookup name
            (with_connector name cost (secret_files secret []) r).connectors
          ≡ some c)
        × (connector_inspect dd (ok told) name w ≡ (
          ok tt,
          record {
            connector = some (record connector_zero {
              name = name;
              host = c.host;
              port = c.port;
              role = c.role;
            });
            connected =
                is_active (get_inter_router_or_edge_connection (c.host <> ":" <> c.port) told);
          },
        ))
  unfolding with_connector add_connector add_conn_ssl_profile connector_of
  connector_inspect-with_connection j name host port cost secret cs r told files w there keyed
        stored host_there port_there =
      let texts = secret_files secret [] in
      let c = connector_of (is_edge r) name cost texts in
      let host_same : c.host ≡ host =
        connector_of-host (is_edge r) name host cost texts host_there in
      let port_same : c.port ≡ port =
        connector_of-port (is_edge r) name port cost texts port_there in
      (
        c,
        Dict.lookup-insert name name c r.connectors ∙ ground arith,
        connector_inspect-ok j name host port (Dict.insert name [] cs) texts
              (with_connector name cost texts r) told w there
              (ap (λ (f : Files). f.router_config) stored)
              (with_connector-IsKeyed name cost texts r keyed)
              (ap (λ (f : Files). f.connections) stored) host_there port_there
            ∙ rw (host_same, port_same) refl,
      )

-- ===== src/Connectors/Listing.antt =====
-- `ConnectorList` of client/connector_list.go after `ConnectorCreate`.
use skupper_docker.Base.{◌≡◌, refl, ap, ◌∙◌, String, true, some, [], arith, map, inl, inr}
use skupper_docker.Base.Int.{ℤ}
use skupper_docker.Base.Dict
use skupper_docker.Base.Dict.{Dict}
use skupper_docker.Base.Exec.{ok, is_ok, Result-cases}
use skupper_docker.Router.{Connector, RouterConfig, is_edge, add_connector, add_conn_ssl_profile}
use skupper_docker.Router.Document.{marshal_router_config}
use skupper_docker.Router.Document.Roundtrip.{IsKeyed}
use skupper_docker.Docker.Daemon.{Daemon}
use skupper_docker.Site.Files.{Files, World, get_router_config_from_file}
use skupper_docker.Connectors.{
  secret_files, connector_of, with_connector, find_router, read_connections, listed_connector,
  connector_list,
}
use skupper_docker.Connectors.Store.{with_connection}
use skupper_docker.Connectors.Forget.{read_back, with_connector-IsKeyed}

with_connector-is_edge :
    (name : String) (cost : ℤ) (stored : Dict String) (r : RouterConfig)
    → is_edge (with_connector name cost stored r) ≡ is_edge r
unfolding with_connector add_connector add_conn_ssl_profile is_edge
with_connector-is_edge name cost stored r = refl

module _ {D : Type 0} (dd : Daemon D) where
  connector_list-ok :
      (cs : Dict (Dict String)) (r : RouterConfig) (w : World D)
      → is_ok (dd.inspect_container "skupper-router" w.daemon) ≡ true
      → w.files.connections ≡ some cs
      → w.files.router_config ≡ some (marshal_router_config r)
      → IsKeyed r
      → (connector_list dd w).0 ≡ ok (map (listed_connector (is_edge r)) cs)
  unfolding connector_list find_router get_router_config_from_file read_connections
  connector_list-ok cs r w there held config keyed =
      elim (Result-cases (dd.inspect_container "skupper-router" w.daemon)) [
        | inl (j, router) ↦
            rw (router, read_back dd r w.files.router_config config keyed, held) refl
        | inr (e, missing) ↦ ground arith
      ]

  -- Where the files are as `ConnectorCreate` leaves them and the router is there, `ConnectorList`
  -- tells of each directory of a connection, and of the new connector the same host, port and role as
  -- the configuration of the router has for it.
  connector_list-with_connection :
      (name : String) (cost : ℤ) (secret : Dict String) (cs : Dict (Dict String)) (r : RouterConfig)
      (files : Files) (w : World D)
      → is_ok (dd.inspect_container "skupper-router" w.daemon) ≡ true
      → IsKeyed r
      → w.files ≡ with_connection name cost secret cs r files
      → (c : Connector) × (Dict.lookup name
            (with_connector name cost (secret_files secret []) r).connectors
          ≡ some c)
        × ((connector_list dd w).0
            ≡ ok (
                map
                  (listed_connector (is_edge r))
                  (Dict.insert name (secret_files secret []) (Dict.insert name [] cs))))
        × (c.host ≡ (listed_connector (is_edge r) (name, secret_files secret [])).host)
        × (c.port ≡ (listed_connector (is_edge r) (name, secret_files secret [])).port)
        × (c.role ≡ (listed_connector (is_edge r) (name, secret_files secret [])).role)
  unfolding with_connector add_connector add_conn_ssl_profile is_edge connector_of listed_connector
  connector_list-with_connection name cost secret cs r files w there keyed stored =
      let texts = secret_files secret [] in
      (
        connector_of (is_edge r) name cost texts,
        Dict.lookup-insert name name (connector_of (is_edge r) name cost texts) r.connectors
            ∙ ground arith,
        connector_list-ok (Dict.insert name texts (Dict.insert name [] cs))
            (with_connector name cost texts r) w there (ap (λ (f : Files). f.connections) stored)
            (ap (λ (f : Files). f.router_config) stored)
            (with_connector-IsKeyed name cost texts r keyed),
        refl,
        refl,
        refl,
      )

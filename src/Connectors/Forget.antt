-- ===== src/Connectors/Forget.antt =====
-- `ConnectorRemove` of client/connector_remove.go after `ConnectorCreate`.
use skupper_docker.Base.{
  ◌≡◌, refl, ap, ◌∙◌, String, ◌<>◌, Bool, true, false, Option, none, some, [], ◌==◌, arith, inl,
  inr,
}
use skupper_docker.Base.Int.{ℤ}
use skupper_docker.Base.Dict
use skupper_docker.Base.Dict.{Dict}
use skupper_docker.Base.Exec.{ok, is_ok, Result-cases}
use skupper_docker.Types.{SiteConfig}
use skupper_docker.Router.{
  RouterConfig, add_connector, add_conn_ssl_profile, remove_connector, remove_conn_ssl_profile,
}
use skupper_docker.Router.Document.{Document, marshal_router_config}
use skupper_docker.Router.Document.Roundtrip.{IsKeyed, unmarshal-marshal}
use skupper_docker.Router.Edit.{edit, edit-IsKeyed, connector, conn_ssl_profile}
use skupper_docker.Docker.Daemon.{Daemon}
use skupper_docker.Site.Files.{
  Files, World, get_router_config_from_file, write_to_config_file, read_config,
}
use skupper_docker.Connectors.{
  secret_files, connector_of, with_connector, find_router, remove_directory_in, remove_directory,
  forget_connector, forget_if_found, connector_remove, connector_create,
}
use skupper_docker.Connectors.Store.{with_connection, connector_create-files, restart_site-files}

-- the configuration without a connector and its profile
abbrev pub without_connector : String → RouterConfig → RouterConfig
without_connector name r = (remove_conn_ssl_profile name (remove_connector name r).1).1

module _ {D : Type 0} (dd : Daemon D) where
  remove_directory-ok :
      (name : String) (cs : Dict (Dict String)) (w : World D)
      → w.files.connections ≡ some cs
      → Dict.member name cs ≡ true
      → w.files.writable ≡ true
      → remove_directory dd name w
        ≡ (ok tt, record w { files = record w.files { connections = some (Dict.erase name cs) } })
  unfolding remove_directory remove_directory_in
  remove_directory-ok name cs w held there writes =
      ap (λ (o : Option (Dict (Dict String))). remove_directory_in dd o name w) held ∙ ground arith

  forget_connector-ok :
      (name : String) (cs : Dict (Dict String)) (r : RouterConfig) (w : World D)
      → w.files.connections ≡ some cs
      → Dict.member name cs ≡ true
      → w.files.writable ≡ true
      → forget_connector dd name r w ≡ (
        ok tt,
        record w {
          files = record w.files {
            connections = some (Dict.erase name cs);
            router_config = some (marshal_router_config (remove_conn_ssl_profile name r).1);
          };
        },
      )
  unfolding forget_connector write_to_config_file
  forget_connector-ok name cs r w held there writes =
      rw (remove_directory-ok name cs w held there writes, writes) refl

  pub read_back :
      (r : RouterConfig) (o : Option Document)
      → o ≡ some (marshal_router_config r)
      → IsKeyed r
      → read_config o ≡ ok r
  unfolding read_config
  read_back r o config keyed = rw (config, unmarshal-marshal r keyed) refl

  forget_if_found-ok :
      (name : String) (removed : Bool × RouterConfig) (w : World D)
      → removed.0 ≡ true
      → forget_if_found dd name removed w ≡ forget_connector dd name removed.1 w
  unfolding forget_if_found
  forget_if_found-ok name (true, r) w h = refl
  forget_if_found-ok name (false, r) w h = cc

  -- Where the router is there, a connector of the configuration is removed with its profile and its
  -- directory, whatever becomes of the restarts; no other file of the site changes.
  connector_remove-files :
      (name : String) (cs : Dict (Dict String)) (r : RouterConfig) (w : World D)
      → is_ok (dd.inspect_container "skupper-router" w.daemon) ≡ true
      → w.files.connections ≡ some cs
      → Dict.member name cs ≡ true
      → w.files.writable ≡ true
      → w.files.router_config ≡ some (marshal_router_config r)
      → IsKeyed r
      → (remove_connector name r).0 ≡ true
      → (connector_remove dd name w).1.files ≡ record w.files {
        connections = some (Dict.erase name cs);
        router_config = some (marshal_router_config (without_connector name r));
      }
  unfolding connector_remove find_router get_router_config_from_file
  connector_remove-files name cs r w there held stored writes config keyed found =
      elim (Result-cases (dd.inspect_container "skupper-router" w.daemon)) [
        | inl (j, router) ↦
            let forgotten : forget_if_found dd name (remove_connector name r) w ≡ (
              ok tt,
              record w {
                files = record w.files {
                  connections = some (Dict.erase name cs);
                  router_config = some (marshal_router_config (without_connector name r));
                };
              },
            ) =
              forget_if_found-ok name (remove_connector name r) w found
              ∙ forget_connector-ok name cs (remove_connector name r).1 w held stored writes in
            rw (router, read_back r w.files.router_config config keyed, forgotten)
              (restart_site-files dd _)
        | inr (e, missing) ↦ ground arith
      ]

pub with_connector-IsKeyed :
    (name : String) (cost : ℤ) (stored : Dict String) (r : RouterConfig)
    → IsKeyed r
    → IsKeyed (with_connector name cost stored r)
unfolding with_connector edit
with_connector-IsKeyed name cost stored r k =
    edit-IsKeyed (connector _) _ (edit-IsKeyed (conn_ssl_profile _) r k)

remove_connector-with_connector :
    (name : String) (cost : ℤ) (stored : Dict String) (r : RouterConfig)
    → (remove_connector name (with_connector name cost stored r)).0 ≡ true
unfolding remove_connector with_connector add_connector connector_of
remove_connector-with_connector name cost stored r = grind (arith, Dict.lookup-insert)

without_connector-lookups :
    (name : String) (cost : ℤ) (stored : Dict String) (r : RouterConfig) (m : String)
    → Dict.lookup name r.connectors ≡ none
    → Dict.lookup (name <> "-profile") r.ssl_profiles ≡ none
    → (Dict.lookup m (without_connector name (with_connector name cost stored r)).connectors
        ≡ Dict.lookup m r.connectors)
      × (Dict.lookup m (without_connector name (with_connector name cost stored r)).ssl_profiles
          ≡ Dict.lookup m r.ssl_profiles)
unfolding remove_connector remove_conn_ssl_profile with_connector add_connector add_conn_ssl_profile
    connector_of
without_connector-lookups name cost stored r m unconnected unprofiled = (
  grind (arith, Dict.lookup-insert, Dict.lookup-erase),
  grind (arith, Dict.lookup-insert, Dict.lookup-erase),
)

removed_connections :
    {V : Type 0} (name : String) (empty stored : V) (cs : Dict V) (m : String)
    → Dict.lookup name cs ≡ none
    → Dict.lookup m (Dict.erase name (Dict.insert name stored (Dict.insert name empty cs)))
      ≡ Dict.lookup m cs
removed_connections name empty stored cs m fresh =
    grind (arith, Dict.lookup-insert, Dict.lookup-erase)

stored_connection :
    {V : Type 0} (name : String) (stored : V) (cs : Dict V)
    → Dict.member name (Dict.insert name stored cs) ≡ true
stored_connection name stored cs = grind (arith, Dict.lookup-insert)

-- A connector that `ConnectorCreate` made under a free name, and `ConnectorRemove` removes, leaves no
-- trace: the connections, the connectors and the profiles are found as before both, and no other file
-- of the site has changed. Between the two the daemon may do as it likes, as long as the router is
-- there for the removal.
pub connector_remove-connector_create :
    {D : Type 0} (dd : Daemon D) (secret : Dict String) (origin name : String) (cost : ℤ)
    (site : SiteConfig) (cs : Dict (Dict String)) (r : RouterConfig) (w v : World D)
    → is_ok (dd.inspect_container "skupper-router" w.daemon) ≡ true
    → Dict.lookup "skupper.io/generated-by" secret ≡ some origin
    → w.files.site_config ≡ ok site
    → (site.uid == origin) ≡ false
    → (name == "") ≡ false
    → w.files.connections ≡ some cs
    → Dict.lookup name cs ≡ none
    → w.files.writable ≡ true
    → w.files.router_config ≡ some (marshal_router_config r)
    → IsKeyed r
    → Dict.lookup name r.connectors ≡ none
    → Dict.lookup (name <> "-profile") r.ssl_profiles ≡ none
    → v.files ≡ (connector_create dd (ok secret) name cost w).1.files
    → is_ok (dd.inspect_container "skupper-router" v.daemon) ≡ true
    → (cs' : Dict (Dict String)) × (r' : RouterConfig) × ((connector_remove dd name v).1.files
        ≡ record w.files {
          connections = some cs';
          router_config = some (marshal_router_config r');
        })
      × ((m : String)
          → (Dict.lookup m cs' ≡ Dict.lookup m cs)
            × (Dict.lookup m r'.connectors ≡ Dict.lookup m r.connectors)
            × (Dict.lookup m r'.ssl_profiles ≡ Dict.lookup m r.ssl_profiles))
connector_remove-connector_create dd secret origin name cost site cs r w v there generated read
      other named held fresh writes config keyed unconnected unprofiled between still =
    let stored = secret_files secret [] in
    let files : v.files ≡ with_connection name cost secret cs r w.files =
      between
      ∙ connector_create-files dd secret origin name cost site cs r w there generated read other
          named held fresh writes config keyed in
    let inserted = Dict.insert name stored (Dict.insert name [] cs) in
    (
      Dict.erase name inserted,
      without_connector name (with_connector name cost stored r),
      connector_remove-files dd name inserted (with_connector name cost stored r) v still
            (ap (λ (f : Files). f.connections) files)
            (stored_connection name stored (Dict.insert name [] cs))
            (ap (λ (f : Files). f.writable) files ∙ writes)
            (ap (λ (f : Files). f.router_config) files)
            (with_connector-IsKeyed name cost stored r keyed)
            (remove_connector-with_connector name cost stored r)
          ∙ ap
              (λ (f : Files). record f {
                connections = some (Dict.erase name inserted);
                router_config = some (
                    marshal_router_config
                      (without_connector name (with_connector name cost stored r)));
              })
              files,
      λ (m : String).
          let (same, profiles) =
            without_connector-lookups name cost stored r m unconnected unprofiled in
          (removed_connections name [] stored cs m fresh, same, profiles),
    )

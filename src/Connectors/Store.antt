-- ===== src/Connectors/Store.antt =====
-- What `ConnectorCreate` and `ConnectorRemove` of client/connector_create.go and
-- client/connector_remove.go leave in the files of a site.
use skupper_docker.Base.{
  ◌≡◌, refl, ap, sym, ◌∙◌, String, true, false, Option, none, some, List, [], ◌==◌, any, arith, inl,
  inr, subst, str_dec,
}
use skupper_docker.Base.Int.{ℤ}
use skupper_docker.Base.Dict
use skupper_docker.Base.Dict.{Dict}
use skupper_docker.Base.Exec.{
  Result, ok, err, Exec, is_ok, Result-cases, ◌>>=◌, ◌>>◌, continue, wrap_result,
}
use skupper_docker.Errors.{Error, proxies_not_listed, file_exists}
use skupper_docker.Types.{ServiceInterface, SiteConfig}
use skupper_docker.Router.{RouterConfig}
use skupper_docker.Router.Document.{marshal_router_config}
use skupper_docker.Router.Document.Roundtrip.{IsKeyed, unmarshal-marshal}
use skupper_docker.Service.Client.{service_interface_list}
use skupper_docker.Docker.Api.{ContainerJson}
use skupper_docker.Docker.Daemon.{Daemon}
use skupper_docker.Site.Files.{
  Files, World, on_daemon, as_host, get_router_config_from_file, write_to_config_file,
  site_config_inspect, read_config,
}
use skupper_docker.Connectors.{
  secret_files, with_connector, connector_name, read_connections, make_directory, write_secret,
  restart_all, restart_proxies, restart_router, restart_controller, restart_site, store_config,
  store_connector, required, make_directory_in, write_secret_in, find_router, check_secret,
  create_named, connector_create,
}
use skupper_docker.Connectors.Name.{generate_connector_name-tenth}

module _ {D A B : Type 0} where
  continue-files :
      (r : Result Error A) (f : A → Exec Error (World D) B) (w : World D)
      → ((a : A) (v : World D) → (f a v).1.files ≡ v.files)
      → (continue r f w).1.files ≡ w.files
  continue-files (ok a) f w keeps = keeps a w
  continue-files (err e) f w keeps = refl

  continue-fails :
      (r : Result Error A) (f : A → Exec Error (World D) B) (w : World D)
      → ((a : A) → is_ok (f a w).0 ≡ false)
      → is_ok (continue r f w).0 ≡ false
  continue-fails (ok a) f w fails = fails a
  continue-fails (err e) f w fails = refl

  -- what follows a step that changes nothing, if it fails
  fails-after :
      (m : Exec Error (World D) A) (f : A → Exec Error (World D) B) (w : World D)
      → (m w).1 ≡ w
      → ((a : A) → is_ok (f a w).0 ≡ false)
      → is_ok ((m >>= f) w).0 ≡ false
  fails-after m f w same fails =
      continue-fails (m w).0 f (m w).1
        (subst (λ (v : World D). (a : A) → is_ok (f a v).0 ≡ false) (sym same) fails)

  step-files :
      (m : Exec Error (World D) A) (n : Exec Error (World D) B) (w : World D)
      → (m w).1.files ≡ w.files
      → ((v : World D) → (n v).1.files ≡ v.files)
      → ((m >> n) w).1.files ≡ w.files
  step-files m n w kept keeps =
      continue-files (m w).0 (λ (a : A). n) (m w).1 (λ a v. keeps v) ∙ kept

-- the files of a site with one more connection, and the configuration that goes with it
abbrev pub with_connection :
    String → ℤ → Dict String → Dict (Dict String) → RouterConfig → Files → Files
with_connection name cost secret cs r files = record files {
  connections = some (Dict.insert name (secret_files secret []) (Dict.insert name [] cs));
  router_config =
      some (marshal_router_config (with_connector name cost (secret_files secret []) r));
}

module _ {D : Type 0} (dd : Daemon D) where
  restart_proxies-files : (w : World D) → (restart_proxies dd w).1.files ≡ w.files
  unfolding restart_proxies
  restart_proxies-files w =
      continue-files (wrap_result proxies_not_listed (service_interface_list (as_host dd w)).0)
        (λ (vsis : List ServiceInterface). on_daemon (restart_all dd vsis)) w (λ a v. refl)

  pub restart_site-files : (w : World D) → (restart_site dd w).1.files ≡ w.files
  unfolding restart_site restart_router restart_controller
  restart_site-files w =
      step-files (restart_router dd) (restart_controller dd >> restart_proxies dd) w refl
        (λ v. step-files (restart_controller dd) (restart_proxies dd) v refl restart_proxies-files)

  check_secret-ok :
      (secret : Dict String) (origin : String) (site : SiteConfig) (w : World D) (j : ContainerJson)
      → dd.inspect_container "skupper-router" w.daemon ≡ ok j
      → Dict.lookup "skupper.io/generated-by" secret ≡ some origin
      → w.files.site_config ≡ ok site
      → (site.uid == origin) ≡ false
      → check_secret dd (ok secret) w ≡ (ok secret, w)
  unfolding check_secret find_router required site_config_inspect
  check_secret-ok secret origin site w j router generated read other =
      rw (router, generated, read, other) refl

  make_directory-ok :
      (name : String) (cs : Dict (Dict String)) (w : World D)
      → w.files.connections ≡ some cs
      → Dict.lookup name cs ≡ none
      → w.files.writable ≡ true
      → make_directory dd name w ≡ (
        ok tt,
        record w { files = record w.files { connections = some (Dict.insert name [] cs) } },
      )
  unfolding make_directory make_directory_in
  make_directory-ok name cs w held fresh writes =
      ap (λ (o : Option (Dict (Dict String))). make_directory_in dd o name w) held ∙ ground arith

  stored_config-ok :
      (name : String) (cost : ℤ) (secret : Dict String) (cs : Dict (Dict String)) (r : RouterConfig)
      (w : World D)
      → w.files.writable ≡ true
      → w.files.router_config ≡ some (marshal_router_config r)
      → IsKeyed r
      → store_config dd name cost secret
          (record w { files = record w.files { connections = some (Dict.insert name [] cs) } })
        ≡ (ok tt, record w { files = with_connection name cost secret cs r w.files })
  unfolding store_config write_secret write_secret_in get_router_config_from_file read_config
      write_to_config_file
  stored_config-ok name cost secret cs r w writes config keyed =
      rw (writes, config, unmarshal-marshal r keyed) refl

  store_connector-ok :
      (name : String) (cost : ℤ) (secret : Dict String) (cs : Dict (Dict String)) (r : RouterConfig)
      (w : World D)
      → w.files.connections ≡ some cs
      → Dict.lookup name cs ≡ none
      → w.files.writable ≡ true
      → w.files.router_config ≡ some (marshal_router_config r)
      → IsKeyed r
      → store_connector dd name cost secret w
        ≡ (ok tt, record w { files = with_connection name cost secret cs r w.files })
  unfolding store_connector
  store_connector-ok name cost secret cs r w held fresh writes config keyed =
      rw (make_directory-ok name cs w held fresh writes)
        (stored_config-ok name cost secret cs r w writes config keyed)

  -- With a token of another site, and where the router is there, the name is free and the files are
  -- as the program writes them: whatever becomes of the restarts, `ConnectorCreate` leaves the
  -- secret in the directory of the connection and the configuration with the connector in its file,
  -- and no other file of the site changes.
  pub connector_create-files :
      (secret : Dict String) (origin name : String) (cost : ℤ) (site : SiteConfig)
      (cs : Dict (Dict String)) (r : RouterConfig) (w : World D)
      → is_ok (dd.inspect_container "skupper-router" w.daemon) ≡ true
      → Dict.lookup "skupper.io/generated-by" secret ≡ some origin
      → w.files.site_config ≡ ok site
      → (site.uid == origin) ≡ false
      → (name == "") ≡ false
      → w.files.connections ≡ some cs
      → Dict.lookup name cs ≡ none
      → w.files.writable ≡ true
      → w.files.router_config ≡ some (marshal_router_config r)
      → IsKeyed r
      → (connector_create dd (ok secret) name cost w).1.files
        ≡ with_connection name cost secret cs r w.files
  unfolding connector_create create_named connector_name
  connector_create-files secret origin name cost site cs r w there generated read other named held
        fresh writes config keyed =
      elim (Result-cases (dd.inspect_container "skupper-router" w.daemon)) [
        | inl (j, router) ↦
            rw
              (
                check_secret-ok secret origin site w j router generated read other,
                named,
                store_connector-ok name cost secret cs r w held fresh writes config keyed,
              )
              (step-files (restart_site dd) _ _ (restart_site-files _) (λ v. refl))
        | inr (e, missing) ↦ ground arith
      ]

  check_secret-world :
      (token : Result Error (Dict String)) (w : World D) → (check_secret dd token w).1 ≡ w
  unfolding check_secret find_router site_config_inspect
  check_secret-world token w = ground arith

  connector_name-tenth :
      (cs : Dict (Dict String)) (w : World D)
      → w.files.connections ≡ some cs
      → any (λ (f : String). "conn9" == f) (Dict.keys cs) ≡ true
      → connector_name dd "" w ≡ (ok "conn10", w)
  unfolding connector_name read_connections str_dec
  connector_name-tenth cs w held ninth =
      rw (held, generate_connector_name-tenth (Dict.keys cs) ninth) refl

  make_directory-there :
      (name : String) (cs : Dict (Dict String)) (w : World D)
      → w.files.connections ≡ some cs
      → Dict.member name cs ≡ true
      → make_directory dd name w ≡ (err (file_exists name), w)
  unfolding make_directory make_directory_in
  make_directory-there name cs w held there =
      ap (λ (o : Option (Dict (Dict String))). make_directory_in dd o name w) held ∙ ground arith

  create_named-there :
      (name : String) (cost : ℤ) (secret : Dict String) (cs : Dict (Dict String)) (w : World D)
      → w.files.connections ≡ some cs
      → Dict.member name cs ≡ true
      → is_ok (create_named dd name cost secret w).0 ≡ false
  unfolding create_named store_connector
  create_named-there name cost secret cs w held there =
      rw (make_directory-there name cs w held there) refl

  -- Once there are connectors of the generated names of numbers 9 and 10, `ConnectorCreate` without a
  -- name fails, whatever the token, the daemon and the rest of the site.
  pub connector_create-tenth :
      (token : Result Error (Dict String)) (cost : ℤ) (cs : Dict (Dict String)) (w : World D)
      → w.files.connections ≡ some cs
      → any (λ (f : String). "conn9" == f) (Dict.keys cs) ≡ true
      → Dict.member "conn10" cs ≡ true
      → is_ok (connector_create dd token "" cost w).0 ≡ false
  unfolding connector_create
  connector_create-tenth token cost cs w held ninth tenth =
      fails-after (check_secret dd token) _ w (check_secret-world token w) (λ secret.
        rw (connector_name-tenth cs w held ninth)
          (create_named-there "conn10" cost secret cs w held tenth))

-- ===== src/Site/Files.antt =====
-- The files of a site under <SKUPPER_TMPDIR>/skupper, next to the Docker daemon, and their reading and
-- writing in pkg/qdr/qdr.go and client/site_config_inspect.go. A text that is JSON is kept as what it
-- decodes to.
use skupper_docker.Base.{String, Bool, Option, none, some, [], if◌then◌else◌}
use skupper_docker.Base.Dict.{Dict}
use skupper_docker.Base.Exec.{Result, ok, err, Exec}
use skupper_docker.Errors.{Error, no_such_file, not_writable, router_config_not_decoded}
use skupper_docker.Types.{SiteConfig}
use skupper_docker.Router.{RouterConfig}
use skupper_docker.Router.Document.{
  Document, DocumentError, unmarshal_router_config, marshal_router_config,
}
use skupper_docker.Host.{Host, ServicesFile}
use skupper_docker.Docker.Daemon.{Daemon}

pub record Files : Type 0 where
  -- whether the file system accepts writes
  pub writable : Bool
  -- the directory of the connections: for each, its files and their contents
  pub connections : Option (Dict (Dict String))
  -- config/qdrouterd.json
  pub router_config : Option Document
  -- sites/skupper0.json
  pub site_config : Result Error SiteConfig
  -- services/skupper-services
  pub services : ServicesFile

pub record World (D : Type 0) : Type 0 where
  pub files : Files
  pub daemon : D

abbrev config_file : String
config_file = "config/qdrouterd.json"

abbrev pub decoded : Result DocumentError RouterConfig → Result Error RouterConfig
decoded (ok r) = ok r
decoded (err e) = err router_config_not_decoded

unfoldable pub read_config : Option Document → Result Error RouterConfig
unfolding unmarshal_router_config
read_config none = err (no_such_file config_file)
read_config (some document) = decoded (unmarshal_router_config document)

module _ {D : Type 0} where
  -- a step of the daemon
  abbrev pub on_daemon : {A : Type 0} → Exec Error D A → Exec Error (World D) A
  on_daemon m w = let (r, d) = m w.daemon in (r, record w { daemon = d })

  -- what the operations on definitions see of it; they do not ask for the address of docker0 here
  abbrev pub as_host : Daemon D → World D → Host
  as_host dd w = record {
    inspect = λ (name : String). dd.inspect_container name w.daemon;
    docker0 = [];
    services = w.files.services;
    writable = w.files.writable;
  }

  unfoldable pub get_router_config_from_file : Exec Error (World D) RouterConfig
  unfolding read_config
  get_router_config_from_file w = (read_config w.files.router_config, w)

  unfoldable pub write_to_config_file : RouterConfig → Exec Error (World D) (Unit {0})
  unfolding marshal_router_config
  write_to_config_file r w =
      if w.files.writable
      then (
        ok tt,
        record w { files = record w.files { router_config = some (marshal_router_config r) } },
      )
      else (err (not_writable config_file), w)

  -- `SiteConfigInspect`, of the site's only configuration
  unfoldable pub site_config_inspect : Exec Error (World D) SiteConfig
  site_config_inspect w = (w.files.site_config, w)

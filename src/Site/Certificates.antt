-- ===== src/Site/Certificates.antt =====
-- The certificates of a site: getCertData, ensureCA and generateCredentials of client/router_create.go.
-- Their directories are a state of their own. The package that makes certificates is not in the
-- repository: certs.GenerateCACertificateData and certs.GenerateCertificateData are arguments, which
-- yield the files of a certificate.
pub mod Writes
pub mod Issued
use skupper_docker.Base.{
  String, ◌<>◌, Bool, true, false, Option, none, some, List, [], ◌∷◌, if◌then◌else◌,
}
use skupper_docker.Base.Dict
use skupper_docker.Base.Dict.{Dict}
use skupper_docker.Base.Exec.{Result, ok, err, Exec, pure, attempt, ◌>>=◌, ◌>>◌}
use skupper_docker.Errors.{Error, no_such_file, not_writable, file_exists}
use skupper_docker.Types.{Credential, CertAuthority, SiteConfigSpec}
use skupper_docker.Site.{site_authorities, site_credentials, transport_volumes}

-- the directories below that of the certificates, each with its files
pub record Store : Type 0 where
  pub writable : Bool
  pub dirs : Dict (Dict String)

-- os.Mkdir
pub make_dir : String → Exec Error Store (Unit {0})
make_dir name s =
    if Dict.member name s.dirs
    then (err (file_exists name), s)
    else if s.writable
    then (ok tt, record s { dirs = Dict.insert name [] s.dirs })
    else (err (not_writable name), s)

write_in : Option (Dict String) → (name file text : String) → Exec Error Store (Unit {0})
write_in none name file text s = (err (no_such_file name), s)
write_in (some files) name file text s =
    if s.writable
    then (ok tt, record s { dirs = Dict.insert name (Dict.insert file text files) s.dirs })
    else (err (not_writable name), s)

-- ioutil.WriteFile
pub write_file : (name file text : String) → Exec Error Store (Unit {0})
unfolding write_in
write_file name file text s = write_in (Dict.lookup name s.dirs) name file text s

pub write_files : String → Dict String → Exec Error Store (Unit {0})
unfolding write_file
write_files name [] = pure tt
write_files name ((file, text) ∷ files) = do write_file name file text; write_files name files

-- `getCertData`: the files that are there, and none with an error if there is no such directory
pub get_cert_data : String → Store → Dict String
get_cert_data name s = elim (Dict.lookup name s.dirs) [ none ↦ [] | some files ↦ files ]

-- strings.Join with a comma
pub join : List String → String
join [] = ""
join (h ∷ []) = h
join (h ∷ i ∷ hosts) = h <> "," <> join (i ∷ hosts)

-- configs.ConnectJSON() of pkg/utils/configs/config.go
abbrev pub connect_json : String
connect_json =
    "\n{\n    \"scheme\": \"amqps\",\n    \"host\": \"skupper-router\",\n    \"port\": \"5671\",\n    \"tls\": {\n        \"ca\": \"/etc/messaging/ca.crt\",\n        \"cert\": \"/etc/messaging/tls.crt\",\n        \"key\": \"/etc/messaging/tls.key\",\n        \"verify\": true\n    }\n}\n"

pub write_connect : Bool → String → Exec Error Store (Unit {0})
unfolding write_file
write_connect true name = write_file name "connect.json" connect_json
write_connect false name = pure tt

module _ (generate_ca : (name subject : String) → Dict String)
    (generate : (name subject hosts : String) → Dict String → Dict String) where
  pub ensure_ca : String → Exec Error Store (Unit {0})
  unfolding make_dir write_files
  ensure_ca name = do make_dir name; write_files name (generate_ca name name)

  pub generate_credentials : Credential → Exec Error Store (Unit {0})
  unfolding write_files get_cert_data join write_connect
  generate_credentials c s =
      (do
        write_files c.name (generate c.name c.subject (join c.hosts) (get_cert_data c.ca s))
        write_connect c.connect_json c.name)
        s

  -- The two loops of `RouterCreate`, which pass over errors.
  pub ensure_all : List CertAuthority → Exec Error Store (Unit {0})
  unfolding ensure_ca
  ensure_all [] = pure tt
  ensure_all (ca ∷ cas) = do attempt (ensure_ca ca.name); ensure_all cas

  pub generate_all : List Credential → Exec Error Store (Unit {0})
  unfolding generate_credentials
  generate_all [] = pure tt
  generate_all (c ∷ credentials) = do attempt (generate_credentials c); generate_all credentials

-- os.Mkdir of the directories of the volumes
pub make_volumes : List String → Exec Error Store (Unit {0})
unfolding make_dir
make_volumes [] = pure tt
make_volumes (v ∷ volumes) = do make_dir v; make_volumes volumes

-- the directory of the certificates of a new site, which can be written
abbrev pub fresh : Store
fresh = record { writable = true; dirs = [] }

-- The directories of the certificates as `RouterCreate` makes them: the volumes, the authorities and
-- the credentials, one after the other.
pub site_certificates :
    (generate_ca : (name subject : String) → Dict String)
    (generate : (name subject hosts : String) → Dict String → Dict String)
    → SiteConfigSpec
    → Store
unfolding make_volumes ensure_all generate_all site_authorities site_credentials transport_volumes
site_certificates generate_ca generate options =
    let volumes = (make_volumes (transport_volumes options) fresh).1 in
    let authorities = (ensure_all generate_ca generate (site_authorities options) volumes).1 in
    (generate_all generate_ca generate (site_credentials options) authorities).1

-- ===== src/Site/Certificates/Issued.antt =====
-- Which certificates a new site has: the loops of `RouterCreate` over its authorities and credentials,
-- in client/router_create.go.
use skupper_docker.Base.{
  ◌≡◌, refl, ◌∙◌, String, Bool, true, false, not, none, some, List, [], ◌∷◌, ◌++◌, ◌==◌, any,
  str_dec, if◌then◌else◌,
}
use skupper_docker.Base.Dict
use skupper_docker.Base.Dict.{Dict}
use skupper_docker.Types.{Credential, CertAuthority, SiteConfigSpec}
use skupper_docker.Site.{credential, site_credentials}
use skupper_docker.Site.Certificates.{Store, ensure_all, make_volumes, fresh, site_certificates}
use skupper_docker.Site.Certificates.Writes.{
  ca_files, AreNew, AreReady, AreIssued, ensure_all_lem, generate_all_lem,
}

-- The directories of the volumes, by whether the site is an edge and has users.
abbrev volume_names : (edge internal : Bool) → List String
volume_names edge internal =
    ("skupper" ∷ "skupper-amqps" ∷ "router-config" ∷ [])
    ++ (if not edge then "skupper-internal" ∷ [] else [])
    ++ (if internal then "skupper-console-users" ∷ "skupper-sasl-config" ∷ [] else [])

abbrev volumes_of : (edge internal : Bool) → Store
volumes_of edge internal = (make_volumes (volume_names edge internal) fresh).1

abbrev authorities_of : Bool → List CertAuthority
authorities_of edge =
    (record { name = "skupper-ca" } ∷ [])
    ++ (if not edge then record { name = "skupper-internal-ca" } ∷ [] else [])

abbrev credentials_of : Bool → List Credential
credentials_of edge =
    (credential "skupper-ca" "skupper-amqps" "skupper-messaging" ("skupper-router" ∷ []) false
      ∷ credential "skupper-ca" "skupper" "skupper-messaging" [] true
      ∷ [])
    ++ (if not edge
        then credential "skupper-internal-ca" "skupper-internal" "skupper-internal"
            ("skupper-router" ∷ []) false
          ∷ []
        else [])

volumes-writable : (edge internal : Bool) → (volumes_of edge internal).writable ≡ true
unfolding make_volumes str_dec Dict.lookup Dict.insert
volumes-writable true true = refl
volumes-writable true false = refl
volumes-writable false true = refl
volumes-writable false false = refl

volumes-empty :
    (edge internal : Bool)
    → (Dict.lookup "skupper" (volumes_of edge internal).dirs ≡ some [])
      × (Dict.lookup "skupper-amqps" (volumes_of edge internal).dirs ≡ some [])
      × (Dict.lookup "skupper-internal" (volumes_of edge internal).dirs
          ≡ (if edge then none else some []))
unfolding make_volumes str_dec Dict.lookup Dict.insert
volumes-empty true true = (refl, refl, refl)
volumes-empty true false = (refl, refl, refl)
volumes-empty false true = (refl, refl, refl)
volumes-empty false false = (refl, refl, refl)

module _ (generate_ca : (name subject : String) → Dict String)
    (generate : (name subject hosts : String) → Dict String → Dict String) where
  authorities-AreNew :
      (edge internal : Bool)
      → AreNew generate_ca generate (authorities_of edge) (volumes_of edge internal)
  unfolding AreNew make_volumes str_dec Dict.lookup Dict.insert
  authorities-AreNew true true = (refl, refl, tt)
  authorities-AreNew true false = (refl, refl, tt)
  authorities-AreNew false true = (refl, refl, (refl, refl, tt))
  authorities-AreNew false false = (refl, refl, (refl, refl, tt))

  -- the directories before the credentials are made
  abbrev before : (edge internal : Bool) → Store
  before edge internal =
      (ensure_all generate_ca generate (authorities_of edge) (volumes_of edge internal)).1

  prepared :
      (edge internal : Bool) (d : String)
      → Dict.lookup d (before edge internal).dirs ≡ (
          if any (λ (x : CertAuthority). x.name == d) (authorities_of edge)
          then some (ca_files generate_ca generate d)
          else Dict.lookup d (volumes_of edge internal).dirs)
  prepared edge internal d =
      (ensure_all_lem generate_ca generate (authorities_of edge) (volumes_of edge internal)
          (volumes-writable edge internal) (authorities-AreNew edge internal)).1
        d

  credentials-AreReady :
      (edge internal : Bool)
      → AreReady generate_ca generate (credentials_of edge) (before edge internal)
  unfolding AreReady str_dec
  credentials-AreReady true internal =
      let (messaging, amqps, inner) = volumes-empty true internal in
      let at = prepared true internal in
      (
        at "skupper-amqps" ∙ amqps,
        at "skupper-ca",
        refl,
        (at "skupper" ∙ messaging, at "skupper-ca", refl, tt),
      )
  credentials-AreReady false internal =
      let (messaging, amqps, inner) = volumes-empty false internal in
      let at = prepared false internal in
      (
        at "skupper-amqps" ∙ amqps,
        at "skupper-ca",
        refl,
        (
          at "skupper" ∙ messaging,
          at "skupper-ca",
          refl,
          (at "skupper-internal" ∙ inner, at "skupper-internal-ca", refl, tt),
        ),
      )

  before-writable : (edge internal : Bool) → (before edge internal).writable ≡ true
  before-writable edge internal =
      (ensure_all_lem generate_ca generate (authorities_of edge) (volumes_of edge internal)
        (volumes-writable edge internal) (authorities-AreNew edge internal)).0

  -- Every credential of a new site is issued: its directory, which the transport has as a volume,
  -- holds the files that are made for its subject and hosts from the files of its authority, and the
  -- description of the connection if that was asked for. The files of the authority are those that
  -- were made for the site. The directories can be written.
  pub site_certificates-AreIssued :
      (options : SiteConfigSpec)
      → AreIssued generate_ca generate
          (site_credentials options)
          (site_certificates generate_ca generate options)
  unfolding site_certificates
  site_certificates-AreIssued options =
      let internal = options.auth_mode == "internal" in
      (generate_all_lem generate_ca generate (credentials_of options.is_edge)
        (before options.is_edge internal) (before-writable options.is_edge internal)
        (credentials-AreReady options.is_edge internal)).0

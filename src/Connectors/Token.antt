-- ===== src/Connectors/Token.antt =====
-- client/connector_token_create.go: the token with which another site connects to this one. The data
-- of the certificate authority, `getCertData`, is an argument: the result of that call. The
-- certificates and the file of the token are made by certs.GenerateCertificateData and
-- certs.PutCertificateData of another repository; what they are given is the result here.
use skupper_docker.Base.{
  ◌≡◌, refl, ◌∙◌, String, Bool, true, false, Option, none, some, [], ◌∷◌, ◌==◌, ◌&&◌, not, arith,
  str_dec, any,
}
use skupper_docker.Base.Int.{ℤ, itoa}
use skupper_docker.Base.Dict
use skupper_docker.Base.Dict.{Dict}
use skupper_docker.Base.Exec.{
  Result, ok, err, Exec, lift, pure, wrap, wrap_result, refuse_if, ◌>>=◌, ◌>>◌,
}
use skupper_docker.Errors.{
  Error, nil_dereference, no_transport, edge_takes_no_connections, ca_not_read,
  router_config_not_read, site_not_read,
}
use skupper_docker.Types.{SiteConfigSpec, SiteConfig}
use skupper_docker.Router.{
  Listener, RouterConfig, is_edge, named_listener, add_listener, add_ssl_profile, add_address,
  initial_config,
}
use skupper_docker.Router.Document.{marshal_router_config}
use skupper_docker.Router.Document.Roundtrip.{IsKeyed}
use skupper_docker.Docker.Api.{ContainerJson}
use skupper_docker.Docker.Daemon.{Daemon}
use skupper_docker.Site.Files.{World, get_router_config_from_file, site_config_inspect}
use skupper_docker.Site.Transport.{base_config, add_console, add_interior, site_router_config}
use skupper_docker.Connectors.Forget.{read_back}
use skupper_docker.Connectors.{secret_file, secret_files, connector_of}

-- the address of a container on the network; for a network that it is not on there is a nil pointer
network_ip : Option String → Result Error String
network_ip none = err nil_dereference
network_ip (some ip) = ok ip

-- the annotations of a token
abbrev pub token_annotations : String → String → Dict String
token_annotations ip uid =
    ("inter-router-port", "55671")
    ∷ ("inter-router-host", ip)
    ∷ ("skupper.io/generated-by", uid)
    ∷ []

unfoldable pub connector_token_create :
    {D : Type 0} → Daemon D → Result Error (Unit {0}) → Exec Error (World D) (Dict String)
unfolding network_ip get_router_config_from_file is_edge site_config_inspect
connector_token_create dd ca w =
    (do
      router ← lift (wrap_result no_transport (dd.inspect_container "skupper-router" w.daemon))
      current ← wrap router_config_not_read get_router_config_from_file
      refuse_if (is_edge current) edge_takes_no_connections
      lift (wrap_result ca_not_read ca)
      ip ← lift (network_ip (Dict.lookup "skupper-network" router.networks))
      site ← wrap site_not_read site_config_inspect
      pure (token_annotations ip site.uid))
      w

-- Each key stands once, as in a map of Go.
abbrev AreDistinct : Dict String → Type 0
AreDistinct [] = Unit
AreDistinct ((k, _) ∷ d) = (Dict.lookup k d ≡ none) × AreDistinct d

abbrev or_else : Option String → Option String → Option String
or_else none y = y
or_else (some x) y = some x

lookup-secret_files :
    (k : String) (secret stored : Dict String)
    → (k == "generated-by") ≡ false
    → (k == "skupper.io/generated-by") ≡ false
    → AreDistinct secret
    → Dict.lookup k (secret_files secret stored)
      ≡ or_else (Dict.lookup k secret) (Dict.lookup k stored)
unfolding secret_files Dict.lookup
lookup-secret_files k [] stored a b d = refl
lookup-secret_files k ((j, v) ∷ secret) stored a b (fresh, d) =
    lookup-secret_files k secret (Dict.insert (secret_file j) v stored) a b d
    ∙ ground (arith, Dict.lookup-insert k (secret_file j) v stored)

-- the listener for the routers of other sites
interior_listener :
    (name uid port : String) (options : SiteConfigSpec) (edge : Bool)
    → options.is_edge ≡ edge
    → port ≡ "55671"
    → any
        (λ (l : Listener). itoa l.port == port && l.role == "inter-router")
        (Dict.values (site_router_config name uid options).listeners)
      ≡ not edge
unfolding site_router_config base_config add_console add_interior Dict.insert str_dec add_listener
    named_listener add_ssl_profile add_address initial_config itoa
interior_listener name uid port options true e p = rw (e, p) (ground arith)
interior_listener name uid port options false e p = rw (e, p) (ground arith)

module _ {D : Type 0} (dd : Daemon D) where
  token_created :
      (j : ContainerJson) (ip : String) (r : RouterConfig) (site : SiteConfig) (w : World D)
      → dd.inspect_container "skupper-router" w.daemon ≡ ok j
      → Dict.lookup "skupper-network" j.networks ≡ some ip
      → w.files.router_config ≡ some (marshal_router_config r)
      → IsKeyed r
      → is_edge r ≡ false
      → w.files.site_config ≡ ok site
      → connector_token_create dd (ok tt) w ≡ (ok (token_annotations ip site.uid), w)
  unfolding connector_token_create network_ip get_router_config_from_file site_config_inspect
  token_created j ip r site w there on config keyed interior read =
      rw (there, read_back dd r w.files.router_config config keyed, interior, on, read) refl

  -- A site that is no edge, whose router is on its network, gives a token. Take a secret that has
  -- each key once, and of the hosts and ports just those of the token. At another site that is no
  -- edge, it makes a connector to the address of that router, on a port and in a role for which the
  -- router of every site that is no edge listens. At an edge site, it makes a connector without a host
  -- and without a port.
  pub connector_of-token :
      (j : ContainerJson) (ip : String) (r : RouterConfig) (site : SiteConfig) (w : World D)
      (secret : Dict String) (name : String) (cost : ℤ) (options : SiteConfigSpec)
      (van_name uid : String)
      → dd.inspect_container "skupper-router" w.daemon ≡ ok j
      → Dict.lookup "skupper-network" j.networks ≡ some ip
      → w.files.router_config ≡ some (marshal_router_config r)
      → IsKeyed r
      → is_edge r ≡ false
      → w.files.site_config ≡ ok site
      → Dict.lookup "inter-router-host" secret
        ≡ Dict.lookup "inter-router-host" (token_annotations ip site.uid)
      → Dict.lookup "inter-router-port" secret
        ≡ Dict.lookup "inter-router-port" (token_annotations ip site.uid)
      → Dict.lookup "edge-host" secret ≡ Dict.lookup "edge-host" (token_annotations ip site.uid)
      → Dict.lookup "edge-port" secret ≡ Dict.lookup "edge-port" (token_annotations ip site.uid)
      → AreDistinct secret
      → (connector_token_create dd (ok tt) w ≡ (ok (token_annotations ip site.uid), w))
        × ((connector_of false name cost (secret_files secret [])).host ≡ ip)
        × (any
              (λ (l : Listener).
                itoa l.port == (connector_of false name cost (secret_files secret [])).port
                && l.role == (connector_of false name cost (secret_files secret [])).role)
              (Dict.values (site_router_config van_name uid options).listeners)
            ≡ not options.is_edge)
        × ((connector_of true name cost (secret_files secret [])).host ≡ "")
        × ((connector_of true name cost (secret_files secret [])).port ≡ "")
  unfolding connector_of Dict.lookup str_dec
  connector_of-token j ip r site w secret name cost options van_name uid there on config keyed
        interior read host port edge_host edge_port distinct =
      let host' = lookup-secret_files "inter-router-host" secret [] refl refl distinct in
      let port' = lookup-secret_files "inter-router-port" secret [] refl refl distinct in
      let edge_host' = lookup-secret_files "edge-host" secret [] refl refl distinct in
      let edge_port' = lookup-secret_files "edge-port" secret [] refl refl distinct in
      (
        token_created j ip r site w there on config keyed interior read,
        ground arith,
        interior_listener van_name uid _ options options.is_edge refl (ground arith),
        ground arith,
        ground arith,
      )

-- ===== src/Site/Spec.antt =====
-- The parts of a site that `GetRouterSpecFromOpts` of client/router_create.go plans fit together, and
-- fit the proxies of pkg/qdr/qdr.go.
use skupper_docker.Base.{
  ◌≡◌, refl, sym, subst, ◌<>◌, String, Bool, true, false, not, ◌&&◌, ◌||◌, List, ◌==◌, any, all,
  arith, str_dec, ne→false,
}
use skupper_docker.Base.Int.{itoa}
use skupper_docker.Base.Dict
use skupper_docker.Base.Dict.{Dict}
use skupper_docker.Base.Exec.{ok}
use skupper_docker.Types.{SiteConfigSpec, Credential, CertAuthority}
use skupper_docker.Router.{
  Listener, RouterConfig, initial_config, add_address, add_listener, add_ssl_profile,
  named_listener,
}
use skupper_docker.Router.Document.{unmarshal_router_config}
use skupper_docker.Router.Document.Roundtrip.{IsKeyed, unmarshal-marshal}
use skupper_docker.Router.Edit.{
  edit, edit-IsKeyed, initial_config-IsKeyed, listener, ssl_profile, address,
}
use skupper_docker.Router.Proxy.Keyed.{pick-IsKeyed}
use skupper_docker.Site.{
  Surroundings, transport_ports, transport_volumes, site_authorities, site_credentials,
  get_router_spec_from_opts, site_name,
}
use skupper_docker.Site.Transport.{base_config, add_console, add_interior, site_router_config}

-- Every port on which the router listens for other hosts is exposed by its container.
abbrev are_exposed : List String → RouterConfig → Bool
are_exposed ports r =
    all
      (λ (l : Listener).
        not (l.host == "0.0.0.0") || any (λ (p : String). p == itoa l.port <> "/tcp") ports)
      (Dict.values r.listeners)

abbrev planned : String → String → SiteConfigSpec → Bool
planned name site_id options =
    are_exposed (transport_ports options) (site_router_config name site_id options)

module _ (name site_id : String) (options : SiteConfigSpec) where
  abbrev with : Bool → Bool → String → SiteConfigSpec
  with edge enabled auth = record options {
    is_edge = edge;
    enable_router_console = enabled;
    auth_mode = auth;
  }

  console_internal :
      (edge enabled : Bool) → planned name site_id (with edge enabled "internal") ≡ true
  unfolding site_router_config transport_ports base_config add_console add_interior Dict.insert
      str_dec add_listener named_listener add_ssl_profile add_address initial_config itoa
  console_internal true true = refl
  console_internal true false = refl
  console_internal false true = refl
  console_internal false false = refl

  console_unsecured :
      (edge enabled : Bool) → planned name site_id (with edge enabled "unsecured") ≡ true
  unfolding site_router_config transport_ports base_config add_console add_interior Dict.insert
      str_dec add_listener named_listener add_ssl_profile add_address initial_config itoa
  console_unsecured true true = refl
  console_unsecured true false = refl
  console_unsecured false true = refl
  console_unsecured false false = refl

  console_none :
      (edge enabled console : Bool) (auth : String)
      → (auth == "internal") ≡ false
      → (auth == "unsecured") ≡ false
      → (auth == "") ≡ console
      → planned name site_id (with edge enabled auth) ≡ true
  unfolding site_router_config transport_ports base_config add_console add_interior Dict.insert
      str_dec add_listener named_listener add_ssl_profile add_address initial_config itoa
  console_none true true true auth i u c = rw (i, u, c) refl
  console_none true true false auth i u c = rw (i, u, c) refl
  console_none true false true auth i u c = rw c refl
  console_none true false false auth i u c = rw c refl
  console_none false true true auth i u c = rw (i, u, c) refl
  console_none false true false auth i u c = rw (i, u, c) refl
  console_none false false true auth i u c = rw c refl
  console_none false false false auth i u c = rw c refl

-- Whatever the options: each port on which the router of a site listens for other hosts is a port of
-- its container.
site_router_config-are_exposed :
    (name site_id : String) (options : SiteConfigSpec)
    → are_exposed (transport_ports options) (site_router_config name site_id options) ≡ true
site_router_config-are_exposed name site_id options = elim (str_dec options.auth_mode "internal") [
  | yes p ↦
      subst (λ (a : String). planned name site_id (record options { auth_mode = a }) ≡ true) (sym p)
        (console_internal name site_id options options.is_edge options.enable_router_console)
  | no i ↦ elim (str_dec options.auth_mode "unsecured") [
    | yes p ↦
        subst (λ (a : String). planned name site_id (record options { auth_mode = a }) ≡ true)
          (sym p)
          (console_unsecured name site_id options options.is_edge options.enable_router_console)
    | no u ↦
        console_none name site_id options options.is_edge options.enable_router_console
          (options.auth_mode == "") options.auth_mode (ne→false _ _ i) (ne→false _ _ u) refl
  ]
]

-- Each certificate is signed by an authority that the site has, and has a directory to be written to.
site_credentials_lem :
    (options : SiteConfigSpec)
    → all
        (λ (cr : Credential).
          any (λ (ca : CertAuthority). ca.name == cr.ca) (site_authorities options)
          && any (λ (v : String). v == cr.name) (transport_volumes options))
        (site_credentials options)
      ≡ true
unfolding site_authorities transport_volumes site_credentials str_dec
site_credentials_lem options = ground arith

base_config-IsKeyed :
    (name site_id : String) (edge : Bool) → IsKeyed (base_config name site_id edge)
unfolding base_config edit
base_config-IsKeyed name site_id edge = edit-IsKeyed (listener _) _ (
    edit-IsKeyed (ssl_profile _) _ (
      edit-IsKeyed (listener _) _ (
        edit-IsKeyed (listener _) _ (
          edit-IsKeyed (address _) _
            (initial_config-IsKeyed (name <> "-${HOSTNAME}") site_id edge)))))

add_console-IsKeyed :
    (enabled : Bool) (auth : String) (r : RouterConfig)
    → IsKeyed r
    → IsKeyed (add_console enabled auth r)
unfolding add_console edit
add_console-IsKeyed enabled auth r k =
    pick-IsKeyed enabled _ _
      (pick-IsKeyed (auth == "internal") _ _ (edit-IsKeyed (listener _) r k)
        (pick-IsKeyed (auth == "unsecured") _ _ (edit-IsKeyed (listener _) r k) k))
      k

add_interior-IsKeyed : (edge : Bool) (r : RouterConfig) → IsKeyed r → IsKeyed (add_interior edge r)
unfolding add_interior edit
add_interior-IsKeyed edge r k =
    pick-IsKeyed (not edge) _ _
      (edit-IsKeyed (listener _) _ (edit-IsKeyed (listener _) _ (edit-IsKeyed (ssl_profile _) r k)))
      k

-- The document that is written for the router of a site is read back as the configuration that was
-- built for it.
router_config_reads_back :
    (around : Surroundings) (options : SiteConfigSpec) (site_id : String)
    → unmarshal_router_config (get_router_spec_from_opts around options site_id).router_config
      ≡ ok (site_router_config (site_name around options) site_id options)
unfolding get_router_spec_from_opts site_router_config
router_config_reads_back around options site_id = unmarshal-marshal _ (
    add_interior-IsKeyed options.is_edge _ (
      add_console-IsKeyed options.enable_router_console options.auth_mode _
        (base_config-IsKeyed (site_name around options) site_id options.is_edge)))

-- ===== src/Router/Document/Roundtrip.antt =====
-- `MarshalRouterConfig` followed by `UnmarshalRouterConfig`, of pkg/qdr/qdr.go.
use mathlib.Core.List.{append-nil}
use skupper_docker.Base.{◌≡◌, refl, ◌∙◌, ap, sym, List, [], ◌∷◌, ◌++◌}
use skupper_docker.Base.Dict
use skupper_docker.Base.Dict.{Dict}
use skupper_docker.Base.Exec.{ok}
use skupper_docker.Router.{
  SslProfile, Listener, Connector, Address, TcpEndpoint, HttpEndpoint, RouterConfig,
}
use skupper_docker.Router.Document.{
  Element, ssl_profile, connector, listener, address, tcp_connector, tcp_listener, http_connector,
  http_listener, unmarshal_elements, unmarshal_router_config, elements_of, marshal_router_config,
}
use skupper_docker.Router.Document.Inserts.{
  IsNamed, insert_all, insert_all-nil, ssl_profile_name, connector_name, listener_name,
  address_prefix, tcp_name, http_name,
}

-- Reading the elements of one map puts its values.
module _ (es : List Element) where
  read_ssl_profiles :
      (r : RouterConfig) (d : Dict SslProfile)
      → unmarshal_elements r (elements_of ssl_profile d ++ es)
        ≡ unmarshal_elements
            (record r { ssl_profiles = insert_all ssl_profile_name d r.ssl_profiles })
            es
  unfolding unmarshal_elements elements_of insert_all
  read_ssl_profiles r [] = refl
  read_ssl_profiles r ((k, v) ∷ d) =
      read_ssl_profiles (record r { ssl_profiles = Dict.insert v.name v r.ssl_profiles }) d

  read_connectors :
      (r : RouterConfig) (d : Dict Connector)
      → unmarshal_elements r (elements_of connector d ++ es)
        ≡ unmarshal_elements (record r { connectors = insert_all connector_name d r.connectors }) es
  unfolding unmarshal_elements elements_of insert_all
  read_connectors r [] = refl
  read_connectors r ((k, v) ∷ d) =
      read_connectors (record r { connectors = Dict.insert v.name v r.connectors }) d

  read_listeners :
      (r : RouterConfig) (d : Dict Listener)
      → unmarshal_elements r (elements_of listener d ++ es)
        ≡ unmarshal_elements (record r { listeners = insert_all listener_name d r.listeners }) es
  unfolding unmarshal_elements elements_of insert_all
  read_listeners r [] = refl
  read_listeners r ((k, v) ∷ d) =
      read_listeners (record r { listeners = Dict.insert v.name v r.listeners }) d

  read_addresses :
      (r : RouterConfig) (d : Dict Address)
      → unmarshal_elements r (elements_of address d ++ es)
        ≡ unmarshal_elements (record r { addresses = insert_all address_prefix d r.addresses }) es
  unfolding unmarshal_elements elements_of insert_all
  read_addresses r [] = refl
  read_addresses r ((k, v) ∷ d) =
      read_addresses (record r { addresses = Dict.insert v.prefix v r.addresses }) d

  read_tcp_connectors :
      (r : RouterConfig) (d : Dict TcpEndpoint)
      → unmarshal_elements r (elements_of tcp_connector d ++ es)
        ≡ unmarshal_elements
            (record r {
              bridges = record r.bridges {
                tcp_connectors = insert_all tcp_name d r.bridges.tcp_connectors;
              };
            })
            es
  unfolding unmarshal_elements elements_of insert_all
  read_tcp_connectors r [] = refl
  read_tcp_connectors r ((k, v) ∷ d) =
      read_tcp_connectors
        (record r {
          bridges = record r.bridges {
            tcp_connectors = Dict.insert v.name v r.bridges.tcp_connectors;
          };
        })
        d

  read_tcp_listeners :
      (r : RouterConfig) (d : Dict TcpEndpoint)
      → unmarshal_elements r (elements_of tcp_listener d ++ es)
        ≡ unmarshal_elements
            (record r {
              bridges = record r.bridges {
                tcp_listeners = insert_all tcp_name d r.bridges.tcp_listeners;
              };
            })
            es
  unfolding unmarshal_elements elements_of insert_all
  read_tcp_listeners r [] = refl
  read_tcp_listeners r ((k, v) ∷ d) =
      read_tcp_listeners
        (record r {
          bridges = record r.bridges {
            tcp_listeners = Dict.insert v.name v r.bridges.tcp_listeners;
          };
        })
        d

  read_http_connectors :
      (r : RouterConfig) (d : Dict HttpEndpoint)
      → unmarshal_elements r (elements_of http_connector d ++ es)
        ≡ unmarshal_elements
            (record r {
              bridges = record r.bridges {
                http_connectors = insert_all http_name d r.bridges.http_connectors;
              };
            })
            es
  unfolding unmarshal_elements elements_of insert_all
  read_http_connectors r [] = refl
  read_http_connectors r ((k, v) ∷ d) =
      read_http_connectors
        (record r {
          bridges = record r.bridges {
            http_connectors = Dict.insert v.name v r.bridges.http_connectors;
          };
        })
        d

  read_http_listeners :
      (r : RouterConfig) (d : Dict HttpEndpoint)
      → unmarshal_elements r (elements_of http_listener d ++ es)
        ≡ unmarshal_elements
            (record r {
              bridges = record r.bridges {
                http_listeners = insert_all http_name d r.bridges.http_listeners;
              };
            })
            es
  unfolding unmarshal_elements elements_of insert_all
  read_http_listeners r [] = refl
  read_http_listeners r ((k, v) ∷ d) =
      read_http_listeners
        (record r {
          bridges = record r.bridges {
            http_listeners = Dict.insert v.name v r.bridges.http_listeners;
          };
        })
        d

-- Every map of the configuration holds its values under their names, as the operations that add to
-- it leave it.
pub record IsKeyed (r : RouterConfig) : Type 0 where
  pub ssl_profiles : IsNamed ssl_profile_name r.ssl_profiles
  pub connectors : IsNamed connector_name r.connectors
  pub listeners : IsNamed listener_name r.listeners
  pub addresses : IsNamed address_prefix r.addresses
  pub tcp_connectors : IsNamed tcp_name r.bridges.tcp_connectors
  pub tcp_listeners : IsNamed tcp_name r.bridges.tcp_listeners
  pub http_connectors : IsNamed http_name r.bridges.http_connectors
  pub http_listeners : IsNamed http_name r.bridges.http_listeners

-- The configuration that is left when all elements are read.
abbrev read_back : RouterConfig → RouterConfig
read_back r = record {
  metadata = r.metadata;
  ssl_profiles = insert_all ssl_profile_name r.ssl_profiles [];
  listeners = insert_all listener_name r.listeners [];
  connectors = insert_all connector_name r.connectors [];
  addresses = insert_all address_prefix r.addresses [];
  bridges = record {
    tcp_listeners = insert_all tcp_name r.bridges.tcp_listeners [];
    tcp_connectors = insert_all tcp_name r.bridges.tcp_connectors [];
    http_listeners = insert_all http_name r.bridges.http_listeners [];
    http_connectors = insert_all http_name r.bridges.http_connectors [];
  };
}

insert_all-record : (r : RouterConfig) → IsKeyed r → read_back r ≡ r
insert_all-record r k = rw (
  insert_all-nil ssl_profile_name r.ssl_profiles k.ssl_profiles,
  insert_all-nil listener_name r.listeners k.listeners,
  insert_all-nil connector_name r.connectors k.connectors,
  insert_all-nil address_prefix r.addresses k.addresses,
  insert_all-nil tcp_name r.bridges.tcp_listeners k.tcp_listeners,
  insert_all-nil tcp_name r.bridges.tcp_connectors k.tcp_connectors,
  insert_all-nil http_name r.bridges.http_listeners k.http_listeners,
  insert_all-nil http_name r.bridges.http_connectors k.http_connectors,
)

-- Reading the document of a configuration whose maps hold their values under their names gives the
-- configuration back.
pub unmarshal-marshal :
    (r : RouterConfig) → IsKeyed r → unmarshal_router_config (marshal_router_config r) ≡ ok r
unfolding unmarshal_router_config marshal_router_config unmarshal_elements
unmarshal-marshal r k =
    read_ssl_profiles _ _ r.ssl_profiles
    ∙ read_connectors _ _ r.connectors
    ∙ read_listeners _ _ r.listeners
    ∙ read_addresses _ _ r.addresses
    ∙ read_tcp_connectors _ _ r.bridges.tcp_connectors
    ∙ read_tcp_listeners _ _ r.bridges.tcp_listeners
    ∙ read_http_connectors _ _ r.bridges.http_connectors
    ∙ ap (unmarshal_elements _)
        (sym (append-nil (elements_of http_listener r.bridges.http_listeners)))
    ∙ read_http_listeners [] _ r.bridges.http_listeners
    ∙ ap ok (insert_all-record r k)

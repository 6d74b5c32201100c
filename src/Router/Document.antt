-- ===== src/Router/Document.antt =====
-- `MarshalRouterConfig` and `UnmarshalRouterConfig` of pkg/qdr/qdr.go, between a configuration and
-- the elements of a JSON document. encoding/json itself, which turns elements into text and back
-- and decodes the fields of an element, is not modelled: an element holds what it decodes to.
pub mod Inserts
pub mod Roundtrip
use skupper_docker.Base.{String, List, [], ◌∷◌, ◌++◌}
use skupper_docker.Base.Dict
use skupper_docker.Base.Dict.{Dict}
use skupper_docker.Base.Exec.{Result, ok, err}
use skupper_docker.Router.{
  RouterMetadata, SslProfile, Listener, Connector, Address, TcpEndpoint, HttpEndpoint, RouterConfig,
  new_bridge_config,
}

-- An element is a pair of a type and a value. The value of a known type decodes to a record, or
-- `convert` fails on it.
pub data Element : Type 0 where
  no_pair : Element
  no_type : Element
  bad_value : String → Element
  other_type : String → Element
  router : RouterMetadata → Element
  ssl_profile : SslProfile → Element
  connector : Connector → Element
  listener : Listener → Element
  address : Address → Element
  tcp_connector : TcpEndpoint → Element
  tcp_listener : TcpEndpoint → Element
  http_connector : HttpEndpoint → Element
  http_listener : HttpEndpoint → Element

pub data Document : Type 0 where
  no_json : Document
  no_array : Document
  array : List Element → Document

pub data DocumentError : Type 0 where
  not_json : DocumentError
  not_an_array : DocumentError
  not_a_pair : DocumentError
  type_not_a_string : DocumentError
  invalid_element : String → DocumentError

abbrev empty_config : RouterConfig
empty_config = record {
  metadata = record { id = ""; mode = ""; metadata = "" };
  ssl_profiles = [];
  listeners = [];
  connectors = [];
  addresses = [];
  bridges = new_bridge_config;
}

-- The loop of `UnmarshalRouterConfig`. An unknown type is passed over.
pub unmarshal_elements : RouterConfig → List Element → Result DocumentError RouterConfig
unmarshal_elements r [] = ok r
unmarshal_elements r (no_pair ∷ es) = err not_a_pair
unmarshal_elements r (no_type ∷ es) = err type_not_a_string
unmarshal_elements r (bad_value type ∷ es) = err (invalid_element type)
unmarshal_elements r (other_type type ∷ es) = unmarshal_elements r es
unmarshal_elements r (router m ∷ es) = unmarshal_elements (record r { metadata = m }) es
unmarshal_elements r (ssl_profile s ∷ es) =
    unmarshal_elements (record r { ssl_profiles = Dict.insert s.name s r.ssl_profiles }) es
unmarshal_elements r (connector c ∷ es) =
    unmarshal_elements (record r { connectors = Dict.insert c.name c r.connectors }) es
unmarshal_elements r (listener l ∷ es) =
    unmarshal_elements (record r { listeners = Dict.insert l.name l r.listeners }) es
unmarshal_elements r (address a ∷ es) =
    unmarshal_elements (record r { addresses = Dict.insert a.prefix a r.addresses }) es
unmarshal_elements r (tcp_connector e ∷ es) =
    unmarshal_elements
      (record r {
        bridges = record r.bridges {
          tcp_connectors = Dict.insert e.name e r.bridges.tcp_connectors;
        };
      })
      es
unmarshal_elements r (tcp_listener e ∷ es) =
    unmarshal_elements
      (record r {
        bridges = record r.bridges { tcp_listeners = Dict.insert e.name e r.bridges.tcp_listeners };
      })
      es
unmarshal_elements r (http_connector e ∷ es) =
    unmarshal_elements
      (record r {
        bridges = record r.bridges {
          http_connectors = Dict.insert e.name e r.bridges.http_connectors;
        };
      })
      es
unmarshal_elements r (http_listener e ∷ es) =
    unmarshal_elements
      (record r {
        bridges = record r.bridges {
          http_listeners = Dict.insert e.name e r.bridges.http_listeners;
        };
      })
      es

unfoldable pub unmarshal_router_config : Document → Result DocumentError RouterConfig
unfolding unmarshal_elements
unmarshal_router_config no_json = err not_json
unmarshal_router_config no_array = err not_an_array
unmarshal_router_config (array es) = unmarshal_elements empty_config es

-- one loop over a map: an element for each value
unfoldable pub elements_of {ℓ} : {V : Type ℓ} → (V → Element) → Dict V → List Element
elements_of element [] = []
elements_of element ((_, v) ∷ d) = element v ∷ elements_of element d

unfoldable pub marshal_router_config : RouterConfig → Document
marshal_router_config r = array (
    router r.metadata
    ∷ (elements_of ssl_profile r.ssl_profiles
        ++ (elements_of connector r.connectors
            ++ (elements_of listener r.listeners
                ++ (elements_of address r.addresses
                    ++ (elements_of tcp_connector r.bridges.tcp_connectors
                        ++ (elements_of tcp_listener r.bridges.tcp_listeners
                            ++ (elements_of http_connector r.bridges.http_connectors
                                ++ elements_of http_listener r.bridges.http_listeners))))))))

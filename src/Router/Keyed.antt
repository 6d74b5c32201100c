-- ===== src/Router/Keyed.antt =====
-- Well-keyed maps under the additions and removals of pkg/qdr/qdr.go.
use skupper_docker.Base.{◌≡◌, String, Bool, true, false, [], ◌∷◌, arith, if◌then◌else◌}
use skupper_docker.Base.Dict
use skupper_docker.Base.Dict.{Dict}
use skupper_docker.Router.{
  SslProfile, Listener, Connector, Address, TcpEndpoint, HttpEndpoint, RouterConfig, default_files,
}
use skupper_docker.Router.Document.Inserts.{
  IsNamed, ssl_profile_name, connector_name, listener_name, address_prefix, tcp_name, http_name,
}
use skupper_docker.Router.Document.Roundtrip.{IsKeyed}

pub IsNamed-insert {ℓ} :
    {V : Type ℓ} (name : V → String) (k : String) (v : V) (d : Dict V)
    → name v ≡ k
    → IsNamed name d
    → IsNamed name (Dict.insert k v d)
unfolding Dict.insert
IsNamed-insert name k v [] e n = (e, Dict.lookup-nil k, tt)
IsNamed-insert name k v ((j, w) ∷ d) e (f, fresh, n) =
    ground (arith, IsNamed-insert name k v d e n, Dict.lookup-insert j k v d)

pub IsNamed-erase {ℓ} :
    {V : Type ℓ} (name : V → String) (k : String) (d : Dict V)
    → IsNamed name d
    → IsNamed name (Dict.erase k d)
unfolding Dict.erase
IsNamed-erase name k [] n = tt
IsNamed-erase name k ((j, w) ∷ d) (f, fresh, n) =
    ground (arith, IsNamed-erase name k d n, Dict.lookup-erase j k d)

pub default_files-name :
    (path dir : String) (s : SslProfile) → (default_files path dir s).name ≡ s.name
default_files-name path dir s = ground arith

pub if-IsKeyed :
    (b found missed : Bool) (x y : RouterConfig)
    → IsKeyed x
    → IsKeyed y
    → IsKeyed (if◌then◌else◌ {A = Bool × RouterConfig} b (found, x) (missed, y)).1
if-IsKeyed true found missed x y p q = p
if-IsKeyed false found missed x y p q = q

-- Replacing one map by a well-keyed one.
module _ (r : RouterConfig) (k : IsKeyed r) where
  pub with_ssl_profiles :
      (d : Dict SslProfile) → IsNamed ssl_profile_name d → IsKeyed (record r { ssl_profiles = d })
  with_ssl_profiles d n = record {
    ssl_profiles = n;
    connectors = k.connectors;
    listeners = k.listeners;
    addresses = k.addresses;
    tcp_connectors = k.tcp_connectors;
    tcp_listeners = k.tcp_listeners;
    http_connectors = k.http_connectors;
    http_listeners = k.http_listeners;
  }

  pub with_connectors :
      (d : Dict Connector) → IsNamed connector_name d → IsKeyed (record r { connectors = d })
  with_connectors d n = record {
    ssl_profiles = k.ssl_profiles;
    connectors = n;
    listeners = k.listeners;
    addresses = k.addresses;
    tcp_connectors = k.tcp_connectors;
    tcp_listeners = k.tcp_listeners;
    http_connectors = k.http_connectors;
    http_listeners = k.http_listeners;
  }

  pub with_listeners :
      (d : Dict Listener) → IsNamed listener_name d → IsKeyed (record r { listeners = d })
  with_listeners d n = record {
    ssl_profiles = k.ssl_profiles;
    connectors = k.connectors;
    listeners = n;
    addresses = k.addresses;
    tcp_connectors = k.tcp_connectors;
    tcp_listeners = k.tcp_listeners;
    http_connectors = k.http_connectors;
    http_listeners = k.http_listeners;
  }

  pub with_addresses :
      (d : Dict Address) → IsNamed address_prefix d → IsKeyed (record r { addresses = d })
  with_addresses d n = record {
    ssl_profiles = k.ssl_profiles;
    connectors = k.connectors;
    listeners = k.listeners;
    addresses = n;
    tcp_connectors = k.tcp_connectors;
    tcp_listeners = k.tcp_listeners;
    http_connectors = k.http_connectors;
    http_listeners = k.http_listeners;
  }

  pub with_tcp_connectors :
      (d : Dict TcpEndpoint)
      → IsNamed tcp_name d
      → IsKeyed (record r { bridges = record r.bridges { tcp_connectors = d } })
  with_tcp_connectors d n = record {
    ssl_profiles = k.ssl_profiles;
    connectors = k.connectors;
    listeners = k.listeners;
    addresses = k.addresses;
    tcp_connectors = n;
    tcp_listeners = k.tcp_listeners;
    http_connectors = k.http_connectors;
    http_listeners = k.http_listeners;
  }

  pub with_tcp_listeners :
      (d : Dict TcpEndpoint)
      → IsNamed tcp_name d
      → IsKeyed (record r { bridges = record r.bridges { tcp_listeners = d } })
  with_tcp_listeners d n = record {
    ssl_profiles = k.ssl_profiles;
    connectors = k.connectors;
    listeners = k.listeners;
    addresses = k.addresses;
    tcp_connectors = k.tcp_connectors;
    tcp_listeners = n;
    http_connectors = k.http_connectors;
    http_listeners = k.http_listeners;
  }

  pub with_http_connectors :
      (d : Dict HttpEndpoint)
      → IsNamed http_name d
      → IsKeyed (record r { bridges = record r.bridges { http_connectors = d } })
  with_http_connectors d n = record {
    ssl_profiles = k.ssl_profiles;
    connectors = k.connectors;
    listeners = k.listeners;
    addresses = k.addresses;
    tcp_connectors = k.tcp_connectors;
    tcp_listeners = k.tcp_listeners;
    http_connectors = n;
    http_listeners = k.http_listeners;
  }

  pub with_http_listeners :
      (d : Dict HttpEndpoint)
      → IsNamed http_name d
      → IsKeyed (record r { bridges = record r.bridges { http_listeners = d } })
  with_http_listeners d n = record {
    ssl_profiles = k.ssl_profiles;
    connectors = k.connectors;
    listeners = k.listeners;
    addresses = k.addresses;
    tcp_connectors = k.tcp_connectors;
    tcp_listeners = k.tcp_listeners;
    http_connectors = k.http_connectors;
    http_listeners = n;
  }

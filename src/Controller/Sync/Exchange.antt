-- ===== src/Controller/Sync/Exchange.antt =====
-- One site's announcement, received by another: `syncSender` on one side, `runServiceSync` on the
-- other, of cmd/service-controller/service_sync.go.
use skupper_docker.Base.{
  ◌≡◌, ◌≢◌, refl, ◌∙◌, ℕ, String, true, Option, none, some, List, [], ◌∷◌, arith, ne→false, str_dec,
}
use skupper_docker.Base.Dict
use skupper_docker.Base.Dict.{Dict}
use skupper_docker.Types.{ServiceInterface}
use skupper_docker.Host.{Host}
use skupper_docker.Service.Client.Operations.{definition_at}
use skupper_docker.Service.Client.Stored.{HasDefinitions}
use skupper_docker.Controller.{Controller}
use skupper_docker.Controller.Sync.{
  is_changed, index_by_address, ensure_service_interface_definitions, receive, receive_from,
  receive_body, sync_update,
}
use skupper_docker.Controller.Sync.Updates.{Keyed, lookup-Keyed, changed_at, definition_at-ensure}

-- the definition as a definition of a site
abbrev pub from_site : String → ServiceInterface → ServiceInterface
from_site origin s = record s { origin = origin }

pub Keyed-insert :
    (s : ServiceInterface) (m : Dict ServiceInterface) → Keyed m → Keyed (Dict.insert s.address s m)
unfolding Dict.insert
Keyed-insert s [] k = (refl, Dict.lookup-nil s.address, tt)
Keyed-insert s ((j, w) ∷ m) (at, fresh, k) =
    ground (arith, Keyed-insert s m k, Dict.lookup-insert j s.address s m)

pub index_by_address-Keyed :
    (origin : String) (defs : List ServiceInterface) (m : Dict ServiceInterface)
    → Keyed m
    → Keyed (index_by_address origin defs m)
unfolding index_by_address
index_by_address-Keyed origin [] m k = k
index_by_address-Keyed origin (def ∷ defs) m k =
    index_by_address-Keyed origin defs (Dict.insert def.address (from_site origin def) m)
      (Keyed-insert (from_site origin def) m k)

abbrev indexed_at :
    String → Option ServiceInterface → Option ServiceInterface → Option ServiceInterface
indexed_at origin none old = old
indexed_at origin (some s) old = some (from_site origin s)

pub lookup-index_by_address :
    (x origin : String) (defs m : Dict ServiceInterface)
    → Keyed defs
    → Dict.lookup x (index_by_address origin (Dict.values defs) m)
      ≡ indexed_at origin (Dict.lookup x defs) (Dict.lookup x m)
unfolding index_by_address
lookup-index_by_address x origin [] m k = rw (Dict.lookup-nil {V = ServiceInterface} x) refl
lookup-index_by_address x origin ((n, s) ∷ defs) m (at, fresh, k) =
    lookup-index_by_address x origin defs (Dict.insert s.address (from_site origin s) m) k
    ∙ rw (Dict.lookup-cons x n s defs)
        (ground (arith, Dict.lookup-insert x s.address (from_site origin s) m))

changed_at-new :
    (origin x : String) (by_name : Dict ServiceInterface) (d : ServiceInterface)
    (old : Option ServiceInterface)
    → d.address ≡ x
    → Dict.lookup x by_name ≡ none
    → changed_at origin by_name (some d) old ≡ some d
unfolding is_changed
changed_at-new origin x by_name d old at unknown = ground arith

pub receive-announced :
    (now : ℕ) (a b : Controller) (h : Host)
    → a.origin ≢ b.origin
    → receive now (sync_update a) b h
      ≡ ensure_service_interface_definitions now a.origin
          (index_by_address a.origin (Dict.values a.local_services) [])
          b
          h
unfolding receive sync_update receive_from receive_body str_dec
receive-announced now a b h other = rw (ne→false a.origin b.origin other) refl

-- A definition that a site has of its own, under an address that another site does not know,
-- stands in the other site's file, marked with the first site as its origin, after the other site
-- received the announcement. The sites have different names, the first site keeps its definitions
-- under their addresses, and the file can be read and written.
pub receive-sync_update :
    (now : ℕ) (a b : Controller) (h : Host) (x : String) (s : ServiceInterface)
    → Keyed a.local_services
    → a.origin ≢ b.origin
    → Dict.lookup x a.local_services ≡ some s
    → Dict.lookup x b.by_name ≡ none
    → HasDefinitions h.services
    → h.writable ≡ true
    → definition_at (receive now (sync_update a) b h).1 x ≡ some (from_site a.origin s)
receive-sync_update now a b h x s keyed other found unknown readable writes =
    let update = index_by_address a.origin (Dict.values a.local_services) [] in
    let keyed' = index_by_address-Keyed a.origin (Dict.values a.local_services) [] tt in
    let there : Dict.lookup x update ≡ some (from_site a.origin s) =
      lookup-index_by_address x a.origin a.local_services [] keyed ∙ rw found refl in
    rw (receive-announced now a b h other) (
      definition_at-ensure now a.origin update b h keyed' readable writes x
      ∙ ground (
        arith,
        there,
        changed_at-new a.origin x b.by_name (from_site a.origin s) (definition_at h x)
            (lookup-Keyed x a.local_services s keyed found) unknown,
      ))

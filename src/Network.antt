-- ===== src/Network.antt =====
-- pkg/qdr/mgmt.go: what the program concludes from the router's answers to `qdmanage query`. The
-- answers come from the router container; they are arguments here.
pub mod Laws
pub mod Query
use skupper_docker.Base.{
  ℕ, ◌+◌, String, Bool, ◌&&◌, ◌||◌, Option, none, some, List, [], ◌∷◌, ◌==◌, if◌then◌else◌,
}
use skupper_docker.Base.Exec.{Result, ok, err}
use skupper_docker.Types.{TransportConnectedSites}
use skupper_docker.Errors.{Error}

pub record RouterNode : Type 0 where
  pub id : String
  pub name : String
  pub next_hop : String

pub record Connection : Type 0 where
  pub container : String
  pub oper_status : String
  pub host : String
  pub role : String
  pub active : Bool
  pub dir : String

abbrev pub no_sites : TransportConnectedSites
no_sites = record { direct = 0; indirect = 0; total = 0; warnings = [] }

-- the loop over the nodes
pub count_sites : List RouterNode → TransportConnectedSites → TransportConnectedSites
count_sites [] result = result
count_sites (n ∷ nodes) result = count_sites nodes (
    if n.next_hop == ""
    then record result { direct = result.direct + 1; total = result.total + 1 }
    else if n.next_hop == "(self)"
    then result
    else record result { indirect = result.indirect + 1; total = result.total + 1 })

-- `GetConnectedSites`, of the answer of `GetNodes`: a result and the error, if there is one
unfoldable pub get_connected_sites :
    Result Error (List RouterNode) → TransportConnectedSites × Option Error
unfolding count_sites
get_connected_sites (ok nodes) = (count_sites nodes no_sites, none)
get_connected_sites (err e) = (no_sites, some e)

unfoldable pub get_inter_router_or_edge_connection : String → List Connection → Option Connection
get_inter_router_or_edge_connection host [] = none
get_inter_router_or_edge_connection host (c ∷ connections) =
    if (c.role == "inter-router" || c.role == "edge") && c.host == host
    then some c
    else get_inter_router_or_edge_connection host connections

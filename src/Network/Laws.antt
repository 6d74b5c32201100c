-- ===== src/Network/Laws.antt =====
-- `GetConnectedSites` and `GetInterRouterOrEdgeConnection` of pkg/qdr/mgmt.go.
use skupper_docker.Base.{
  ℕ, suc, ◌+◌, ◌≡◌, refl, String, Bool, true, false, ◌&&◌, ◌||◌, not, none, some, List, [], ◌∷◌,
  ◌==◌, arith, any, ◌⊎◌, inl, inr, ap, ◌++◌, Bool-cases, if◌then◌else◌,
}
use skupper_docker.Types.{TransportConnectedSites}
use skupper_docker.Base.Exec.{ok}
use skupper_docker.Network.{
  RouterNode, Connection, no_sites, count_sites, get_connected_sites,
  get_inter_router_or_edge_connection,
}

-- the number of entries that a test holds of
abbrev pub count {ℓ} : {A : Type ℓ} → (A → Bool) → List A → ℕ
count p [] = 0
count p (x ∷ xs) = if p x then suc (count p xs) else count p xs

abbrev pub is_direct : RouterNode → Bool
is_direct n = n.next_hop == ""

abbrev pub is_indirect : RouterNode → Bool
is_indirect n = not (n.next_hop == "") && not (n.next_hop == "(self)")

record Counts (nodes : List RouterNode) (before after : TransportConnectedSites) : Type 0 where
  direct : after.direct ≡ before.direct + count is_direct nodes
  indirect : after.indirect ≡ before.indirect + count is_indirect nodes
  total : after.total ≡ before.total + (count is_direct nodes + count is_indirect nodes)

count_sites-Counts :
    (nodes : List RouterNode) (r : TransportConnectedSites) → Counts nodes r (count_sites nodes r)
unfolding count_sites
count_sites-Counts [] r = record {
  direct = omega arith;
  indirect = omega arith;
  total = omega arith;
}
count_sites-Counts (n ∷ nodes) r =
    let ih = count_sites-Counts nodes (
      if n.next_hop == ""
      then record r { direct = r.direct + 1; total = r.total + 1 }
      else if n.next_hop == "(self)"
      then r
      else record r { indirect = r.indirect + 1; total = r.total + 1 }) in
    record {
      direct = ground (arith, ih.direct);
      indirect = ground (arith, ih.indirect);
      total = ground (arith, ih.total);
    }

-- The direct sites are the nodes without a next hop, the indirect ones those whose next hop is
-- another node; the node itself is not counted, and the total is the sum.
pub get_connected_sites_lem :
    (nodes : List RouterNode)
    → ((get_connected_sites (ok nodes)).0.direct ≡ count is_direct nodes)
      × ((get_connected_sites (ok nodes)).0.indirect ≡ count is_indirect nodes)
      × ((get_connected_sites (ok nodes)).0.total
          ≡ (get_connected_sites (ok nodes)).0.direct + (get_connected_sites (ok nodes)).0.indirect)
unfolding get_connected_sites
get_connected_sites_lem nodes =
    let c = count_sites-Counts nodes no_sites in
    let direct = c.direct in
    let indirect = c.indirect in let total = c.total in (omega arith, omega arith, omega arith)

abbrev is_link_to : String → Connection → Bool
is_link_to host c = (c.role == "inter-router" || c.role == "edge") && c.host == host

-- The connection that is found is the first of the list that goes to another router at that host;
-- none is found only if the list has none.
get_inter_router_or_edge_connection_lem :
    (host : String) (cs : List Connection)
    → ((get_inter_router_or_edge_connection host cs ≡ none) × (any (is_link_to host) cs ≡ false))
      ⊎ ((c : Connection) × (before : List Connection) × (after : List Connection)
          × (get_inter_router_or_edge_connection host cs ≡ some c)
          × (cs ≡ before ++ c ∷ after)
          × (any (is_link_to host) before ≡ false)
          × (is_link_to host c ≡ true))
unfolding get_inter_router_or_edge_connection
get_inter_router_or_edge_connection_lem host [] = inl (refl, refl)
get_inter_router_or_edge_connection_lem host (c ∷ cs) = elim (Bool-cases (is_link_to host c)) [
  | inl e ↦ inr (c, [], cs, rw e refl, refl, refl, e)
  | inr e ↦ elim (get_inter_router_or_edge_connection_lem host cs) [
    | inl (p, q) ↦ inl (rw e p, rw e q)
    | inr (d, before, after, p, q, r, t) ↦
        inr (d, c ∷ before, after, rw e p, ap (λ (x : List Connection). c ∷ x) q, rw e r, t)
  ]
]

-- ===== src/Docker/Networks.antt =====
-- `NewTransportNetwork` and `RemoveNetwork` of pkg/docker/networks.go, and that the latter removes the
-- network.
use skupper_docker.Base.{
  not, ◌==◌, if◌then◌else◌, ◌≡◌, refl, ◌∙◌, String, true, Option, none, some, List, [], ◌∷◌, ap,
  subst,
}
use skupper_docker.Base.Exec.{fail, ok, Exec, is_ok, pure, ◌>>=◌, ◌>>◌, step-is_ok, step-state}
use skupper_docker.Errors.{Error, network_without_name}
use skupper_docker.Docker.Daemon.{Daemon, Held, HasNetworks, Answered}

module _ {D : Type 0} (dd : Daemon D) where
  -- `for _, container := range tnr.Containers`
  disconnect_all : String → List String → Exec Error D (Unit {0})
  disconnect_all network [] = pure tt
  disconnect_all network (c ∷ cs) = do dd.disconnect_container network c; disconnect_all network cs

  abbrev inspect_network : String → Exec Error D (List String)
  inspect_network name d = (dd.inspect_network name d, d)

  pub remove_network : String → Exec Error D (Unit {0})
  unfolding disconnect_all
  remove_network name = do
    containers ← inspect_network name
    disconnect_all name containers
    dd.remove_network name

  unfoldable pub new_transport_network : String → Exec Error D (Unit {0})
  new_transport_network name =
      if not (name == "") then dd.create_network name else fail network_without_name

module _ {D : Type 0} {dd : Daemon D} {find : D → String → Option Held}
    {members : D → String → Option (List String)} (networks : HasNetworks dd find members) where
  disconnected_all :
      (n : String) (cs : List String) (d : D)
      → members d n ≡ some cs
      → (is_ok (disconnect_all dd n cs d).0 ≡ true)
        × (members (disconnect_all dd n cs d).1 n ≡ some [])
        × ((m : String) → find (disconnect_all dd n cs d).1 m ≡ find d m)
  unfolding disconnect_all
  disconnected_all n [] d e = (refl, e, λ m. refl)
  disconnected_all n (c ∷ cs) d e =
      let (fine, rest) = networks.disconnected n c cs d e in
      let (fine', gone, same) = disconnected_all n cs (dd.disconnect_container n c d).1 rest in
      let after =
        step-state (dd.disconnect_container n c) (disconnect_all dd n cs) d ∙ rw fine refl in
      (
        step-is_ok (dd.disconnect_container n c) (disconnect_all dd n cs) d ∙ rw fine fine',
        ap (λ x. members x n) after ∙ gone,
        λ m. ap (λ x. find x m) after ∙ same m ∙ networks.find_disconnected n c d m,
      )

  -- A network that is there is removed, whatever containers are on it, and no container changes.
  pub remove_network_lem :
      (n : String) (cs : List String) (d : D)
      → members d n ≡ some cs
      → (is_ok (remove_network dd n d).0 ≡ true)
        × (members (remove_network dd n d).1 n ≡ none)
        × ((m : String) → find (remove_network dd n d).1 m ≡ find d m)
  unfolding remove_network
  remove_network_lem n cs d e =
      let asked : dd.inspect_network n d ≡ ok cs =
        subst (λ (o : Option (List String)). Answered o (dd.inspect_network n d)) e
          (networks.answered n d) in
      let (fine, empty, same) = disconnected_all n cs d e in
      let d' = (disconnect_all dd n cs d).1 in
      let (fine', gone) = networks.network_removed n d' empty in
      let after = step-state (disconnect_all dd n cs) (dd.remove_network n) d ∙ rw fine refl in
      rw asked (
        step-is_ok (disconnect_all dd n cs) (dd.remove_network n) d ∙ rw fine fine',
        ap (λ (x : D). members x n) after ∙ gone,
        λ (m : String).
            ap (λ (x : D). find x m) after ∙ networks.find_network_removed n d' m ∙ same m,
      )

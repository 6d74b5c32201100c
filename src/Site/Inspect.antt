-- ===== src/Site/Inspect.antt =====
-- `RouterInspect` of client/router_inspect.go. The version of an image, docker.GetImageVersion, is an
-- argument, and so are the answers of the router to successive calls of qdr.GetConnectedSites.
use skupper_docker.Base.{
  ℕ, zero, suc, ◌+◌, ◌≤◌, ◌<◌, ◌≡◌, refl, ◌⊎◌, inl, inr, String, Option, none, some, List, [], ◌∷◌,
  arith, subst, ◌∙◌, ℕ_discrete, Option-cases,
}
use skupper_docker.Base.Exec.{Result, ok, err, Exec, lift, wrap_result, ◌>>=◌, ◌>>◌}
use skupper_docker.Errors.{Error, router_config_not_read}
use skupper_docker.Types.{TransportConnectedSites, ServiceInterface, controller_deployment_name}
use skupper_docker.Service.Client.{service_interface_list}
use skupper_docker.Docker.Daemon.{Daemon}
use skupper_docker.Network.{no_sites}
use skupper_docker.Site.Files.{World, as_host, get_router_config_from_file}

-- `RouterInspectResponse`, with its `RouterStatusSpec`
pub record RouterInspectResponse : Type 0 where
  pub mode : String
  pub state : String
  pub connected_sites : TransportConnectedSites
  pub transport_version : String
  pub controller_version : String
  pub exposed_services : ℕ

abbrev no_response : RouterInspectResponse
no_response = record {
  mode = "";
  state = "";
  connected_sites = no_sites;
  transport_version = "";
  controller_version = "";
  exposed_services = 0;
}

-- a query of the connected sites: what it yields, and its error if there is one
abbrev pub Query : Type 0
Query = ℕ → TransportConnectedSites × Option Error

-- The loop that asks again, `rounds` times at most, while there is an error; `next` queries were made.
retry :
    Query
    → (rounds next : ℕ) → TransportConnectedSites × Option Error
    → TransportConnectedSites × Option Error
retry query zero next answer = answer
retry query (suc rounds) next (sites, none) = (sites, none)
retry query (suc rounds) next (sites, some e) = retry query rounds (suc next) (query next)

unfoldable pub connected : Query → TransportConnectedSites × Option Error
unfolding retry
connected query = retry query 5 1 (query 0)

abbrev as_result : TransportConnectedSites × Option Error → Result Error TransportConnectedSites
as_result (sites, none) = ok sites
as_result (sites, some e) = err e

abbrev update :
    (RouterInspectResponse → RouterInspectResponse) → Exec Error RouterInspectResponse (Unit {0})
update f vir = (ok tt, f vir)

length : List ServiceInterface → ℕ
length [] = 0
length (s ∷ vsis) = 1 + length vsis

-- the services are counted; an error leaves none, and is the one that is returned
count : Result Error (List ServiceInterface) → Exec Error RouterInspectResponse (Unit {0})
unfolding length
count (ok vsis) vir = (ok tt, record vir { exposed_services = length vsis })
count (err e) vir = (err e, record vir { exposed_services = 0 })

-- The error and the response, which holds what was found before an error.
unfoldable pub router_inspect :
    {D : Type 0}
    → Daemon D
    → (String → Result Error String)
    → Query
    → World D
    → Result Error (Unit {0}) × RouterInspectResponse
unfolding connected count get_router_config_from_file service_interface_list
router_inspect dd image_version query w =
    (do
      transport ← lift (dd.inspect_container "skupper-router" w.daemon)
      version ← lift (image_version transport.image)
      update (λ (vir : RouterInspectResponse). record vir {
        transport_version = version;
        state = transport.status;
      })
      controller ← lift (dd.inspect_container controller_deployment_name w.daemon)
      version' ← lift (image_version controller.image)
      update (λ (vir : RouterInspectResponse). record vir { controller_version = version' })
      config ← lift (wrap_result router_config_not_read (get_router_config_from_file w).0)
      update (λ (vir : RouterInspectResponse). record vir { mode = config.metadata.mode })
      sites ← lift (as_result (connected query))
      update (λ (vir : RouterInspectResponse). record vir { connected_sites = sites })
      count (service_interface_list (as_host dd w)).0)
      no_response

-- an answer with an error
abbrev pub HasFailed : TransportConnectedSites × Option Error → Type 0
HasFailed answer = (e : Error) × (answer.1 ≡ some e)

retry-done :
    (query : Query) (rounds next : ℕ) (answer : TransportConnectedSites × Option Error)
    → answer.1 ≡ none
    → retry query (suc rounds) next answer ≡ answer
unfolding retry
retry-done query rounds next (sites, none) h = refl
retry-done query rounds next (sites, some e) h = cc

retry-again :
    (query : Query) (rounds next : ℕ) (answer : TransportConnectedSites × Option Error) (e : Error)
    → answer.1 ≡ some e
    → retry query (suc rounds) next answer ≡ retry query rounds (suc next) (query next)
unfolding retry
retry-again query rounds next (sites, none) e h = cc
retry-again query rounds next (sites, some x) e h = refl

retry_lem :
    (query : Query) (rounds i : ℕ)
    → (k : ℕ) × (i ≤ k)
      × (k ≤ i + rounds)
      × (retry query rounds (suc i) (query i) ≡ query k)
      × (((query k).1 ≡ none) ⊎ (k ≡ i + rounds))
      × ((j : ℕ) → i ≤ j → j < k → HasFailed (query j))
unfolding retry
retry_lem query zero i =
    (i, omega arith, omega arith, refl, inr (omega arith), λ j a b. ground arith)
retry_lem query (suc rounds) i = elim (Option-cases (query i).1) [
  | inl done ↦ (
    i,
    omega arith,
    omega arith,
    retry-done query rounds (suc i) (query i) done,
    inl done,
    λ j a b. ground arith,
  )
  | inr (e, failed) ↦
      let (k, lower, upper, same, last, before) = retry_lem query rounds (suc i) in
      (
        k,
        omega arith,
        omega arith,
        retry-again query rounds (suc i) (query i) e failed ∙ same,
        elim last [ inl done ↦ inl done | inr end ↦ inr (omega arith) ],
        λ j a b. elim (ℕ_discrete i j) [
          | yes at ↦ subst (λ (n : ℕ). HasFailed (query n)) at (e, failed)
          | no past ↦ before j (omega arith) b
        ],
      )
]

-- `RouterInspect` asks for the connected sites six times at most, and not again once it had an
-- answer: what it goes on with is the first answer without an error, or the sixth answer.
pub connected_lem :
    (query : Query)
    → (k : ℕ) × (k ≤ 5)
      × (connected query ≡ query k)
      × (((query k).1 ≡ none) ⊎ (k ≡ 5))
      × ((j : ℕ) → j < k → HasFailed (query j))
unfolding connected
connected_lem query =
    let (k, lower, upper, same, last, failed) = retry_lem query 5 0 in
    (k, upper, same, last, λ j less. failed j (omega arith) less)

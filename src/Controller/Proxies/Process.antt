-- ===== src/Controller/Proxies/Process.antt =====
-- `processServiceDefs` of cmd/service-controller/controller.go as a whole: from the file of
-- definitions to the proxy containers.
use skupper_docker.Base.{◌≡◌, refl, ap, ◌∙◌, String, Option, none}
use skupper_docker.Base.Dict
use skupper_docker.Base.Dict.{Dict}
use skupper_docker.Base.Exec.{ok, Result}
use skupper_docker.Errors.{Error}
use skupper_docker.Types.{ServiceInterface}
use skupper_docker.Router.Document.{Document}
use skupper_docker.Docker.Daemon.{Daemon, Held, IsHealthy}
use skupper_docker.Host.{Host, definitions}
use skupper_docker.Controller.{Controller, get_service_definitions}
use skupper_docker.Controller.Sync.Updates.{Keyed}
use skupper_docker.Controller.Bindings.{process_service_defs}
use skupper_docker.Controller.Bindings.Keyed.{
  AreKeyed, process_service_defs-AreKeyed, process_service_defs-origin,
}
use skupper_docker.Controller.Bindings.Process.{bound_at, process_service_defs-bindings}
use skupper_docker.Controller.Proxies.{process_service_defs_and_proxies, proxies_after}
use skupper_docker.Controller.Proxies.Update.{updated_at, find-update_proxies}

read_definitions :
    (h : Host) (defs : Dict ServiceInterface)
    → h.services ≡ definitions defs
    → (get_service_definitions h).0 ≡ ok defs
unfolding get_service_definitions
read_definitions h defs held = rw held refl

-- From a readable file whose definitions stand under their addresses, on a daemon on which no fitting
-- operation fails: after `processServiceDefs` each address that the file defines has a container,
-- the one that was there if it is a proxy of the right configuration or no proxy at all, and
-- otherwise a running proxy for the bindings of the definition; a proxy under any other address is
-- gone, and every other container is as it was.
pub process_service_defs-proxies :
    {D : Type 0} {dd : Daemon D} {find : D → String → Option Held} (healthy : IsHealthy dd find)
    (getenv : String → String) (encode : ServiceInterface → String) (marshal : Document → String)
    (c : Controller) (h : Host) (defs : Dict ServiceInterface) (d : D) (m : String)
    → h.services ≡ definitions defs
    → Keyed defs
    → AreKeyed c.bindings
    → find (process_service_defs_and_proxies dd getenv encode marshal c h d).1 m
      ≡ updated_at healthy getenv encode marshal c.origin
          (bound_at (Dict.lookup m defs) (Dict.lookup m c.bindings) none)
          (find d m)
unfolding process_service_defs_and_proxies proxies_after
process_service_defs-proxies {dd} {find} healthy getenv encode marshal c h defs d m held keyed
      bound =
    let c' = process_service_defs c h in
    ap
      (λ (r : Result Error (Dict ServiceInterface)).
        find (proxies_after dd getenv encode marshal r c' d) m)
      (read_definitions h defs held)
    ∙ find-update_proxies healthy getenv encode marshal c' d m
        (process_service_defs-AreKeyed c h bound)
    ∙ rw (process_service_defs-bindings c h defs m held keyed, process_service_defs-origin c h) refl

-- ===== src/Controller/Bindings/Process.antt =====
-- The bindings after `processServiceDefs` of cmd/service-controller/controller.go.
use skupper_docker.Base.{◌≡◌, String, Option, none, some, [], ◌∷◌, ◌==◌, arith, ◌∙◌, if◌then◌else◌}
use skupper_docker.Base.Dict
use skupper_docker.Base.Dict.{Dict}
use skupper_docker.Types.{ServiceInterface}
use skupper_docker.Host.{Host, definitions}
use skupper_docker.Controller.{Controller, ServiceBindings, get_service_definitions}
use skupper_docker.Controller.Sync.{service_sync_definitions_updated}
use skupper_docker.Controller.Sync.Updates.{Keyed}
use skupper_docker.Controller.Bindings.{
  reconfigure, fresh_bindings, update_service_bindings, update_all, prune_bindings,
  processed_bindings, process_service_defs, process_result,
}

-- the bindings that a definition gets
abbrev pub bind_to : ServiceInterface → Option ServiceBindings → ServiceBindings
bind_to s none = fresh_bindings s
bind_to s (some b) = reconfigure s b

abbrev pub bound_at :
    Option ServiceInterface
    → Option ServiceBindings
    → Option ServiceBindings
    → Option ServiceBindings
bound_at none old rest = rest
bound_at (some s) old rest = some (bind_to s old)

lookup-update_service_bindings :
    (a : String) (s : ServiceInterface) (bindings : Dict ServiceBindings)
    → Dict.lookup a (update_service_bindings s bindings) ≡ (
        if a == s.address
        then some (bind_to s (Dict.lookup a bindings))
        else Dict.lookup a bindings)
unfolding update_service_bindings
lookup-update_service_bindings a s bindings = grind (arith, Dict.lookup-insert)

lookup-update_all :
    (a : String) (defs : Dict ServiceInterface) (bindings : Dict ServiceBindings)
    → Keyed defs
    → Dict.lookup a (update_all defs bindings)
      ≡ bound_at (Dict.lookup a defs) (Dict.lookup a bindings) (Dict.lookup a bindings)
unfolding update_all
lookup-update_all a [] bindings k = rw (Dict.lookup-nil {V = ServiceInterface} a)
lookup-update_all a ((n, s) ∷ defs) bindings (at, fresh, k) =
    lookup-update_all a defs (update_service_bindings s bindings) k
    ∙ rw (Dict.lookup-cons a n s defs) (ground (arith, lookup-update_service_bindings a s bindings))

lookup-prune_bindings :
    (a : String) (defs : Dict ServiceInterface) (bindings : Dict ServiceBindings)
    → Dict.lookup a (prune_bindings defs bindings)
      ≡ (if Dict.member a defs then Dict.lookup a bindings else none)
unfolding prune_bindings Dict.lookup
lookup-prune_bindings a defs [] = ground arith
lookup-prune_bindings a defs ((j, b) ∷ bindings) =
    ground (arith, lookup-prune_bindings a defs bindings)

lookup-processed_bindings :
    (defs : Dict ServiceInterface) (bindings : Dict ServiceBindings) (a : String)
    → Keyed defs
    → Dict.lookup a (processed_bindings defs bindings)
      ≡ bound_at (Dict.lookup a defs) (Dict.lookup a bindings) none
unfolding processed_bindings
lookup-processed_bindings [] bindings a k =
    rw (Dict.lookup-nil {V = ServiceInterface} a) (Dict.lookup-nil a)
lookup-processed_bindings ((n, s) ∷ defs) bindings a k =
    lookup-prune_bindings a ((n, s) ∷ defs) (update_all ((n, s) ∷ defs) bindings)
    ∙ ground (arith, lookup-update_all a ((n, s) ∷ defs) bindings k)

-- After `processServiceDefs` read a file whose definitions stand under their addresses, the
-- addresses that have bindings are exactly those of the definitions: bindings that were there are
-- reconfigured to the definition, others are made anew, and those without a definition are gone.
-- The order in which the maps are walked is of no account.
pub process_service_defs-bindings :
    (c : Controller) (h : Host) (defs : Dict ServiceInterface) (a : String)
    → h.services ≡ definitions defs
    → Keyed defs
    → Dict.lookup a (process_service_defs c h).bindings
      ≡ bound_at (Dict.lookup a defs) (Dict.lookup a c.bindings) none
unfolding process_service_defs process_result get_service_definitions
    service_sync_definitions_updated
process_service_defs-bindings c h defs a held k =
    rw held (lookup-processed_bindings defs c.bindings a k)

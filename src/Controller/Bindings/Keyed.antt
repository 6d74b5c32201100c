-- ===== src/Controller/Bindings/Keyed.antt =====
-- Under which keys `processServiceDefs` of cmd/service-controller/controller.go keeps the bindings.
use skupper_docker.Base.{
  ◌≡◌, refl, ◌∙◌, sym, subst, String, none, some, [], ◌∷◌, ◌==◌, arith, Bool-cases, inl, inr,
  Option-cases, eq→path,
}
use skupper_docker.Base.Dict
use skupper_docker.Base.Dict.{Dict}
use skupper_docker.Base.Exec.{ok, err, Result}
use skupper_docker.Types.{ServiceInterface}
use skupper_docker.Errors.{Error}
use skupper_docker.Host.{Host}
use skupper_docker.Controller.{Controller, ServiceBindings, get_service_definitions}
use skupper_docker.Controller.Sync.{service_sync_definitions_updated}
use skupper_docker.Controller.Bindings.{
  reconfigure, new_service_bindings, fresh_bindings, update_service_bindings, update_all,
  prune_bindings, processed_bindings, process_service_defs, process_result,
}
use skupper_docker.Controller.Bindings.Process.{bind_to}

-- Bindings stand under their addresses, once each.
abbrev pub AreKeyed : Dict ServiceBindings → Type 0
AreKeyed [] = Unit
AreKeyed ((k, b) ∷ bindings) = (b.address ≡ k) × (Dict.lookup k bindings ≡ none) × AreKeyed bindings

insert-AreKeyed :
    (a : String) (b : ServiceBindings) (bindings : Dict ServiceBindings)
    → b.address ≡ a
    → AreKeyed bindings
    → AreKeyed (Dict.insert a b bindings)
unfolding Dict.insert
insert-AreKeyed a b [] at k = (at, Dict.lookup-nil a, tt)
insert-AreKeyed a b ((j, w) ∷ bindings) at (here, fresh, k) = elim (Bool-cases (a == j)) [
  | inl e ↦ rw (AreKeyed, e) (at, rw (eq→path a j e) fresh, k)
  | inr e ↦
      rw (AreKeyed, e)
        (here, Dict.lookup-insert j a b bindings ∙ ground arith, insert-AreKeyed a b bindings at k)
]

lookup-AreKeyed :
    (a : String) (bindings : Dict ServiceBindings) (b : ServiceBindings)
    → AreKeyed bindings
    → Dict.lookup a bindings ≡ some b
    → b.address ≡ a
unfolding Dict.lookup
lookup-AreKeyed a [] b k e = cc
lookup-AreKeyed a ((n, d) ∷ m) b (at, fresh, k) e = ground (arith, lookup-AreKeyed a m b k)

bind_to-address :
    (s : ServiceInterface) (bindings : Dict ServiceBindings)
    → AreKeyed bindings
    → (bind_to s (Dict.lookup s.address bindings)).address ≡ s.address
unfolding reconfigure fresh_bindings new_service_bindings
bind_to-address s bindings k = elim (Option-cases (Dict.lookup s.address bindings)) [
  | inl e ↦ rw e refl
  | inr (b, e) ↦ rw e (lookup-AreKeyed s.address bindings b k e)
]

update_service_bindings-bind_to :
    (s : ServiceInterface) (bindings : Dict ServiceBindings)
    → update_service_bindings s bindings
      ≡ Dict.insert s.address (bind_to s (Dict.lookup s.address bindings)) bindings
unfolding update_service_bindings
update_service_bindings-bind_to s bindings = ground arith

update_service_bindings-AreKeyed :
    (s : ServiceInterface) (bindings : Dict ServiceBindings)
    → AreKeyed bindings
    → AreKeyed (update_service_bindings s bindings)
update_service_bindings-AreKeyed s bindings k =
    subst AreKeyed (sym (update_service_bindings-bind_to s bindings))
      (insert-AreKeyed s.address _ bindings (bind_to-address s bindings k) k)

update_all-AreKeyed :
    (defs : Dict ServiceInterface) (bindings : Dict ServiceBindings)
    → AreKeyed bindings
    → AreKeyed (update_all defs bindings)
unfolding update_all
update_all-AreKeyed [] bindings k = k
update_all-AreKeyed ((_, s) ∷ defs) bindings k =
    update_all-AreKeyed defs _ (update_service_bindings-AreKeyed s bindings k)

lookup-pruned :
    (defs : Dict ServiceInterface) (bindings : Dict ServiceBindings) (a : String)
    → Dict.lookup a bindings ≡ none
    → Dict.lookup a (prune_bindings defs bindings) ≡ none
unfolding prune_bindings Dict.lookup
lookup-pruned defs [] a h = h
lookup-pruned defs ((j, b) ∷ bindings) a h = ground (arith, lookup-pruned defs bindings a)

prune_bindings-AreKeyed :
    (defs : Dict ServiceInterface) (bindings : Dict ServiceBindings)
    → AreKeyed bindings
    → AreKeyed (prune_bindings defs bindings)
unfolding prune_bindings
prune_bindings-AreKeyed defs [] k = tt
prune_bindings-AreKeyed defs ((j, b) ∷ bindings) (at, fresh, k) =
    elim (Bool-cases (Dict.member j defs)) [
      | inl e ↦
          rw (AreKeyed, e)
            (at, lookup-pruned defs bindings j fresh, prune_bindings-AreKeyed defs bindings k)
      | inr e ↦ rw (AreKeyed, e) (prune_bindings-AreKeyed defs bindings k)
    ]

processed_bindings-AreKeyed :
    (defs : Dict ServiceInterface) (bindings : Dict ServiceBindings)
    → AreKeyed bindings
    → AreKeyed (processed_bindings defs bindings)
unfolding processed_bindings
processed_bindings-AreKeyed [] bindings k = tt
processed_bindings-AreKeyed (d ∷ defs) bindings k =
    prune_bindings-AreKeyed (d ∷ defs) _ (update_all-AreKeyed (d ∷ defs) bindings k)

process_result-AreKeyed :
    (r : Result Error (Dict ServiceInterface)) (c : Controller)
    → AreKeyed c.bindings
    → AreKeyed (process_result r c).bindings
unfolding process_result service_sync_definitions_updated
process_result-AreKeyed (err e) c k = k
process_result-AreKeyed (ok defs) c k = processed_bindings-AreKeyed defs c.bindings k

-- Whatever the file holds, and also when it cannot be read, `processServiceDefs` keeps the bindings
-- under their addresses, once each.
pub process_service_defs-AreKeyed :
    (c : Controller) (h : Host) → AreKeyed c.bindings → AreKeyed (process_service_defs c h).bindings
unfolding process_service_defs
process_service_defs-AreKeyed c h k = process_result-AreKeyed (get_service_definitions h).0 c k

process_result-origin :
    (r : Result Error (Dict ServiceInterface)) (c : Controller)
    → (process_result r c).origin ≡ c.origin
unfolding process_result service_sync_definitions_updated
process_result-origin (err e) c = refl
process_result-origin (ok defs) c = refl

pub process_service_defs-origin :
    (c : Controller) (h : Host) → (process_service_defs c h).origin ≡ c.origin
unfolding process_service_defs
process_service_defs-origin c h = process_result-origin (get_service_definitions h).0 c

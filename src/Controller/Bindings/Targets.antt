-- ===== src/Controller/Bindings/Targets.antt =====
-- The targets of a service's bindings after `updateServiceBindings`.
use mathlib.Core.Option
use skupper_docker.Base.{
  ◌≡◌, refl, String, true, false, Option, none, some, List, [], ◌∷◌, ◌==◌, arith, ◌∙◌, Option-cases,
  Bool-cases, inl, inr, if◌then◌else◌,
}
use skupper_docker.Base.Int.{ℤ, ==ℤ→eq}
use skupper_docker.Base.Dict
use skupper_docker.Base.Dict.{Dict}
use skupper_docker.Types.{ServiceInterface, ServiceInterfaceTarget}
use skupper_docker.Controller.{EgressBindings, ServiceBindings}
use skupper_docker.Controller.Bindings.{
  target_key, get_target_port, has_target_for_name, ensure_target, ensure_targets, prune_targets,
  reconfigure,
}

lookup-prune_targets :
    (k : String) (required : ServiceInterface) (targets : Dict EgressBindings)
    → Dict.lookup k (prune_targets required targets) ≡ (
        if has_target_for_name required.address required.targets k
        then Dict.lookup k targets
        else none)
unfolding prune_targets Dict.lookup
lookup-prune_targets k required [] = ground arith
lookup-prune_targets k required ((j, eb) ∷ targets) =
    ground (arith, lookup-prune_targets k required targets)

-- the port that a key has among the targets
abbrev pub egress_port : EgressBindings → ℤ
egress_port eb = eb.egress_port

abbrev pub port_at : String → Dict EgressBindings → Option ℤ
port_at k targets = Option.map egress_port (Dict.lookup k targets)

port_at-ensure_target :
    (k : String) (required : ServiceInterface) (t : ServiceInterfaceTarget)
    (targets : Dict EgressBindings)
    → port_at k (ensure_target required t targets) ≡ (
        if k == target_key required.address t.name
        then some (get_target_port required t)
        else port_at k targets)
unfolding ensure_target
port_at-ensure_target k required t targets =
    let key = target_key required.address t.name in
    let port = get_target_port required t in
    elim (Option-cases (Dict.lookup key targets)) [
      | inl new ↦ ground (
        arith,
        Dict.lookup-insert k key
            (record { name = t.name; selector = t.selector; service = ""; egress_port = port })
            targets,
      )
      | inr (eb, old) ↦ ground (
        arith,
        ==ℤ→eq eb.egress_port port,
        Dict.lookup-insert k key (record eb { egress_port = port }) targets,
      )
    ]

-- the port that the definition asks for under a key: that of the last target with the key
abbrev wanted_port : ServiceInterface → List ServiceInterfaceTarget → String → Option ℤ
wanted_port required [] k = none
wanted_port required (t ∷ ts) k = elim (wanted_port required ts k) [
  | some p ↦ some p
  | none ↦
      if k == target_key required.address t.name then some (get_target_port required t) else none
]

abbrev or_port : Option ℤ → Option ℤ → Option ℤ
or_port none q = q
or_port (some p) q = some p

port_at-ensure_targets :
    (k : String) (required : ServiceInterface) (ts : List ServiceInterfaceTarget)
    (targets : Dict EgressBindings)
    → port_at k (ensure_targets required ts targets)
      ≡ or_port (wanted_port required ts k) (port_at k targets)
unfolding ensure_targets
port_at-ensure_targets k required [] targets = refl
port_at-ensure_targets k required (t ∷ ts) targets =
    port_at-ensure_targets k required ts (ensure_target required t targets)
    ∙ ground (arith, port_at-ensure_target k required t targets)

wanted_port-has_target :
    (k : String) (required : ServiceInterface) (ts : List ServiceInterfaceTarget)
    → has_target_for_name required.address ts k ≡ false
    → wanted_port required ts k ≡ none
unfolding has_target_for_name
wanted_port-has_target k required [] h = refl
wanted_port-has_target k required (t ∷ ts) h = ground (arith, wanted_port-has_target k required ts)

wanted_absent :
    (k : String) (required : ServiceInterface) (ts : List ServiceInterfaceTarget)
    → wanted_port required ts k ≡ none
    → has_target_for_name required.address ts k ≡ false
unfolding has_target_for_name
wanted_absent k required [] h = refl
wanted_absent k required (t ∷ ts) h = ground (arith, wanted_absent k required ts)

wanted_port-some :
    (k : String) (required : ServiceInterface) (ts : List ServiceInterfaceTarget)
    → has_target_for_name required.address ts k ≡ true
    → (p : ℤ) × (wanted_port required ts k ≡ some p)
unfolding has_target_for_name
wanted_port-some k required [] h = cc
wanted_port-some k required (t ∷ ts) h = elim (Option-cases (wanted_port required ts k)) [
  | inr (p, e) ↦ (p, rw e)
  | inl e ↦ (get_target_port required t, rw e (ground (arith, wanted_absent k required ts)))
]

-- After an update of bindings that are there, the keys of the targets and the ports under them are
-- those that the definition asks for, whatever the bindings were: stale targets are gone, new ones
-- are there, and a target without a port of its own has the service's.
pub port_at-reconfigure :
    (required : ServiceInterface) (b : ServiceBindings) (k : String)
    → port_at k (reconfigure required b).targets ≡ wanted_port required required.targets k
unfolding reconfigure
port_at-reconfigure required b k =
    elim (Bool-cases (has_target_for_name required.address required.targets k)) [
      | inl has ↦
          let (p, e) = wanted_port-some k required required.targets has in
          ground (
            arith,
            lookup-prune_targets k required (ensure_targets required required.targets b.targets),
            port_at-ensure_targets k required required.targets b.targets,
          )
      | inr lacks ↦ ground (
        arith,
        lookup-prune_targets k required (ensure_targets required required.targets b.targets),
        wanted_port-has_target k required required.targets lacks,
      )
    ]

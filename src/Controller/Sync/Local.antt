-- ===== src/Controller/Sync/Local.antt =====
-- The tables that `serviceSyncDefinitionsUpdated` of cmd/service-controller/service_sync.go builds
-- from the file of definitions, and the comparison of definitions.
use mathlib.Core.Option
use skupper_docker.Base.{
  ◌≡◌, refl, ◌≢◌, ◌↔◌, String, true, ◌&&◌, not, Option, none, some, [], ◌∷◌, ◌==◌, arith,
  Bool-cases, inl, inr, ap, sym, subst, eq_self, eq→path, ◌∙◌, if◌then◌else◌,
}
use skupper_docker.Base.Int.{==ℤ→eq, ==ℤ_refl}
use skupper_docker.Base.Dict
use skupper_docker.Base.Dict.{Dict}
use skupper_docker.Types.{ServiceInterface, Headless}
use skupper_docker.Controller.{Controller}
use skupper_docker.Controller.Sync.{
  Tables, summary, is_remote, table_of, register, register_all, pare_by_origin,
  service_sync_definitions_updated, equivalent_service_definition, equivalent_headless,
}
use skupper_docker.Controller.Sync.Updates.{Keyed}

equivalent_headless_iff : (a b : Option Headless) → (equivalent_headless a b ≡ true) ↔ (a ≡ b)
unfolding equivalent_headless
equivalent_headless_iff none none = (λ _. refl, λ _. refl)
equivalent_headless_iff none (some b) = (λ h. cc, λ h. cc)
equivalent_headless_iff (some a) none = (λ h. cc, λ h. cc)
equivalent_headless_iff (some a) (some b) = ground (
  arith,
  ==ℤ→eq a.size b.size,
  ==ℤ→eq a.target_port b.target_port,
  ==ℤ_refl b.size,
  ==ℤ_refl b.target_port,
)

-- Two definitions are equivalent exactly when they agree in protocol, port, event channel,
-- aggregate and headless part; addresses, targets and origins are not compared.
equivalent_iff :
    (a b : ServiceInterface)
    → (equivalent_service_definition a b ≡ true) ↔ (
        (a.protocol ≡ b.protocol)
        × (a.port ≡ b.port)
        × (a.event_channel ≡ b.event_channel)
        × (a.aggregate ≡ b.aggregate)
        × (a.headless ≡ b.headless))
unfolding equivalent_service_definition
equivalent_iff a b =
    ground
      (arith, ==ℤ→eq a.port b.port, ==ℤ_refl b.port, equivalent_headless_iff a.headless b.headless)

abbrev named_at : Option ServiceInterface → Option ServiceInterface → Option ServiceInterface
named_at none old = old
named_at (some s) old = some (summary s)

abbrev local_at : Option ServiceInterface → Option ServiceInterface → Option ServiceInterface
local_at none old = old
local_at (some s) old = if is_remote s.origin then old else some (summary s)

register-by_name :
    (a n : String) (s : ServiceInterface) (t : Tables)
    → Dict.lookup a (register n s t).by_name
      ≡ (if a == s.address then some (summary s) else Dict.lookup a t.by_name)
unfolding register
register-by_name a n s t = ground (arith, Dict.lookup-insert a s.address (summary s) t.by_name)

register-latest :
    (a n : String) (s : ServiceInterface) (t : Tables)
    → Dict.lookup a (register n s t).latest ≡ (
        if a == s.address && not (is_remote s.origin)
        then some (summary s)
        else Dict.lookup a t.latest)
unfolding register
register-latest a n s t = ground (arith, Dict.lookup-insert a s.address (summary s) t.latest)

register_all-by_name :
    (a : String) (defs : Dict ServiceInterface) (t : Tables)
    → Keyed defs
    → Dict.lookup a (register_all defs t).by_name
      ≡ named_at (Dict.lookup a defs) (Dict.lookup a t.by_name)
unfolding register_all
register_all-by_name a [] t k = rw Dict.lookup-nil
register_all-by_name a ((n, s) ∷ defs) t (at, fresh, k) =
    register_all-by_name a defs (register n s t) k
    ∙ rw Dict.lookup-cons (ground (arith, register-by_name a n s t))

register_all-latest :
    (a : String) (defs : Dict ServiceInterface) (t : Tables)
    → Keyed defs
    → Dict.lookup a (register_all defs t).latest
      ≡ local_at (Dict.lookup a defs) (Dict.lookup a t.latest)
unfolding register_all
register_all-latest a [] t k = rw Dict.lookup-nil
register_all-latest a ((n, s) ∷ defs) t (at, fresh, k) =
    register_all-latest a defs (register n s t) k
    ∙ rw Dict.lookup-cons (ground (arith, register-latest a n s t))

-- After a file whose definitions stand under their addresses was read, the controller knows every
-- definition by its address, and holds as its own exactly those that no other site gave, in
-- whatever order the file's map is walked.
pub service_sync_definitions_updated_lem :
    (definitions : Dict ServiceInterface) (c : Controller) (a : String)
    → Keyed definitions
    → (Dict.lookup a (service_sync_definitions_updated definitions c).by_name
        ≡ named_at (Dict.lookup a definitions) none)
      × (Dict.lookup a (service_sync_definitions_updated definitions c).local_services
          ≡ local_at (Dict.lookup a definitions) none)
unfolding service_sync_definitions_updated
service_sync_definitions_updated_lem definitions c a k = (
  register_all-by_name a definitions _ k ∙ rw Dict.lookup-nil,
  register_all-latest a definitions _ k ∙ rw Dict.lookup-nil,
)

-- the address in the table of the origin
abbrev pub listed : String → String → Dict (Dict ServiceInterface) → Option ServiceInterface
listed o a tables = Dict.lookup a (table_of o tables)

listed-insert :
    (o a j n : String) (s : ServiceInterface) (tables : Dict (Dict ServiceInterface))
    → listed o a (Dict.insert j (Dict.insert n s (table_of j tables)) tables)
      ≡ (if o == j && a == n then some s else listed o a tables)
listed-insert o a j n s tables = ground (
  arith,
  Dict.lookup-insert o j (Dict.insert n s (table_of j tables)) tables,
  Dict.lookup-insert a n s (table_of j tables),
)

listed-pare_by_origin :
    (o a service : String) (tables : Dict (Dict ServiceInterface))
    → a ≢ service
    → listed o a (pare_by_origin service tables) ≡ listed o a tables
unfolding pare_by_origin Dict.lookup
listed-pare_by_origin o a service [] ne = refl
listed-pare_by_origin o a service ((j, defs) ∷ tables) ne =
    ground (arith, listed-pare_by_origin o a service tables ne, Dict.lookup-erase a service defs)

some-none : (s : ServiceInterface) → ◌≡◌ {A = Option ServiceInterface} (some s) none → ⊥
some-none s e = cc

register-listed :
    (o a n : String) (s : ServiceInterface) (t : Tables)
    → s.address ≡ n
    → a ≢ n
    → listed o a (register n s t).by_origin ≡ listed o a t.by_origin
unfolding register
register-listed o a n s t at ne = ground (
  arith,
  listed-insert o a s.origin n (summary s) t.by_origin,
  listed-pare_by_origin o a s.address t.by_origin (subst (λ (x : String). a ≢ x) (sym at) ne),
)

register-listed_self :
    (a n : String) (s : ServiceInterface) (t : Tables)
    → a ≡ n
    → is_remote s.origin ≡ true
    → listed s.origin a (register n s t).by_origin ≡ some (summary s)
unfolding register
register-listed_self a n s t e r = ground (
  arith,
  listed-insert s.origin a s.origin n (summary s) t.by_origin,
  eq_self s.origin,
  eq_self n,
)

register_all-listed_absent :
    (o a : String) (defs : Dict ServiceInterface) (t : Tables)
    → Keyed defs
    → Dict.lookup a defs ≡ none
    → listed o a (register_all defs t).by_origin ≡ listed o a t.by_origin
unfolding register_all
register_all-listed_absent o a [] t k missing = refl
register_all-listed_absent o a ((n, s) ∷ defs) t (at, fresh, k) missing =
    elim (Bool-cases (a == n)) [
      | inl same ↦ absurd (some-none s (sym (Dict.lookup-cons a n s defs ∙ rw same) ∙ missing))
      | inr other ↦
          register_all-listed_absent o a defs (register n s t) k
            (sym (Dict.lookup-cons a n s defs ∙ rw other) ∙ missing)
          ∙ register-listed o a n s t at (λ e. cc (other, ap (λ (x : String). a == x) e, eq_self a))
    ]

-- A definition that another site gave stands in that site's table after a file whose definitions
-- stand under their addresses was read.
pub register_all-listed :
    (a : String) (s : ServiceInterface) (defs : Dict ServiceInterface) (t : Tables)
    → Keyed defs
    → Dict.lookup a defs ≡ some s
    → is_remote s.origin ≡ true
    → listed s.origin a (register_all defs t).by_origin ≡ some (summary s)
unfolding register_all
register_all-listed a s [] t k found remote = cc (Dict.lookup-nil {V = ServiceInterface} a)
register_all-listed a s ((n, d) ∷ defs) t (at, fresh, k) found remote = elim (Bool-cases (a == n)) [
  | inl same ↦
      let e = Option.some-injective d s (sym (Dict.lookup-cons a n d defs ∙ rw same) ∙ found) in
      let here = eq→path a n same in
      let there = subst (λ (x : String). Dict.lookup x defs ≡ none) (sym here) fresh in
      let remote' = subst (λ (x : ServiceInterface). is_remote x.origin ≡ true) (sym e) remote in
      subst
        (λ (x : ServiceInterface).
          listed x.origin a (register_all defs (register n d t)).by_origin ≡ some (summary x))
        e
        (register_all-listed_absent d.origin a defs (register n d t) k there
          ∙ register-listed_self a n d t here remote')
  | inr other ↦
      register_all-listed a s defs (register n d t) k
        (sym (Dict.lookup-cons a n d defs ∙ rw other) ∙ found) remote
]

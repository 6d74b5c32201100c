-- ===== src/Service/Targets/Laws.antt =====
-- The lists of targets that client/serviceinterface_update.go adds to and removes from.
use skupper_docker.Base.{
  String, ◌≡◌, refl, Bool, true, false, ◌&&◌, not, Option, none, some, List, [], ◌∷◌, ◌++◌, ◌==◌,
  arith, any, filter, map, ap, ◌∙◌, All, eq_self, str_dec, Bool-cases, inl, inr, if◌then◌else◌,
}
use skupper_docker.Base.Exec.{Result, ok, err}
use skupper_docker.Types.{ServiceInterfaceTarget, container_selector, host_service_selector}
use skupper_docker.Host.{Host, ContainerJson}
use skupper_docker.Errors.{Error}
use skupper_docker.Service.Targets.{
  replace_targets, add_target, remove_targets, is_named, docker_host, get_service_interface_target,
  container_target,
}

-- the first target of a name
abbrev pub find_target : String → List ServiceInterfaceTarget → Option ServiceInterfaceTarget
find_target name [] = none
find_target name (t ∷ ts) = if name == t.name then some t else find_target name ts

abbrev target_names : List ServiceInterfaceTarget → List String
target_names [] = []
target_names (t ∷ ts) = t.name ∷ target_names ts

find_target-concat :
    (name : String) (t : ServiceInterfaceTarget) (ts : List ServiceInterfaceTarget)
    → find_target name (ts ++ t ∷ []) ≡ elim (find_target name ts) [
      | none ↦ if name == t.name then some t else none
      | some u ↦ some u
    ]
find_target-concat name t [] = refl
find_target-concat name t (u ∷ ts) = ground (arith, find_target-concat name t ts)

replace_targets_absent :
    (target : ServiceInterfaceTarget) (ts : List ServiceInterfaceTarget)
    → (replace_targets target ts).0 ≡ false
    → ((replace_targets target ts).1 ≡ ts) × (find_target target.name ts ≡ none)
unfolding replace_targets
replace_targets_absent target [] h = (refl, refl)
replace_targets_absent target (t ∷ ts) h = ground (arith, replace_targets_absent target ts)

find_target-replace_targets :
    (name : String) (target : ServiceInterfaceTarget) (ts : List ServiceInterfaceTarget)
    → find_target name (replace_targets target ts).1 ≡ (
        if name == target.name && (replace_targets target ts).0
        then some target
        else find_target name ts)
unfolding replace_targets
find_target-replace_targets name target [] = ground arith
find_target-replace_targets name target (t ∷ ts) =
    ground (arith, find_target-replace_targets name target ts)

replace_targets_present :
    (target : ServiceInterfaceTarget) (ts : List ServiceInterfaceTarget)
    → find_target target.name ts ≡ none
    → (replace_targets target ts).0 ≡ false
unfolding replace_targets
replace_targets_present target [] h = refl
replace_targets_present target (t ∷ ts) h = ground (arith, replace_targets_present target ts)

target_names-replace_targets :
    (target : ServiceInterfaceTarget) (ts : List ServiceInterfaceTarget)
    → target_names (replace_targets target ts).1 ≡ target_names ts
unfolding replace_targets
target_names-replace_targets target [] = refl
target_names-replace_targets target (t ∷ ts) =
    ground (arith, target_names-replace_targets target ts)

target_names-concat :
    (target : ServiceInterfaceTarget) (ts : List ServiceInterfaceTarget)
    → target_names (ts ++ target ∷ []) ≡ target_names ts ++ target.name ∷ []
target_names-concat target [] = refl
target_names-concat target (t ∷ ts) = ground (arith, target_names-concat target ts)

pub selectors_differ : (container_selector == host_service_selector) ≡ false
unfolding str_dec
selectors_differ = refl

-- A lookup by name finds the added target under its name, and under any other name what it found
-- before.
find_target-add_target :
    (name : String) (target : ServiceInterfaceTarget) (ts : List ServiceInterfaceTarget)
    → find_target name (add_target target ts)
      ≡ (if name == target.name then some target else find_target name ts)
unfolding add_target
find_target-add_target name target ts = ground (
  arith,
  find_target-replace_targets name target ts,
  replace_targets_absent target ts,
  find_target-concat name target ts,
)

-- The targets with one more: it takes the place of each target of its name, or stands at the end if
-- there is none.
abbrev pub with_target :
    ServiceInterfaceTarget → List ServiceInterfaceTarget → List ServiceInterfaceTarget
with_target target ts =
    if any (λ (t : ServiceInterfaceTarget). t.name == target.name) ts
    then map (λ (t : ServiceInterfaceTarget). if t.name == target.name then target else t) ts
    else ts ++ target ∷ []

replace_targets_lem :
    (target : ServiceInterfaceTarget) (ts : List ServiceInterfaceTarget)
    → ((replace_targets target ts).0
        ≡ any (λ (t : ServiceInterfaceTarget). t.name == target.name) ts)
      × ((replace_targets target ts).1
          ≡ map (λ (t : ServiceInterfaceTarget). if t.name == target.name then target else t) ts)
unfolding replace_targets
replace_targets_lem target [] = (refl, refl)
replace_targets_lem target (t ∷ ts) =
    let (flag, same) = replace_targets_lem target ts in
    elim (Bool-cases (t.name == target.name)) [
      | inl e ↦ rw (e, same) (refl, refl)
      | inr e ↦ rw (e, same) (flag, refl)
    ]

pub add_target-with_target :
    (target : ServiceInterfaceTarget) (ts : List ServiceInterfaceTarget)
    → add_target target ts ≡ with_target target ts
unfolding add_target
add_target-with_target target ts =
    let (flag, same) = replace_targets_lem target ts in
    elim (Bool-cases (any (λ (t : ServiceInterfaceTarget). t.name == target.name) ts)) [
      | inl there ↦ rw (flag, there) same
      | inr new ↦
          let none_replaced : (replace_targets target ts).0 ≡ false = flag ∙ new in
          rw (flag, new)
            (ap (λ (l : List ServiceInterfaceTarget). l ++ target ∷ [])
              (replace_targets_absent target ts none_replaced).0)
    ]

pub remove_targets-filter :
    (named : ServiceInterfaceTarget → Bool) (ts : List ServiceInterfaceTarget)
    → (remove_targets named ts).1 ≡ filter (λ (t : ServiceInterfaceTarget). not (named t)) ts
unfolding remove_targets
remove_targets-filter named [] = refl
remove_targets-filter named (t ∷ ts) = ground (arith, remove_targets-filter named ts)

-- Adding a target whose name is there keeps the sequence of names; another name goes to the end.
target_names-add_target :
    (target : ServiceInterfaceTarget) (ts : List ServiceInterfaceTarget)
    → target_names (add_target target ts) ≡ elim (find_target target.name ts) [
      | none ↦ target_names ts ++ target.name ∷ []
      | some t ↦ target_names ts
    ]
unfolding add_target
target_names-add_target target ts = ground (
  arith,
  target_names-replace_targets target ts,
  replace_targets_absent target ts,
  replace_targets_present target ts,
  target_names-concat target ts,
)

-- The removal reports whether some target was named, and keeps exactly the targets that were not
-- named: a property holds of some target that stays exactly when it holds of one that is not named.
pub any-remove_targets :
    (named holds : ServiceInterfaceTarget → Bool) (ts : List ServiceInterfaceTarget)
    → ((remove_targets named ts).0 ≡ any named ts)
      × (any holds (remove_targets named ts).1 ≡ any (λ t. holds t && not (named t)) ts)
unfolding remove_targets
any-remove_targets named holds [] = (refl, refl)
any-remove_targets named holds (t ∷ ts) = ground (arith, any-remove_targets named holds ts)

pub container_target-named :
    (name : String) (deduce : Bool) (r : Result Error ContainerJson) {t : ServiceInterfaceTarget}
    → container_target name deduce r ≡ ok t
    → (t.name ≡ name) × (t.selector ≡ container_selector)
unfolding container_target
container_target-named name deduce (ok c) e = ground arith
container_target-named name deduce (err x) e = cc

-- A target that `getServiceInterfaceTarget` builds for a name is the one that a removal of that name
-- takes, on the same host: for a host service also where the name was given without an address.
is_named-get_service_interface_target :
    (h : Host) (target_type name address : String) (deduce : Bool) {t : ServiceInterfaceTarget}
    → (get_service_interface_target target_type name deduce h).0 ≡ ok t
    → is_named (docker_host h) address name t ≡ true
unfolding get_service_interface_target is_named
is_named-get_service_interface_target h target_type name address deduce {t} e = ground (
  arith,
  selectors_differ,
  eq_self t.name,
  container_target-named name deduce (h.inspect name) {t = t},
)

remove_targets-concat :
    (named : ServiceInterfaceTarget → Bool) (t : ServiceInterfaceTarget)
    (ts : List ServiceInterfaceTarget)
    → any named ts ≡ false
    → named t ≡ true
    → (remove_targets named (ts ++ t ∷ [])).1 ≡ ts
unfolding remove_targets
remove_targets-concat named t [] h e = ground arith
remove_targets-concat named t (u ∷ ts) h e = ground (arith, remove_targets-concat named t ts)

any-concat :
    (named : ServiceInterfaceTarget → Bool) (t : ServiceInterfaceTarget)
    (ts : List ServiceInterfaceTarget)
    → named t ≡ true
    → any named (ts ++ t ∷ []) ≡ true
any-concat named t [] e = ground arith
any-concat named t (u ∷ ts) e = ground (arith, any-concat named t ts)

-- What names nothing in the list takes nothing from it, and takes exactly an added target that it
-- names.
pub remove_targets-add_target :
    (named : ServiceInterfaceTarget → Bool) (t : ServiceInterfaceTarget)
    (ts : List ServiceInterfaceTarget)
    → find_target t.name ts ≡ none
    → any named ts ≡ false
    → named t ≡ true
    → (remove_targets named (add_target t ts)).1 ≡ ts
unfolding add_target
remove_targets-add_target named t ts free none_named is_named = ground (
  arith,
  replace_targets_present t ts,
  replace_targets_absent t ts,
  remove_targets-concat named t ts,
)

pub any-add_target :
    (named : ServiceInterfaceTarget → Bool) (t : ServiceInterfaceTarget)
    (ts : List ServiceInterfaceTarget)
    → find_target t.name ts ≡ none
    → named t ≡ true
    → any named (add_target t ts) ≡ true
unfolding add_target
any-add_target named t ts free is_named =
    ground (arith, replace_targets_present t ts, replace_targets_absent t ts, any-concat named t ts)

module _ (P : ServiceInterfaceTarget → Type 0) where
  replace_targets-All :
      (t : ServiceInterfaceTarget) (ts : List ServiceInterfaceTarget)
      → P t
      → All P ts
      → All P (replace_targets t ts).1
  unfolding replace_targets
  replace_targets-All t [] p h = tt
  replace_targets-All t (u ∷ ts) p (q, h) = elim (Bool-cases (u.name == t.name)) [
    | inl same ↦ rw same (p, replace_targets-All t ts p h)
    | inr other ↦ rw other (q, replace_targets-All t ts p h)
  ]

  All-concat :
      (t : ServiceInterfaceTarget) (ts : List ServiceInterfaceTarget)
      → P t
      → All P ts
      → All P (ts ++ t ∷ [])
  All-concat t [] p h = (p, tt)
  All-concat t (u ∷ ts) p (q, h) = (q, All-concat t ts p h)

  pub add_target-All :
      (t : ServiceInterfaceTarget) (ts : List ServiceInterfaceTarget)
      → P t
      → All P ts
      → All P (add_target t ts)
  unfolding add_target
  add_target-All t ts p h = elim (Bool-cases (replace_targets t ts).0) [
    | inl old ↦ rw old (replace_targets-All t ts p h)
    | inr new ↦ rw new (All-concat t _ p (replace_targets-All t ts p h))
  ]

  pub remove_targets-All :
      (named : ServiceInterfaceTarget → Bool) (ts : List ServiceInterfaceTarget)
      → All P ts
      → All P (remove_targets named ts).1
  unfolding remove_targets
  remove_targets-All named [] h = tt
  remove_targets-All named (u ∷ ts) (q, h) = elim (Bool-cases (named u)) [
    | inl same ↦ rw same (remove_targets-All named ts h)
    | inr other ↦ rw other (q, remove_targets-All named ts h)
  ]

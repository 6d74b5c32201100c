-- ===== src/Controller/Runs/Unlisted.antt =====
-- Which tables of other sites lack an address, under the changes that service_sync.go of
-- cmd/service-controller makes to them.
use skupper_docker.Base.{
  ◌≡◌, refl, sym, subst, ◌∙◌, ℕ, String, Bool, true, false, ◌&&◌, Option, none, some, List, [], ◌∷◌,
  ◌==◌, arith, Bool-cases, inl, inr, eq→path, if◌then◌else◌,
}
use skupper_docker.Base.Dict
use skupper_docker.Base.Dict.{Dict}
use skupper_docker.Types.{ServiceInterface}
use skupper_docker.Host.{Host}
use skupper_docker.Controller.{Controller, erase_all}
use skupper_docker.Controller.Sync.{
  Tables, is_remote, summary, table_of, pare_by_origin, register, register_all,
  ensure_service_interface_definitions, deleted_names,
}
use skupper_docker.Controller.Sync.Updates.{Keyed}

-- no table of another site has the address
abbrev pub Unlisted : String → Dict (Dict ServiceInterface) → Type 0
Unlisted a [] = Unit
Unlisted a ((o, defs) ∷ tables) = (Dict.lookup a defs ≡ none) × Unlisted a tables

pub table_of-Unlisted :
    (a o : String) (tables : Dict (Dict ServiceInterface))
    → Unlisted a tables
    → Dict.lookup a (table_of o tables) ≡ none
unfolding Dict.lookup
table_of-Unlisted a o [] u = refl
table_of-Unlisted a o ((j, defs) ∷ tables) (miss, u) =
    ground (arith, table_of-Unlisted a o tables u)

Unlisted-insert :
    (a o : String) (defs : Dict ServiceInterface) (tables : Dict (Dict ServiceInterface))
    → Dict.lookup a defs ≡ none
    → Unlisted a tables
    → Unlisted a (Dict.insert o defs tables)
unfolding Dict.insert
Unlisted-insert a o defs [] e u = (e, tt)
Unlisted-insert a o defs ((j, d) ∷ tables) e (miss, u) =
    ground (arith, Unlisted-insert a o defs tables e u)

Unlisted-erase :
    (a o : String) (tables : Dict (Dict ServiceInterface))
    → Unlisted a tables
    → Unlisted a (Dict.erase o tables)
unfolding Dict.erase
Unlisted-erase a o [] u = tt
Unlisted-erase a o ((j, d) ∷ tables) (miss, u) = ground (arith, Unlisted-erase a o tables u)

pub Unlisted-erase_all :
    (a : String) (os : List String) (tables : Dict (Dict ServiceInterface))
    → Unlisted a tables
    → Unlisted a (erase_all os tables)
unfolding erase_all
Unlisted-erase_all a [] tables u = u
Unlisted-erase_all a (o ∷ os) tables u =
    Unlisted-erase_all a os (Dict.erase o tables) (Unlisted-erase a o tables u)

pub lookup-erase-none :
    (a n : String) (d : Dict ServiceInterface)
    → Dict.lookup a d ≡ none
    → Dict.lookup a (Dict.erase n d) ≡ none
lookup-erase-none a n d e = ground (arith, Dict.lookup-erase a n d)

lookup-erase_all-none :
    (a : String) (ns : List String) (d : Dict ServiceInterface)
    → Dict.lookup a d ≡ none
    → Dict.lookup a (erase_all ns d) ≡ none
unfolding erase_all
lookup-erase_all-none a [] d e = e
lookup-erase_all-none a (n ∷ ns) d e =
    lookup-erase_all-none a ns (Dict.erase n d) (lookup-erase-none a n d e)

Unlisted-pare_by_origin :
    (a service : String) (tables : Dict (Dict ServiceInterface))
    → Unlisted a tables
    → Unlisted a (pare_by_origin service tables)
unfolding pare_by_origin
Unlisted-pare_by_origin a service [] u = tt
Unlisted-pare_by_origin a service ((j, d) ∷ tables) (miss, u) =
    ground (arith, Unlisted-pare_by_origin a service tables u, lookup-erase-none a service d miss)

register-Unlisted :
    (a n : String) (s : ServiceInterface) (t : Tables)
    → ((a == n) && is_remote s.origin) ≡ false
    → Unlisted a t.by_origin
    → Unlisted a (register n s t).by_origin
unfolding register
register-Unlisted a n s t e u = elim (Bool-cases (is_remote s.origin)) [
  | inl remote ↦ rw remote (
      Unlisted-insert a s.origin (Dict.insert n (summary s) (table_of s.origin t.by_origin))
        t.by_origin
        (Dict.lookup-insert a n (summary s) (table_of s.origin t.by_origin)
          ∙ ground (arith, table_of-Unlisted a s.origin t.by_origin u))
        u)
  | inr own ↦ rw own (Unlisted-pare_by_origin a s.address t.by_origin u)
]

-- whether a definition, if there is one, is a site's own
abbrev pub IsOwn : Option ServiceInterface → Type 0
IsOwn none = Unit
IsOwn (some s) = is_remote s.origin ≡ false

pub register_all-Unlisted :
    (a : String) (defs : Dict ServiceInterface) (t : Tables)
    → Keyed defs
    → IsOwn (Dict.lookup a defs)
    → Unlisted a t.by_origin
    → Unlisted a (register_all defs t).by_origin
unfolding register_all
register_all-Unlisted a [] t k own u = u
register_all-Unlisted a ((n, s) ∷ defs) t (at, fresh, k) own u = elim (Bool-cases (a == n)) [
  | inl same ↦
      let there : Dict.lookup a defs ≡ none = rw (eq→path a n same) fresh in
      register_all-Unlisted a defs (register n s t) k (subst IsOwn (sym there) tt) (
        register-Unlisted a n s t
          (rw (◌&&◌, same) (subst IsOwn {y = some s} (Dict.lookup-cons a n s defs ∙ rw same) own))
          u)
  | inr other ↦
      register_all-Unlisted a defs (register n s t) k
        (subst IsOwn {y = Dict.lookup a defs} (Dict.lookup-cons a n s defs ∙ rw other) own)
        (register-Unlisted a n s t (rw other) u)
]

known_tables-Unlisted :
    (a origin : String) (tables : Dict (Dict ServiceInterface))
    → Unlisted a tables
    → Unlisted a (if Dict.member origin tables then tables else Dict.insert origin [] tables)
known_tables-Unlisted a origin tables u =
    ground (arith, Unlisted-insert a origin [] tables (Dict.lookup-nil a) u)

if-Unlisted :
    (a : String) (b : Bool) (c c' : Controller) (h h' : Host)
    → Unlisted a c.by_origin
    → Unlisted a c'.by_origin
    → Unlisted a (if◌then◌else◌ {A = Controller × Host} b (c, h) (c', h')).0.by_origin
if-Unlisted a true c c' h h' u u' = u
if-Unlisted a false c c' h h' u u' = u'

pub ensure-Unlisted :
    (a : String) (now : ℕ) (origin : String) (update : Dict ServiceInterface) (c : Controller)
    (h : Host)
    → Unlisted a c.by_origin
    → Unlisted a (ensure_service_interface_definitions now origin update c h).0.by_origin
unfolding ensure_service_interface_definitions
ensure-Unlisted a now origin update c h u =
    let deleted = deleted_names (table_of origin c.by_origin) update in
    let known =
      if Dict.member origin c.by_origin then c.by_origin else Dict.insert origin [] c.by_origin in
    let k = known_tables-Unlisted a origin c.by_origin u in
    if-Unlisted a _ _ _ _ _ k (
      Unlisted-insert a origin (erase_all deleted (table_of origin known)) known
        (lookup-erase_all-none a deleted (table_of origin known)
          (table_of-Unlisted a origin known k))
        k)

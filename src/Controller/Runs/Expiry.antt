-- ===== src/Controller/Runs/Expiry.antt =====
-- What the ageing does after the start of a controller: the times that `runServiceDefsWatcher` of
-- cmd/service-controller/controller.go sets, and those that `syncSender` reads.
use skupper_docker.Base.{
  ◌≡◌, ◌≢◌, refl, sym, subst, ◌∙◌, ℕ, ◌+◌, String, true, false, ◌&&◌, not, Option, none, some, [],
  ◌∷◌, ◌==◌, leb, arith, Bool-cases, inl, inr, eq→path, eq_self, if◌then◌else◌, ne→false,
}
use skupper_docker.Base.Dict
use skupper_docker.Base.Dict.{Dict}
use skupper_docker.Types.{ServiceInterface}
use skupper_docker.Host.{Host, definitions}
use skupper_docker.Service.Client.Operations.{definition_at}
use skupper_docker.Controller.{new_controller, get_service_definitions}
use skupper_docker.Controller.Sync.{
  Tables, is_remote, summary, table_of, pare_by_origin, register, register_all, age, is_aged,
  service_sync_definitions_updated,
}
use skupper_docker.Controller.Sync.Updates.{Keyed}
use skupper_docker.Controller.Sync.Local.{listed, register_all-listed}
use skupper_docker.Controller.Sync.Ageing.{aged_listed, age-is_aged}
use skupper_docker.Controller.Bindings.{process_service_defs}
use skupper_docker.Controller.Runs.{hear_all, start_watcher, started}

lookup-hear_all :
    (o : String) (now : ℕ) (own : String) (tables : Dict (Dict ServiceInterface)) (heard : Dict ℕ)
    → Dict.lookup o (hear_all now own tables heard)
      ≡ (if Dict.member o tables && not (o == own) then some now else Dict.lookup o heard)
unfolding hear_all Dict.lookup
lookup-hear_all o now own [] heard = refl
lookup-hear_all o now own ((j, defs) ∷ tables) heard = ground (
  arith,
  lookup-hear_all o now own tables (if not (j == own) then Dict.insert j now heard else heard),
  Dict.lookup-insert o j now heard,
)

-- no table but that of the origin has the address
abbrev OnlyIn : String → String → Dict (Dict ServiceInterface) → Type 0
OnlyIn a o [] = Unit
OnlyIn a o ((j, defs) ∷ tables) = ((Dict.member a defs && not (j == o)) ≡ false) × OnlyIn a o tables

OnlyIn-insert :
    (a o j : String) (defs : Dict ServiceInterface) (tables : Dict (Dict ServiceInterface))
    → (Dict.member a defs && not (j == o)) ≡ false
    → OnlyIn a o tables
    → OnlyIn a o (Dict.insert j defs tables)
unfolding Dict.insert
OnlyIn-insert a o j defs [] e u = (e, tt)
OnlyIn-insert a o j defs ((i, d) ∷ tables) e (miss, u) =
    ground (arith, OnlyIn-insert a o j defs tables e u)

table_of-OnlyIn :
    (a o j : String) (tables : Dict (Dict ServiceInterface))
    → OnlyIn a o tables
    → (Dict.member a (table_of j tables) && not (j == o)) ≡ false
unfolding Dict.lookup
table_of-OnlyIn a o j [] u = refl
table_of-OnlyIn a o j ((i, d) ∷ tables) (miss, u) = ground (arith, table_of-OnlyIn a o j tables u)

OnlyIn-pare_by_origin :
    (a o service : String) (tables : Dict (Dict ServiceInterface))
    → OnlyIn a o tables
    → OnlyIn a o (pare_by_origin service tables)
unfolding pare_by_origin
OnlyIn-pare_by_origin a o service [] u = tt
OnlyIn-pare_by_origin a o service ((j, d) ∷ tables) (miss, u) =
    ground (arith, OnlyIn-pare_by_origin a o service tables u, Dict.lookup-erase a service d)

register-OnlyIn :
    (a o n : String) (s : ServiceInterface) (t : Tables)
    → ((a == n) && not (s.origin == o)) ≡ false
    → OnlyIn a o t.by_origin
    → OnlyIn a o (register n s t).by_origin
unfolding register
register-OnlyIn a o n s t e u = elim (Bool-cases (is_remote s.origin)) [
  | inl remote ↦ rw remote (
      OnlyIn-insert a o s.origin (Dict.insert n (summary s) (table_of s.origin t.by_origin))
        t.by_origin
        (ground (
          arith,
          Dict.lookup-insert a n (summary s) (table_of s.origin t.by_origin),
          table_of-OnlyIn a o s.origin t.by_origin u,
        ))
        u)
  | inr own ↦ rw own (OnlyIn-pare_by_origin a o s.address t.by_origin u)
]

-- a definition, if there is one, comes from the origin
abbrev From : String → Option ServiceInterface → Type 0
From o none = Unit
From o (some s) = (s.origin == o) ≡ true

register_all-OnlyIn :
    (a o : String) (defs : Dict ServiceInterface) (t : Tables)
    → Keyed defs
    → From o (Dict.lookup a defs)
    → OnlyIn a o t.by_origin
    → OnlyIn a o (register_all defs t).by_origin
unfolding register_all
register_all-OnlyIn a o [] t k from u = u
register_all-OnlyIn a o ((n, s) ∷ defs) t (at, fresh, k) from u = elim (Bool-cases (a == n)) [
  | inl same ↦
      let there : Dict.lookup a defs ≡ none = rw (eq→path a n same) fresh in
      let e : (s.origin == o) ≡ true =
        subst (From o) {y = some s} (Dict.lookup-cons a n s defs ∙ rw same) from in
      register_all-OnlyIn a o defs (register n s t) k (subst (From o) (sym there) tt)
        (register-OnlyIn a o n s t (ground arith) u)
  | inr other ↦
      register_all-OnlyIn a o defs (register n s t) k
        (subst (From o) {y = Dict.lookup a defs} (Dict.lookup-cons a n s defs ∙ rw other) from)
        (register-OnlyIn a o n s t (rw other) u)
]

aged_listed-OnlyIn :
    (now : ℕ) (heard : Dict ℕ) (a o : String) (tables : Dict (Dict ServiceInterface))
    → OnlyIn a o tables
    → (aged_listed now heard a tables && not (is_aged now heard o)) ≡ false
aged_listed-OnlyIn now heard a o [] u = refl
aged_listed-OnlyIn now heard a o ((j, defs) ∷ tables) (miss, u) = elim (Bool-cases (j == o)) [
  | inl same ↦ rw (eq→path j o same) (ground (arith, aged_listed-OnlyIn now heard a o tables u))
  | inr other ↦ ground (arith, aged_listed-OnlyIn now heard a o tables u)
]

aged_listed-listed :
    (now : ℕ) (heard : Dict ℕ) (a o : String) (s : ServiceInterface)
    (tables : Dict (Dict ServiceInterface))
    → OnlyIn a o tables
    → listed o a tables ≡ some s
    → aged_listed now heard a tables ≡ is_aged now heard o
unfolding Dict.lookup
aged_listed-listed now heard a o s [] u e = cc
aged_listed-listed now heard a o s ((j, defs) ∷ tables) (miss, u) e = elim (Bool-cases (o == j)) [
  | inl same ↦
      let rest = aged_listed-OnlyIn now heard a o tables u in
      let there : Dict.lookup a defs ≡ some s = ground arith in
      let here = eq→path o j same in ground arith
  | inr other ↦ ground (arith, aged_listed-listed now heard a o s tables u)
]

listed-member :
    (o a : String) (s : ServiceInterface) (tables : Dict (Dict ServiceInterface))
    → listed o a tables ≡ some s
    → Dict.member o tables ≡ true
listed-member o a s tables e = ground (arith, Dict.lookup-nil {V = ServiceInterface} a)

is_aged-known :
    (now later : ℕ) (heard : Dict ℕ) (o : String)
    → Dict.lookup o heard ≡ some now
    → is_aged later heard o ≡ leb (now + 60) later
unfolding is_aged
is_aged-known now later heard o e = ground arith

-- the tables from which those of a new controller are filled
abbrev no_tables : Tables
no_tables = record { by_origin = []; latest = []; by_name = [] }

module _ (now : ℕ) (own : String) (m : Dict ServiceInterface) (h : Host)
    (held : h.services ≡ definitions m) where
  started-tables : (started now own h).controller.by_origin ≡ (register_all m no_tables).by_origin
  unfolding start_watcher new_controller process_service_defs get_service_definitions
      service_sync_definitions_updated
  started-tables = rw held refl

  started-heard :
      (o : String)
      → Dict.lookup o (started now own h).controller.heard_from ≡ (
          if Dict.member o (register_all m no_tables).by_origin && not (o == own)
          then some now
          else none)
  unfolding start_watcher new_controller process_service_defs get_service_definitions
      service_sync_definitions_updated
  started-heard o = rw held (
      lookup-hear_all o now own (register_all m no_tables).by_origin []
      ∙ ground (arith, Dict.lookup-nil {V = ℕ} o))

module _ (a own : String) (d : ServiceInterface) (m : Dict ServiceInterface) (keyed : Keyed m)
    (found : Dict.lookup a m ≡ some d) (remote : is_remote d.origin ≡ true)
    (elsewhere : d.origin ≢ own) where
  -- A definition that another site gave, in the file when the controller starts at `now`, is
  -- dropped by an ageing at `later` exactly if a minute has passed; on a host where the file can be
  -- read and written, and its definitions stand under their addresses.
  pub age-started :
      (now later : ℕ) (h : Host)
      → h.services ≡ definitions m
      → h.writable ≡ true
      → definition_at (age later (started now own h).controller h).1 a
        ≡ (if leb (now + 60) later then none else some d)
  age-started now later h held writes =
      let c = (started now own h).controller in
      let t = (register_all m no_tables).by_origin in
      let only : OnlyIn a d.origin t =
        register_all-OnlyIn a d.origin m no_tables keyed
          (subst (From d.origin) (sym found) (eq_self d.origin)) tt in
      let there = register_all-listed a d m no_tables keyed found remote in
      let heard : Dict.lookup d.origin c.heard_from ≡ some now =
        started-heard now own m h held d.origin
        ∙ rw (listed-member d.origin a (summary d) t there, ne→false d.origin own elsewhere) refl in
      let before : definition_at h a ≡ some d = ground arith in
      let (c', fine, _, _, stored) = age-is_aged later c h (m, held) writes d.origin a in
      stored
      ∙ rw
          (
            started-tables now own m h held,
            aged_listed-listed later c.heard_from a d.origin (summary d) t only there,
            is_aged-known now later c.heard_from d.origin heard,
            before,
          )
          refl

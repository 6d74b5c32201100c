-- ===== src/Controller/Sync/Updates.antt =====
-- What an update from another site changes: `ensureServiceInterfaceDefinitions` and the loop of
-- `runServiceSync` in cmd/service-controller/service_sync.go.
use skupper_docker.Base.{
  ◌≡◌, refl, ◌≢◌, ◌⊎◌, inl, inr, ℕ, String, Bool, true, false, ◌&&◌, not, Option, none, some, List,
  [], ◌∷◌, ◌==◌, arith, any, ap, ◌∙◌, Bool-cases, Option-cases, if◌then◌else◌,
}
use skupper_docker.Base.Dict
use skupper_docker.Base.Dict.{Dict}
use skupper_docker.Types.{ServiceInterface}
use skupper_docker.Host.{Host, ServicesFile, absent, garbled, definitions}
use skupper_docker.Service.Client.Operations.{definition_at}
use skupper_docker.Service.Client.Stored.{HasDefinitions}
use skupper_docker.Controller.{
  Controller, put_all, erase_all, update_skupper_services, get_service_definitions,
}
use skupper_docker.Controller.Sync.{
  table_of, is_changed, changed_definitions, deleted_names, ensure_service_interface_definitions,
  Message, no_text, no_json, receive,
}

-- Each definition stands under its own address, once.
abbrev pub Keyed : Dict ServiceInterface → Type 0
Keyed [] = Unit
Keyed ((k, s) ∷ m) = (s.address ≡ k) × (Dict.lookup k m ≡ none) × Keyed m

abbrev pub mem : String → List String → Bool
mem a names = any (λ n. a == n) names

pub lookup-erase_all {ℓ} :
    {V : Type ℓ} (a : String) (names : List String) (d : Dict V)
    → Dict.lookup a (erase_all names d) ≡ (if mem a names then none else Dict.lookup a d)
unfolding erase_all
lookup-erase_all a [] d = refl
lookup-erase_all a (n ∷ names) d =
    ground (arith, lookup-erase_all a names (Dict.erase n d), Dict.lookup-erase a n d)

mem-deleted_names :
    (a : String) (current update : Dict ServiceInterface)
    → mem a (deleted_names current update) ≡ (Dict.member a current && not (Dict.member a update))
unfolding deleted_names Dict.lookup
mem-deleted_names a [] update = refl
mem-deleted_names a ((n, s) ∷ current) update = ground (arith, mem-deleted_names a current update)

-- what stands under an address after the changed definitions were put
abbrev pub changed_at :
    String
    → Dict ServiceInterface
    → Option ServiceInterface
    → Option ServiceInterface
    → Option ServiceInterface
changed_at origin by_name none old = old
changed_at origin by_name (some d) old = if is_changed origin by_name d then some d else old

lookup-put_all :
    (a origin : String) (by_name update current : Dict ServiceInterface)
    → Keyed update
    → Dict.lookup a (put_all (changed_definitions origin by_name update) current)
      ≡ changed_at origin by_name (Dict.lookup a update) (Dict.lookup a current)
unfolding put_all changed_definitions Dict.lookup
lookup-put_all a origin by_name [] current k = refl
lookup-put_all a origin by_name ((n, d) ∷ update) current (at, fresh, k) =
    elim (Bool-cases (is_changed origin by_name d)) [
      | inl changed ↦ rw changed (
          ground (
            arith,
            lookup-put_all a origin by_name update (Dict.insert d.address d current) k,
            Dict.lookup-insert a d.address d current,
          ))
      | inr same ↦ rw same (ground (arith, lookup-put_all a origin by_name update current k))
    ]

-- The file after a write of changes and deletions.
pub update_skupper_services-at :
    (changed : List ServiceInterface) (deleted : List String) (h : Host) (m : Dict ServiceInterface)
    (a : String)
    → h.services ≡ definitions m
    → h.writable ≡ true
    → definition_at (update_skupper_services changed deleted h).1 a
      ≡ Dict.lookup a (erase_all deleted (put_all changed m))
unfolding update_skupper_services get_service_definitions
update_skupper_services-at [] [] h m a held writes = rw held (unfold erase_all put_all in refl)
update_skupper_services-at [] (n ∷ deleted) h m a held writes = ground arith
update_skupper_services-at (d ∷ changed) deleted h m a held writes = ground arith

erase_nothing :
    (a : String) (m : Dict ServiceInterface)
    → Dict.lookup a (erase_all [] (put_all [] m)) ≡ Dict.lookup a m
unfolding erase_all put_all
erase_nothing a m = refl

module _ (now : ℕ) (origin : String) (update : Dict ServiceInterface) (c : Controller) (h : Host)
    (keyed : Keyed update) (readable : HasDefinitions h.services) (writes : h.writable ≡ true) where
  -- On a host where the file can be read and written, after an update from `origin` whose
  -- definitions stand under their addresses: an address that the origin's table had and the update
  -- lacks is gone from the file; an address of the update that is new to the controller, or whose
  -- known definition came from the same origin and differs, has the update's definition; every
  -- other address is as before.
  pub definition_at-ensure :
      (a : String)
      → definition_at (ensure_service_interface_definitions now origin update c h).1 a ≡ (
          if Dict.member a (table_of origin c.by_origin) && not (Dict.member a update)
          then none
          else changed_at origin c.by_name (Dict.lookup a update) (definition_at h a))
  unfolding ensure_service_interface_definitions
  definition_at-ensure a =
      let (m, held) = readable in
      ground (
        arith,
        update_skupper_services-at (changed_definitions origin c.by_name update)
            (deleted_names (table_of origin c.by_origin) update) h m a held writes,
        lookup-erase_all a (deleted_names (table_of origin c.by_origin) update)
            (put_all (changed_definitions origin c.by_name update) m),
        mem-deleted_names a (table_of origin c.by_origin) update,
        lookup-put_all a origin c.by_name update m keyed,
        erase_nothing a m,
      )

pub lookup-Keyed :
    (a : String) (m : Dict ServiceInterface) (s : ServiceInterface)
    → Keyed m
    → Dict.lookup a m ≡ some s
    → s.address ≡ a
unfolding Dict.lookup
lookup-Keyed a [] s k e = cc
lookup-Keyed a ((n, d) ∷ m) s (at, fresh, k) e = ground (arith, lookup-Keyed a m s k)

module _ (origin a : String) (by_name : Dict ServiceInterface) (existing : ServiceInterface)
    (known : Dict.lookup a by_name ≡ some existing) (other : existing.origin ≢ origin) where
  is_changed-other : (d : ServiceInterface) → d.address ≡ a → is_changed origin by_name d ≡ false
  unfolding is_changed
  is_changed-other d at = ground arith

  changed_at-other :
      (update : Dict ServiceInterface) (old : Option ServiceInterface)
      → Keyed update
      → changed_at origin by_name (Dict.lookup a update) old ≡ old
  changed_at-other update old keyed = elim (Option-cases (Dict.lookup a update)) [
    | inl missing ↦ rw missing
    | inr (d, there) ↦ rw (there, is_changed-other d (lookup-Keyed a update d keyed there))
  ]

-- A write that cannot be made changes nothing.
update_skupper_services-refused :
    (changed : List ServiceInterface) (deleted : List String) (h : Host)
    → (h.services ≡ absent) ⊎ (h.services ≡ garbled) ⊎ (h.writable ≡ false)
    → (update_skupper_services changed deleted h).1 ≡ h
unfolding update_skupper_services get_service_definitions
update_skupper_services-refused changed deleted h r = ground arith

services-cases : (f : ServicesFile) → (f ≡ absent) ⊎ (f ≡ garbled) ⊎ HasDefinitions f
services-cases absent = inl refl
services-cases garbled = inr (inl refl)
services-cases (definitions m) = inr (inr (m, refl))

module _ (now : ℕ) (origin : String) (update : Dict ServiceInterface) (c : Controller) (h : Host)
    (keyed : Keyed update) where
  ensure_refused :
      (h.services ≡ absent) ⊎ (h.services ≡ garbled) ⊎ (h.writable ≡ false)
      → (ensure_service_interface_definitions now origin update c h).1 ≡ h
  unfolding ensure_service_interface_definitions
  ensure_refused r = ground (
    arith,
    update_skupper_services-refused (changed_definitions origin c.by_name update)
        (deleted_names (table_of origin c.by_origin) update) h r,
  )

  -- An update, with its definitions under their addresses, never touches the file at an address
  -- that the controller knows from another origin, unless the table of the update's origin has the
  -- address; whether or not the file can be read or written.
  pub ensure_keeps_others :
      (a : String) (existing : ServiceInterface)
      → Dict.lookup a c.by_name ≡ some existing
      → existing.origin ≢ origin
      → Dict.lookup a (table_of origin c.by_origin) ≡ none
      → definition_at (ensure_service_interface_definitions now origin update c h).1 a
        ≡ definition_at h a
  ensure_keeps_others a existing known other unlisted =
      let kept =
        changed_at-other origin a c.by_name existing known other update (definition_at h a) keyed in
      let refused = λ (r : (h.services ≡ absent) ⊎ (h.services ≡ garbled) ⊎ (h.writable ≡ false)).
        ap (λ (x : Host). definition_at x a) (ensure_refused r) in
      elim (services-cases h.services) [
        | inl missing ↦ refused (inl missing)
        | inr (inl broken) ↦ refused (inr (inl broken))
        | inr (inr readable) ↦ elim (Bool-cases h.writable) [
          | inl writes ↦
              definition_at-ensure now origin update c h keyed readable writes a
              ∙ rw (◌&&◌, unlisted) kept
          | inr fixed ↦ refused (inr (inr fixed))
        ]
      ]

  -- An update that has no changed definition and deletes no name leaves the host as it was.
  ensure_quiet :
      changed_definitions origin c.by_name update ≡ []
      → deleted_names (table_of origin c.by_origin) update ≡ []
      → (ensure_service_interface_definitions now origin update c h).1 ≡ h
  unfolding ensure_service_interface_definitions
  ensure_quiet e d = ground arith

-- A message changes nothing unless it is an update, from another site, that decodes.
receive_ignores :
    (now : ℕ) (msg : Message) (c : Controller) (h : Host)
    → (msg.subject ≢ "service-sync-update")
      ⊎ (msg.origin ≡ none)
      ⊎ (msg.origin ≡ some c.origin)
      ⊎ (msg.body ≡ no_text)
      ⊎ (msg.body ≡ no_json)
    → receive now msg c h ≡ (c, h)
unfolding receive
receive_ignores now msg c h why = ground arith

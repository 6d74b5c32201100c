-- ===== src/Controller/Sync/Ageing.antt =====
-- The ageing branch of `syncSender` in cmd/service-controller/service_sync.go.
use skupper_docker.Base.{
  ◌≡◌, refl, inl, inr, ℕ, ◌+◌, leb, any, Option, some, String, Bool, true, false, ◌&&◌, ◌||◌, none,
  List, [], ◌∷◌, arith, ◌∙◌, Bool-cases, if◌then◌else◌,
}
use skupper_docker.Base.Dict
use skupper_docker.Base.Dict.{Dict}
use skupper_docker.Base.Exec.{Result, ok}
use skupper_docker.Types.{ServiceInterface}
use skupper_docker.Errors.{Error}
use skupper_docker.Host.{Host, definitions}
use skupper_docker.Service.Client.Operations.{definition_at}
use skupper_docker.Service.Client.Stored.{HasDefinitions}
use skupper_docker.Controller.{
  Controller, put_all, erase_all, update_skupper_services, get_service_definitions,
}
use skupper_docker.Controller.Sync.{is_aged, age_origins, age, forget}
use skupper_docker.Controller.Sync.Updates.{mem, lookup-erase_all, update_skupper_services-at}

-- the origins of the tables that are aged, and whether one of their tables has an address
abbrev aged_origins : ℕ → Dict ℕ → Dict (Dict ServiceInterface) → List String
aged_origins now heard [] = []
aged_origins now heard ((o, defs) ∷ tables) =
    if is_aged now heard o then o ∷ aged_origins now heard tables else aged_origins now heard tables

abbrev pub aged_listed : ℕ → Dict ℕ → String → Dict (Dict ServiceInterface) → Bool
aged_listed now heard a [] = false
aged_listed now heard a ((o, defs) ∷ tables) =
    (is_aged now heard o && Dict.member a defs) || aged_listed now heard a tables

mem-aged_origins :
    (now : ℕ) (heard : Dict ℕ) (o : String) (tables : Dict (Dict ServiceInterface))
    → mem o (aged_origins now heard tables) ≡ (is_aged now heard o && Dict.member o tables)
unfolding Dict.lookup
mem-aged_origins now heard o [] = ground arith
mem-aged_origins now heard o ((j, defs) ∷ tables) =
    ground (arith, mem-aged_origins now heard o tables)

pub mem-keys : (a : String) (m : Dict ServiceInterface) → mem a (Dict.keys m) ≡ Dict.member a m
unfolding Dict.lookup
mem-keys a [] = refl
mem-keys a ((n, s) ∷ m) = ground (arith, mem-keys a m)

-- One table's definitions leave the file.
drop_table :
    (defs m : Dict ServiceInterface) (h : Host)
    → h.services ≡ definitions m
    → h.writable ≡ true
    → ((update_skupper_services [] (Dict.keys defs) h).0 ≡ ok tt)
      × ((update_skupper_services [] (Dict.keys defs) h).1.services
          ≡ definitions (erase_all (Dict.keys defs) m))
      × ((update_skupper_services [] (Dict.keys defs) h).1.writable ≡ true)
unfolding update_skupper_services get_service_definitions erase_all put_all
drop_table [] m h held writes = ground arith
drop_table ((n, s) ∷ defs) m h held writes = ground arith

put_nothing : (m : Dict ServiceInterface) → put_all [] m ≡ m
unfolding put_all
put_nothing m = refl

drop_table-at :
    (defs : Dict ServiceInterface) (h : Host) (a : String)
    → HasDefinitions h.services
    → h.writable ≡ true
    → definition_at (update_skupper_services [] (Dict.keys defs) h).1 a
      ≡ (if Dict.member a defs then none else definition_at h a)
drop_table-at defs h a (m, held) writes = ground (
  arith,
  update_skupper_services-at [] (Dict.keys defs) h m a held writes,
  lookup-erase_all a (Dict.keys defs) (put_all [] m),
  mem-keys a defs,
  put_nothing m,
)

-- The loop over the tables, on a host where the file can be read and written.
pub record Aged (now : ℕ) (heard : Dict ℕ) (tables : Dict (Dict ServiceInterface)) (h : Host)
    (r : Result Error (List String) × Host) : Type 0 where
  pub origins : r.0 ≡ ok (aged_origins now heard tables)
  pub stored :
      (a : String)
      → definition_at r.1 a ≡ (if aged_listed now heard a tables then none else definition_at h a)

age_origins_lem :
    (now : ℕ) (heard : Dict ℕ) (tables : Dict (Dict ServiceInterface)) (h : Host)
    (m : Dict ServiceInterface)
    → h.services ≡ definitions m
    → h.writable ≡ true
    → Aged now heard tables h (age_origins now heard tables h)
unfolding age_origins
age_origins_lem now heard [] h m held writes = record { origins = refl; stored = λ a. refl }
age_origins_lem now heard ((o, defs) ∷ tables) h m held writes =
    elim (Bool-cases (is_aged now heard o)) [
      | inl old ↦
          let (done, after, writes') = drop_table defs m h held writes in
          let h' = (update_skupper_services [] (Dict.keys defs) h).1 in
          let ih =
            age_origins_lem now heard tables h' (erase_all (Dict.keys defs) m) after writes' in
          record {
            origins = ground (arith, ih.origins);
            stored = λ a.
                ground (arith, ih.stored a, ih.origins, drop_table-at defs h a (m, held) writes);
          }
      | inr young ↦
          let ih = age_origins_lem now heard tables h m held writes in
          record { origins = ground (arith, ih.origins); stored = λ a. ground (arith, ih.stored a) }
    ]

-- last heard 60 seconds ago or more
abbrev is_minute_old : ℕ → Option ℕ → Bool
is_minute_old now none = false
is_minute_old now (some last) = leb (last + 60) now

-- whether a table of an origin that was last heard 60 seconds ago or more has the address
abbrev in_minute_old : ℕ → Dict ℕ → String → Dict (Dict ServiceInterface) → Bool
in_minute_old now heard a tables =
    any
      (λ (table : String × Dict ServiceInterface).
        is_minute_old now (Dict.lookup table.0 heard) && Dict.member a table.1)
      tables

is_aged-is_minute_old :
    (now : ℕ) (heard : Dict ℕ) (o : String)
    → is_aged now heard o ≡ is_minute_old now (Dict.lookup o heard)
unfolding is_aged
is_aged-is_minute_old now heard o = ground arith

aged_listed-in_minute_old :
    (now : ℕ) (heard : Dict ℕ) (a : String) (tables : Dict (Dict ServiceInterface))
    → aged_listed now heard a tables ≡ in_minute_old now heard a tables
aged_listed-in_minute_old now heard a [] = refl
aged_listed-in_minute_old now heard a ((o, defs) ∷ tables) =
    rw (is_aged-is_minute_old, aged_listed-in_minute_old now heard a tables) refl

module _ (now : ℕ) (c : Controller) (h : Host) (readable : HasDefinitions h.services)
    (writes : h.writable ≡ true) where
  -- the same, with the test that the code makes
  pub age-is_aged :
      (o a : String)
      → (c' : Controller) × ((age now c h).0 ≡ ok c')
        × (Dict.lookup o c'.by_origin
            ≡ (if is_aged now c.heard_from o then none else Dict.lookup o c.by_origin))
        × (Dict.lookup o c'.heard_from ≡ (
            if is_aged now c.heard_from o && Dict.member o c.by_origin
            then none
            else Dict.lookup o c.heard_from))
        × (definition_at (age now c h).1 a
            ≡ (if aged_listed now c.heard_from a c.by_origin then none else definition_at h a))
  unfolding age forget
  age-is_aged o a =
      let (m, held) = readable in
      let all = age_origins_lem now c.heard_from c.by_origin h m held writes in
      let aged = aged_origins now c.heard_from c.by_origin in
      (
        record c {
          heard_from = erase_all aged c.heard_from;
          by_origin = erase_all aged c.by_origin;
        },
        ground (arith, all.origins),
        lookup-erase_all o aged c.by_origin
            ∙ ground (arith, mem-aged_origins now c.heard_from o c.by_origin),
        lookup-erase_all o aged c.heard_from
            ∙ ground (arith, mem-aged_origins now c.heard_from o c.by_origin),
        ground (arith, all.stored a),
      )

  -- Where the file can be read and written, ageing goes through: exactly the origins that have a
  -- table and were last heard 60 seconds ago or more lose their table and their time, every address
  -- of their tables leaves the file, and everything else stays.
  pub age_lem :
      (o a : String)
      → (c' : Controller) × ((age now c h).0 ≡ ok c')
        × (Dict.lookup o c'.by_origin ≡ (
            if is_minute_old now (Dict.lookup o c.heard_from)
            then none
            else Dict.lookup o c.by_origin))
        × (Dict.lookup o c'.heard_from ≡ (
            if is_minute_old now (Dict.lookup o c.heard_from) && Dict.member o c.by_origin
            then none
            else Dict.lookup o c.heard_from))
        × (definition_at (age now c h).1 a
            ≡ (if in_minute_old now c.heard_from a c.by_origin then none else definition_at h a))
  age_lem o a =
      let (c', fine, table, time, stored) = age-is_aged o a in
      (
        c',
        fine,
        table ∙ rw is_aged-is_minute_old refl,
        time ∙ rw is_aged-is_minute_old refl,
        stored ∙ rw aged_listed-in_minute_old refl,
      )

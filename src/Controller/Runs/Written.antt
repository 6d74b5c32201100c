-- ===== src/Controller/Runs/Written.antt =====
-- The file of definitions under the writes of cmd/service-controller.
use skupper_docker.Base.{◌≡◌, refl, ℕ, String, none, some, List, [], ◌∷◌, arith}
use skupper_docker.Base.Dict
use skupper_docker.Base.Dict.{Dict}
use skupper_docker.Types.{ServiceInterface}
use skupper_docker.Host.{Host, ServicesFile, absent, garbled, definitions}
use skupper_docker.Service.Client.Operations.{definition_at, stored_at}
use skupper_docker.Service.Client.Stored.{HasDefinitions}
use skupper_docker.Controller.{
  Controller, put_all, erase_all, update_skupper_services, get_service_definitions,
}
use skupper_docker.Controller.Sync.{
  table_of, ensure_service_interface_definitions, deleted_names, changed_definitions,
}
use skupper_docker.Controller.Sync.Updates.{Keyed, lookup-erase_all}
use skupper_docker.Controller.Sync.Ageing.{mem-keys}
use skupper_docker.Controller.Sync.Exchange.{Keyed-insert}
use skupper_docker.Controller.Runs.{IsKeyed}
use skupper_docker.Controller.Runs.Unlisted.{lookup-erase-none}

put_all-Keyed :
    (changed : List ServiceInterface) (m : Dict ServiceInterface)
    → Keyed m
    → Keyed (put_all changed m)
unfolding put_all
put_all-Keyed [] m k = k
put_all-Keyed (s ∷ changed) m k =
    put_all-Keyed changed (Dict.insert s.address s m) (Keyed-insert s m k)

pub erase-Keyed : (n : String) (m : Dict ServiceInterface) → Keyed m → Keyed (Dict.erase n m)
unfolding Dict.erase
erase-Keyed n [] k = tt
erase-Keyed n ((j, s) ∷ m) (at, fresh, k) =
    ground (arith, erase-Keyed n m k, lookup-erase-none j n m fresh)

erase_all-Keyed : (ns : List String) (m : Dict ServiceInterface) → Keyed m → Keyed (erase_all ns m)
unfolding erase_all
erase_all-Keyed [] m k = k
erase_all-Keyed (n ∷ ns) m k = erase_all-Keyed ns (Dict.erase n m) (erase-Keyed n m k)

-- The file that a write leaves, for the file that it found.
pub update_skupper_services-IsKeyed :
    (changed : List ServiceInterface) (deleted : List String) (f : ServicesFile) (h : Host)
    → h.services ≡ f
    → IsKeyed f
    → IsKeyed (update_skupper_services changed deleted h).1.services
unfolding update_skupper_services get_service_definitions
update_skupper_services-IsKeyed changed deleted absent h e k = ground arith
update_skupper_services-IsKeyed changed deleted garbled h e k = ground arith
update_skupper_services-IsKeyed changed deleted (definitions m) h e k =
    ground (arith, erase_all-Keyed deleted (put_all changed m) (put_all-Keyed changed m k))

-- A table that lacks the address is dropped.
pub drop_table-at :
    (a : String) (defs : Dict ServiceInterface) (f : ServicesFile) (h : Host)
    → h.services ≡ f
    → Dict.lookup a defs ≡ none
    → definition_at (update_skupper_services [] (Dict.keys defs) h).1 a ≡ definition_at h a
unfolding update_skupper_services get_service_definitions put_all
drop_table-at a defs absent h e miss = ground arith
drop_table-at a defs garbled h e miss = ground arith
drop_table-at a defs (definitions m) h e miss =
    ground (arith, lookup-erase_all a (Dict.keys defs) m, mem-keys a defs)

pub ensure-IsKeyed :
    (now : ℕ) (origin : String) (update : Dict ServiceInterface) (c : Controller) (h : Host)
    → IsKeyed h.services
    → IsKeyed (ensure_service_interface_definitions now origin update c h).1.services
unfolding ensure_service_interface_definitions
ensure-IsKeyed now origin update c h k = ground (
  arith,
  update_skupper_services-IsKeyed (changed_definitions origin c.by_name update)
      (deleted_names (table_of origin c.by_origin) update) h.services h refl k,
)

pub stored_definitions :
    (a : String) (f : ServicesFile) (d : ServiceInterface)
    → stored_at f a ≡ some d
    → HasDefinitions f
stored_definitions a absent d e = cc
stored_definitions a garbled d e = cc
stored_definitions a (definitions m) d e = (m, refl)

-- A write changes nothing of the host but the file.
update_skupper_services-writable :
    (changed : List ServiceInterface) (deleted : List String) (f : ServicesFile) (h : Host)
    → h.services ≡ f
    → (update_skupper_services changed deleted h).1.writable ≡ h.writable
unfolding update_skupper_services get_service_definitions
update_skupper_services-writable changed deleted absent h e = ground arith
update_skupper_services-writable changed deleted garbled h e = ground arith
update_skupper_services-writable changed deleted (definitions m) h e = ground arith

pub ensure-host :
    (now : ℕ) (origin : String) (update : Dict ServiceInterface) (c : Controller) (h : Host)
    → ((ensure_service_interface_definitions now origin update c h).1.writable ≡ h.writable)
      × ((ensure_service_interface_definitions now origin update c h).0.origin ≡ c.origin)
unfolding ensure_service_interface_definitions
ensure-host now origin update c h = (
  ground (
    arith,
    update_skupper_services-writable (changed_definitions origin c.by_name update)
        (deleted_names (table_of origin c.by_origin) update) h.services h refl,
  ),
  ground arith,
)

-- ===== src/Controller/Runs/Withdrawal.antt =====
-- A definition on its way through another site: announced, noticed there, and withdrawn; with the
-- handlers of cmd/service-controller/service_sync.go on both sides.
use skupper_docker.Base.{◌≡◌, ◌≢◌, refl, sym, subst, ◌∙◌, ℕ, String, true, none, some, [], arith}
use skupper_docker.Base.Dict
use skupper_docker.Base.Dict.{Dict}
use skupper_docker.Types.{ServiceInterface}
use skupper_docker.Host.{Host}
use skupper_docker.Service.Client.Operations.{definition_at}
use skupper_docker.Service.Client.Stored.{HasDefinitions}
use skupper_docker.Controller.{Controller, get_service_definitions}
use skupper_docker.Controller.Sync.{
  is_remote, summary, receive, sync_update, index_by_address, service_sync_definitions_updated,
}
use skupper_docker.Controller.Sync.Updates.{Keyed, definition_at-ensure}
use skupper_docker.Controller.Sync.Local.{
  service_sync_definitions_updated_lem, listed, register_all-listed,
}
use skupper_docker.Controller.Sync.Exchange.{
  from_site, index_by_address-Keyed, lookup-index_by_address, receive-announced,
  receive-sync_update,
}
use skupper_docker.Controller.Bindings.{process_service_defs}
use skupper_docker.Controller.Runs.{IsKeyed}
use skupper_docker.Controller.Runs.Written.{ensure-IsKeyed, ensure-host, stored_definitions}

-- A file in which a definition of another site stands was read: it is not among the site's own, and
-- it is in the table of the other site.
process_remote :
    (b : Controller) (h : Host) (x : String) (d : ServiceInterface)
    → IsKeyed h.services
    → definition_at h x ≡ some d
    → is_remote d.origin ≡ true
    → (Dict.lookup x (process_service_defs b h).local_services ≡ none)
      × (listed d.origin x (process_service_defs b h).by_origin ≡ some (summary d))
      × ((process_service_defs b h).origin ≡ b.origin)
unfolding process_service_defs get_service_definitions service_sync_definitions_updated
process_remote b h x d keyed held remote =
    let (m, e) = stored_definitions x h.services d held in
    let k : Keyed m = subst IsKeyed e keyed in
    let found : Dict.lookup x m ≡ some d = ground arith in
    let (_, latest) = service_sync_definitions_updated_lem m b x k in
    rw e (latest ∙ rw found (rw remote refl), register_all-listed x d m _ k found remote, refl)

-- The file after an announcement that lacks an address of the table of its site.
receive-withdrawn :
    (now : ℕ) (a b : Controller) (h : Host) (x : String) (s : ServiceInterface)
    → Keyed a.local_services
    → a.origin ≢ b.origin
    → Dict.lookup x a.local_services ≡ none
    → listed a.origin x b.by_origin ≡ some s
    → HasDefinitions h.services
    → h.writable ≡ true
    → definition_at (receive now (sync_update a) b h).1 x ≡ none
receive-withdrawn now a b h x s keyed other missing there readable writes =
    let update = index_by_address a.origin (Dict.values a.local_services) [] in
    let keyed' = index_by_address-Keyed a.origin (Dict.values a.local_services) [] tt in
    let gone : Dict.lookup x update ≡ none =
      lookup-index_by_address x a.origin a.local_services [] keyed
      ∙ rw missing (Dict.lookup-nil {V = ServiceInterface} x) in
    rw (receive-announced now a b h other)
      (definition_at-ensure now a.origin update b h keyed' readable writes x ∙ ground arith)

module _ (t1 t2 : ℕ) (a a' b : Controller) (h : Host) (x : String) (s : ServiceInterface) where
  -- A definition of a named site `a`, of an address that site `b` does not know, goes through `b` as
  -- it should: after the announcement it stands in the file of `b` as a definition of `a`; once `b`
  -- noticed its file, the address is not among those that `b` announces itself; and after an
  -- announcement without it, from a later state of the same site, the address is gone from the file.
  -- The sites keep their own definitions under their addresses and have different names, and the
  -- file of `b` can be read and written, with its definitions under their addresses.
  pub announced_then_withdrawn :
      Keyed a.local_services
      → Keyed a'.local_services
      → a'.origin ≡ a.origin
      → a.origin ≢ b.origin
      → is_remote a.origin ≡ true
      → Dict.lookup x a.local_services ≡ some s
      → Dict.lookup x a'.local_services ≡ none
      → Dict.lookup x b.by_name ≡ none
      → HasDefinitions h.services
      → IsKeyed h.services
      → h.writable ≡ true
      → (let (b1, h1) = receive t1 (sync_update a) b h in
          let b2 = process_service_defs b1 h1 in
          (definition_at h1 x ≡ some (from_site a.origin s))
          × (Dict.lookup x b2.local_services ≡ none)
          × (definition_at (receive t2 (sync_update a') b2 h1).1 x ≡ none))
  announced_then_withdrawn keyed keyed' same other remote found missing unknown readable file
        writes =
      let held = receive-sync_update t1 a b h x s keyed other found unknown readable writes in
      let h1 = (receive t1 (sync_update a) b h).1 in
      let b1 = (receive t1 (sync_update a) b h).0 in
      let update = index_by_address a.origin (Dict.values a.local_services) [] in
      let heard = receive-announced t1 a b h other in
      let file1 : IsKeyed h1.services = rw heard (ensure-IsKeyed t1 a.origin update b h file) in
      let writes1 : h1.writable ≡ true =
        rw heard ((ensure-host t1 a.origin update b h).0 ∙ writes) in
      let name1 : b1.origin ≡ b.origin = rw heard (ensure-host t1 a.origin update b h).1 in
      let (unannounced, there, name2) =
        process_remote b1 h1 x (from_site a.origin s) file1 held remote in
      let b2 = process_service_defs b1 h1 in
      let other2 : a'.origin ≢ b2.origin = λ e. other (sym same ∙ e ∙ name2 ∙ name1) in
      let there' : listed a'.origin x b2.by_origin ≡ some (summary (from_site a.origin s)) =
        rw same there in
      (
        held,
        unannounced,
        receive-withdrawn t2 a' b2 h1 x (summary (from_site a.origin s)) keyed' other2 missing
            there' (stored_definitions x h1.services (from_site a.origin s) held) writes1,
      )

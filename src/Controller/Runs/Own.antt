-- ===== src/Controller/Runs/Own.antt =====
-- What a run keeps of the definitions that are a site's own.
use skupper_docker.Base.{
  ◌≡◌, refl, sym, subst, ◌∙◌, ℕ, String, Bool, true, false, Option, none, some, List, [], ◌∷◌,
  arith, if◌then◌else◌,
}
use skupper_docker.Base.Dict
use skupper_docker.Base.Dict.{Dict}
use skupper_docker.Base.Exec.{Result, ok, err}
use skupper_docker.Types.{ServiceInterface}
use skupper_docker.Errors.{Error}
use skupper_docker.Host.{Host, definitions}
use skupper_docker.Service.Client.Operations.{definition_at}
use skupper_docker.Controller.{
  Controller, new_controller, update_skupper_services, get_service_definitions,
}
use skupper_docker.Controller.Sync.{
  Message, Body, services, no_text, no_json, receive_from, receive_body, is_remote, summary,
  receive, age, age_origins, forget, index_by_address, ensure_service_interface_definitions,
  service_sync_definitions_updated,
}
use skupper_docker.Controller.Sync.Updates.{Keyed, ensure_keeps_others}
use skupper_docker.Controller.Sync.Local.{service_sync_definitions_updated_lem}
use skupper_docker.Controller.Sync.Exchange.{index_by_address-Keyed}
use skupper_docker.Controller.Bindings.{process_service_defs}
use skupper_docker.Controller.Runs.{
  Node, Step, message, tick, notice, command, Reach, here, next, IsKeyed, IsNamed, aged_or, started,
  start_watcher,
}
use skupper_docker.Controller.Runs.Unlisted.{
  Unlisted, table_of-Unlisted, Unlisted-erase_all, IsOwn, register_all-Unlisted, ensure-Unlisted,
}
use skupper_docker.Controller.Runs.Written.{
  update_skupper_services-IsKeyed, drop_table-at, ensure-IsKeyed, stored_definitions,
}

-- What a node keeps of its own definition `d` of the address `a`.
pub record Owns (a : String) (d : ServiceInterface) (s : Node) : Type 0 where
  pub known : Dict.lookup a s.controller.by_name ≡ some (summary d)
  pub announced : Dict.lookup a s.controller.local_services ≡ some (summary d)
  pub unlisted : Unlisted a s.controller.by_origin
  pub keyed : IsKeyed s.host.services
  pub held : definition_at s.host a ≡ some d

-- the part of it that stands in the file
abbrev Holds : String → Option ServiceInterface → Host → Type 0
Holds a d h = IsKeyed h.services × (definition_at h a ≡ d)

age_origins-Holds :
    (a : String) (d : Option ServiceInterface) (now : ℕ) (heard : Dict ℕ)
    (tables : Dict (Dict ServiceInterface)) (h : Host)
    → Unlisted a tables
    → Holds a d h
    → Holds a d (age_origins now heard tables h).1
unfolding age_origins
age_origins-Holds a d now heard [] h u k = k
age_origins-Holds a d now heard ((o, defs) ∷ tables) h (miss, u) (keyed, held) =
    let h' = (update_skupper_services [] (Dict.keys defs) h).1 in
    let k' : Holds a d h' = (
      update_skupper_services-IsKeyed [] (Dict.keys defs) h.services h refl keyed,
      drop_table-at a defs h.services h refl miss ∙ held,
    ) in
    ground (
      arith,
      age_origins-Holds a d now heard tables h u (keyed, held),
      age_origins-Holds a d now heard tables h' u k',
      k',
    )

module _ (a : String) (d : ServiceInterface) (own : is_remote d.origin ≡ false) where
  abbrev Owned : Controller × Host → Type 0
  Owned p = Owns a d (record { controller = p.0; host = p.1 })

  ensure-Owns :
      (now : ℕ) (origin : String) (update : Dict ServiceInterface) (c : Controller) (h : Host)
      → is_remote origin ≡ true
      → Keyed update
      → Owns a d (record { controller = c; host = h })
      → Owns a d (record {
        controller = (ensure_service_interface_definitions now origin update c h).0;
        host = (ensure_service_interface_definitions now origin update c h).1;
      })
  ensure-Owns now origin update c h remote keyed o = record {
    known = unfold ensure_service_interface_definitions in ground (arith, o.known);
    announced = unfold ensure_service_interface_definitions in ground (arith, o.announced);
    unlisted = ensure-Unlisted a now origin update c h o.unlisted;
    keyed = ensure-IsKeyed now origin update c h o.keyed;
    held =
        ensure_keeps_others now origin update c h keyed a (summary d) o.known
          (λ e. cc (own, remote)) (table_of-Unlisted a origin c.by_origin o.unlisted)
        ∙ o.held;
  }

  -- A file that holds the definition was read.
  read-Owns :
      (m : Dict ServiceInterface) (c : Controller) (h : Host)
      → h.services ≡ definitions m
      → IsKeyed h.services
      → definition_at h a ≡ some d
      → Unlisted a c.by_origin
      → Owns a d (record { controller = process_service_defs c h; host = h })
  read-Owns m c h e keyed held u =
      let k : Keyed m = subst IsKeyed e keyed in
      let found : Dict.lookup a m ≡ some d = ground (arith, held) in
      let (named, latest) = service_sync_definitions_updated_lem m c a k in
      record {
        known = unfold process_service_defs get_service_definitions in rw e (named ∙ rw found refl);
        announced =
            unfold process_service_defs get_service_definitions in
            rw e (latest ∙ rw found (rw own refl));
        unlisted =
            unfold process_service_defs get_service_definitions service_sync_definitions_updated in
            rw e (
              register_all-Unlisted a m
                (record { by_origin = c.by_origin; latest = []; by_name = [] }) k
                (subst IsOwn (sym found) own) u);
        keyed = keyed;
        held = held;
      }

  process-Owns :
      (s : Node)
      → Owns a d s
      → Owns a d (record s { controller = process_service_defs s.controller s.host })
  process-Owns s o =
      let (m, e) = stored_definitions a s.host.services d o.held in
      read-Owns m s.controller s.host e o.keyed o.held o.unlisted

  if-Owns : (b : Bool) (x y : Controller × Host) → Owned x → Owned y → Owned (if b then x else y)
  if-Owns true x y p q = p
  if-Owns false x y p q = q

  receive_from-Owns :
      (now : ℕ) (origin : Option String) (body : Body) (c : Controller) (h : Host)
      → IsNamed origin
      → Owned (c, h)
      → Owned (receive_from now origin body c h)
  unfolding receive_from receive_body
  receive_from-Owns now none body c h named o = o
  receive_from-Owns now (some origin) no_text c h named o = if-Owns _ _ _ o o
  receive_from-Owns now (some origin) no_json c h named o = if-Owns _ _ _ o o
  receive_from-Owns now (some origin) (services defs) c h named o =
      if-Owns _ _ _
        (ensure-Owns now origin (index_by_address origin defs []) c h named
          (index_by_address-Keyed origin defs [] tt) o)
        o

  receive-Owns :
      (now : ℕ) (msg : Message) (c : Controller) (h : Host)
      → IsNamed msg.origin
      → Owned (c, h)
      → Owned (receive now msg c h)
  unfolding receive
  receive-Owns now msg c h named o =
      if-Owns _ _ _ o (if-Owns _ _ _ (receive_from-Owns now msg.origin msg.body c h named o) o)

  forget-Owns :
      (aged : Result Error (List String)) (h : Host) (s : Node)
      → Owns a d s
      → Holds a (some d) h
      → Owns a d (record { controller = aged_or s.controller (forget aged s.controller); host = h })
  unfolding forget
  forget-Owns (ok aged) h s o (keyed, held) = record {
    known = o.known;
    announced = o.announced;
    unlisted = Unlisted-erase_all a aged s.controller.by_origin o.unlisted;
    keyed = keyed;
    held = held;
  }
  forget-Owns (err e) h s o (keyed, held) = record {
    known = o.known;
    announced = o.announced;
    unlisted = o.unlisted;
    keyed = keyed;
    held = held;
  }

  age-Owns :
      (now : ℕ) (s : Node)
      → Owns a d s
      → Owns a d (record {
        controller = aged_or s.controller (age now s.controller s.host).0;
        host = (age now s.controller s.host).1;
      })
  unfolding age
  age-Owns now s o = forget-Owns _ _ s o (
      age_origins-Holds a (some d) now s.controller.heard_from s.controller.by_origin s.host
        o.unlisted (o.keyed, o.held))

  Step-Owns : {s t : Node} → Step a s t → Owns a d s → Owns a d t
  Step-Owns (message now msg s named) o = receive-Owns now msg s.controller s.host named o
  Step-Owns (tick now s) o = age-Owns now s o
  Step-Owns (notice s) o = process-Owns s o
  Step-Owns (command h s keyed same) o = record {
    known = o.known;
    announced = o.announced;
    unlisted = o.unlisted;
    keyed = keyed;
    held = same ∙ o.held;
  }

  Reach-Owns : {s t : Node} → Reach a s t → Owns a d s → Owns a d t
  Reach-Owns here o = o
  Reach-Owns (next r st) o = Step-Owns st (Reach-Owns r o)

  started-Owns :
      (now : ℕ) (origin : String) (h : Host)
      → IsKeyed h.services
      → definition_at h a ≡ some d
      → Owns a d (started now origin h)
  unfolding start_watcher new_controller
  started-Owns now origin h keyed held =
      let (m, e) = stored_definitions a h.services d held in
      let o = read-Owns m (new_controller origin) h e keyed held tt in
      record {
        known = o.known;
        announced = o.announced;
        unlisted = o.unlisted;
        keyed = o.keyed;
        held = o.held;
      }

  -- A definition of the site's own, in the file when the controller starts, stays in the file as it
  -- is and in the table from which the site announces it, in every run in which the user leaves its
  -- address alone: whatever messages come from named sites, however the origins age, in whatever
  -- order written files are noticed, and whether or not the file can be written. Definitions stand
  -- under their addresses, at the start and after each command of the user.
  pub own_definition_survives :
      (now : ℕ) (origin : String) (h : Host) (t : Node)
      → IsKeyed h.services
      → definition_at h a ≡ some d
      → Reach a (started now origin h) t
      → (definition_at t.host a ≡ some d)
        × (Dict.lookup a t.controller.local_services ≡ some (summary d))
  own_definition_survives now origin h t keyed held run =
      let o = Reach-Owns run (started-Owns now origin h keyed held) in (o.held, o.announced)

-- ===== src/Controller/Sync.antt =====
-- cmd/service-controller/service_sync.go: the exchange of service definitions between sites.
pub mod Local
pub mod Updates
pub mod Ageing
pub mod Exchange
use skupper_docker.Base.{
  ℕ, ◌+◌, String, Bool, true, false, ◌&&◌, ◌||◌, not, Option, none, some, List, [], ◌∷◌, ◌==◌,
  is_empty, leb, if◌then◌else◌,
}
use skupper_docker.Base.Int.{ℤ, ◌==ℤ◌}
use skupper_docker.Base.Dict
use skupper_docker.Base.Dict.{Dict}
use skupper_docker.Base.Exec.{Result, ok, err, Exec, pure, ◌>>=◌, ◌>>◌}
use skupper_docker.Types.{ServiceInterface, Headless}
use skupper_docker.Errors.{Error}
use skupper_docker.Host.{Host}
use skupper_docker.Controller.{Controller, update_skupper_services, erase_all}

-- `pareByOrigin`: the first table that has the service loses it.
unfoldable pub pare_by_origin : String → Dict (Dict ServiceInterface) → Dict (Dict ServiceInterface)
pare_by_origin service [] = []
pare_by_origin service ((o, defs) ∷ tables) =
    if Dict.member service defs
    then (o, Dict.erase service defs) ∷ tables
    else (o, defs) ∷ pare_by_origin service tables

-- The copy of a definition that the controller keeps: no targets, and the fields that the literal
-- leaves out are empty.
abbrev pub summary : ServiceInterface → ServiceInterface
summary original = record {
  address = original.address;
  protocol = original.protocol;
  port = original.port;
  event_channel = false;
  aggregate = "";
  headless = original.headless;
  targets = [];
  origin = original.origin;
  alias = "";
}

-- A definition that another site gave.
abbrev pub is_remote : String → Bool
is_remote origin = not (origin == "") && not (origin == "annotation")

abbrev pub table_of : String → Dict (Dict ServiceInterface) → Dict ServiceInterface
table_of o tables = elim (Dict.lookup o tables) [ none ↦ [] | some defs ↦ defs ]

-- The tables that the loop of `serviceSyncDefinitionsUpdated` fills.
pub record Tables : Type 0 where
  pub by_origin : Dict (Dict ServiceInterface)
  pub latest : Dict ServiceInterface
  pub by_name : Dict ServiceInterface

unfoldable pub register : String → ServiceInterface → Tables → Tables
register name original t =
    let service = summary original in
    if is_remote service.origin
    then (record t {
      by_origin =
          Dict.insert service.origin
            (Dict.insert name service (table_of service.origin t.by_origin)) t.by_origin;
      by_name = Dict.insert service.address service t.by_name;
    })
    else (record {
      by_origin = pare_by_origin service.address t.by_origin;
      latest = Dict.insert service.address service t.latest;
      by_name = Dict.insert service.address service t.by_name;
    })

unfoldable pub register_all : Dict ServiceInterface → Tables → Tables
unfolding register
register_all [] t = t
register_all ((name, original) ∷ definitions) t =
    register_all definitions (register name original t)

-- What it finds added, removed and modified is only logged.
unfoldable pub service_sync_definitions_updated : Dict ServiceInterface → Controller → Controller
unfolding register_all
service_sync_definitions_updated definitions c =
    let t =
      register_all definitions (record { by_origin = c.by_origin; latest = []; by_name = [] }) in
    record c { by_origin = t.by_origin; local_services = t.latest; by_name = t.by_name }

equivalent_headless : Option Headless → Option Headless → Bool
equivalent_headless none none = true
equivalent_headless (some a) (some b) =
    not
      (not (a.name == b.name) || (not (a.size ==ℤ b.size) || not (a.target_port ==ℤ b.target_port)))
equivalent_headless none (some b) = false
equivalent_headless (some a) none = false

same_flag : Bool → Bool → Bool
same_flag true b = b
same_flag false b = not b

unfoldable pub equivalent_service_definition : ServiceInterface → ServiceInterface → Bool
unfolding equivalent_headless same_flag
equivalent_service_definition a b =
    if not (a.protocol == b.protocol)
      || (not (a.port ==ℤ b.port)
          || (not (same_flag a.event_channel b.event_channel) || not (a.aggregate == b.aggregate)))
    then false
    else equivalent_headless a.headless b.headless

-- Whether an update of `origin` is to be written: the address is new, or the definition in place
-- came from the same origin and differs.
unfoldable pub is_changed : String → Dict ServiceInterface → ServiceInterface → Bool
is_changed origin by_name def = elim (Dict.lookup def.address by_name) [
  | none ↦ true
  | some existing ↦ existing.origin == origin && not (equivalent_service_definition def existing)
]

unfoldable pub changed_definitions :
    String → Dict ServiceInterface → Dict ServiceInterface → List ServiceInterface
changed_definitions origin by_name [] = []
changed_definitions origin by_name ((_, def) ∷ defs) =
    let rest = changed_definitions origin by_name defs in
    if is_changed origin by_name def then def ∷ rest else rest

-- The names of the origin's table that its update does not have.
unfoldable pub deleted_names : Dict ServiceInterface → Dict ServiceInterface → List String
deleted_names [] update = []
deleted_names ((name, _) ∷ current) update =
    let rest = deleted_names current update in if Dict.member name update then rest else name ∷ rest

-- `ensureServiceInterfaceDefinitions` at the time `now`; a failure to write is only logged.
unfoldable pub ensure_service_interface_definitions :
    ℕ → String → Dict ServiceInterface → Controller → Host → Controller × Host
ensure_service_interface_definitions now origin update c h =
    let changed = changed_definitions origin c.by_name update in
    let deleted = deleted_names (table_of origin c.by_origin) update in
    let heard = Dict.insert origin now c.heard_from in
    let known =
      if Dict.member origin c.by_origin then c.by_origin else Dict.insert origin [] c.by_origin in
    if is_empty changed && is_empty deleted
    then (record c { heard_from = heard; by_origin = known }, h)
    else (
      record c {
        heard_from = heard;
        by_origin = Dict.insert origin (erase_all deleted (table_of origin known)) known;
      },
      (update_skupper_services changed deleted h).1,
    )

-- What a message of the sync address holds: the type assertions on its parts may fail.
pub data Body : Type 0 where
  no_text : Body
  no_json : Body
  services : List ServiceInterface → Body

pub record Message : Type 0 where
  pub subject : String
  pub origin : Option String
  pub body : Body

-- `def.Origin = origin; indexed[def.Address] = def`
pub index_by_address :
    String → List ServiceInterface → Dict ServiceInterface → Dict ServiceInterface
index_by_address origin [] indexed = indexed
index_by_address origin (def ∷ defs) indexed =
    index_by_address origin defs (Dict.insert def.address (record def { origin = origin }) indexed)

unfoldable pub receive_body : ℕ → String → Body → Controller → Host → Controller × Host
receive_body now origin no_text c h = (c, h)
receive_body now origin no_json c h = (c, h)
receive_body now origin (services defs) c h =
    ensure_service_interface_definitions now origin (index_by_address origin defs []) c h

unfoldable pub receive_from : ℕ → Option String → Body → Controller → Host → Controller × Host
unfolding receive_body
receive_from now none body c h = (c, h)
receive_from now (some origin) body c h =
    if not (origin == c.origin) then receive_body now origin body c h else (c, h)

-- The body of the loop of `runServiceSync`.
unfoldable pub receive : ℕ → Message → Controller → Host → Controller × Host
unfolding receive_from
receive now msg c h =
    if msg.subject == "service-sync-request"
    then (c, h)
    else if msg.subject == "service-sync-update"
    then receive_from now msg.origin msg.body c h
    else (c, h)

-- The message that `syncSender` sends every five seconds.
pub sync_update : Controller → Message
sync_update c = record {
  subject = "service-sync-update";
  origin = some c.origin;
  body = services (Dict.values c.local_services);
}

-- An origin that was heard, and not in the last minute.
unfoldable pub is_aged : ℕ → Dict ℕ → String → Bool
is_aged now heard_from o = elim (Dict.lookup o heard_from) [
  | none ↦ false
  | some last ↦ leb (last + 60) now
]

-- The loop of the ageing branch of `syncSender`: it returns `agedOrigins`, and a failure ends it.
unfoldable pub age_origins :
    ℕ → Dict ℕ → Dict (Dict ServiceInterface) → Exec Error Host (List String)
age_origins now heard_from [] = pure []
age_origins now heard_from ((o, defs) ∷ tables) =
    let rest = age_origins now heard_from tables in
    if is_aged now heard_from o
    then (do update_skupper_services [] (Dict.keys defs); aged ← rest; pure (o ∷ aged))
    else rest

unfoldable pub forget : Result Error (List String) → Controller → Result Error Controller
forget (ok aged) c =
    ok (record c {
      heard_from = erase_all aged c.heard_from;
      by_origin = erase_all aged c.by_origin;
    })
forget (err e) c = err e

-- The ageing branch of `syncSender` at the time `now`. An error ends the goroutine, and with it the
-- sending and the ageing.
unfoldable pub age : ℕ → Controller → Host → Result Error Controller × Host
unfolding forget
age now c h = let (aged, h') = age_origins now c.heard_from c.by_origin h in (forget aged c, h')

-- ===== src/Controller/Runs.antt =====
-- The run of a controller: the start of `runServiceDefsWatcher` in
-- cmd/service-controller/controller.go, and then, in any order, messages of other sites, ageing, the
-- notice of a written file, and the commands of the user.
pub mod Unlisted
pub mod Written
pub mod Own
pub mod Expiry
pub mod Withdrawal
mod Tests
use skupper_docker.Base.{
  ◌≡◌, ℕ, String, Bool, true, not, Option, none, some, [], ◌∷◌, ◌==◌, if◌then◌else◌,
}
use skupper_docker.Base.Dict
use skupper_docker.Base.Dict.{Dict}
use skupper_docker.Base.Exec.{Result, ok, err}
use skupper_docker.Types.{ServiceInterface}
use skupper_docker.Errors.{Error}
use skupper_docker.Host.{Host, ServicesFile, absent, garbled, definitions}
use skupper_docker.Service.Client.Operations.{definition_at}
use skupper_docker.Controller.{Controller, new_controller}
use skupper_docker.Controller.Sync.{Message, is_remote, receive, age}
use skupper_docker.Controller.Sync.Updates.{Keyed}
use skupper_docker.Controller.Bindings.{process_service_defs}

-- a controller and its host
pub record Node : Type 0 where
  pub controller : Controller
  pub host : Host

-- `for origin := range c.byOrigin { if origin != c.origin { c.heardFrom[origin] = now } }`
pub hear_all : ℕ → String → Dict (Dict ServiceInterface) → Dict ℕ → Dict ℕ
hear_all now own [] heard = heard
hear_all now own ((origin, defs) ∷ tables) heard =
    hear_all now own tables (if not (origin == own) then Dict.insert origin now heard else heard)

-- What `runServiceDefsWatcher` does before it waits for events.
pub start_watcher : ℕ → Controller → Host → Controller
unfolding hear_all
start_watcher now c h =
    let c' = process_service_defs c h in
    record c' { heard_from = hear_all now c'.origin c'.by_origin c'.heard_from }

-- a controller that was just started
abbrev pub started : ℕ → String → Host → Node
started now origin h = record { controller = start_watcher now (new_controller origin) h; host = h }

-- after an error of the ageing the tables are as they were
abbrev pub aged_or : Controller → Result Error Controller → Controller
aged_or c (ok c') = c'
aged_or c (err e) = c

-- a message that names its site, if it has an origin at all
abbrev pub IsNamed : Option String → Type 0
IsNamed none = Unit
IsNamed (some origin) = is_remote origin ≡ true

-- a file in which each definition stands under its own address, if it holds definitions
abbrev pub IsKeyed : ServicesFile → Type 0
IsKeyed absent = Unit
IsKeyed garbled = Unit
IsKeyed (definitions m) = Keyed m

-- The steps of a node in which its user does not touch the definition of the address `a`.
pub data Step (a : String) : Node → Node → Type 0 where
  message :
      (now : ℕ) (msg : Message) (s : Node)
      → IsNamed msg.origin
      → Step a s (record {
        controller = (receive now msg s.controller s.host).0;
        host = (receive now msg s.controller s.host).1;
      })
  tick :
      (now : ℕ) (s : Node)
      → Step a s (record {
        controller = aged_or s.controller (age now s.controller s.host).0;
        host = (age now s.controller s.host).1;
      })
  notice :
      (s : Node) → Step a s (record s { controller = process_service_defs s.controller s.host })
  command :
      (h : Host) (s : Node)
      → IsKeyed h.services
      → definition_at h a ≡ definition_at s.host a
      → Step a s (record s { host = h })

pub data Reach (a : String) (s : Node) : Node → Type 0 where
  here : Reach a s s
  next : {t u : Node} → Reach a s t → Step a t u → Reach a s u

-- ===== src/Service/Client/Entries.antt =====
-- The entries of the file that client/serviceinterface_*.go reads and writes.
use skupper_docker.Base.{◌≡◌, refl, String, Bool, some, [], ◌∷◌, arith}
use skupper_docker.Base.Dict
use skupper_docker.Base.Dict.{Dict}
use skupper_docker.Types.{ServiceInterface}
use skupper_docker.Host.{ServicesFile, absent, garbled, definitions}
use skupper_docker.Service.Validate.Laws.{IsValid, IsPort}
use skupper_docker.Service.Client.{put_definition}
use skupper_docker.Service.Client.Operations.{Operation, bind}

-- Each definition stands under its own address and passes the validation.
abbrev pub SoundEntry : String → ServiceInterface → Type 0
SoundEntry k s = (s.address ≡ k) × IsValid s

abbrev pub SoundEntries : Dict ServiceInterface → Type 0
SoundEntries [] = Unit
SoundEntries ((k, s) ∷ m) = SoundEntry k s × SoundEntries m

abbrev pub Sound : ServicesFile → Type 0
Sound absent = Unit
Sound garbled = Unit
Sound (definitions m) = SoundEntries m

-- The port that is given with an operation is a port.
abbrev pub GivesPort : Operation → Type 0
GivesPort (bind s target_type name protocol port) = IsPort port
GivesPort _ = Unit

pub insert-SoundEntries :
    (k : String) (s : ServiceInterface) (m : Dict ServiceInterface)
    → SoundEntry k s
    → SoundEntries m
    → SoundEntries (Dict.insert k s m)
unfolding Dict.insert
insert-SoundEntries k s [] e h = (e, tt)
insert-SoundEntries k s ((j, r) ∷ m) e (f, h) = ground (arith, insert-SoundEntries k s m e h)

pub erase-SoundEntries :
    (k : String) (m : Dict ServiceInterface) → SoundEntries m → SoundEntries (Dict.erase k m)
unfolding Dict.erase
erase-SoundEntries k [] h = tt
erase-SoundEntries k ((j, r) ∷ m) (f, h) = ground (arith, erase-SoundEntries k m h)

pub lookup-SoundEntries :
    (k : String) (m : Dict ServiceInterface) (s : ServiceInterface)
    → SoundEntries m
    → Dict.lookup k m ≡ some s
    → SoundEntry k s
unfolding Dict.lookup
lookup-SoundEntries k [] s h e = cc
lookup-SoundEntries k ((j, r) ∷ m) s (f, h) e = ground (arith, lookup-SoundEntries k m s h)

pub put_definition-SoundEntries :
    (s : ServiceInterface) (b : Bool) (m : Dict ServiceInterface)
    → IsValid s
    → SoundEntries m
    → SoundEntries (put_definition s b m)
unfolding put_definition
put_definition-SoundEntries s b m v h = ground (
  arith,
  insert-SoundEntries s.address (record s { origin = "" }) m
      (
        refl,
        record {
          ports = v.ports;
          port = v.port;
          protocol = v.protocol;
          aggregate = v.aggregate;
          event_channel = v.event_channel;
        },
      )
      h,
)

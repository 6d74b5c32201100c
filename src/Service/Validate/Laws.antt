-- ===== src/Service/Validate/Laws.antt =====
-- What `validateServiceInterface` of client/serviceinterface_update.go accepts.
use skupper_docker.Base.{◌≡◌, refl, ◌↔◌, ◌⊎◌, ◌≤◌, arith, false}
use skupper_docker.Base.{List, [], ◌∷◌, All}
use skupper_docker.Base.Int.{ℤ, pos, negsuc}
use skupper_docker.Base.Exec.{Result, ok, err}
use skupper_docker.Types.{ServiceInterface, ServiceInterfaceTarget}
use skupper_docker.Errors.{Error}
use skupper_docker.Service.Validate.{
  validate_service_interface, validate_targets, validate_options, and_then,
}

-- a number that fits a port, 0 standing for "not given"
abbrev pub IsPort : ℤ → Type 0
IsPort (pos n) = n ≤ 65535
IsPort (negsuc n) = ⊥

abbrev pub HasPort : ServiceInterfaceTarget → Type 0
HasPort t = IsPort t.target_port

-- What the messages of the validation ask for, said without its order of tests.
pub record IsValid (s : ServiceInterface) : Type 0 where
  pub ports : All HasPort s.targets
  pub port : IsPort s.port
  pub protocol :
      (s.protocol ≡ "") ⊎ (s.protocol ≡ "tcp") ⊎ (s.protocol ≡ "http") ⊎ (s.protocol ≡ "http2")
  pub aggregate :
      (s.aggregate ≡ "")
      ⊎ (((s.aggregate ≡ "json") ⊎ (s.aggregate ≡ "multipart"))
          × (s.protocol ≡ "http")
          × (s.event_channel ≡ false))
  pub event_channel : (s.event_channel ≡ false) ⊎ (s.protocol ≡ "http")

validate_targets_iff :
    (ts : List ServiceInterfaceTarget) → (validate_targets ts ≡ ok tt) ↔ All HasPort ts
unfolding validate_targets
validate_targets_iff [] = (λ _. tt, λ _. refl)
validate_targets_iff (t ∷ ts) = ground (arith, validate_targets_iff ts)

validate_options_sound :
    (s : ServiceInterface) → All HasPort s.targets → validate_options s ≡ ok tt → IsValid s
unfolding validate_options
validate_options_sound s ps h = ground arith

validate_options_complete : (s : ServiceInterface) → IsValid s → validate_options s ≡ ok tt
unfolding validate_options
validate_options_complete s v = ground arith

and_then-ok : (r q : Result Error (Unit {0})) → (and_then r q ≡ ok tt) ↔ ((r ≡ ok tt) × (q ≡ ok tt))
and_then-ok (ok tt) q = (λ h. (refl, h), λ h. h.1)
and_then-ok (err e) q = (λ h. cc, λ h. cc)

-- The validation accepts exactly the definitions whose port and target ports lie in 0..65535, whose
-- protocol is empty or one of tcp, http and http2, whose aggregate is empty or one of json and
-- multipart, with http and no event channel, and whose event channel is used with http only.
pub validate_iff : (s : ServiceInterface) → (validate_service_interface s ≡ ok tt) ↔ IsValid s
unfolding validate_service_interface
validate_iff s = (
  (λ h.
      let both = (and_then-ok (validate_targets s.targets) (validate_options s)).0 h in
      validate_options_sound s ((validate_targets_iff s.targets).0 both.0) both.1),
  (λ v.
      (and_then-ok (validate_targets s.targets) (validate_options s)).1
        ((validate_targets_iff s.targets).1 v.ports, validate_options_complete s v)),
)

-- ===== src/Cli/Services/Forms.antt =====
-- The two forms of the arguments of service create, in cmd/skupper-docker/main.go.
use text.Mathlib.TextLemmas.{nil-append, cons-append}
use skupper_docker.Base.{
  ◌≡◌, refl, ap, ◌∙◌, String, ◌<>◌, Bool, true, false, none, some, [], ◌∷◌, arith,
}
use skupper_docker.Base.Text.{contains, strip_prefix, split_at, colon}
use skupper_docker.Host.{Host}
use skupper_docker.Cli.{create_service_args}
use skupper_docker.Cli.Services.{create_service_command, address_and_port, after_colon, named}

strip_prefix-nil : (s : String) → strip_prefix "" s ≡ some s
unfolding strip_prefix
strip_prefix-nil s = refl

colon-append : (t : String) → (":" <> t) ≡ String.◌∷◌ ":" t
colon-append t = cons-append ":" "" t ∙ ap (λ (x : String). String.◌∷◌ ":" x) (nil-append t)

split_at-append :
    (s t : String) → contains s ":" ≡ false → split_at colon (s <> ":" <> t) ≡ (s, some t)
unfolding split_at contains
split_at-append String.[] t h = rw (nil-append, colon-append) refl
split_at-append (String.◌∷◌ c s) t h =
    rw cons-append (ground (arith, split_at-append s t, strip_prefix-nil s))

contains-append : (s t : String) → contains (s <> ":" <> t) ":" ≡ true
unfolding contains
contains-append String.[] t = rw (nil-append, colon-append) refl
contains-append (String.◌∷◌ c s) t = rw cons-append (ground (arith, contains-append s t))

-- Text that has no colon is not split.
split_at-none : (t : String) → contains t ":" ≡ false → split_at colon t ≡ (t, none)
unfolding split_at contains
split_at-none String.[] h = refl
split_at-none (String.◌∷◌ c t) h = ground (arith, split_at-none t, strip_prefix-nil t)

-- `service create name:port` does the same as `service create name port`, whatever the flags and the
-- file of definitions, if neither the name nor the port has a colon.
pub create_service_command_forms :
    (name port mapping aggregate : String) (event_channel : Bool) (h : Host)
    → contains name ":" ≡ false
    → contains port ":" ≡ false
    → create_service_command ((name <> ":" <> port) ∷ []) mapping aggregate event_channel h
      ≡ create_service_command (name ∷ port ∷ []) mapping aggregate event_channel h
unfolding create_service_command create_service_args address_and_port after_colon named
create_service_command_forms name port mapping aggregate event_channel h plain plain' =
    rw
      (contains-append name port, split_at-append name port plain, split_at-none port plain', plain)
      refl

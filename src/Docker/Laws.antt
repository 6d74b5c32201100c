-- ===== src/Docker/Laws.antt =====
-- `SetEnvVar` and `FindEnvVar` of pkg/docker/envvars.go.
use text.Mathlib.TextLemmas.{append_assoc}
use skupper_docker.Base.{
  ◌≡◌, refl, sym, ap, subst, ◌∙◌, ◌++◌, Option, some, All, String, ◌<>◌, Bool, true, false, List,
  [], ◌∷◌, arith, any, if◌then◌else◌,
}
use skupper_docker.Base.Text.{has_prefix, trim_prefix, strip_prefix-append}
use skupper_docker.Base.Exec.{ok}
use skupper_docker.Docker.{find_env_var, set_env_var}
use skupper_docker.Docker.Api.{ContainerJson}
use skupper_docker.Docker.Daemon.{Daemon, Held, IsHealthy, Inspected}

-- Whether a text of the environment begins with the name.
abbrev is_listed : String → List String → Bool
is_listed name env = any (λ v. has_prefix v name) env

has_prefix-append : (name v : String) → has_prefix (name <> v) name ≡ true
has_prefix-append name v = ground (arith, strip_prefix-append name v)

trim_prefix-append :
    (name value : String) → trim_prefix (name <> "=" <> value) (name <> "=") ≡ value
trim_prefix-append name value =
    ap (λ (x : String). trim_prefix x (name <> "=")) (sym (append_assoc name "=" value))
    ∙ ground (arith, strip_prefix-append (name <> "=") value)

pub find_env_var-cons :
    (env : List String) (name value : String)
    → find_env_var ((name <> "=" <> value) ∷ env) name ≡ value
unfolding find_env_var
find_env_var-cons env name value =
    ground (arith, has_prefix-append name ("=" <> value), trim_prefix-append name value)

-- Where some text begins with the name, what was set is found; where none does, setting the
-- variable changes nothing, and nothing is found.
find_env_var-set_env_var :
    (env : List String) (name value : String)
    → find_env_var (set_env_var env name value) name ≡ (if is_listed name env then value else "")
unfolding find_env_var set_env_var
find_env_var-set_env_var [] name value = refl
find_env_var-set_env_var (v ∷ env) name value = ground (
  arith,
  has_prefix-append name ("=" <> value),
  trim_prefix-append name value,
  find_env_var-set_env_var env name value,
)

-- Where no text begins with the name, setting the variable changes nothing: it is not added.
set_env_var-missing :
    (env : List String) (name value : String)
    → is_listed name env ≡ false
    → set_env_var env name value ≡ env
unfolding set_env_var
set_env_var-missing [] name value h = refl
set_env_var-missing (v ∷ env) name value h = ground (arith, set_env_var-missing env name value)

-- Variables of another name, behind the others, change nothing of what is found.
find_env_var-concat :
    (env added : List String) (name : String)
    → All (λ (v : String). has_prefix v name ≡ false) added
    → find_env_var (env ++ added) name ≡ find_env_var env name
unfolding find_env_var
find_env_var-concat [] [] name others = refl
find_env_var-concat [] (v ∷ added) name (other, others) =
    rw other (find_env_var-concat [] added name others)
find_env_var-concat (v ∷ env) added name others =
    ground (arith, find_env_var-concat env added name others)

-- An inspection of a container that is there tells the configuration of its router.
pub inspected_config :
    {D : Type 0} {dd : Daemon D} {find : D → String → Option Held} (healthy : IsHealthy dd find)
    (d : D) (name : String) (c : Held)
    → find d name ≡ some c
    → (j : ContainerJson) × (dd.inspect_container name d ≡ ok j)
      × (find_env_var j.env "QDROUTERD_CONF" ≡ find_env_var c.config.env "QDROUTERD_CONF")
inspected_config {dd} healthy d name c held =
    let (j, e, added, env, others) =
      subst (λ (o : Option Held). Inspected o (dd.inspect_container name d)) held
        (healthy.inspected name d) in
    (j, e, rw env (find_env_var-concat c.config.env added "QDROUTERD_CONF" others))
